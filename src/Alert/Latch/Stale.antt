-- ===== src/Alert/Latch/Stale.antt =====
-- What the gateway's latch of src/alert_relay.c remembers of a cancelled alert.
use tag_testting.Common.{
  ℕ, zero, suc, ◌<◌, ◌≡◌, ◌≢◌, ◌⊎◌, inl, inr, refl, sym, ap, ◌∙◌, List, [], ◌∷◌, true, false, arith,
  bit_and, length, length-set, get_or, get_or-set_self, get_or-set_ne, set, bytes_eq, bytes_eq_self,
  eq_of_bytes_eq,
}
use native.Mathlib.Decide.{ℕ_discrete}
use tag_testting.Alert.Message.{Alert, state_help}
use tag_testting.Alert.Latch.{
  LatchEntry, ignored, blank, fresh, holds, slot, start, find_from, find_or_alloc, allocate,
  apply_entry, apply,
}
use tag_testting.Alert.Latch.Entry.{IsHelp, apply_entry-help, apply_entry-stale, apply_entry-cancel}
use tag_testting.Alert.Latch.Lookup.{
  First, Found-cases, find-First, find-at, find-nowhere, slot-unused, slot-lt,
}
use native.Mathlib.Nat.{zero-add}

apply_entry-owner :
    (e : LatchEntry) (a : Alert) (now : ℕ) (eui : List ℕ)
    → holds (apply_entry e a now).0 eui ≡ holds e eui
unfolding apply_entry
apply_entry-owner e a now eui = ground arith

-- A message of an originator that is found at an index.
apply-First :
    (es : List LatchEntry) (a : Alert) (now m : ℕ)
    → First es a.orig_eui m
    → apply es a now ≡ (
      set es m (apply_entry (get_or es m blank) a now).0,
      (apply_entry (get_or es m blank) a now).1,
    )
unfolding apply find_or_alloc allocate
apply-First es a now m f = rw (find-First es a.orig_eui 0 m start f, zero-add m) refl

-- A message of an originator that is not found.
apply-nowhere :
    (es : List LatchEntry) (a : Alert) (now j : ℕ)
    → find_or_alloc es a.orig_eui now ≡ (set es j (fresh a.orig_eui now), j)
    → j < length es
    → apply es a now ≡ (
      set (set es j (fresh a.orig_eui now)) j (apply_entry (fresh a.orig_eui now) a now).0,
      (apply_entry (fresh a.orig_eui now) a now).1,
    )
unfolding apply
apply-nowhere es a now j e lt = rw (e, get_or-set_self es j (fresh a.orig_eui now) blank lt) refl

-- The first entry of the originator, at index `m`, has the epoch as its cancelled one.
pub record Cancelled (eui : List ℕ) (epoch m : ℕ) (es : List LatchEntry) : Type 0 where
  pub found : First es eui m
  pub known : (get_or es m blank).have_cancelled ≡ true
  pub last : (get_or es m blank).last_cancelled ≡ epoch

set-Cancelled :
    (eui : List ℕ) (epoch m j : ℕ) (es : List LatchEntry) (v : LatchEntry)
    → j < length es
    → j ≢ m
    → holds v eui ≡ false
    → Cancelled eui epoch m es
    → Cancelled eui epoch m (set es j v)
set-Cancelled eui epoch m j es v lt ne other c =
    let same = get_or-set_ne es v blank ne in
    record {
      found = (
        rw (length-set es j v) c.found.0,
        rw same c.found.1,
        λ n n_lt. elim (ℕ_discrete j n) [
          | yes is ↦ rw (← is) (rw (get_or-set_self es j v blank lt) other)
          | no differs ↦ rw (get_or-set_ne es v blank differs) (c.found.2 n n_lt)
        ],
      );
      known = rw same c.known;
      last = rw same c.last;
    }

own-Cancelled :
    (eui : List ℕ) (epoch m : ℕ) (es : List LatchEntry) (v : LatchEntry)
    → First es eui m
    → holds v eui ≡ true
    → v.have_cancelled ≡ true
    → v.last_cancelled ≡ epoch
    → Cancelled eui epoch m (set es m v)
own-Cancelled eui epoch m es v f mine known last =
    let here = get_or-set_self es m v blank f.0 in
    record {
      found = (
        rw (length-set es m v) f.0,
        rw here mine,
        λ n lt.
            rw (get_or-set_ne es v blank (λ (e : m ≡ n). absurd (omega (arith, e, lt)))) (f.2 n lt),
      );
      known = rw here known;
      last = rw here last;
    }

-- What may come between: a HELP of the originator itself, or any message of another one while the
-- latch has an unused slot.
abbrev pub Between : List ℕ → List LatchEntry → Alert → Type 0
Between eui es b =
    ((b.orig_eui ≡ eui) × IsHelp b)
    ⊎ ((bytes_eq b.orig_eui eui ≡ false)
        × (f : ℕ) × (f < length es)
        × ((get_or es f blank).used ≡ false))

owners_differ :
    (e : LatchEntry) (one other : List ℕ)
    → bytes_eq one other ≡ false
    → holds e one ≡ true
    → holds e other ≡ false
owners_differ e one other d h = rw (eq_of_bytes_eq e.eui one (ground arith)) (ground arith)

unused_owner : (e : LatchEntry) (eui : List ℕ) → e.used ≡ false → holds e eui ≡ false
unused_owner e eui h = ground arith

apply-Cancelled :
    (eui : List ℕ) (epoch m : ℕ) (es : List LatchEntry) (b : Alert) (now : ℕ)
    → Between eui es b
    → Cancelled eui epoch m es
    → Cancelled eui epoch m (apply es b now).0
unfolding find_or_alloc allocate
apply-Cancelled eui epoch m es b now (inl (own, help)) c =
    let e = get_or es m blank in
    let kept = apply_entry-help e b now help in
    rw (apply-First es b now m (rw own c.found)) (
      own-Cancelled eui epoch m es (apply_entry e b now).0 c.found
        (apply_entry-owner e b now eui ∙ c.found.1) (kept.0 ∙ c.known) (kept.1 ∙ c.last))
apply-Cancelled eui epoch m es b now (inr (other, f, lt, free)) c =
    elim (Found-cases (find_from es b.orig_eui 0 start)) [
      | inl (j, e) ↦
          let (k, is, first) = find-at es b.orig_eui 0 j start e in
          let theirs = owners_differ (get_or es k blank) b.orig_eui eui other first.1 in
          let ne : k ≢ m =
            λ q. (let mine : holds (get_or es k blank) eui ≡ true = rw q c.found.1 in cc) in
          rw (apply-First es b now k first) (
            set-Cancelled eui epoch m k es (apply_entry (get_or es k blank) b now).0 first.0 ne
              (apply_entry-owner (get_or es k blank) b now eui ∙ theirs) c)
      | inr (s, e) ↦
          let (within, unused) = slot-unused es b.orig_eui f e lt free in
          let ne : slot s ≢ m = λ q.
            (let mine : holds (get_or es (slot s) blank) eui ≡ true = rw q c.found.1 in
              absurd (ground (arith, mine, unused))) in
          let new = fresh b.orig_eui now in
          let theirs =
            owners_differ new b.orig_eui eui other (ground (arith, bytes_eq_self b.orig_eui)) in
          rw (apply-nowhere es b now (slot s) (rw e refl) within) (
            set-Cancelled eui epoch m (slot s) (set es (slot s) new) (apply_entry new b now).0
              (rw (length-set es (slot s) new) within) ne (apply_entry-owner new b now eui ∙ theirs)
              (set-Cancelled eui epoch m (slot s) es new within ne theirs c))
    ]

-- The latch after further messages, each with its time.
unfoldable pub apply_all : List LatchEntry → List (Alert × ℕ) → List LatchEntry
apply_all es [] = es
apply_all es ((b, now) ∷ ms) = apply_all (apply es b now).0 ms

abbrev pub AllBetween : List ℕ → List LatchEntry → List (Alert × ℕ) → Type 0
AllBetween eui es [] = Unit
AllBetween eui es ((b, now) ∷ ms) = Between eui es b × AllBetween eui (apply es b now).0 ms

apply_all-Cancelled :
    (eui : List ℕ) (epoch m : ℕ) (es : List LatchEntry) (ms : List (Alert × ℕ))
    → AllBetween eui es ms
    → Cancelled eui epoch m es
    → Cancelled eui epoch m (apply_all es ms)
unfolding apply_all
apply_all-Cancelled eui epoch m es [] h c = c
apply_all-Cancelled eui epoch m es ((b, now) ∷ ms) h c =
    apply_all-Cancelled eui epoch m (apply es b now).0 ms h.1
      (apply-Cancelled eui epoch m es b now h.0 c)

-- A CANCEL leaves its epoch in the originator's entry.
cancel-Cancelled :
    (es : List LatchEntry) (c : Alert) (now : ℕ)
    → 0 < length es
    → bit_and c.state state_help ≡ 0
    → (m : ℕ) × Cancelled c.orig_eui c.epoch m (apply es c now).0
unfolding find_or_alloc allocate
cancel-Cancelled es c now len stop = elim (Found-cases (find_from es c.orig_eui 0 start)) [
  | inl (j, e) ↦
      let (k, is, first) = find-at es c.orig_eui 0 j start e in
      let kept = apply_entry-cancel (get_or es k blank) c now stop in
      (
        k,
        rw (apply-First es c now k first) (
            own-Cancelled c.orig_eui c.epoch k es (apply_entry (get_or es k blank) c now).0 first
              (apply_entry-owner (get_or es k blank) c now c.orig_eui ∙ first.1) kept.0 kept.1),
      )
  | inr (s, e) ↦
      let within = slot-lt es c.orig_eui len e in
      let new = fresh c.orig_eui now in
      let mine : holds new c.orig_eui ≡ true = ground (arith, bytes_eq_self c.orig_eui) in
      let kept = apply_entry-cancel new c now stop in
      let first : First (set es (slot s) new) c.orig_eui (slot s) = (
        rw (length-set es (slot s) new) within,
        rw (get_or-set_self es (slot s) new blank within) mine,
        λ n lt.
            rw (get_or-set_ne es new blank (λ (q : slot s ≡ n). absurd (omega (arith, q, lt))))
              (find-nowhere es c.orig_eui 0 start e n (omega (arith, within, lt))),
      ) in
      (
        slot s,
        rw (apply-nowhere es c now (slot s) (rw e refl) within) (
            own-Cancelled c.orig_eui c.epoch (slot s) (set es (slot s) new)
              (apply_entry new c now).0 first (apply_entry-owner new c now c.orig_eui ∙ mine) kept.0
              kept.1),
      )
]

set_same : (es : List LatchEntry) (m : ℕ) → set es m (get_or es m blank) ≡ es
set_same [] m = refl
set_same (e ∷ es) zero = refl
set_same (e ∷ es) (suc m) = ap (e ∷◌) (set_same es m)

-- A HELP that was still in flight when its alert was cancelled is ignored and changes nothing in the
-- gateway's latch: after a CANCEL of its epoch, and in between any HELPs of the same originator, and
-- any messages of others as long as each of these finds an unused slot in the latch.
pub stale_help_ignored :
    (es : List LatchEntry) (c h : Alert) (t u : ℕ) (between : List (Alert × ℕ))
    → 0 < length es
    → bit_and c.state state_help ≡ 0
    → bit_and h.state state_help ≢ 0
    → h.epoch ≡ c.epoch
    → h.orig_eui ≡ c.orig_eui
    → AllBetween c.orig_eui (apply es c t).0 between
    → let es' = apply_all (apply es c t).0 between in apply es' h u ≡ (es', ignored)
stale_help_ignored es c h t u between len stop calls same own hs =
    let (m, start_c) = cancel-Cancelled es c t len stop in
    let es' = apply_all (apply es c t).0 between in
    let kept = apply_all-Cancelled c.orig_eui c.epoch m (apply es c t).0 between hs start_c in
    let e = get_or es' m blank in
    let stale = apply_entry-stale e h u calls kept.known (same ∙ sym kept.last) in
    rw (apply-First es' h u m (rw own kept.found), stale, set_same es' m) refl
