-- ===== src/Alert/Dedup/Remember.antt =====
-- How long `alert_dedup_admit` remembers a message while others come in.
use tag_testting.Common.{
  ℕ, ◌+◌, ◌^◌, ◌<◌, ◌≡◌, ◌≢◌, inl, inr, refl, ◌∙◌, List, [], ◌∷◌, true, false, arith, u32, sub32,
  length, length-set, get_or, get_or-set_self, get_or-set_ne,
}
use mathlib.Core.Path.{subst}
use tag_testting.Alert.Message.{Alert}
use tag_testting.Alert.Dedup.{Entry, blank, slot, entry_of, admit, dedup_age_ms}
use tag_testting.Alert.Dedup.Suppress.{
  any_duplicate-at, admit-eq, admit_iff, slot-lt, duplicate-entry_of,
}
use tag_testting.Alert.Dedup.Evict.{reusable, slot-reusable}

-- The array after further messages, each with its time after `t`.
unfoldable pub admit_all : ℕ → List Entry → List (Alert × ℕ) → List Entry
admit_all t es [] = es
admit_all t es ((b, d) ∷ ms) = admit_all t (admit es b (u32 (t + d))).0 ms

-- Each message comes within `dedup_age_ms` of `t`, in any order, and finds a slot that is unused or
-- aged out.
abbrev pub Room : ℕ → List Entry → List (Alert × ℕ) → Type 0
Room t es [] = Unit
Room t es ((b, d) ∷ ms) =
    (d < dedup_age_ms)
    × ((f : ℕ) × (f < length es) × (reusable (get_or es f blank) (u32 (t + d)) ≡ true))
    × Room t (admit es b (u32 (t + d))).0 ms

-- Index `m` of the array holds the message that was let through at `t`.
Holds : ℕ → Alert → ℕ → List Entry → Type 0
Holds t a m es = (m < length es) × (get_or es m blank ≡ entry_of a t)

live_entry :
    (a : Alert) (t d : ℕ)
    → t < 2 ^ 32
    → d < dedup_age_ms
    → reusable (entry_of a t) (u32 (t + d)) ≡ false
unfolding sub32
live_entry a t d ht hd = ground arith

keeps_live :
    (es : List Entry) (b : Alert) (now f m : ℕ)
    → f < length es
    → reusable (get_or es f blank) now ≡ true
    → reusable (get_or es m blank) now ≡ false
    → (length (admit es b now).0 ≡ length es)
      × (get_or (admit es b now).0 m blank ≡ get_or es m blank)
keeps_live es b now f m lt free alive = elim (admit-eq es b now) [
  | inl (_, e) ↦ rw e (refl, refl)
  | inr (s, _, e, eq) ↦
      let ne : slot s ≢ m = λ q.
        (let chosen =
            subst (λ j. reusable (get_or es j blank) now ≡ true) q
              (slot-reusable es b now f lt free e) in
          cc) in
      rw eq (length-set es (slot s) (entry_of b now), get_or-set_ne es (entry_of b now) blank ne)
]

admit_all-Holds :
    (t : ℕ) (a : Alert) (m : ℕ) (es : List Entry) (ms : List (Alert × ℕ))
    → t < 2 ^ 32
    → Holds t a m es
    → Room t es ms
    → Holds t a m (admit_all t es ms)
unfolding admit_all Holds
admit_all-Holds t a m es [] ht h r = h
admit_all-Holds t a m es ((b, d) ∷ ms) ht h r =
    let (f, lt, free) = r.1 in
    let kept = keeps_live es b (u32 (t + d)) f m lt free (rw h.1 (live_entry a t d ht r.0)) in
    admit_all-Holds t a m (admit es b (u32 (t + d))).0 ms ht (rw kept.0 h.0, kept.1 ∙ h.1) r.2

-- A message that was let through at `t` is dropped whenever it comes again in the next
-- `dedup_age_ms`, also where the clock wraps, and whatever other messages came in between, as long as
-- each of them found a slot that was unused or aged out.
pub admit_suppresses :
    (es : List Entry) (a : Alert) (t d : ℕ) (ms : List (Alert × ℕ))
    → 0 < length es
    → t < 2 ^ 32
    → d < dedup_age_ms
    → (admit es a t).1 ≡ true
    → Room t (admit es a t).0 ms
    → (admit (admit_all t (admit es a t).0 ms) a (u32 (t + d))).1 ≡ false
unfolding Holds
admit_suppresses es a t d ms len ht hd h room = elim (admit-eq es a t) [
  | inl (_, e) ↦ cc
  | inr (s, _, e, eq) ↦
      let held : Holds t a (slot s) (admit es a t).0 = rw eq (
        rw (length-set es (slot s) (entry_of a t)) (slot-lt es a t len e),
        get_or-set_self es (slot s) (entry_of a t) blank (slot-lt es a t len e),
      ) in
      let after = admit_all t (admit es a t).0 ms in
      let (within, is) = admit_all-Holds t a (slot s) (admit es a t).0 ms ht held room in
      (admit_iff after a (u32 (t + d))).0.1 (
        any_duplicate-at after a (u32 (t + d)) (slot s) within
          (rw is (duplicate-entry_of a t d ht hd)))
]
