-- ===== src/Alert/Dedup/Evict.antt =====
-- Which entry `alert_dedup_admit` overwrites.
use tag_testting.Common.{
  ℕ, zero, suc, ◌+◌, ◌<◌, ◌≡◌, ◌≢◌, inl, inr, ap, ◌∙◌, List, [], ◌∷◌, Bool, true, false, not, ◌||◌,
  none, some, arith, set, get_or, length, length-set, get_or-set_ne, Bool-cases, Option-cases, sym,
  eq_of_some,
}
use mathlib.Core.Path.{subst}
use native.Mathlib.Nat.{zero-add}
use tag_testting.Alert.Message.{Alert}
use tag_testting.Alert.Dedup.{
  Entry, Search, blank, duplicate, aged_out, note, search_from, slot, entry_of, admit,
}
use tag_testting.Alert.Dedup.Suppress.{
  any_duplicate, any_duplicate-at, any_duplicate-index, admit-eq, start,
}

-- A slot that may be overwritten at no loss: unused, or aged out.
abbrev pub reusable : Entry → ℕ → Bool
reusable e now = not e.used || aged_out e now

module _ (all : List Entry) (a : Alert) (now : ℕ) where
  -- The free slot that the loop notes is reusable.
  abbrev FreeOk : Search → Type 0
  FreeOk s = (j : ℕ) → s.free_idx ≡ some j → reusable (get_or all j blank) now ≡ true

  note-FreeOk :
      (e : Entry) (i : ℕ) (s : Search) → e ≡ get_or all i blank → FreeOk s → FreeOk (note e now i s)
  unfolding note
  note-FreeOk e i s at ok j h = ground (arith, ok j)

  -- `es` is the array from index `i` on.
  abbrev From : List Entry → ℕ → Type 0
  From es i = (k : ℕ) → k < length es → get_or es k blank ≡ get_or all (i + k) blank

  From-tail : (e : Entry) (es : List Entry) (i : ℕ) → From (e ∷ es) i → From es (i + 1)
  From-tail e es i f k h =
      f (suc k) (omega arith) ∙ ap (λ (m : ℕ). get_or all m blank) (omega arith)

  search_from-FreeOk :
      (es : List Entry) (i : ℕ) (s : Search) {r : Search}
      → From es i
      → FreeOk s
      → search_from es a now i s ≡ some r
      → FreeOk r
  unfolding search_from
  search_from-FreeOk [] i s f ok h = subst FreeOk (eq_of_some h) ok
  search_from-FreeOk (e ∷ es) i s f ok h = elim (Bool-cases (duplicate e a now)) [
    | inl d ↦ absurd (ground arith)
    | inr d ↦
        search_from-FreeOk es (i + 1) (note e now i s) (From-tail e es i f)
          (note-FreeOk e i s (f 0 (omega arith) ∙ ap (λ (m : ℕ). get_or all m blank) (omega arith))
            ok)
          (rw d at h)
  ]

note-none :
    (e : Entry) (now i : ℕ) (s : Search)
    → (note e now i s).free_idx ≡ none
    → (s.free_idx ≡ none) × (reusable e now ≡ false)
unfolding note
note-none e now i s h = ground arith

search_from-full :
    (es : List Entry) (a : Alert) (now i : ℕ) (s : Search) {r : Search}
    → search_from es a now i s ≡ some r
    → r.free_idx ≡ none
    → (s.free_idx ≡ none) × ((k : ℕ) → k < length es → reusable (get_or es k blank) now ≡ false)
unfolding search_from
search_from-full [] a now i s h n =
    (ap (λ r. r.free_idx) (eq_of_some h) ∙ n, λ k lt. absurd (omega arith))
search_from-full (e ∷ es) a now i s h n = elim (Bool-cases (duplicate e a now)) [
  | inl d ↦ absurd (ground arith)
  | inr d ↦
      let (rest, all) = search_from-full es a now (i + 1) (note e now i s) (rw d at h) n in
      let (none_yet, live) = note-none e now i s rest in
      (none_yet, elim [ zero ↦ λ _. live | suc k ↦ λ lt. all k (omega arith) ])
]

slot-some : (s : Search) (j : ℕ) → s.free_idx ≡ some j → slot s ≡ j
slot-some s j h = ground arith

live : (e : Entry) (b : Alert) (now : ℕ) → duplicate e b now ≡ true → reusable e now ≡ true → ⊥
live e b now d r = ground arith

-- The chosen slot is reusable if any slot is.
pub slot-reusable :
    (es : List Entry) (a : Alert) (now f : ℕ) {s : Search}
    → f < length es
    → reusable (get_or es f blank) now ≡ true
    → search_from es a now 0 start ≡ some s
    → reusable (get_or es (slot s) blank) now ≡ true
slot-reusable es a now f {s} lt free e = elim (Option-cases s.free_idx) [
  | inl n ↦ absurd (ground (arith, (search_from-full es a now 0 start e n).1 f lt))
  | inr (j, found) ↦ rw (slot-some s j found) (
      search_from-FreeOk es a now es 0 start
        (λ k _. ap (λ (m : ℕ). get_or es m blank) (sym (zero-add k))) (λ i h. cc) e j found)
]

-- While a slot is unused or aged out, admitting a message forgets no other live entry: every
-- message that was a duplicate before still is.
pub admit_keeps :
    (es : List Entry) (a b : Alert) (now f : ℕ)
    → f < length es
    → reusable (get_or es f blank) now ≡ true
    → any_duplicate es b now ≡ true
    → any_duplicate (admit es a now).0 b now ≡ true
admit_keeps es a b now f lt free dup = elim (admit-eq es a now) [
  | inl (_, e) ↦ rw e dup
  | inr (s, _, e, eq) ↦
      let (m, m_lt, dup_m) = any_duplicate-index es b now dup in
      let ne : slot s ≢ m = λ q. live (get_or es m blank) b now dup_m (
        subst (λ j. reusable (get_or es j blank) now ≡ true) q
          (slot-reusable es a now f lt free e)) in
      rw eq (
        any_duplicate-at (set es (slot s) (entry_of a now)) b now m
          (rw (length-set es (slot s) (entry_of a now)) m_lt)
          (rw (get_or-set_ne es (entry_of a now) blank ne) dup_m))
]
