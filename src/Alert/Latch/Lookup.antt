-- ===== src/Alert/Latch/Lookup.antt =====
-- What the loop of `latch_find_or_alloc` finds.
use tag_testting.Common.{
  ℕ, zero, suc, ◌+◌, ◌≤◌, ◌<◌, ◌≡◌, ◌⊎◌, ◌∙◌, inl, inr, refl, ap, List, [], ◌∷◌, Bool, true, false,
  none, some, arith, length, get_or, Bool-cases, Option-cases,
}
use mathlib.Core.Path.{subst}
use native.Mathlib.Nat.{zero-add}
use tag_testting.Alert.Latch.{
  LatchEntry, Search, Found, at, nowhere, blank, holds, note, find_from, slot, start,
}

pub Found-cases : (x : Found) → ((j : ℕ) × (x ≡ at j)) ⊎ ((s : Search) × (x ≡ nowhere s))
Found-cases (at j) = inl (j, refl)
Found-cases (nowhere s) = inr (s, refl)

index : Found → ℕ
index (at j) = j
index (nowhere s) = 0

noted : Found → Search
noted (at j) = start
noted (nowhere s) = s

abbrev is_at : Found → Bool
is_at (at j) = true
is_at (nowhere s) = false

-- Index `m` is the first one that holds the originator.
abbrev pub First : List LatchEntry → List ℕ → ℕ → Type 0
First es eui m =
    (m < length es)
    × (holds (get_or es m blank) eui ≡ true)
    × ((n : ℕ) → n < m → holds (get_or es n blank) eui ≡ false)

-- The loop stops at the first index that holds the originator.
pub find-First :
    (es : List LatchEntry) (eui : List ℕ) (i m : ℕ) (s : Search)
    → First es eui m
    → find_from es eui i s ≡ at (i + m)
unfolding find_from
find-First [] eui i m s f = absurd (omega (arith, f.0))
find-First (e ∷ es) eui i zero s f = rw f.1 (ap at (omega arith))
find-First (e ∷ es) eui i (suc m) s f =
    rw
      (
        f.2 0 (omega arith),
        find-First es eui (i + 1) m (note e i s)
            (omega (arith, f.0), f.1, λ n lt. f.2 (suc n) (omega arith)),
      )
      (ap at (omega arith))

pub find-at :
    (es : List LatchEntry) (eui : List ℕ) (i j : ℕ) (s : Search)
    → find_from es eui i s ≡ at j
    → (k : ℕ) × (j ≡ i + k) × First es eui k
unfolding find_from index
find-at [] eui i j s h = absurd (ground (arith, ap is_at h))
find-at (e ∷ es) eui i j s h = elim (Bool-cases (holds e eui)) [
  | inl y ↦
      let same : at i ≡ at j = rw y at h in
      (0, omega (arith, ap index same), (omega arith, y, λ n lt. absurd (omega arith)))
  | inr y ↦
      let rest : find_from es eui (i + 1) (note e i s) ≡ at j = rw y at h in
      let (k, is, (within, found, before)) = find-at es eui (i + 1) j (note e i s) rest in
      (
        suc k,
        omega arith,
        (omega arith, found, elim [ zero ↦ λ _. y | suc n ↦ λ lt. before n (omega arith) ]),
      )
]

pub find-nowhere :
    (es : List LatchEntry) (eui : List ℕ) (i : ℕ) (s : Search) {r : Search}
    → find_from es eui i s ≡ nowhere r
    → (n : ℕ) → n < length es
    → holds (get_or es n blank) eui ≡ false
unfolding find_from
find-nowhere [] eui i s h n lt = absurd (omega arith)
find-nowhere (e ∷ es) eui i s h zero lt = elim (Bool-cases (holds e eui)) [
  | inl y ↦ absurd (ground (arith, ap is_at (rw y at h)))
  | inr y ↦ y
]
find-nowhere (e ∷ es) eui i s h (suc n) lt = elim (Bool-cases (holds e eui)) [
  | inl y ↦ absurd (ground (arith, ap is_at (rw y at h)))
  | inr y ↦ find-nowhere es eui (i + 1) (note e i s) (rw y at h) n (omega arith)
]

note-free :
    (e : LatchEntry) (i j : ℕ) (s : Search)
    → (note e i s).free_idx ≡ some j
    → (s.free_idx ≡ some j) ⊎ ((i ≡ j) × (e.used ≡ false))
unfolding note
note-free e i j s h = ground arith

note-full :
    (e : LatchEntry) (i : ℕ) (s : Search)
    → (note e i s).free_idx ≡ none
    → (s.free_idx ≡ none) × (e.used ≡ true)
unfolding note
note-full e i s h = ground arith

-- A free index that the loop notes is that of an unused slot.
find-free :
    (es : List LatchEntry) (eui : List ℕ) (i j : ℕ) (s : Search) {r : Search}
    → find_from es eui i s ≡ nowhere r
    → r.free_idx ≡ some j
    → (s.free_idx ≡ some j)
      ⊎ ((k : ℕ) × (j ≡ i + k) × (k < length es) × ((get_or es k blank).used ≡ false))
unfolding find_from noted
find-free [] eui i j s h f = inl (ap (λ x. (noted x).free_idx) h ∙ f)
find-free (e ∷ es) eui i j s h f = elim (Bool-cases (holds e eui)) [
  | inl y ↦ absurd (ground (arith, ap is_at (rw y at h)))
  | inr y ↦ elim (find-free es eui (i + 1) j (note e i s) (rw y at h) f) [
    | inl now ↦ elim (note-free e i j s now) [
      | inl before ↦ inl before
      | inr (is, free) ↦ inr (0, omega arith, omega arith, free)
    ]
    | inr (k, is, within, free) ↦ inr (suc k, omega arith, omega arith, free)
  ]
]

-- The loop notes no free index only if every slot is used.
find-full :
    (es : List LatchEntry) (eui : List ℕ) (i : ℕ) (s : Search) {r : Search}
    → find_from es eui i s ≡ nowhere r
    → r.free_idx ≡ none
    → (s.free_idx ≡ none) × ((n : ℕ) → n < length es → (get_or es n blank).used ≡ true)
unfolding find_from noted
find-full [] eui i s h f = (ap (λ x. (noted x).free_idx) h ∙ f, λ n lt. absurd (omega arith))
find-full (e ∷ es) eui i s h f = elim (Bool-cases (holds e eui)) [
  | inl y ↦ absurd (ground (arith, ap is_at (rw y at h)))
  | inr y ↦
      let (rest, all) = find-full es eui (i + 1) (note e i s) (rw y at h) f in
      let (before, used) = note-full e i s rest in
      (before, elim [ zero ↦ λ _. used | suc n ↦ λ lt. all n (omega arith) ])
]

slot-some : (s : Search) (j : ℕ) → s.free_idx ≡ some j → slot s ≡ j
slot-some s j h = ground arith

-- If a slot is unused, an originator that is not found gets an unused slot.
pub slot-unused :
    (es : List LatchEntry) (eui : List ℕ) (f : ℕ) {r : Search}
    → find_from es eui 0 start ≡ nowhere r
    → f < length es
    → (get_or es f blank).used ≡ false
    → (slot r < length es) × ((get_or es (slot r) blank).used ≡ false)
slot-unused es eui f {r} h lt free = elim (Option-cases r.free_idx) [
  | inl none_free ↦ absurd (ground (arith, (find-full es eui 0 start h none_free).1 f lt))
  | inr (j, found) ↦ elim (find-free es eui 0 j start h found) [
    | inl never ↦ absurd (ground (arith, never))
    | inr (k, is, within, unused) ↦
        let at_k : slot r ≡ k = slot-some r j found ∙ is ∙ zero-add k in rw at_k (within, unused)
  ]
]

-- Every index that the loop notes is one of the array.
InRange : ℕ → Search → Type 0
InRange n s = (s.oldest_idx < n) × (slot s < n)

note-InRange :
    (e : LatchEntry) (i n : ℕ) (s : Search) → i < n → InRange n s → InRange n (note e i s)
unfolding note InRange
note-InRange e i n s h r = ground arith

find-InRange :
    (es : List LatchEntry) (eui : List ℕ) (i n : ℕ) (s : Search) {r : Search}
    → i + length es ≤ n
    → InRange n s
    → find_from es eui i s ≡ nowhere r
    → InRange n r
unfolding find_from noted
find-InRange [] eui i n s h b e = subst (InRange n) (ap noted e) b
find-InRange (x ∷ es) eui i n s h b e = elim (Bool-cases (holds x eui)) [
  | inl y ↦ absurd (ground (arith, ap is_at (rw y at e)))
  | inr y ↦
      find-InRange es eui (i + 1) n (note x i s) (omega arith)
        (note-InRange x i n s (omega arith) b) (rw y at e)
]

pub slot-lt :
    (es : List LatchEntry) (eui : List ℕ) {r : Search}
    → 0 < length es
    → find_from es eui 0 start ≡ nowhere r
    → slot r < length es
unfolding InRange
slot-lt es eui h e = (find-InRange es eui 0 (length es) start (omega arith) (h, h) e).1
