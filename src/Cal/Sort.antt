-- ===== src/Cal/Sort.antt =====
-- The insertion sort of the calibration samples.
use tag_testting.Common.{
  ℕ, refl, ◌+◌, ◌≡◌, arith, List, [], ◌∷◌, if◌then◌else◌, ◌&&◌, ℤ, ◌≤ℤ◌, leb_ℤ, ltb_ℤ, Bool-cases,
  inl, inr,
}
use tag_testting.Cal.{insert, insert_all, rev_onto, sort_i32}

-- `key` is at least every element of the list.
abbrev pub Above : ℤ → List ℤ → Type 0
Above key [] = Unit
Above key (x ∷ xs) = (x ≤ℤ key) × Above key xs

-- The elements do not increase.
abbrev pub Descends : List ℤ → Type 0
Descends [] = Unit
Descends (x ∷ xs) = Above x xs × Descends xs

abbrev pub Below : ℤ → List ℤ → Type 0
Below key [] = Unit
Below key (x ∷ xs) = (key ≤ℤ x) × Below key xs

-- The elements do not decrease.
abbrev pub Ascends : List ℤ → Type 0
Ascends [] = Unit
Ascends (x ∷ xs) = Below x xs × Ascends xs

-- How often `v` is in the list.
abbrev pub occurrences : ℤ → List ℤ → ℕ
occurrences v [] = 0
occurrences v (x ∷ xs) = (if leb_ℤ v x && leb_ℤ x v then 1 else 0) + occurrences v xs

Above-weaken : (a b : ℤ) (xs : List ℤ) → a ≤ℤ b → Above a xs → Above b xs
Above-weaken a b [] h v = v
Above-weaken a b (x ∷ xs) h (u, v) = (omega arith, Above-weaken a b xs h v)

insert-Above : (key b : ℤ) (xs : List ℤ) → key ≤ℤ b → Above b xs → Above b (insert key xs)
unfolding insert
insert-Above key b [] h v = (h, v)
insert-Above key b (x ∷ xs) h (u, v) = ground (arith, insert-Above key b xs h v)

insert-Descends : (key : ℤ) (xs : List ℤ) → Descends xs → Descends (insert key xs)
unfolding insert
insert-Descends key [] v = ground arith
insert-Descends key (x ∷ xs) (u, v) =
    ground (arith, insert-Descends key xs v, insert-Above key x xs, Above-weaken x key xs)

insert_all-Descends : (s xs : List ℤ) → Descends s → Descends (insert_all s xs)
unfolding insert_all
insert_all-Descends s [] v = v
insert_all-Descends s (x ∷ xs) v = insert_all-Descends (insert x s) xs (insert-Descends x s v)

insert-occurrences :
    (v key : ℤ) (xs : List ℤ) → occurrences v (insert key xs) ≡ occurrences v (key ∷ xs)
unfolding insert
insert-occurrences v key [] = refl
insert-occurrences v key (x ∷ xs) = elim (Bool-cases (ltb_ℤ key x)) [
  | inl h ↦ rw h (omega (arith, insert-occurrences v key xs))
  | inr h ↦ rw h refl
]

insert_all-occurrences :
    (v : ℤ) (s xs : List ℤ) → occurrences v (insert_all s xs) ≡ occurrences v s + occurrences v xs
unfolding insert_all
insert_all-occurrences v s [] = omega arith
insert_all-occurrences v s (x ∷ xs) =
    omega (arith, insert_all-occurrences v (insert x s) xs, insert-occurrences v x s)

rev_onto-occurrences :
    (v : ℤ) (xs ys : List ℤ) → occurrences v (rev_onto xs ys) ≡ occurrences v xs + occurrences v ys
unfolding rev_onto
rev_onto-occurrences v [] ys = omega arith
rev_onto-occurrences v (x ∷ xs) ys = omega (arith, rev_onto-occurrences v xs (x ∷ ys))

-- Every element of the second list is at least every element of the first.
abbrev pub Apart : List ℤ → List ℤ → Type 0
Apart [] ys = Unit
Apart (x ∷ xs) ys = Below x ys × Apart xs ys

Apart-cons : (x : ℤ) (xs ys : List ℤ) → Above x xs → Apart xs ys → Apart xs (x ∷ ys)
Apart-cons x [] ys h v = v
Apart-cons x (y ∷ xs) ys (h, t) (v, w) = ((h, v), Apart-cons x xs ys t w)

rev_onto-Ascends :
    (xs ys : List ℤ) → Descends xs → Ascends ys → Apart xs ys → Ascends (rev_onto xs ys)
unfolding rev_onto
rev_onto-Ascends [] ys d a p = a
rev_onto-Ascends (x ∷ xs) ys (u, d) a (l, p) =
    rev_onto-Ascends xs (x ∷ ys) d (l, a) (Apart-cons x xs ys u p)

Apart-nil : (xs : List ℤ) → Apart xs []
Apart-nil [] = tt
Apart-nil (x ∷ xs) = (tt, Apart-nil xs)

-- The sort gives ascending samples, each as often as it was there.
pub sort_lem :
    (xs : List ℤ)
    → Ascends (sort_i32 xs) × ((v : ℤ) → occurrences v (sort_i32 xs) ≡ occurrences v xs)
unfolding sort_i32
sort_lem xs = (
  rev_onto-Ascends (insert_all [] xs) [] (insert_all-Descends [] xs tt) tt
      (Apart-nil (insert_all [] xs)),
  λ v. omega (arith, rev_onto-occurrences v (insert_all [] xs) [], insert_all-occurrences v [] xs),
)
