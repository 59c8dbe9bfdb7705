-- ===== src/Stats/Window.antt =====
-- The window of readings against the list of them.
use tag_testting.Common.{
  ℕ, ◌+◌, ◌*◌, ◌/◌, ◌^◌, ◌≤◌, ◌<◌, ◌≡◌, ◌⊎◌, arith, List, [], ◌∷◌, ℤ, pos, ◌+ℤ◌, ◌≤ℤ◌, length, All,
  div_ℤ, scale_ℤ, sub_ℕ, ◌-ℤ◌,
}
use native.Mathlib.Nat.{div-eq_of_lt-le, zero-div}
use tag_testting.Stats.{BattWindow, reset, add, fold_gap}

unfoldable pub sum : List ℤ → ℤ
sum [] = pos 0
sum (x ∷ xs) = sum xs +ℤ x

nearest_lem :
    (sf n delta : ℕ)
    → n * sf ≤ delta + sf / 2
    → delta + sf / 2 < n * sf + sf
    → div_ℤ (pos delta +ℤ pos (sf / 2)) sf ≡ pos n
unfolding ◌+ℤ◌ div_ℤ
nearest_lem sf n delta l h =
    let q : (delta + sf / 2) / sf ≡ n = div-eq_of_lt-le sf l (grind arith) in
    let z : 0 / sf ≡ 0 = zero-div sf in ground arith

-- A gap within half a superframe of `n` superframes, from a beacon heard any number of superframes
-- ago, folds to its signed distance from them.
pub fold_offset :
    (sf n delta : ℕ)
    → 0 < n
    → n * sf ≤ delta + sf / 2
    → delta + sf / 2 < n * sf + sf
    → fold_gap (pos delta) sf ≡ sub_ℕ delta (sf * n)
unfolding fold_gap ◌-ℤ◌ scale_ℤ
fold_offset sf n delta hn l h = rw (nearest_lem sf n delta l h) (ground arith)

-- `x` is one of the readings.
unfoldable pub Occurs : ℤ → List ℤ → Type 0
Occurs x [] = 1 ≤ 0
Occurs x (y ∷ ys) = (x ≡ y) ⊎ Occurs x ys

-- What a window holds of the readings `xs`.
pub record Summarises (w : BattWindow) (xs : List ℤ) : Type 0 where
  pub counted : w.count ≡ length xs
  pub added : w.sum_ma ≡ sum xs
  pub bounded : All (λ x. (w.min_ma ≤ℤ x) × (x ≤ℤ w.max_ma)) xs
  pub attained : 0 < length xs → Occurs w.min_ma xs × Occurs w.max_ma xs

-- The window after the readings of the list, the newest first.
unfoldable pub fill : List ℤ → BattWindow
fill [] = reset
fill (x ∷ xs) = add (fill xs) x

widen :
    (a b c d : ℤ) (xs : List ℤ)
    → c ≤ℤ a
    → b ≤ℤ d
    → All (λ x. (a ≤ℤ x) × (x ≤ℤ b)) xs
    → All (λ x. (c ≤ℤ x) × (x ≤ℤ d)) xs
widen a b c d [] l h v = v
widen a b c d (x ∷ xs) l h ((u, t), v) = ((omega arith, omega arith), widen a b c d xs l h v)

Range : BattWindow → List ℤ → Type 0
Range w xs =
    All (λ x. (w.min_ma ≤ℤ x) × (x ≤ℤ w.max_ma)) xs
    × (0 < length xs → Occurs w.min_ma xs × Occurs w.max_ma xs)

add-limits :
    (w : BattWindow) (x : ℤ)
    → 0 < w.count
    → ((add w x).min_ma ≤ℤ w.min_ma)
      × ((add w x).min_ma ≤ℤ x)
      × (w.max_ma ≤ℤ (add w x).max_ma)
      × (x ≤ℤ (add w x).max_ma)
unfolding add
add-limits w x h = ground arith

add-first : (w : BattWindow) (x : ℤ) → w.count ≡ 0 → Range (add w x) (x ∷ [])
unfolding add Range Occurs
add-first w x c = ground arith

add-Occurs :
    (w : BattWindow) (x : ℤ) (xs : List ℤ)
    → 0 < w.count
    → Occurs w.min_ma xs × Occurs w.max_ma xs
    → Occurs (add w x).min_ma (x ∷ xs) × Occurs (add w x).max_ma (x ∷ xs)
unfolding add Occurs
add-Occurs w x xs h (a, b) = ground arith

add-Range :
    (w : BattWindow) (x : ℤ) (xs : List ℤ)
    → w.count ≡ length xs
    → Range w xs
    → Range (add w x) (x ∷ xs)
unfolding Range
add-Range w x [] c r = add-first w x c
add-Range w x (y ∷ ys) c (v, o) =
    let (lo, lox, hi, hix) = add-limits w x (omega arith) in
    (
      ((lox, hix), widen w.min_ma w.max_ma (add w x).min_ma (add w x).max_ma (y ∷ ys) lo hi v),
      λ _. add-Occurs w x (y ∷ ys) (omega arith) (o (omega arith)),
    )

add-Summarises :
    (w : BattWindow) (x : ℤ) (xs : List ℤ)
    → length xs + 1 < 2 ^ 32
    → Summarises w xs
    → Summarises (add w x) (x ∷ xs)
unfolding add sum Range
add-Summarises w x xs h v =
    let (b, o) = add-Range w x xs v.counted (v.bounded, v.attained) in
    record {
      counted = ground (arith, v.counted);
      added = ground (arith, v.added);
      bounded = b;
      attained = o;
    }

-- A window of fewer than `2 ^ 32` readings since its reset counts them, adds them up, and its
-- limits are the least and the greatest of them.
pub window_summary : (xs : List ℤ) → length xs < 2 ^ 32 → Summarises (fill xs) xs
unfolding fill sum
window_summary [] h = ground arith
window_summary (x ∷ xs) h =
    add-Summarises (fill xs) x xs (omega arith) (window_summary xs (omega arith))
