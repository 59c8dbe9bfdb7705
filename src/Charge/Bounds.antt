-- ===== src/Charge/Bounds.antt =====
-- The curve of the charge is monotone and stays in percent.
use tag_testting.Common.{
  ℕ, zero, suc, leb, if◌then◌else◌, ◌-◌, ◌*◌, ◌/◌, ◌≤◌, ◌<◌, List, [], ◌∷◌, arith,
}
use native.Mathlib.Nat.{
  div-le_of_le-mul, div-mul-le_self, le-div_iff_mul-le, div-zero, le_trans, mul-le-mul_right,
}
use tag_testting.Charge.{CurvePoint, interpolate, lipo_mv_to_pct, curve_first, curve_rest}

-- The rows ascend from `below`, in both columns, and end at 100 percent.
Ascends : CurvePoint → List CurvePoint → Type 0
Ascends below [] = below.pct ≤ 100
Ascends below (above ∷ rest) = (below.mv < above.mv) × (below.pct ≤ above.pct) × Ascends above rest

curve-Ascends : Ascends curve_first curve_rest
unfolding Ascends
curve-Ascends = ground arith

part_le : (x p v : ℕ) → x < v → x * p / v ≤ p
part_le x p v h = div-le_of_le-mul v (mul-le-mul_right p (omega arith))

part_mono : (x y p v : ℕ) → x ≤ y → x * p / v ≤ y * p / v
part_mono x y p zero h = rw (div-zero (x * p), div-zero (y * p)) (omega arith)
part_mono x y p (suc v) h =
    (le-div_iff_mul-le {k = suc v} {x = x * p / suc v} {y = y * p} (omega arith)).1
      (le_trans (div-mul-le_self (x * p) (suc v)) (mul-le-mul_right p h))

interpolate-low :
    (below : CurvePoint) (rest : List CurvePoint) (mv : ℕ)
    → Ascends below rest
    → (below.pct ≤ interpolate below rest mv) × (interpolate below rest mv ≤ 100)
unfolding interpolate Ascends
interpolate-low below [] mv h = ground arith
interpolate-low below (above ∷ rest) mv (v, p, h) = ground (
  arith,
  interpolate-low above rest mv h,
  interpolate-low above rest above.mv h,
  part_le (mv - below.mv) (above.pct - below.pct) (above.mv - below.mv),
)

interpolate_mono :
    (below : CurvePoint) (rest : List CurvePoint) (a b : ℕ)
    → Ascends below rest
    → below.mv ≤ a
    → a ≤ b
    → interpolate below rest a ≤ interpolate below rest b
unfolding interpolate Ascends
interpolate_mono below [] a b h l ab = ground arith
interpolate_mono below (above ∷ rest) a b (v, p, h) l ab = ground (
  arith,
  interpolate_mono above rest a b h,
  interpolate-low above rest b h,
  part_le (a - below.mv) (above.pct - below.pct) (above.mv - below.mv),
  part_mono (a - below.mv) (b - below.mv) (above.pct - below.pct) (above.mv - below.mv)
      (omega arith),
)

clip : ℕ → ℕ → ℕ
clip mv x = if leb mv 3500 then 0 else if leb 4200 mv then 100 else x

clip_mono :
    (a b x y : ℕ)
    → a ≤ b
    → x ≤ 100
    → y ≤ 100
    → (3500 ≤ a → x ≤ y)
    → (clip a x ≤ clip b y) × (clip b y ≤ 100)
unfolding clip
clip_mono a b x y h hx hy m = ground arith

-- A higher voltage never reads as less charge, and the charge is at most 100 percent.
pub lipo_monotone :
    (a b : ℕ) → a ≤ b → (lipo_mv_to_pct a ≤ lipo_mv_to_pct b) × (lipo_mv_to_pct b ≤ 100)
unfolding lipo_mv_to_pct clip
lipo_monotone a b h =
    clip_mono a b (interpolate curve_first curve_rest a) (interpolate curve_first curve_rest b) h
      (interpolate-low curve_first curve_rest a curve-Ascends).1
      (interpolate-low curve_first curve_rest b curve-Ascends).1
      (λ l. interpolate_mono curve_first curve_rest a b curve-Ascends l h)
