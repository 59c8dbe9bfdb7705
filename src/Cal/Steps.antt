-- ===== src/Cal/Steps.antt =====
-- The correction of one calibration step, and the split of the delay.
use tag_testting.Common.{
  ℕ, suc, ◌+◌, ◌/◌, ◌≤◌, ◌<◌, ◌≡◌, arith, ℤ, pos, negsuc, ◌+ℤ◌, ◌-ℤ◌, ◌≤ℤ◌, scale_ℤ, div_ℤ,
}
use native.Mathlib.Nat.{zero-div, div-eq_of_lt}
use tag_testting.Cal.{
  mm_per_unit_x1000, div_round_pos, corrected, solve_step, split_dly, max_total_dly, max_step_units,
}

corrected-clauses :
    (cur : ℕ) (delta : ℤ)
    → cur ≤ max_total_dly
    → (corrected cur delta ≤ max_total_dly)
      × (corrected cur delta ≤ cur + max_step_units)
      × (cur ≤ corrected cur delta + max_step_units)
      × (pos 0 ≤ℤ delta → cur ≤ corrected cur delta)
      × (delta ≤ℤ pos 0 → corrected cur delta ≤ cur)
unfolding corrected ◌+ℤ◌ ◌-ℤ◌
corrected-clauses cur (pos n) h = ground arith
corrected-clauses cur (negsuc n) h = ground arith

half_zero : (d : ℕ) → 0 < d → d / 2 / d ≡ 0
half_zero d h = div-eq_of_lt (omega arith)

add-pos : (a b : ℕ) → pos a +ℤ pos b ≡ pos (a + b)
unfolding ◌+ℤ◌
add-pos a b = ground arith

sub-pos_zero : (a : ℕ) → pos a -ℤ pos 0 ≡ pos a
unfolding ◌-ℤ◌
sub-pos_zero a = ground arith

neg-negsuc : (n : ℕ) → pos 0 -ℤ negsuc n ≡ pos (suc n)
unfolding ◌-ℤ◌
neg-negsuc n = ground arith

neg-pos : (n : ℕ) → (pos 0 -ℤ pos n) ≤ℤ pos 0
unfolding ◌-ℤ◌
neg-pos n = ground arith

div-pos : (n d : ℕ) → div_ℤ (pos n) d ≡ pos (n / d)
unfolding div_ℤ
div-pos n d = ground (arith, zero-div d)

round-pos : (n d : ℕ) → div_round_pos (pos n) d ≡ pos ((n + d / 2) / d)
unfolding div_round_pos
round-pos n d =
    let whole : div_round_pos (pos n) d ≡ div_ℤ (pos n +ℤ pos (d / 2)) d = ground arith in
    rw (whole, add-pos n (d / 2)) (div-pos (n + d / 2) d)

round-negsuc : (n d : ℕ) → div_round_pos (negsuc n) d ≤ℤ pos 0
unfolding div_round_pos
round-negsuc n d =
    let whole : div_round_pos (negsuc n) d ≡ pos 0 -ℤ div_ℤ ((pos 0 -ℤ negsuc n) +ℤ pos (d / 2)) d =
      ground arith in
    rw (whole, neg-negsuc n, add-pos (suc n) (d / 2), div-pos (suc n + d / 2) d)
      (neg-pos ((suc n + d / 2) / d))

round_sign :
    (a : ℤ) (d : ℕ)
    → 0 < d
    → (pos 0 ≤ℤ a → pos 0 ≤ℤ div_round_pos a d) × (a ≤ℤ pos 0 → div_round_pos a d ≤ℤ pos 0)
round_sign (pos n) d h = rw (round-pos n d) (ground (arith, half_zero d h))
round_sign (negsuc n) d h = (λ l. absurd (omega arith), λ _. round-negsuc n d)

error_sign :
    (a b : ℤ)
    → (b ≤ℤ a → pos 0 ≤ℤ scale_ℤ 1000 (a -ℤ b)) × (a ≤ℤ b → scale_ℤ 1000 (a -ℤ b) ≤ℤ pos 0)
unfolding scale_ℤ ◌-ℤ◌
error_sign a b = ground arith

-- From a delay under the cap, a step keeps it there, moves it by no more than the largest step,
-- moves it down only where the reading is too near, and up only where it is too far.
pub solve_step_bounds :
    (measured ref : ℤ) (cur : ℕ)
    → cur ≤ max_total_dly
    → (solve_step measured ref cur ≤ max_total_dly)
      × (solve_step measured ref cur ≤ cur + max_step_units)
      × (cur ≤ solve_step measured ref cur + max_step_units)
      × (ref ≤ℤ measured → cur ≤ solve_step measured ref cur)
      × (measured ≤ℤ ref → solve_step measured ref cur ≤ cur)
unfolding solve_step
solve_step_bounds measured ref cur h =
    let err = scale_ℤ 1000 (measured -ℤ ref) in
    let (cap, up, down, rise, fall) =
      corrected-clauses cur (div_round_pos err mm_per_unit_x1000) h in
    (
      cap,
      up,
      down,
      λ l.
          rise ((round_sign err mm_per_unit_x1000 (omega arith)).0 ((error_sign measured ref).0 l)),
      λ l.
          fall ((round_sign err mm_per_unit_x1000 (omega arith)).1 ((error_sign measured ref).1 l)),
    )

-- The two parts of a delay add up to it, and differ by at most one, the receiver's being the
-- larger.
pub split_whole :
    (total : ℕ)
    → ((split_dly total).0 + (split_dly total).1 ≡ total)
      × ((split_dly total).0 ≤ (split_dly total).1)
      × ((split_dly total).1 ≤ (split_dly total).0 + 1)
unfolding split_dly
split_whole total = ground arith
