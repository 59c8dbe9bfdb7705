-- ===== src/Cal.antt =====
-- src/cal_math.c and src/cal_run_math.c: the arithmetic of the antenna-delay calibration.
pub mod Steps
pub mod Sort
pub mod Record
pub mod Store
pub mod Run
mod Tests
use tag_testting.Common.{
  ℕ, zero, suc, ◌+◌, ◌-◌, ◌*◌, ◌/◌, ◌%◌, ◌^◌, bit_xor, bit_and, Bool, true, false, ◌&&◌, ◌||◌,
  Option, none, some, List, [], ◌∷◌, map, length, get_or, ltb, leb, ◌==◌, if◌then◌else◌, u16, u32,
  ℤ, pos, negsuc, ◌+ℤ◌, ◌-ℤ◌, ltb_ℤ, leb_ℤ, scale_ℤ, div_ℤ, word32, pos_part, neg_part, sub_ℕ,
}

abbrev pub mm_per_unit_x1000 : ℕ
mm_per_unit_x1000 = 2340

abbrev pub max_step_units : ℕ
max_step_units = 2000

abbrev pub max_total_dly : ℕ
max_total_dly = 65000

abbrev pub max_samples : ℕ
max_samples = 128

-- One of the eight steps of a byte in `cal_crc32`.
unfoldable pub crc_bit : ℕ → ℕ
crc_bit crc = if crc % 2 == 1 then bit_xor (crc / 2) 0xEDB88320 else crc / 2

-- The inner loop of `cal_crc32`.
unfoldable pub crc_byte : ℕ → ℕ → ℕ
crc_byte crc zero = crc
crc_byte crc (suc n) = crc_byte (crc_bit crc) n

-- The outer loop of `cal_crc32`.
unfoldable pub crc_run : ℕ → List ℕ → ℕ
unfolding crc_byte crc_bit
crc_run crc [] = crc
crc_run crc (b ∷ bs) = crc_run (crc_byte (bit_xor crc b) 8) bs

-- `cal_crc32`, a `uint32_t`
unfoldable pub crc32 : List ℕ → ℕ
unfolding crc_run
crc32 data_bytes = u32 (bit_xor (crc_run 0xFFFFFFFF data_bytes) 0xFFFFFFFF)

-- `div_round_pos`, for a numerator whose magnitude and half the divisor stay below `2 ^ 31`.
unfoldable pub div_round_pos : ℤ → ℕ → ℤ
div_round_pos num den =
    if leb_ℤ (pos 0) num
    then div_ℤ (num +ℤ pos (den / 2)) den
    else pos 0 -ℤ div_ℤ ((pos 0 -ℤ num) +ℤ pos (den / 2)) den

-- The end of `cal_solve_step`: the correction is bounded, applied, and the delay clamped.
unfoldable pub corrected : ℕ → ℤ → ℕ
corrected cur_total_dly delta =
    let bounded =
      if ltb_ℤ (pos max_step_units) delta
      then pos max_step_units
      else if ltb_ℤ delta (pos 0 -ℤ pos max_step_units)
      then pos 0 -ℤ pos max_step_units
      else delta in
    let total = pos cur_total_dly +ℤ bounded in
    let raised = if ltb_ℤ total (pos 0) then pos 0 else total in
    let lowered = if ltb_ℤ (pos max_total_dly) raised then pos max_total_dly else raised in
    u16 (pos_part lowered)

-- `cal_solve_step`, for an error whose thousandfold stays below `2 ^ 31` in magnitude.
unfoldable pub solve_step : ℤ → ℤ → ℕ → ℕ
unfolding div_round_pos corrected
solve_step measured_mm ref_mm cur_total_dly =
    corrected cur_total_dly (div_round_pos (scale_ℤ 1000 (measured_mm -ℤ ref_mm)) mm_per_unit_x1000)

-- `cal_split_dly`
unfoldable pub split_dly : ℕ → ℕ × ℕ
split_dly total = (total / 2, total - total / 2)

-- The inner loop of `sort_i32`: the elements above the key move up. The sorted part of the array is
-- the list of its elements from the last one down.
unfoldable pub insert : ℤ → List ℤ → List ℤ
insert key [] = key ∷ []
insert key (x ∷ sorted) =
    let rest = insert key sorted in if ltb_ℤ key x then x ∷ rest else key ∷ x ∷ sorted

-- The outer loop of `sort_i32`, from a sorted part and the elements after it.
unfoldable pub insert_all : List ℤ → List ℤ → List ℤ
insert_all sorted [] = sorted
insert_all sorted (x ∷ xs) = insert_all (insert x sorted) xs

unfoldable pub rev_onto : List ℤ → List ℤ → List ℤ
rev_onto [] ys = ys
rev_onto (x ∷ xs) ys = rev_onto xs (x ∷ ys)

-- `sort_i32`: the array from its first element on.
unfoldable pub sort_i32 : List ℤ → List ℤ
unfolding insert_all rev_onto
sort_i32 xs = rev_onto (insert_all [] xs) []

-- `median_sorted`
unfoldable pub median_sorted : List ℤ → ℤ
median_sorted a = get_or a (length a / 2) (pos 0)

-- `d < 0 ? -d : d`
abbrev pub abs_ℤ : ℤ → ℤ
abs_ℤ d = pos (pos_part d + neg_part d)

-- The last loop of `cal_filtered_mean`: the sum and the number of the samples near the median.
unfoldable pub accumulate : ℤ → ℤ → ℤ → ℕ → List ℤ → ℤ × ℕ
accumulate med limit sum kept [] = (sum, kept)
accumulate med limit sum kept (x ∷ xs) =
    let taken = accumulate med limit (sum +ℤ x) (kept + 1) xs in
    let dropped = accumulate med limit sum kept xs in
    if leb_ℤ (abs_ℤ (x -ℤ med)) limit then taken else dropped

unfoldable pub deviations : ℤ → List ℤ → List ℤ
deviations med [] = []
deviations med (x ∷ xs) = abs_ℤ (x -ℤ med) ∷ deviations med xs

-- The bound on a deviation in `cal_filtered_mean`, six times the median deviation or 6.
unfoldable pub limit_of : List ℤ → ℤ → ℤ
unfolding sort_i32 median_sorted deviations
limit_of samples med =
    let mad = median_sorted (sort_i32 (deviations med (sort_i32 samples))) in
    scale_ℤ 6 (if ltb_ℤ mad (pos 1) then pos 1 else mad)

-- `cal_filtered_mean`, for samples whose deviations stay below `2 ^ 31 / 6`.
unfoldable pub filtered_mean : List ℤ → Option (ℤ × ℕ)
unfolding sort_i32 median_sorted accumulate limit_of
filtered_mean samples =
    if length samples == 0 || ltb max_samples (length samples)
    then none
    else let med = median_sorted (sort_i32 samples) in
      let (sum, kept) = accumulate med (limit_of samples med) (pos 0) 0 samples in
      if kept == 0 then none else some (div_ℤ sum kept, kept)

-- `enum cal_run_verdict`, with the out parameters that the verdict sets.
pub data Verdict : Type 0 where
  no_resp : Verdict
  converged : ℤ → ℕ → Verdict
  continue : ℤ → ℕ → ℕ → Verdict

abbrev pub accept_mm : ℕ
accept_mm = 15

-- `cal_run_iteration_result` with a mean of the samples. The difference is meant within `int32_t`,
-- outside of which C leaves it undefined.
unfoldable pub judge : ℤ → ℕ → ℤ → ℕ → Verdict
unfolding solve_step
judge mean kept ref_mm cur_total =
    let err = mean -ℤ ref_mm in
    if leb_ℤ (abs_ℤ err) (pos accept_mm)
    then converged err kept
    else continue err kept (solve_step mean ref_mm cur_total)

-- `cal_run_iteration_result` on the samples that came in.
unfoldable pub iteration_result : List ℤ → ℕ → ℤ → ℕ → Verdict
unfolding filtered_mean judge
iteration_result samples samples_per_iter ref_mm cur_total =
    if ltb (length samples) (samples_per_iter / 4) then no_resp else elim (filtered_mean samples) [
      | none ↦ no_resp
      | some m ↦ judge (m.0) (m.1) ref_mm cur_total
    ]
