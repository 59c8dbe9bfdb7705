-- ===== src/Cal/Tests.antt =====
-- The calibration of src/cal_math.c on the values of its self-test.
use tag_testting.Common.{
  ℕ, ◌≡◌, ◌⊎◌, refl, List, [], ◌∷◌, arith, ℤ, pos, negsuc, true, false, Option, none, some,
  replicate, sub32, ◌+ℤ◌, ◌-ℤ◌, scale_ℤ, div_ℤ,
}
use tag_testting.Storage.{Storage, storage_write}
use tag_testting.Storage.Memory.{memory, memory-IsLawful}
use tag_testting.Cal.Record.{zeroed}
use tag_testting.Cal.Store.{
  CalStore, cal_init, cal_store, cal_is_valid, cal_get_ant_dly, tx_factory, rx_factory,
}
use tag_testting.Cal.Store.Reload.{init-store}
use tag_testting.Cal.Run.{
  CalRun, LastResult, collect, verdict_of, cal_run_active_total_seed, cal_run_run,
}
use tag_testting.Cal.Run.Passes.{
  Pass, is_correction, accepts, corrects, run_passes, only_accepted_stores, attempt_ends,
}
use tag_testting.Cal.Run.Command.{Console}
use tag_testting.Cal.{
  crc_bit, crc_byte, crc_run, crc32, solve_step, sort_i32, iteration_result, filtered_mean,
  insert_all, insert, rev_onto, median_sorted, accumulate, deviations, limit_of, judge,
  div_round_pos, corrected,
}
use tag_testting.Cal.Sort.{Ascends, occurrences, sort_lem}

-- The known answer of the CRC: the bytes of "123456789".
crc32_known : crc32 (49 ∷ 50 ∷ 51 ∷ 52 ∷ 53 ∷ 54 ∷ 55 ∷ 56 ∷ 57 ∷ []) ≡ 0xCBF43926
unfolding crc32 crc_run crc_byte crc_bit
crc32_known = refl

sort_lem_example :
    Ascends (sort_i32 (pos 5 ∷ negsuc 1 ∷ pos 3 ∷ []))
    × ((v : ℤ)
        → occurrences v (sort_i32 (pos 5 ∷ negsuc 1 ∷ pos 3 ∷ []))
          ≡ occurrences v (pos 5 ∷ negsuc 1 ∷ pos 3 ∷ []))
sort_lem_example = sort_lem (pos 5 ∷ negsuc 1 ∷ pos 3 ∷ [])

abbrev erased : Storage memory
erased = record { fs = λ id. none; fs_ready = true }

abbrev uncalibrated : CalStore memory
uncalibrated = record { active = zeroed; active_valid = false; storage = erased }

stored_example : (cal_store memory uncalibrated 3 16400 16390 2000 4).1 ≡ true
unfolding cal_store storage_write
stored_example = refl

init-store_example :
    let (c', b) =
      cal_init memory (cal_store memory uncalibrated 3 16400 16390 2000 4).0.storage 5 in
    (b ≡ false)
    × (cal_is_valid memory c' ≡ false)
    × (cal_get_ant_dly memory c' ≡ (tx_factory, rx_factory))
init-store_example =
    init-store memory uncalibrated 3 16400 16390 2000 4 memory-IsLawful refl (omega arith)
      (omega arith) (omega arith) (omega arith) (omega arith) stored_example 5

-- A console on which three passes of an attempt have been corrected.
abbrev third : CalRun memory
third = record {
  store = uncalibrated;
  provisional_valid = true;
  provisional_total = 32700;
  provisional_pass = 3;
  cal_last = LastResult.again;
  radio_dly = (16350, 16350);
}

-- Ranges half a metre too long.
abbrev too_long : List (ℕ × Option ℤ)
too_long = replicate 25 (1000, some (pos 2500))

only_accepted_stores_example :
    ((cal_run_run memory third true 3 2000 900 too_long).store ≡ uncalibrated)
    ⊎ ((true ≡ true) × (accepts memory (verdict_of memory third 2000 900 too_long) ≡ true))
only_accepted_stores_example = only_accepted_stores memory third 3 2000 900 too_long true

abbrev pass : Pass memory
pass = record { ref_mm = 2000; start_ms = 900; attempts = too_long }

collected_example : collect 5900 100 0 too_long ≡ replicate 25 (pos 2500)
unfolding collect sub32
collected_example = refl

judged_example :
    is_correction (iteration_result (replicate 25 (pos 2500)) 100 (pos 2000) 32700) ≡ true
unfolding iteration_result filtered_mean sort_i32 insert_all insert rev_onto median_sorted
    accumulate deviations limit_of judge solve_step div_round_pos corrected ◌+ℤ◌ ◌-ℤ◌ scale_ℤ div_ℤ
    is_correction
judged_example = refl

corrects_example : corrects memory 3 third (pass ∷ []) ≡ true
unfolding corrects verdict_of cal_run_active_total_seed
corrects_example = rw (collected_example, judged_example) refl

attempt_ends_example :
    let c' = run_passes memory 3 third (pass ∷ []) in
    (c'.cal_last ≡ LastResult.fail_res)
    × (c'.provisional_pass ≡ 0)
    × (c'.provisional_valid ≡ false)
    × (c'.store ≡ uncalibrated)
attempt_ends_example = attempt_ends memory 3 third pass [] refl corrects_example

abbrev console : Console memory
console = record { run = third; run_busy = false; queue = none }
