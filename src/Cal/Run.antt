-- ===== src/Cal/Run.antt =====
-- src/cal_run.c: one pass of the calibration, from the ranges that came in to the verdict, and what
-- is kept from one pass to the next. A range itself (`cal_range_poll`, with its floating point and
-- the driver) and the claim of the radio are arguments.
pub mod Passes
pub mod Command
use tag_testting.Common.{
  ℕ, suc, ◌+◌, ◌/◌, ◌%◌, ◌^◌, Bool, true, false, ◌&&◌, not, Option, none, some, List, [], ◌∷◌, ltb,
  leb, if◌then◌else◌, zero, leb_ℤ, u16, u32, ℤ, pos, negsuc, pos_part, neg_part, signed32, sub32,
}
use tag_testting.Storage.{Nvs, Storage, storage_delete}
use tag_testting.Cal.{Verdict, iteration_result, split_dly, max_samples, abs_ℤ}
use tag_testting.Cal.Verdict.{no_resp, converged, continue}
use tag_testting.Cal.Store.{
  CalStore, cal_nvs_id, tx_factory, rx_factory, cal_get_ant_dly, cal_is_valid,
  cal_internal_invalidate, cal_store,
}

abbrev pub samples_per_iter : ℕ
samples_per_iter = 100

abbrev pub max_iters : ℕ
max_iters = 4

abbrev pub iter_budget_ms : ℕ
iter_budget_ms = 5000

-- The lines that `cal last` gives.
pub data LastResult : Type 0 where
  none_yet running again fail_no_resp fail_res fail_nvs fail_busy : LastResult
  ok : ℕ → ℕ → LastResult

-- The sampling loop of `cal_run_execute`, from the samples it has got and the attempts it has left.
-- An attempt is the clock at its start and the range in millimetres, if one came in.
unfoldable pub collect : ℕ → ℕ → ℕ → List (ℕ × Option ℤ) → List ℤ
collect t_end left got [] = []
collect t_end zero got (attempt ∷ attempts) = []
collect t_end (suc left) got ((now_ms, polled) ∷ attempts) =
    let hit = collect t_end left (got + 1) attempts in
    let missed = collect t_end left got attempts in
    if leb_ℤ (signed32 (sub32 t_end now_ms)) (pos 0) then [] else elim polled [
      | none ↦ missed
      | some mm ↦ (if ltb got max_samples then mm ∷ hit else missed)
    ]

module _ (N : Nvs) where
  -- The statics of src/cal.c and src/cal_run.c, and the antenna delays of the radio.
  pub record CalRun : Type 0 where
    pub store : CalStore N
    pub provisional_valid : Bool
    pub provisional_total : ℕ
    pub provisional_pass : ℕ
    pub cal_last : LastResult
    pub radio_dly : ℕ × ℕ

  -- `cal_clear`; true is its 0
  unfoldable pub cal_clear : CalRun → CalRun × Bool
  unfolding cal_internal_invalidate
  cal_clear c =
      let (storage', deleted) = storage_delete N c.store.storage cal_nvs_id in
      let store' = record c.store { storage = storage' } in
      if deleted
      then (
        record c {
          store = cal_internal_invalidate N store';
          provisional_valid = false;
          provisional_pass = 0;
        },
        true,
      )
      else (record c { store = store' }, false)

  -- `cal_set_last_result`
  unfoldable pub cal_set_last_result : CalRun → LastResult → CalRun
  cal_set_last_result c line = record c { cal_last = line }

  -- `cal_run_active_total_seed`
  unfoldable pub cal_run_active_total_seed : CalRun → ℕ
  cal_run_active_total_seed c =
      if c.provisional_valid
      then c.provisional_total
      else if cal_is_valid N c.store
      then u16 ((cal_get_ant_dly N c.store).0 + (cal_get_ant_dly N c.store).1)
      else u16 (tx_factory + rx_factory)

  -- `cal_run_apply_total_dly`
  unfoldable pub cal_run_apply_total_dly : CalRun → ℕ → CalRun
  cal_run_apply_total_dly c total = record c { radio_dly = split_dly total }

  -- The end of `cal_run_execute` after a pass within the accepted error.
  unfoldable pub accept_pass : CalRun → ℕ → ℕ × ℕ → ℕ → ℤ → CalRun
  unfolding cal_set_last_result
  accept_pass c phy (tx, rx) ref_mm err =
      let c' = record (cal_set_last_result c (ok tx rx)) {
        provisional_valid = false;
        provisional_pass = 0;
      } in
      let (store', stored) = cal_store N c'.store phy tx rx ref_mm (u16 (pos_part (abs_ℤ err))) in
      let c'' = record c' { store = store' } in
      if stored then c'' else cal_set_last_result c'' fail_nvs

  -- The end of `cal_run_execute` after a pass that did not converge.
  unfoldable pub correct_pass : CalRun → ℕ → CalRun
  unfolding cal_set_last_result
  correct_pass c new_total =
      if leb max_iters c.provisional_pass
      then record (cal_set_last_result c fail_res) {
        provisional_valid = false;
        provisional_pass = 0;
      }
      else cal_set_last_result
          (record c { provisional_total = new_total; provisional_valid = true }) again

  -- `cal_run_provisional_pass++`
  unfoldable pub count_pass : CalRun → CalRun
  count_pass c = record c { provisional_pass = u32 (c.provisional_pass + 1) }

  -- The branches of `cal_run_execute` on the verdict.
  unfoldable pub act_on : Verdict → CalRun → ℕ → ℕ × ℕ → ℕ → CalRun
  unfolding cal_set_last_result
  act_on no_resp c phy dly ref_mm = cal_set_last_result c fail_no_resp
  act_on (converged err kept) c phy dly ref_mm = accept_pass (count_pass c) phy dly ref_mm err
  act_on (continue err kept new_total) c phy dly ref_mm = correct_pass (count_pass c) new_total

  -- The verdict of a pass that starts at a clock reading.
  unfoldable pub verdict_of : CalRun → ℕ → ℕ → List (ℕ × Option ℤ) → Verdict
  verdict_of c ref_mm start_ms attempts =
      iteration_result (collect (u32 (start_ms + iter_budget_ms)) samples_per_iter 0 attempts)
        samples_per_iter (signed32 ref_mm) (cal_run_active_total_seed c)

  -- `cal_run_execute`, for the PHY option of the image
  unfoldable pub cal_run_execute : CalRun → ℕ → ℕ → ℕ → List (ℕ × Option ℤ) → CalRun
  unfolding cal_run_apply_total_dly act_on
  cal_run_execute c phy ref_mm start_ms attempts =
      let total = cal_run_active_total_seed c in
      act_on (verdict_of c ref_mm start_ms attempts) (cal_run_apply_total_dly c total) phy
        (split_dly total) ref_mm

  -- The delays that `cal_run_release_radio` puts back.
  unfoldable pub cal_run_release_radio : CalRun → CalRun
  cal_run_release_radio c = record c {
    radio_dly =
        if cal_is_valid N c.store then cal_get_ant_dly N c.store else (tx_factory, rx_factory);
  }

  -- `cal_run_run`; the first Boolean is `cal_run_claim_radio`.
  unfoldable pub cal_run_run : CalRun → Bool → ℕ → ℕ → ℕ → List (ℕ × Option ℤ) → CalRun
  unfolding cal_run_execute cal_run_release_radio cal_set_last_result
  cal_run_run c claimed phy ref_mm start_ms attempts =
      if claimed
      then cal_run_release_radio (cal_run_execute c phy ref_mm start_ms attempts)
      else cal_set_last_result c fail_busy
