-- ===== src/Cal/Run/Passes.antt =====
-- What the passes of a calibration keep: the active calibration changes on a converged pass only, and
-- at most four passes make an attempt.
use tag_testting.Common.{
  ℕ, ◌+◌, ◌<◌, ◌≡◌, refl, Bool, true, false, Option, List, ◌⊎◌, inl, inr, ℤ, pos, leb_ℤ,
  if◌then◌else◌, signed32, arith, u32, ltb, Bool-cases, [], ◌∷◌, length, ◌&&◌,
}
use tag_testting.Storage.{Nvs}
use tag_testting.Cal.{Verdict, accept_mm, abs_ℤ, split_dly, judge, iteration_result}
use tag_testting.Cal.Verdict.{no_resp, converged, continue}
use tag_testting.Cal.Store.{cal_is_valid, cal_get_ant_dly}
use tag_testting.Cal.Run.{
  CalRun, max_iters, collect, iter_budget_ms, samples_per_iter, cal_run_active_total_seed,
  cal_run_apply_total_dly, accept_pass, correct_pass, count_pass, act_on, verdict_of,
  cal_run_execute, cal_run_release_radio, cal_run_run, cal_set_last_result,
}
use tag_testting.Cal.Run.LastResult.{fail_res}

-- The pass converged.
pub is_converged : Verdict → Bool
is_converged no_resp = false
is_converged (converged err kept) = true
is_converged (continue err kept new_total) = false

-- The pass had responses and did not converge.
unfoldable pub is_correction : Verdict → Bool
is_correction no_resp = false
is_correction (converged err kept) = false
is_correction (continue err kept new_total) = true

module _ (N : Nvs) where
  keep-act_on :
      (v : Verdict) (c : CalRun N) (phy : ℕ) (dly : ℕ × ℕ) (ref_mm : ℕ)
      → is_converged v ≡ false
      → (act_on N v c phy dly ref_mm).store ≡ c.store
  unfolding act_on correct_pass count_pass cal_set_last_result is_converged
  keep-act_on v c phy dly ref_mm h = ground arith

  -- One pass more, and after the fourth none.
  correct-act_on :
      (v : Verdict) (c : CalRun N) (phy : ℕ) (dly : ℕ × ℕ) (ref_mm : ℕ)
      → c.provisional_pass < max_iters
      → is_correction v ≡ true
      → let c' = act_on N v c phy dly ref_mm in
        (c'.store ≡ c.store)
        × (if ltb (c.provisional_pass + 1) max_iters
            then c'.provisional_pass ≡ c.provisional_pass + 1
            else (c'.provisional_pass ≡ 0)
              × (c'.provisional_valid ≡ false)
              × (c'.cal_last ≡ fail_res))
  unfolding act_on correct_pass accept_pass count_pass cal_set_last_result is_correction
  correct-act_on v c phy dly ref_mm h e = ground arith

  -- A verdict that a pass accepts its delay with, an error of at most 15 mm.
  abbrev pub accepts : Verdict → Bool
  accepts no_resp = false
  accepts (converged err kept) = leb_ℤ (abs_ℤ err) (pos accept_mm)
  accepts (continue err kept new_total) = false

  accepts_lem :
      (xs : List ℤ) (n : ℕ) (ref_mm : ℤ) (cur : ℕ)
      → is_converged (iteration_result xs n ref_mm cur) ≡ true
      → accepts (iteration_result xs n ref_mm cur) ≡ true
  unfolding iteration_result judge is_converged
  accepts_lem xs n ref_mm cur h = ground arith

  module _ (c : CalRun N) (phy ref_mm start_ms : ℕ) (attempts : List (ℕ × Option ℤ)) where
    store-run :
        (claimed : Bool)
        → is_converged (verdict_of N c ref_mm start_ms attempts) ≡ false
        → (cal_run_run N c claimed phy ref_mm start_ms attempts).store ≡ c.store
    unfolding cal_run_run cal_run_execute cal_run_release_radio cal_set_last_result
        cal_run_apply_total_dly
    store-run claimed h =
        let total = cal_run_active_total_seed N c in
        ground (
          arith,
          keep-act_on (verdict_of N c ref_mm start_ms attempts) (cal_run_apply_total_dly N c total)
              phy (split_dly total) ref_mm h,
        )

    accepted :
        is_converged (verdict_of N c ref_mm start_ms attempts) ≡ true
        → accepts (verdict_of N c ref_mm start_ms attempts) ≡ true
    unfolding verdict_of
    accepted h =
        accepts_lem (collect (u32 (start_ms + iter_budget_ms)) samples_per_iter 0 attempts)
          samples_per_iter (signed32 ref_mm) (cal_run_active_total_seed N c) h

    -- A run leaves the active and the stored calibration as they were, unless it had the radio and its
    -- pass was within 15 mm of the reference.
    pub only_accepted_stores :
        (claimed : Bool)
        → ((cal_run_run N c claimed phy ref_mm start_ms attempts).store ≡ c.store)
          ⊎ ((claimed ≡ true) × (accepts (verdict_of N c ref_mm start_ms attempts) ≡ true))
    unfolding cal_run_run cal_set_last_result
    only_accepted_stores false = inl refl
    only_accepted_stores true =
        elim (Bool-cases (is_converged (verdict_of N c ref_mm start_ms attempts))) [
          | inl e ↦ inr (refl, accepted e)
          | inr e ↦ inl (store-run true e)
        ]

    -- After a run that had the radio, the radio has the delays of the calibration that is active then,
    -- or the factory ones without one.
    pub radio-run :
        let c' = cal_run_run N c true phy ref_mm start_ms attempts in
        c'.radio_dly ≡ cal_get_ant_dly N c'.store
    unfolding cal_run_run cal_run_release_radio cal_get_ant_dly cal_is_valid
    radio-run = ground arith

  -- One run of `cal_run_run`: the clock at its start, the reference, and the attempts.
  pub record Pass : Type 0 where
    pub ref_mm : ℕ
    pub start_ms : ℕ
    pub attempts : List (ℕ × Option ℤ)

  -- Runs that have the radio, in order.
  unfoldable pub run_passes : ℕ → CalRun N → List Pass → CalRun N
  run_passes phy c [] = c
  run_passes phy c (p ∷ ps) =
      run_passes phy (cal_run_run N c true phy p.ref_mm p.start_ms p.attempts) ps

  -- Each of them has responses and does not converge.
  unfoldable pub corrects : ℕ → CalRun N → List Pass → Bool
  corrects phy c [] = true
  corrects phy c (p ∷ ps) =
      is_correction (verdict_of N c p.ref_mm p.start_ms p.attempts)
      && corrects phy (cal_run_run N c true phy p.ref_mm p.start_ms p.attempts) ps

  correct-run :
      (c : CalRun N) (phy ref_mm start_ms : ℕ) (attempts : List (ℕ × Option ℤ))
      → c.provisional_pass < max_iters
      → is_correction (verdict_of N c ref_mm start_ms attempts) ≡ true
      → let c' = cal_run_run N c true phy ref_mm start_ms attempts in
        (c'.store ≡ c.store)
        × (if ltb (c.provisional_pass + 1) max_iters
            then c'.provisional_pass ≡ c.provisional_pass + 1
            else (c'.provisional_pass ≡ 0)
              × (c'.provisional_valid ≡ false)
              × (c'.cal_last ≡ fail_res))
  unfolding cal_run_run cal_run_execute cal_run_release_radio cal_run_apply_total_dly
  correct-run c phy ref_mm start_ms attempts h e =
      let total = cal_run_active_total_seed N c in
      ground (
        arith,
        correct-act_on (verdict_of N c ref_mm start_ms attempts) (cal_run_apply_total_dly N c total)
            phy (split_dly total) ref_mm h e,
      )

  -- An attempt ends: of passes that all have responses and do not converge, the one that makes it
  -- four since the attempt began says `CAL FAIL res`, and the next pass starts a new attempt from the
  -- active calibration, which is still the one from before them.
  pub attempt_ends :
      (phy : ℕ) (c : CalRun N) (p : Pass) (ps : List Pass)
      → c.provisional_pass + length (p ∷ ps) ≡ max_iters
      → corrects phy c (p ∷ ps) ≡ true
      → let c' = run_passes phy c (p ∷ ps) in
        (c'.cal_last ≡ fail_res)
        × (c'.provisional_pass ≡ 0)
        × (c'.provisional_valid ≡ false)
        × (c'.store ≡ c.store)
  unfolding run_passes corrects
  attempt_ends phy c p [] n h = ground (arith, correct-run c phy p.ref_mm p.start_ms p.attempts)
  attempt_ends phy c p (q ∷ ps) n h =
      let next = cal_run_run N c true phy p.ref_mm p.start_ms p.attempts in
      ground (arith, correct-run c phy p.ref_mm p.start_ms p.attempts, attempt_ends phy next q ps)

  seed-act_on :
      (c : CalRun N) (phy ref_mm : ℕ) (dly : ℕ × ℕ) (err : ℤ) (kept new_total : ℕ)
      → c.provisional_pass + 1 < max_iters
      → cal_run_active_total_seed N (act_on N (continue err kept new_total) c phy dly ref_mm)
        ≡ new_total
  unfolding act_on correct_pass count_pass cal_set_last_result cal_run_active_total_seed
  seed-act_on c phy ref_mm dly err kept new_total h = ground arith

  seed-release :
      (c : CalRun N)
      → cal_run_active_total_seed N (cal_run_release_radio N c) ≡ cal_run_active_total_seed N c
  unfolding cal_run_release_radio cal_run_active_total_seed
  seed-release c = refl

  -- A pass that does not converge and is not the fourth: the next one starts from its correction.
  pub seed-run :
      (c : CalRun N) (phy ref_mm start_ms : ℕ) (attempts : List (ℕ × Option ℤ)) (err : ℤ)
      (kept new_total : ℕ)
      → c.provisional_pass + 1 < max_iters
      → verdict_of N c ref_mm start_ms attempts ≡ continue err kept new_total
      → cal_run_active_total_seed N (cal_run_run N c true phy ref_mm start_ms attempts) ≡ new_total
  unfolding cal_run_run cal_run_execute cal_run_apply_total_dly
  seed-run c phy ref_mm start_ms attempts err kept new_total h e =
      let total = cal_run_active_total_seed N c in
      rw (seed-release, e)
        (seed-act_on (cal_run_apply_total_dly N c total) phy ref_mm (split_dly total) err kept
          new_total h)
