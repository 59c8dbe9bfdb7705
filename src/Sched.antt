-- ===== src/Sched.antt =====
-- src/beacon_sched_core.c: the long-baseline beacon schedule for skipped superframes.
pub mod Estimate
pub mod Window
mod Tests
use tag_testting.Common.{
  ℕ, ◌+◌, ◌-◌, ◌*◌, ◌/◌, ◌^◌, Bool, true, false, ◌&&◌, ◌||◌, not, ltb, leb, ◌==◌, if◌then◌else◌, u8,
  u32, sub32,
}

abbrev pub ppm_total : ℕ
ppm_total = 40

abbrev pub window_min_ms : ℕ
window_min_ms = 4

abbrev pub window_margin_ms : ℕ
window_margin_ms = 2

abbrev pub baseline_max : ℕ
baseline_max = 128

abbrev pub jitter_us : ℕ
jitter_us = 120

abbrev pub quant_us : ℕ
quant_us = 1000

-- `struct beacon_sched`
pub record BeaconSched : Type 0 where
  pub nominal_ms : ℕ
  pub t0_ms : ℕ
  pub fc0 : ℕ
  pub t_mid_ms : ℕ
  pub fc_mid : ℕ
  pub t_last_ms : ℕ
  pub fc_last : ℕ
  pub period_q16 : ℕ
  pub ok_count : ℕ
  pub miss_count : ℕ
  pub n_obs : ℕ
  pub misses : ℕ
  pub have_ref : Bool

-- `period_sane`
unfoldable pub period_sane : BeaconSched → ℕ → Bool
period_sane s period_q16 =
    let lo = u32 (s.nominal_ms * 2 ^ 16) / 2 in
    let hi = u32 (u32 (s.nominal_ms * 2 ^ 16) * 2) in leb lo period_q16 && leb period_q16 hi

-- `baseline_seed`
unfoldable pub baseline_seed : BeaconSched → ℕ → ℕ → BeaconSched
baseline_seed s t_ms frame_ctr = record s {
  t0_ms = t_ms;
  fc0 = frame_ctr;
  t_mid_ms = t_ms;
  fc_mid = frame_ctr;
  t_last_ms = t_ms;
  fc_last = frame_ctr;
  n_obs = 1;
}

-- `beacon_sched_reset`
unfoldable pub reset : BeaconSched → ℕ → BeaconSched
reset s nominal_period_ms = record s {
  nominal_ms = nominal_period_ms;
  t0_ms = 0;
  fc0 = 0;
  t_mid_ms = 0;
  fc_mid = 0;
  t_last_ms = 0;
  fc_last = 0;
  period_q16 = u32 (nominal_period_ms * 2 ^ 16);
  n_obs = 0;
  misses = 0;
  have_ref = false;
}

-- `beacon_sched_stats_reset`
unfoldable pub stats_reset : BeaconSched → BeaconSched
stats_reset s = record s { ok_count = 0; miss_count = 0 }

-- `d <= 0` on an `int32_t` whose word is `d`
abbrev pub not_positive : ℕ → Bool
not_positive d = d == 0 || leb (2 ^ 31) d

-- The end of `beacon_sched_observe`: the midpoint is captured, or the baseline rolled onto it.
roll : BeaconSched → ℕ → ℕ → BeaconSched
roll s t_ms frame_ctr =
    if s.n_obs == baseline_max / 2
    then record s { t_mid_ms = t_ms; fc_mid = frame_ctr }
    else if leb baseline_max s.n_obs
    then record s { t0_ms = s.t_mid_ms; fc0 = s.fc_mid; n_obs = baseline_max - baseline_max / 2 }
    else s

-- `beacon_sched_observe` after its counters, for a baseline that has a first observation.
extend : BeaconSched → ℕ → ℕ → BeaconSched
unfolding roll period_sane baseline_seed
extend s t_ms frame_ctr =
    let dfc = sub32 frame_ctr s.fc0 in
    let dt = sub32 t_ms s.t0_ms in
    if not_positive dfc || not_positive dt
    then baseline_seed s t_ms frame_ctr
    else let p_q16 = u32 (dt * 2 ^ 16 / dfc) in
      if not (period_sane s p_q16)
      then baseline_seed s t_ms frame_ctr
      else let s' = record s { period_q16 = p_q16; t_last_ms = t_ms; fc_last = frame_ctr } in
        roll (if ltb s'.n_obs baseline_max then record s' { n_obs = u8 (s'.n_obs + 1) } else s')
          t_ms frame_ctr

-- `beacon_sched_observe`
unfoldable pub observe : BeaconSched → ℕ → ℕ → BeaconSched
unfolding extend baseline_seed
observe s t_ms frame_ctr =
    let s' = record s { ok_count = u32 (s.ok_count + 1); misses = 0; have_ref = true } in
    if s'.n_obs == 0 then baseline_seed s' t_ms frame_ctr else extend s' t_ms frame_ctr

-- `beacon_sched_miss`
unfoldable pub miss : BeaconSched → BeaconSched
miss s =
    let s' = record s { miss_count = u32 (s.miss_count + 1); have_ref = false } in
    if ltb s.misses 0xff then record s' { misses = u8 (s.misses + 1) } else s'

-- `beacon_sched_baseline_sf`
unfoldable pub baseline_sf : BeaconSched → ℕ
baseline_sf s = if ltb s.n_obs 2 then 0 else sub32 s.fc_last s.fc0

-- The out parameters of `beacon_sched_plan`.
pub record Plan : Type 0 where
  pub arm_ms : ℕ
  pub window_ms : ℕ
  pub effective_skip : ℕ

-- The skip after the miss ladder, and the factor of the window.
unfoldable pub ladder : BeaconSched → ℕ → ℕ × ℕ
ladder s skip =
    let eff = if skip == 0 then 1 else skip in
    if s.misses == 1
    then (if eff / 2 == 0 then 1 else eff / 2, 2)
    else if leb 2 s.misses
    then (1, 1)
    else (eff, 1)

-- The width of the window; the products and sums are on `uint32_t`.
unfoldable pub width : BeaconSched → ℕ → ℕ → ℕ
width s eff widen =
    let full = u32 (s.nominal_ms + window_margin_ms) in
    if leb 2 s.misses
    then full
    else let p_ms = s.period_q16 / 2 ^ 16 in
      let drift_us = u32 (u32 (u32 (2 * eff) * p_ms) * ppm_total) / 1000 in
      let span_sf = if baseline_sf s == 0 then 1 else baseline_sf s in
      let est_us = u32 (u32 (2 * eff) * (jitter_us + quant_us)) / span_sf in
      let tot_us = u32 (drift_us + est_us) in
      let w_ms = u32 (u32 (u32 (tot_us + 999) / 1000 + window_margin_ms) * widen) in
      let w_min = if ltb w_ms window_min_ms then window_min_ms else w_ms in
      if ltb full w_min then full else w_min

-- `beacon_sched_plan`
unfoldable pub plan : BeaconSched → ℕ → Plan
unfolding ladder width
plan s skip =
    let (eff, widen) = ladder s skip in
    let w_ms = width s eff widen in
    let span_ms = u32 (eff * s.period_q16 / 2 ^ 16) in
    record {
      arm_ms = sub32 (u32 (s.t_last_ms + span_ms)) (w_ms / 2);
      window_ms = w_ms;
      effective_skip = eff;
    }
