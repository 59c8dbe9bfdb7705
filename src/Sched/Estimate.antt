-- ===== src/Sched/Estimate.antt =====
-- The period estimate of `beacon_sched_observe`.
use tag_testting.Common.{
  ℕ, ◌+◌, ◌*◌, ◌/◌, ◌^◌, ◌≤◌, ◌<◌, ◌≡◌, List, [], ◌∷◌, true, false, arith, u32, sub32, sub32-add,
  max, refl, ap, ◌∙◌, ◌==◌,
}
use native.Mathlib.Nat.{div-eq_of_eq-mul_left}
use tag_testting.Sched.{
  BeaconSched, reset, observe, miss, baseline_max, period_sane, extend, plan, ladder,
}

-- The estimate lies between half and twice the nominal period, and the observations of a baseline
-- stay below the cap at which it is rolled.
pub record Sane (nominal : ℕ) (s : BeaconSched) : Type 0 where
  pub nominal_kept : s.nominal_ms ≡ nominal
  pub above_half : nominal * 2 ^ 16 / 2 ≤ s.period_q16
  pub below_twice : s.period_q16 ≤ nominal * 2 ^ 16 * 2
  pub few : s.n_obs < baseline_max

reset-Sane : (s : BeaconSched) (nominal : ℕ) → nominal < 2 ^ 15 → Sane nominal (reset s nominal)
unfolding reset
reset-Sane s nominal h = ground arith

observe-Sane :
    (nominal : ℕ) (s : BeaconSched) (t fc : ℕ)
    → nominal < 2 ^ 15
    → Sane nominal s
    → Sane nominal (observe s t fc)
unfolding observe
observe-Sane nominal s t fc h v = ground arith

miss-Sane : (nominal : ℕ) (s : BeaconSched) → Sane nominal s → Sane nominal (miss s)
unfolding miss
miss-Sane nominal s v = ground arith

-- One event of the schedule.
pub data SchedEvent : Type 0 where
  heard : ℕ → ℕ → SchedEvent
  missed : SchedEvent

unfoldable pub step : BeaconSched → SchedEvent → BeaconSched
step s (heard t fc) = observe s t fc
step s missed = miss s

unfoldable pub run : BeaconSched → List SchedEvent → BeaconSched
run s [] = s
run s (e ∷ es) = run (step s e) es

step-Sane :
    (nominal : ℕ) (s : BeaconSched) (e : SchedEvent)
    → nominal < 2 ^ 15
    → Sane nominal s
    → Sane nominal (step s e)
unfolding step
step-Sane nominal s (heard t fc) h v = observe-Sane nominal s t fc h v
step-Sane nominal s missed h v = miss-Sane nominal s v

run-Sane :
    (nominal : ℕ) (s : BeaconSched) (es : List SchedEvent)
    → nominal < 2 ^ 15
    → Sane nominal s
    → Sane nominal (run s es)
unfolding run
run-Sane nominal s [] h v = v
run-Sane nominal s (e ∷ es) h v = run-Sane nominal (step s e) es h (step-Sane nominal s e h v)

-- From a reset with a nominal period below `2 ^ 15` ms, whatever beacons are heard or missed, with
-- any times and counters, the period estimate stays between half and twice the nominal period, and
-- the observations below the cap.
pub estimate-Sane :
    (s : BeaconSched) (nominal : ℕ) (es : List SchedEvent)
    → nominal < 2 ^ 15
    → Sane nominal (run (reset s nominal) es)
estimate-Sane s nominal es h = run-Sane nominal (reset s nominal) es h (reset-Sane s nominal h)

-- The quotient of the observed differences, for a period `p` over `d` superframes.
quotient_exact : (p d : ℕ) → 0 < d → p * d * 2 ^ 16 / d ≡ p * 2 ^ 16
quotient_exact p d h = div-eq_of_eq-mul_left h (grind arith)

extend-exact :
    (s : BeaconSched) (p d : ℕ)
    → s.t0_ms < 2 ^ 32
    → s.fc0 < 2 ^ 32
    → 0 < d
    → d < 2 ^ 31
    → 0 < p * d
    → p * d < 2 ^ 31
    → period_sane s (p * 2 ^ 16) ≡ true
    → p * 2 ^ 16 < 2 ^ 32
    → let s' = extend s (u32 (s.t0_ms + p * d)) (u32 (s.fc0 + d)) in
      (s'.period_q16 ≡ p * 2 ^ 16)
      × (s'.t_last_ms ≡ u32 (s.t0_ms + p * d))
      × (s'.fc_last ≡ u32 (s.fc0 + d))
unfolding extend
extend-exact s p d ht hf dp dl pp pl sane pw =
    rw
      (
        sub32-add s.fc0 d hf (omega arith),
        sub32-add s.t0_ms (p * d) ht (omega arith),
        quotient_exact p d dp,
      )
      (ground arith)

extend-keeps :
    (s : BeaconSched) (t fc : ℕ)
    → ((extend s t fc).misses ≡ s.misses) × ((extend s t fc).have_ref ≡ s.have_ref)
unfolding extend
extend-keeps s t fc = ground arith

scaled : (e p : ℕ) → e * (p * 2 ^ 16) / 2 ^ 16 ≡ p * e
scaled e p = omega arith

ladder_calm : (s : BeaconSched) (skip : ℕ) → s.misses ≡ 0 → (ladder s skip).0 ≡ max 1 skip
unfolding ladder
ladder_calm s skip m = ground arith

-- Without misses the plan arms half a window before the beacon that is due.
plan_arm :
    (s : BeaconSched) (p skip : ℕ)
    → s.period_q16 ≡ p * 2 ^ 16
    → s.misses ≡ 0
    → ((plan s skip).effective_skip ≡ max 1 skip)
      × ((plan s skip).arm_ms
          ≡ sub32 (u32 (s.t_last_ms + u32 (p * max 1 skip))) ((plan s skip).window_ms / 2))
unfolding plan
plan_arm s p skip e m =
    let eff : (ladder s skip).0 ≡ max 1 skip = ladder_calm s skip m in
    rw (eff, e, scaled (max 1 skip) p) (refl, refl)

positive_count : (n : ℕ) → 0 < n → (n == 0) ≡ false
positive_count n h = ground arith

sane-counted :
    (s : BeaconSched) (q : ℕ)
    → period_sane (record s { ok_count = u32 (s.ok_count + 1); misses = 0; have_ref = true }) q
      ≡ period_sane s q
unfolding period_sane
sane-counted s q = refl

observe-extend :
    (s : BeaconSched) (t fc : ℕ)
    → 0 < s.n_obs
    → observe s t fc
      ≡ extend (record s { ok_count = u32 (s.ok_count + 1); misses = 0; have_ref = true }) t fc
unfolding observe
observe-extend s t fc n = rw (positive_count s.n_obs n) refl

-- With a first observation `d` superframes ago and a gateway period of `p` ms within half and twice
-- the nominal one, where `d` and `p * d` are above 0 and below `2 ^ 31` and `p` is below `2 ^ 16`,
-- a beacon heard on time makes the estimate exactly `p`, also where the clock and the counter wrap;
-- and the next plan arms half a window before the beacon of the planned superframe.
pub exact_prediction :
    (s : BeaconSched) (p d skip : ℕ)
    → 0 < s.n_obs
    → s.t0_ms < 2 ^ 32
    → s.fc0 < 2 ^ 32
    → 0 < d
    → d < 2 ^ 31
    → 0 < p * d
    → p * d < 2 ^ 31
    → period_sane s (p * 2 ^ 16) ≡ true
    → p * 2 ^ 16 < 2 ^ 32
    → let t = u32 (s.t0_ms + p * d) in
      let s' = observe s t (u32 (s.fc0 + d)) in
      let pl = plan s' skip in
      (s'.period_q16 ≡ p * 2 ^ 16)
      × (pl.effective_skip ≡ max 1 skip)
      × (pl.arm_ms ≡ sub32 (u32 (t + u32 (p * max 1 skip))) (pl.window_ms / 2))
exact_prediction s p d skip n ht hf dp dl pp pl sane pw =
    let s1 = record s { ok_count = u32 (s.ok_count + 1); misses = 0; have_ref = true } in
    let t = u32 (s.t0_ms + p * d) in
    let fc = u32 (s.fc0 + d) in
    let (period, last, _) =
      extend-exact s1 p d ht hf dp dl pp pl (sane-counted s (p * 2 ^ 16) ∙ sane) pw in
    let (quiet, _) = extend-keeps s1 t fc in
    let (eff, arm) = plan_arm (extend s1 t fc) p skip period quiet in
    rw (observe-extend s t fc n) (
      period,
      eff,
      arm
          ∙ ap
              (λ x.
                sub32 (u32 (x + u32 (p * max 1 skip))) ((plan (extend s1 t fc) skip).window_ms / 2))
              last,
    )
