-- ===== src/Sched/Tests.antt =====
-- The theorems on src/beacon_sched_core.c at a nominal period of 200 ms.
use tag_testting.Common.{◌+◌, ◌*◌, ◌/◌, ◌≡◌, refl, false, arith, u32, sub32, max}
use tag_testting.Sched.{BeaconSched, observe, plan, period_sane}
use tag_testting.Sched.Estimate.{exact_prediction}

-- A schedule with one beacon heard, shortly before both counters wrap.
abbrev one_heard : BeaconSched
one_heard = record {
  nominal_ms = 200;
  t0_ms = 4294967200;
  fc0 = 4294967290;
  t_mid_ms = 4294967200;
  fc_mid = 4294967290;
  t_last_ms = 4294967200;
  fc_last = 4294967290;
  period_q16 = 13107200;
  ok_count = 1;
  miss_count = 0;
  n_obs = 1;
  misses = 0;
  have_ref = false;
}

exact_prediction_example :
    let t = u32 (one_heard.t0_ms + 195 * 10) in
    let s' = observe one_heard t (u32 (one_heard.fc0 + 10)) in
    let pl = plan s' 5 in
    (s'.period_q16 ≡ 195 * 65536)
    × (pl.effective_skip ≡ max 1 5)
    × (pl.arm_ms ≡ sub32 (u32 (t + u32 (195 * max 1 5))) (pl.window_ms / 2))
unfolding period_sane
exact_prediction_example =
    exact_prediction one_heard 195 10 5 (omega arith) (omega arith) (omega arith) (omega arith)
      (omega arith) (omega arith) (omega arith) refl (omega arith)
