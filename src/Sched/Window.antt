-- ===== src/Sched/Window.antt =====
-- The windows that `beacon_sched_plan` gives.
use tag_testting.Common.{ℕ, ◌+◌, ◌/◌, ◌^◌, ◌≤◌, ◌<◌, ◌≡◌, arith, max}
use tag_testting.Sched.{BeaconSched, plan, window_min_ms, window_margin_ms}

-- The window is at least `window_min_ms` and at most a full superframe and its margin, whatever the
-- state, for a nominal period from 2 ms to below `2 ^ 16` ms; the planned skip is at least 1 and
-- never above the skip asked for, of which 0 counts as 1.
pub plan_bounds :
    (s : BeaconSched) (skip : ℕ)
    → 2 ≤ s.nominal_ms
    → s.nominal_ms < 2 ^ 16
    → let p = plan s skip in
      (window_min_ms ≤ p.window_ms)
      × (p.window_ms ≤ s.nominal_ms + window_margin_ms)
      × (1 ≤ p.effective_skip)
      × (p.effective_skip ≤ max 1 skip)
unfolding plan
plan_bounds s skip lo hi = ground arith

-- The miss ladder: no miss keeps the skip, one halves it, two or more plan the next superframe with
-- a full window.
plan_ladder :
    (s : BeaconSched) (skip : ℕ)
    → 0 < skip
    → s.nominal_ms < 2 ^ 16
    → (s.misses ≡ 0 → (plan s skip).effective_skip ≡ skip)
      × (s.misses ≡ 1 → (plan s skip).effective_skip ≡ max 1 (skip / 2))
      × (2 ≤ s.misses
          → ((plan s skip).effective_skip ≡ 1)
            × ((plan s skip).window_ms ≡ s.nominal_ms + window_margin_ms))
unfolding plan
plan_ladder s skip h n = ground arith
