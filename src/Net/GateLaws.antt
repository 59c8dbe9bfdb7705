-- ===== src/Net/GateLaws.antt =====
-- The sweep gate: when a participation must discover again, and that the gate does not latch.
use tag_testting.Common.{ℕ, ◌+◌, ◌^◌, ◌≤◌, ◌<◌, ◌≡◌, ◌↔◌, ◌⊎◌, true, false, arith, u32, sub32}
use tag_testting.Net.Gate.{
  SweepGate, rediscover_due, discovered, swept, min_anchors, rediscover_interval_ms,
}

-- Discovery is due exactly when there was none, the last one is an interval or more ago on the
-- signed clock, or the last count was short.
due_iff :
    (g : SweepGate) (now : ℕ)
    → (rediscover_due g now ≡ true) ↔ (
        (g.ever_discovered ≡ false)
        ⊎ (((rediscover_interval_ms ≤ sub32 now g.last_discover_ms)
              × (sub32 now g.last_discover_ms < 2 ^ 31))
            ⊎ (g.last_sweep_n < min_anchors)))
unfolding rediscover_due
due_iff g now = ground arith

-- The gate does not latch: whatever its state was, after a discovery that found enough anchors, and
-- after a sweep that ranged enough too, no discovery is due before the interval is over, also where
-- the clock wraps.
pub gate_releases :
    (g : SweepGate) (t d n m : ℕ)
    → t < 2 ^ 32
    → d < rediscover_interval_ms
    → min_anchors ≤ n
    → min_anchors ≤ m
    → (rediscover_due (discovered g t n) (u32 (t + d)) ≡ false)
      × (rediscover_due (swept (discovered g t n) m) (u32 (t + d)) ≡ false)
unfolding rediscover_due discovered swept sub32
gate_releases g t d n m ht hd hn hm = ground arith

-- A short sweep makes the next participation discover, at any time.
short_sweep_due :
    (g : SweepGate) (n now : ℕ) → n < min_anchors → rediscover_due (swept g n) now ≡ true
unfolding rediscover_due swept
short_sweep_due g n now h = ground arith
