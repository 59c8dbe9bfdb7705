-- ===== src/Net/Gate.antt =====
-- The sweep gate of src/uwb_net.c: whether a participation discovers or sweeps.
use tag_testting.Common.{ℕ, Bool, true, false, not, ◌||◌, ltb, sub32, sge32}

abbrev pub min_anchors : ℕ
min_anchors = 3

abbrev pub rediscover_interval_ms : ℕ
rediscover_interval_ms = 60000

-- `struct uwb_sweep_gate`
pub record SweepGate : Type 0 where
  pub last_discover_ms : ℕ
  pub last_sweep_n : ℕ
  pub ever_discovered : Bool

-- `uwb_sweep_gate_init`
unfoldable pub init : SweepGate
init = record { last_discover_ms = 0; last_sweep_n = 0; ever_discovered = false }

-- `uwb_sweep_gate_rediscover_due`
unfoldable pub rediscover_due : SweepGate → ℕ → Bool
rediscover_due g now_ms =
    not g.ever_discovered
    || sge32 (sub32 now_ms g.last_discover_ms) rediscover_interval_ms
    || ltb g.last_sweep_n min_anchors

-- `uwb_sweep_gate_discovered`
unfoldable pub discovered : SweepGate → ℕ → ℕ → SweepGate
discovered g now_ms n_found = record g {
  last_discover_ms = now_ms;
  ever_discovered = true;
  last_sweep_n = n_found;
}

-- `uwb_sweep_gate_swept`
unfoldable pub swept : SweepGate → ℕ → SweepGate
swept g n_ranged = record g { last_sweep_n = n_ranged }
