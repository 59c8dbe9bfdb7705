-- ===== src/Net/Act.antt =====
-- The action bits of src/uwb_net.h (`UWB_ACT_*`) and the calibration gate over them.
use tag_testting.Common.{ℕ, Bool, if◌then◌else◌, bit_and}

abbrev pub idle : ℕ
idle = 0

abbrev pub send_join : ℕ
send_join = 1

abbrev pub send_keepalive : ℕ
send_keepalive = 2

abbrev pub run_discover : ℕ
run_discover = 4

abbrev pub run_sweep : ℕ
run_sweep = 8

abbrev pub sleep : ℕ
sleep = 16

abbrev pub to_scan : ℕ
to_scan = 32

abbrev pub send_alert : ℕ
send_alert = 64

-- `act & bit`, as a number that is 0 when the bit is clear
abbrev pub masked : ℕ → ℕ → ℕ
masked act bit = bit_and act bit

-- `uwb_net_gate_actions`; the mask is `~UWB_ACT_RANGING_MASK` on 32 bits
unfoldable pub gate_actions : ℕ → Bool → ℕ
gate_actions act cal_valid = if cal_valid then act else bit_and act 0xffff_fff7
