-- ===== src/Runner/Tests/Tag.antt =====
-- A tag and its superframes, for the tests on src/uwb_net_runner.c.
use tag_testting.Common.{ℕ, ◌*◌, ◌^◌, true, false, none, some, List, [], ◌∷◌, replicate}
use tag_testting.Storage.{Storage}
use tag_testting.Storage.Memory.{memory}
use tag_testting.Alert.Core.{AlertState}
use tag_testting.Alert.Persist.{TagAlert}
use tag_testting.Cal.Record.{zeroed}
use tag_testting.Cal.Store.{CalStore}
use tag_testting.Net.Machine.{Ctx, State}
use tag_testting.Net.Machine
use tag_testting.Net.Tiers.{tier_defaults}
use tag_testting.Sched.{BeaconSched}
use tag_testting.Stats
use tag_testting.Track
use tag_testting.Runner.{Runner, Turn, Heard}

abbrev pub eui : List ℕ
eui = 1 ∷ 2 ∷ 3 ∷ 4 ∷ 5 ∷ 6 ∷ 7 ∷ 8 ∷ []

abbrev pub mounted : Storage memory
mounted = record { fs = λ id. none; fs_ready = true }

abbrev pub calibrated : CalStore memory
calibrated = record {
  active = record zeroed { tx_ant_dly = 16400; rx_ant_dly = 16390 };
  active_valid = true;
  storage = mounted;
}

abbrev pub alert_in : AlertState → TagAlert memory
alert_in state = record {
  core = record {
    state = state;
    epoch = 7;
    repeat_seq = 2;
    cancels_left = 6;
    next_tx_ms = 1000;
    armed = true;
  };
  tag_eui = eui;
  storage = mounted;
}

abbrev pub silent_sched : BeaconSched
silent_sched = record {
  nominal_ms = 200;
  t0_ms = 0;
  fc0 = 0;
  t_mid_ms = 0;
  fc_mid = 0;
  t_last_ms = 0;
  fc_last = 0;
  period_q16 = 200 * 2 ^ 16;
  ok_count = 0;
  miss_count = 0;
  n_obs = 0;
  misses = 0;
  have_ref = false;
}

abbrev pub ctx_in : State → Ctx
ctx_in state = record (Machine.init eui) { state = state; short_addr = 0x1001; slot_index = 5 }

-- A tag in a state, with an alert in a state.
abbrev pub tag_in : State → AlertState → Runner memory
tag_in state alert_state = record {
  ctx = ctx_in state;
  bt = Track.reset 200 5 8 3;
  sched = silent_sched;
  backoff = record { rung = 0; alert_pinned = false };
  sweep_gate = record { last_discover_ms = 1000; last_sweep_n = 4; ever_discovered = true };
  tiers = tier_defaults;
  rx_stats = Stats.stats_reset 6400000 32000000;
  alert = alert_in alert_state;
  cal = calibrated;
  radio_asleep = false;
  dw_sleep_enabled = true;
  pending_tier = 0;
  tier_pending = false;
  motion_moving = true;
  motion_edge = false;
  force_full_window = false;
  runner_eui = eui;
}

-- A beacon that lists the short address 0x1001 in the slot 2.
abbrev pub beacon_frame : List ℕ
beacon_frame =
    0x41
    ∷ 0x88
    ∷ 0
    ∷ 0xca
    ∷ 0xde
    ∷ 0xff
    ∷ 0xff
    ∷ 0
    ∷ 0
    ∷ 0xe5
    ∷ 2
    ∷ 9
    ∷ 0
    ∷ 0
    ∷ 0
    ∷ 0xff
    ∷ 0xff
    ∷ 0xff
    ∷ 0xff
    ∷ 1
    ∷ 0x10
    ∷ replicate 16 0xff

-- A superframe with the receptions of its window.
abbrev pub turn_with : List Heard → Turn memory
turn_with heard = record {
  claim = false;
  yielded = false;
  handed_cal = calibrated;
  filter_ms = 2000;
  sleep_ms = 2000;
  woken = false;
  open_ms = 2001;
  arm_cyc = 0;
  heard = heard;
  event_cyc = 3200000;
  t0_ms = 2100;
  join_rand = 6;
  join_ok = true;
  grant_frame = none;
  keepalive_rand = 1;
  keepalive_ok = true;
  alert_calls = [];
  alert_ms = 2110;
  batt_soc = 80;
  last_pos = none;
  alert_rand = 7;
  alert_ok = true;
  late_calls = [];
  n_found = 4;
  discovered_ms = 2115;
  due_ms = 2120;
  n_refound = 4;
  rediscovered_ms = 2121;
  n_swept = 4;
}

abbrev pub heard_beacon : Turn memory
heard_beacon =
    turn_with (record { before_ms = 2002; frame = some beacon_frame; after_ms = 2100 } ∷ [])

abbrev pub heard_nothing : Turn memory
heard_nothing = turn_with []
