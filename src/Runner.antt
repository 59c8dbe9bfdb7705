-- ===== src/Runner.antt =====
-- src/uwb_net_runner.c: the runner's loop over the superframes. Here its statics and locals, what a
-- superframe is given from outside, what it does to the radio, and the steps before the beacon window.
pub mod Listen
pub mod Exchange
pub mod Superframe
pub mod Effects
pub mod Flags
pub mod Alerts
pub mod Help
pub mod Sweeps
pub mod Slots
pub mod Radio
pub mod Silence
pub mod Window
pub mod Pool
pub mod Comeback
mod Tests
use tag_testting.Common.{
  ℕ, ◌+◌, ◌-◌, ◌*◌, Bool, true, false, not, ◌&&◌, Option, none, List, [], ◌∷◌, ◌++◌, ◌==◌,
  if◌then◌else◌, u32, sub32,
}
use tag_testting.Storage.{Nvs}
use tag_testting.Alert.Persist.{TagAlert}
use tag_testting.Backoff.{ScanBackoff}
use tag_testting.Backoff
use tag_testting.Cal.Store.{CalStore, cal_get_ant_dly}
use tag_testting.Net.Filter.{tier_filter}
use tag_testting.Net.Gate.{SweepGate}
use tag_testting.Net.Machine.{Ctx, Event, EvKind, handle}
use tag_testting.Net.Machine.EvKind.{motion}
use tag_testting.Net.Tiers.{Table}
use tag_testting.Sched.{BeaconSched}
use tag_testting.Sched
use tag_testting.Stats.{RxStats}
use tag_testting.Track.{BeaconTrack}
use tag_testting.Track

abbrev pub t_superframe_ms : ℕ
t_superframe_ms = 200

abbrev pub dw_wake_guard_ms : ℕ
dw_wake_guard_ms = 5

abbrev pub bt_guard_ms : ℕ
bt_guard_ms = 5

abbrev pub bt_warmup_n : ℕ
bt_warmup_n = 8

abbrev pub bt_ema_shift : ℕ
bt_ema_shift = 3

abbrev pub t_beacon_ms : ℕ
t_beacon_ms = 2

abbrev pub t_guard_ms : ℕ
t_guard_ms = 1

abbrev pub t_slot_ms : ℕ
t_slot_ms = 24

abbrev pub t_minislot_ms : ℕ
t_minislot_ms = 2

abbrev pub n_cap : ℕ
n_cap = 4

abbrev pub n_cfp : ℕ
n_cfp = 11

abbrev pub scan_quiet_rung : ℕ
scan_quiet_rung = 2

-- What the loop does to the radio and the processor, in order.
pub data Effect : Type 0 where
  wake handover radio_sleep : Effect  -- `dw_wake`, `uwb_radio_yield`, `dw_enter_sleep`
  set_delays : ℕ → ℕ → Effect  -- `dwt_settxantennadelay` and `dwt_setrxantennadelay`
  listens : ℕ → Effect  -- the beacon window, to its deadline
  tx_join tx_keepalive tx_alert : List ℕ → ℕ → Bool → Effect  -- `uwb_radio_tx_cap`; false is its `-EIO`
  listens_grant : Effect
  discovers : ℕ → Effect  -- `run_discovery`
  sweeps : ℕ → Effect  -- `uwb_radio_sweep`, after the wait for the slot
  naps : ℕ → Effect  -- `uwb_radio_sleep_until`

-- A reception in the beacon window: the clock before and after it, and the frame unless none came.
pub record Heard : Type 0 where
  pub before_ms : ℕ
  pub frame : Option (List ℕ)
  pub after_ms : ℕ

-- The event of a kind that carries a tier only.
abbrev pub plain_event : EvKind → ℕ → Event
plain_event kind req_tier = record {
  kind = kind;
  proto_ver = 0;
  frame_counter = 0;
  in_map = false;
  map_slot = 0;
  g_short_addr = 0;
  g_slot = 0;
  g_tier = 0;
  g_lease = 0;
  n_anchors = 0;
  req_tier = req_tier;
  alert_pending = false;
}

-- A call of the button's or the console's thread that lands in a superframe: `tag_alert_raise` or
-- `tag_alert_cancel`, at its clock reading.
pub data AlertCall : Type 0 where
  raises cancels : ℕ → AlertCall

module _ (N : Nvs) where
  -- The statics of the file, the locals of `runner_fn`, and the modules that it drives.
  pub record Runner : Type 0 where
    pub ctx : Ctx
    pub bt : BeaconTrack
    pub sched : BeaconSched
    pub backoff : ScanBackoff
    pub sweep_gate : SweepGate
    pub tiers : Table
    pub rx_stats : RxStats
    pub alert : TagAlert N
    pub cal : CalStore N
    pub radio_asleep : Bool
    pub dw_sleep_enabled : Bool
    pub pending_tier : ℕ
    pub tier_pending : Bool
    pub motion_moving : Bool
    pub motion_edge : Bool
    pub force_full_window : Bool
    pub runner_eui : List ℕ

  -- What one superframe reads: clocks, receptions, random numbers, and results of the calls that are
  -- not modelled.
  pub record Turn : Type 0 where
    pub claim : Bool  -- `uwb_radio_request_pending`
    pub yielded : Bool  -- `uwb_radio_yield`
    pub handed_cal : CalStore N  -- the calibration when the radio comes back
    pub filter_ms : ℕ
    pub sleep_ms : ℕ
    pub woken : Bool  -- `uwb_radio_sleep_until` in front of a narrow window
    pub open_ms : ℕ
    pub arm_cyc : ℕ
    pub heard : List Heard
    pub event_cyc : ℕ
    pub t0_ms : ℕ
    pub join_rand : ℕ
    pub join_ok : Bool  -- whether the transmission ended
    pub grant_frame : Option (List ℕ)
    pub keepalive_rand : ℕ
    pub keepalive_ok : Bool
    pub alert_calls : List AlertCall  -- after `tag_alert_active`, before `tag_alert_frame_due`
    pub alert_ms : ℕ
    pub batt_soc : ℕ
    pub last_pos : Option (ℕ × ℕ)
    pub alert_rand : ℕ
    pub alert_ok : Bool
    pub late_calls : List AlertCall  -- while an alert frame is sent
    pub n_found : ℕ  -- `run_discovery` of `UWB_ACT_RUN_DISCOVER`
    pub discovered_ms : ℕ
    pub due_ms : ℕ
    pub n_refound : ℕ  -- `run_discovery` in place of a sweep
    pub rediscovered_ms : ℕ
    pub n_swept : ℕ  -- `uwb_radio_sweep`

  -- The antenna delays of the calibration, as they are set after a wake or a handover.
  unfoldable pub apply_delays : CalStore N → Effect
  apply_delays c = set_delays (cal_get_ant_dly N c).0 (cal_get_ant_dly N c).1

  -- `if (radio_asleep) { dw_wake(); radio_asleep = false; }`
  unfoldable pub wake_radio : Runner → Runner × List Effect
  unfolding apply_delays
  wake_radio r =
      if r.radio_asleep
      then (record r { radio_asleep = false }, wake ∷ apply_delays r.cal ∷ [])
      else (r, [])

  -- The runner after a handover that took place.
  unfoldable pub taken_back : Runner → CalStore N → Runner
  taken_back r cal' = record r {
    cal = cal';
    bt = Track.reset t_superframe_ms bt_guard_ms bt_warmup_n bt_ema_shift;
    sched = Sched.reset r.sched t_superframe_ms;
  }

  -- Step 0: the radio is offered to a claimant.
  unfoldable pub offer : Runner → Turn → Runner × List Effect
  unfolding wake_radio taken_back apply_delays
  offer r t =
      let (r', woke) = wake_radio r in
      if t.claim
      then (if t.yielded
          then (taken_back r' t.handed_cal, woke ++ (handover ∷ apply_delays t.handed_cal ∷ []))
          else (r', woke))
      else (r, [])

  -- The request of `uwb_net_set_tier`.
  unfoldable pub take_tier : Runner → Runner
  take_tier r =
      if r.tier_pending
      then record r {
        ctx = (handle r.tiers r.ctx (plain_event motion r.pending_tier)).0;
        tier_pending = false;
      }
      else r

  -- The edge of `uwb_net_set_moving`.
  unfoldable pub take_edge : Runner → Runner
  take_edge r =
      if r.motion_edge
      then (if r.motion_moving
          then record r { motion_edge = false; backoff = Backoff.motion r.backoff }
          else record r { motion_edge = false })
      else r

  -- The hysteresis of the tiers, every superframe.
  unfoldable pub filter_tier : Runner → ℕ → Runner
  filter_tier r now_ms =
      let ctx' = tier_filter r.ctx r.motion_moving now_ms in
      if not (ctx'.filt_tier == ctx'.tier)
      then record r { ctx = (handle r.tiers ctx' (plain_event motion ctx'.filt_tier)).0 }
      else record r { ctx = ctx' }

  -- Step 1.
  unfoldable pub choose_tier : Runner → Turn → Runner
  unfolding take_tier take_edge filter_tier
  choose_tier r t = filter_tier (take_edge (take_tier r)) t.filter_ms

  -- `uwb_net_set_tier`
  unfoldable pub set_tier : Runner → ℕ → Runner
  set_tier r tier = record r { pending_tier = tier; tier_pending = true }

  -- `uwb_net_set_moving`
  unfoldable pub set_moving : Runner → Bool → Runner
  set_moving r moving = record r { motion_moving = moving; motion_edge = true }

  -- `uwb_net_runner_wake`: the flag; the semaphore is `woken`.
  unfoldable pub runner_wake : Runner → Runner
  runner_wake r = record r { force_full_window = true }
