-- ===== src/Runner/Listen.antt =====
-- Steps 2 and 3 of the loop in src/uwb_net_runner.c: the beacon window is planned, waited for and
-- listened to, and what came of it becomes the event of the superframe.
use tag_testting.Common.{
  ℕ, ◌+◌, ◌-◌, ◌^◌, Bool, true, false, not, ◌&&◌, Option, none, some, List, [], ◌∷◌, ◌==◌, ltb, leb,
  if◌then◌else◌, u32, sub32, u8, length,
}
use tag_testting.Storage.{Nvs}
use tag_testting.Alert.Persist.{tag_alert_active}
use tag_testting.Backoff
use tag_testting.Cal.Store.{cal_is_valid}
use tag_testting.Frame.Header.{Result, ok, err}
use tag_testting.Frame.Beacon.{Beacon, is_beacon, parse_beacon, beacon_find_addr}
use tag_testting.Net.Act
use tag_testting.Net.Machine.{Event, EvKind, State, handle}
use tag_testting.Net.Machine.EvKind.{beacon, beacon_miss}
use tag_testting.Net.Tiers.{get_tier_params}
use tag_testting.Sched
use tag_testting.Stats
use tag_testting.Track.{BeaconTrack}
use tag_testting.Track
use tag_testting.Runner.{
  Runner, Turn, Effect, Heard, plain_event, dw_wake_guard_ms, t_superframe_ms, t_beacon_ms,
}
use tag_testting.Runner.Effect.{naps}

abbrev pub is_scan : State → Bool
is_scan State.scan = true
is_scan _ = false

-- `bt_narrow`, `bt_arm_ms`, `bt_window_ms` and `eff_skip`
pub record Aim : Type 0 where
  pub narrow : Bool
  pub arm_ms : ℕ
  pub window_ms : ℕ
  pub eff_skip : ℕ

-- `(int32_t)(a - b) > 0`
abbrev pub is_after : ℕ → ℕ → Bool
is_after a b = let d = sub32 a b in ltb 0 d && ltb d (2 ^ 31)

-- `UWB_FRAME_LEN_BEACON`
abbrev pub len_beacon : ℕ
len_beacon = 37

-- The receive loop to a deadline: the first beacon of the full length, and when it came.
unfoldable pub listen : ℕ → List Heard → Option (List ℕ × ℕ)
listen deadline [] = none
listen deadline (h ∷ hs) =
    let later = listen deadline hs in
    if not (is_after deadline h.before_ms) then none else elim (h.frame) [
      | none ↦ later
      | some buf ↦
          (if length buf == len_beacon && is_beacon buf (length buf)
            then some (buf, h.after_ms)
            else later)
    ]

-- The event of a beacon, for the tag's short address.
unfoldable pub beacon_event : Beacon → ℕ → Event
beacon_event b short_addr =
    let found = beacon_find_addr (some b.slot_map) b.n_slots short_addr in
    record (plain_event beacon 0) {
      proto_ver = b.proto_ver;
      frame_counter = b.frame_counter;
      in_map = elim found [ none ↦ false | some i ↦ true ];
      map_slot = elim found [ none ↦ 0 | some i ↦ u8 i ];
    }

-- `beacon_track_plan`, with no superframe skipped.
unfoldable pub near_plan : BeaconTrack → Aim
near_plan bt =
    let w = Track.plan bt in
    record { narrow = w.narrow; arm_ms = w.arm_at_ms; window_ms = w.window_ms; eff_skip = 1 }

module _ (N : Nvs) where
  -- The plan of the window, before a request for a full one.
  unfoldable pub plan_window : Runner N → Aim
  unfolding near_plan
  plan_window r =
      let near = near_plan r.bt in
      let far = Sched.plan r.sched (get_tier_params r.tiers r.ctx.tier).listen_skip in
      if is_scan r.ctx.state
      then record near { narrow = false }
      else if near.narrow && r.sched.have_ref
      then record near {
        arm_ms = far.arm_ms;
        window_ms = far.window_ms;
        eff_skip = far.effective_skip;
      }
      else near

  -- `force_full_window` is taken.
  unfoldable pub aim : Runner N → Runner N × Aim
  unfolding plan_window
  aim r =
      if r.force_full_window
      then (
        record r { force_full_window = false },
        record (plan_window r) { narrow = false; eff_skip = 1 },
      )
      else (r, plan_window r)

  -- The interval before a probe out of coverage.
  unfoldable pub probe_ms : Runner N → ℕ
  probe_ms r = if r.dw_sleep_enabled && r.radio_asleep then Backoff.next_ms r.backoff else 0

  -- The wait in front of the window.
  unfoldable pub wait : Runner N → Turn N → Aim → Runner N × Aim × List Effect
  unfolding probe_ms
  wait r t a =
      if is_scan r.ctx.state
      then (
        r,
        a,
        if ltb dw_wake_guard_ms (probe_ms r)
            then naps (u32 (t.sleep_ms + probe_ms r - dw_wake_guard_ms)) ∷ []
            else [],
      )
      else if a.narrow && is_after (sub32 a.arm_ms dw_wake_guard_ms) t.sleep_ms
      then (
        if t.woken then record r { force_full_window = false } else r,
        if t.woken then record a { narrow = false; eff_skip = 1 } else a,
        naps (sub32 a.arm_ms dw_wake_guard_ms) ∷ [],
      )
      else (r, a, [])

  -- `bcn_deadline`
  unfoldable pub deadline_of : Aim → Turn N → ℕ
  deadline_of a t =
      if a.narrow
      then u32 (a.arm_ms + a.window_ms)
      else u32 (t.open_ms + t_superframe_ms + t_beacon_ms)

  -- The branches without a beacon.
  unfoldable pub sense_miss : Runner N → Runner N × Event
  sense_miss r = (
    record r { rx_stats = Stats.miss r.rx_stats; bt = Track.miss r.bt; sched = Sched.miss r.sched },
    plain_event beacon_miss 0,
  )

  -- The branches with a beacon, by what its parser says.
  unfoldable pub learn : Runner N → Turn N → Aim → ℕ → Result Beacon → Runner N × Event
  unfolding sense_miss beacon_event
  learn r t a rx_ms (err e) = sense_miss r
  learn r t a rx_ms (ok b) = (
    record r {
      rx_stats = Stats.beacon r.rx_stats t.arm_cyc t.event_cyc;
      sched = Sched.observe r.sched rx_ms b.frame_counter;
      bt = if leb a.eff_skip 1 then Track.beacon r.bt rx_ms else r.bt;
    },
    beacon_event b r.ctx.short_addr,
  )

  -- Step 3: the event, and what the trackers learn.
  unfoldable pub sense : Runner N → Turn N → Aim → Option (List ℕ × ℕ) → Runner N × Event
  unfolding sense_miss learn
  sense r t a none = sense_miss r
  sense r t a (some (buf, rx_ms)) = learn r t a rx_ms (parse_beacon buf (length buf))

  abbrev pub is_heard : EvKind → Bool
  is_heard beacon = true
  is_heard _ = false

  -- The coverage ladder, given whether the tag was scanning.
  unfoldable pub climb : Runner N → Event → Bool → Runner N
  climb r ev scanning =
      let pinned = Backoff.alert r.backoff ev.alert_pending in
      record r {
        backoff =
            if is_heard ev.kind
            then Backoff.reset pinned
            else if scanning
            then Backoff.fail pinned
            else pinned;
      }

  -- The event goes to the machine, and its actions through the calibration gate.
  unfoldable pub decide : Runner N → Event → Bool → Runner N × ℕ
  unfolding climb
  decide r sensed scanning =
      let ev = record sensed { alert_pending = tag_alert_active N r.alert } in
      let climbed = climb r ev scanning in
      let (ctx', act) = handle r.tiers climbed.ctx ev in
      (record climbed { ctx = ctx' }, Act.gate_actions act (cal_is_valid N r.cal))
