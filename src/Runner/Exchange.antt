-- ===== src/Runner/Exchange.antt =====
-- Step 4 of the loop in src/uwb_net_runner.c: the actions, in the order of the source. The position
-- that a sweep yields, in floating point, is left out.
use tag_testting.Common.{
  ℕ, ◌+◌, ◌-◌, ◌*◌, ◌%◌, Bool, true, false, not, ◌&&◌, ◌||◌, Option, none, some, List, [], ◌∷◌,
  ◌++◌, ◌==◌, ltb, leb, if◌then◌else◌, u32, u8, length, bytes_eq, replicate, bit_or, bit_and,
}
use tag_testting.Storage.{Nvs}
use tag_testting.Alert.Persist.{
  TagAlert, tag_alert_raise, tag_alert_cancel, tag_alert_frame_due, tag_alert_sent,
}
use tag_testting.Backoff
use tag_testting.Cal.Store.{cal_is_valid}
use tag_testting.Frame.Header.{ok, err, Built}
use tag_testting.Frame.Seat.{
  len_join, len_grant, len_keepalive, join_build, is_grant, parse_grant, keepalive_build,
}
use tag_testting.Frame.Reports.{len_alert, alert_build}
use tag_testting.Net.Act
use tag_testting.Net.Gate
use tag_testting.Net.Machine.{Event, handle}
use tag_testting.Net.Machine.EvKind.{grant, grant_miss, discovered, swept}
use tag_testting.Runner.{
  Runner, Turn, Effect, AlertCall, raises, cancels, plain_event, n_cap, t_beacon_ms, t_guard_ms,
  t_minislot_ms, t_slot_ms, t_superframe_ms, scan_quiet_rung,
}
use tag_testting.Runner.Effect.{
  tx_join, tx_keepalive, tx_alert, listens_grant, discovers, sweeps, naps, radio_sleep,
}

-- `act & bit`, as a test
abbrev pub has : ℕ → ℕ → Bool
has act bit = not (bit_and act bit == 0)

-- `sys_rand32_get() % N_CAP`, a mini-slot
abbrev pub minislot : ℕ → ℕ
minislot rand = u8 (rand % n_cap)

-- The event of a grant frame, for the tag's EUI.
unfoldable pub grant_event : Option (List ℕ) → List ℕ → Event
grant_event none eui = plain_event grant_miss 0
grant_event (some buf) eui =
    if length buf == len_grant && is_grant buf (length buf)
    then elim (parse_grant buf (length buf)) [
      | err e ↦ plain_event grant_miss 0
      | ok g ↦
          (if bytes_eq g.eui eui
            then record (plain_event grant 0) {
              g_short_addr = g.short_addr;
              g_slot = g.slot_index;
              g_tier = g.rate_tier;
              g_lease = g.lease;
            }
            else plain_event grant_miss 0)
    ]
    else plain_event grant_miss 0

-- `slot_start`
unfoldable pub slot_start : ℕ → ℕ → ℕ
slot_start t0_ms slot_index = u32 (
    t0_ms
    + t_beacon_ms
    + t_guard_ms
    + n_cap * t_minislot_ms
    + t_guard_ms
    + slot_index * (t_slot_ms + t_guard_ms))

-- The frame that a builder wrote, if it wrote one.
unfoldable pub frame_built : Built → Option (List ℕ)
frame_built (err e) = none
frame_built (ok (buf, len)) = if ltb 0 len then some buf else none

module _ (N : Nvs) where
  -- `UWB_ACT_SEND_JOIN`, which may add actions.
  unfoldable pub join_part : Runner N → Turn N → ℕ → Runner N × ℕ × List Effect
  unfolding grant_event frame_built
  join_part r t act =
      if has act Act.send_join
      then elim (frame_built (
          join_build (some (replicate len_join 0)) len_join (some r.runner_eui)
            (u8 r.ctx.req_tier))) [
              | none ↦ (r, act, [])
              | some frame ↦
                  let (ctx', more) =
                    handle r.tiers r.ctx (grant_event t.grant_frame r.runner_eui) in
                  (
                    record r { ctx = ctx' },
                    bit_or act (Act.gate_actions more (cal_is_valid N r.cal)),
                    tx_join frame (minislot t.join_rand) t.join_ok ∷ listens_grant ∷ [],
                  )
            ]
      else (r, act, [])

  -- `UWB_ACT_SEND_KEEPALIVE`
  unfoldable pub keepalive_part : Runner N → Turn N → ℕ → List Effect
  unfolding frame_built
  keepalive_part r t act =
      if has act Act.send_keepalive
      then elim (frame_built (
          keepalive_build (some (replicate len_keepalive 0)) len_keepalive r.ctx.short_addr
            (u8 r.ctx.req_tier) r.ctx.slot_index)) [
              | none ↦ []
              | some frame ↦ tx_keepalive frame (minislot t.keepalive_rand) t.keepalive_ok ∷ []
            ]
      else []

  -- The alert after the calls of other threads, in their order.
  unfoldable pub called : TagAlert N → List AlertCall → TagAlert N
  called a [] = a
  called a (raises now ∷ cs) = called (tag_alert_raise N a now) cs
  called a (cancels now ∷ cs) = called (tag_alert_cancel N a now) cs

  abbrev pub any_call : List AlertCall → Bool
  any_call [] = false
  any_call (c ∷ cs) = true

  -- The runner after such calls, each of which also wakes it.
  unfoldable pub interrupted : Runner N → List AlertCall → Runner N
  interrupted r cs = record r {
    alert = called r.alert cs;
    force_full_window = r.force_full_window || any_call cs;
  }

  -- `UWB_ACT_SEND_ALERT`, with the calls that land before and in it. The result of the transmission
  -- is not read.
  unfoldable pub alert_part : Runner N → Turn N → ℕ → Runner N × List Effect
  unfolding frame_built interrupted
  alert_part r0 t act =
      let r = interrupted r0 t.alert_calls in
      let (alert', due) =
        tag_alert_frame_due N r.alert r.ctx.short_addr t.alert_ms t.batt_soc t.last_pos in
      if has act Act.send_alert
      then elim due [
        | none ↦ (record r { alert = alert' }, [])
        | some a ↦
            elim (frame_built
              (alert_build (some (replicate len_alert 0)) len_alert r.ctx.short_addr a)) [
                | none ↦ (record r { alert = alert' }, [])
                | some frame ↦
                    let r' = interrupted (record r { alert = alert' }) t.late_calls in
                    (
                      record r' { alert = tag_alert_sent N r'.alert t.alert_ms },
                      tx_alert frame (minislot t.alert_rand) t.alert_ok ∷ [],
                    )
              ]
      ]
      else (r, [])

  -- The suppression of discovery while the ladder has climbed.
  unfoldable pub quiet : Runner N → ℕ → ℕ
  quiet r act =
      if leb scan_quiet_rung (Backoff.rung_of r.backoff)
      then bit_and act (0xffff_ffff - Act.run_discover)
      else act

  -- `UWB_ACT_RUN_DISCOVER`
  unfoldable pub discover_part : Runner N → Turn N → ℕ → Runner N × List Effect
  discover_part r t act =
      if has act Act.run_discover
      then (
        record r {
          sweep_gate = Gate.discovered r.sweep_gate t.discovered_ms (u8 t.n_found);
          ctx =
              (handle r.tiers r.ctx
                (record (plain_event discovered 0) { n_anchors = u8 t.n_found })).0;
        },
        discovers r.ctx.short_addr ∷ [],
      )
      else (r, [])

  -- `UWB_ACT_RUN_SWEEP`
  unfoldable pub sweep_part : Runner N → Turn N → ℕ → Runner N × List Effect
  unfolding slot_start
  sweep_part r t act =
      if has act Act.run_sweep
      then (if Gate.rediscover_due r.sweep_gate t.due_ms
          then (
            record r {
              sweep_gate = Gate.discovered r.sweep_gate t.rediscovered_ms (u8 t.n_refound);
            },
            discovers r.ctx.short_addr ∷ [],
          )
          else (
            record r {
              sweep_gate = Gate.swept r.sweep_gate (u8 t.n_swept);
              ctx =
                  (handle r.tiers r.ctx
                    (record (plain_event swept 0) { n_anchors = u8 t.n_swept })).0;
            },
            sweeps (slot_start t.t0_ms r.ctx.slot_index) ∷ [],
          ))
      else (r, [])

  -- `UWB_ACT_SLEEP`
  unfoldable pub sleep_part : Runner N → Turn N → ℕ → Runner N × List Effect
  sleep_part r t act =
      if has act Act.sleep
      then (if r.dw_sleep_enabled
          then (record r { radio_asleep = true }, radio_sleep ∷ [])
          else (r, naps (u32 (t.t0_ms + t_superframe_ms)) ∷ []))
      else (r, [])

  -- Step 4 after the join, with the actions it left.
  unfoldable pub act_out : Runner N → Turn N → ℕ → Runner N × List Effect
  unfolding keepalive_part alert_part quiet discover_part sweep_part sleep_part
  act_out r t act =
      let kept = keepalive_part r t act in
      let (r1, alerted) = alert_part r t act in
      let act' = quiet r1 act in
      let (r2, found) = discover_part r1 t act' in
      let (r3, ranged) = sweep_part r2 t act' in
      let (r4, slept) = sleep_part r3 t act' in (r4, kept ++ alerted ++ found ++ ranged ++ slept)
