-- ===== src/Runner/Tests.antt =====
-- The theorems on src/uwb_net_runner.c for a tag over a flash in memory.
mod Tag
use tag_testting.Common.{
  ltb, length, ℤ, pos, ◌/◌, ℕ, ◌+◌, ◌*◌, ◌≤◌, ◌≡◌, ◌≢◌, ◌⊎◌, inr, refl, ap, true, false, none, some,
  List, [], ◌∷◌, replicate, u32, sub32, arith,
}
use tag_testting.Storage.Memory.{memory, memory-IsLawful}
use tag_testting.Alert.Message.{Alert}
use tag_testting.Alert.Core.{help, cancelling, due}
use tag_testting.Alert.Persist.{
  TagAlert, tag_alert_frame_due, tag_alert_sent, tag_alert_active, frame_of,
}
use tag_testting.Cal.Store.{cal_is_valid, cal_get_ant_dly}
use tag_testting.Frame.ReportTrips.{IsWire, CarriesAlert}
use tag_testting.Net.Act
use tag_testting.Net.Filter.{tier_filter}
use tag_testting.Net.Machine.{State}
use tag_testting.Net.Machine
use tag_testting.Stats
use tag_testting.Track
use tag_testting.Runner.{
  Runner, offer, choose_tier, take_tier, take_edge, filter_tier, wake_radio, t_beacon_ms,
  t_minislot_ms,
}
use tag_testting.Runner.Effect.{tx_alert, sweeps}
use tag_testting.Runner.Listen.{
  Aim, near_plan, plan_window, aim, wait, deadline_of, listen, probe_ms, sense, sense_miss, climb,
  decide,
}
use tag_testting.Runner.Exchange.{called, minislot, slot_start, join_part}
use tag_testting.Runner.Superframe.{hear, react, superframe, run}
use tag_testting.Runner.Effects.{pick, is_alert_tx, is_sweep_tx, is_tx}
use tag_testting.Runner.Alerts.{cancel_never_sent}
use tag_testting.Runner.Help.{before_alert, help_goes_out}
use tag_testting.Runner.Sweeps.{Listed, sweep_in_slot}
use tag_testting.Runner.Radio.{Radio, Agrees, exec, radio_is_ready}
use tag_testting.Runner.Silence.{silent_without_beacon}
use tag_testting.Runner.Comeback.{cancel_undone_by_reset}
use tag_testting.Alert.Persist.Reboot.{AlertOp, apply_op, run_ops}
use tag_testting.Alert.Persist.{
  tag_alert_init, tag_alert_raise, tag_alert_cancel, restore, boot_core, alert_persist_locked,
}
use tag_testting.Alert.Core.{raise, cancel, init}
use tag_testting.Storage.{storage_read, storage_write}
use tag_testting.Runner.Pool.{Scores, AnchorEntry, empty_entry, anchor_select_max, run_discovery}
use tag_testting.Runner.Pool.Distinct.{entries_of, occurrences, IsDistinct, discovery_selects}
use tag_testting.Runner.Window.{full_window}
use tag_testting.Runner.Tests.Tag.{
  eui, mounted, alert_in, ctx_in, tag_in, heard_beacon, heard_nothing,
}

cancel_never_sent_example :
    ((run memory (tag_in State.ranging cancelling) (heard_beacon ∷ heard_nothing ∷ [])).0.alert
      ≡ alert_in cancelling)
    × (pick is_alert_tx
          (run memory (tag_in State.ranging cancelling) (heard_beacon ∷ heard_nothing ∷ [])).1
        ≡ [])
cancel_never_sent_example =
    cancel_never_sent memory (tag_in State.ranging cancelling) (heard_beacon ∷ heard_nothing ∷ [])
      refl (refl, (refl, tt))

abbrev calling : Runner memory
calling = tag_in State.scan help

abbrev call : Alert
call = record {
  state = 1;
  epoch = 7;
  repeat_seq = 2;
  sender_hop = 0xff;
  ttl = 6;
  orig_eui = eui;
  orig_addr = 0x1001;
  batt_soc = 80;
  last_x = 0x7fc0_0000;
  last_y = 0x7fc0_0000;
}

call-IsWire : IsWire call
call-IsWire = ground arith

-- The tag in its window, with the movement noted.
abbrev listening : Runner memory
listening = record calling { ctx = record (ctx_in State.scan) { last_active_ms = 2000 } }

abbrev wide : Aim
wide = record { narrow = false; arm_ms = 0; window_ms = 0; eff_skip = 1 }

chosen_example : choose_tier memory calling heard_nothing ≡ listening
unfolding choose_tier take_tier take_edge filter_tier tier_filter Machine.init
chosen_example = refl

aimed_example : aim memory listening ≡ (listening, wide)
unfolding aim plan_window near_plan Track.plan Track.reset
aimed_example = refl

waited_example : wait memory listening heard_nothing wide ≡ (listening, wide, [])
unfolding wait probe_ms
waited_example = refl

heard_example :
    ((hear memory calling heard_nothing).0 ≡ listening)
    × ((hear memory calling heard_nothing).1 ≡ wide)
    × ((hear memory calling heard_nothing).2 ≡ none)
unfolding hear offer wake_radio listen
heard_example = rw (chosen_example, aimed_example, waited_example) (refl, refl, refl)

reacted_example :
    ((react memory listening heard_nothing wide none).0.ctx ≡ listening.ctx)
    × ((react memory listening heard_nothing wide none).1 ≡ 80)
unfolding react sense sense_miss decide climb Machine.handle Act.gate_actions tag_alert_active
    cal_is_valid
reacted_example = (refl, refl)

addr_example : (before_alert memory calling heard_nothing).0.ctx.short_addr ≡ 0x1001
unfolding join_part
addr_example =
    rw (heard_example.0, heard_example.1, heard_example.2, reacted_example.1)
      (ap (λ c. c.short_addr) reacted_example.0)

due_example :
    (addr : ℕ)
    → addr ≡ 0x1001
    → (tag_alert_frame_due memory (alert_in help) addr 2110 80 none).1 ≡ some call
unfolding tag_alert_frame_due frame_of due sub32
due_example addr h = rw h refl

help_goes_out_example :
    let addr = (before_alert memory calling heard_nothing).0.ctx.short_addr in
    let alert' = (tag_alert_frame_due memory (alert_in help) addr 2110 80 none).0 in
    (frame : List ℕ) × CarriesAlert call addr frame []
    × (pick is_alert_tx (superframe memory calling heard_nothing).1
        ≡ tx_alert frame (minislot 7) true ∷ [])
    × ((superframe memory calling heard_nothing).0.alert ≡ tag_alert_sent memory alert' 2110)
unfolding tag_alert_active called
help_goes_out_example =
    help_goes_out memory calling heard_nothing call refl
      (inr (ap (λ r. r.ctx.state) heard_example.0))
      (due_example (before_alert memory calling heard_nothing).0.ctx.short_addr addr_example)
      call-IsWire (rw addr_example (omega arith))

sweep_in_slot_example :
    let r = tag_in State.ranging help in
    let (r1, aimed, got, heard) = hear memory r heard_beacon in
    (pick is_sweep_tx (superframe memory r heard_beacon).1 ≡ [])
    ⊎ ((cal_is_valid memory r1.cal ≡ true)
        × (slot : ℕ) × Listed memory r1.ctx.short_addr got slot
        × (pick is_sweep_tx (superframe memory r heard_beacon).1
            ≡ sweeps (slot_start 2100 slot) ∷ []))
sweep_in_slot_example = sweep_in_slot memory (tag_in State.ranging help) heard_beacon

abbrev awake_radio : Radio
awake_radio = record { asleep = false; delays = some (16400, 16390); misused = false }

awake_radio-Agrees : Agrees memory (tag_in State.ranging help) awake_radio
unfolding cal_get_ant_dly
awake_radio-Agrees = record { same_sleep = refl; never_misused = refl; delays_set = λ h. refl }

radio_is_ready_example :
    let (r', effects) = superframe memory (tag_in State.ranging help) heard_beacon in
    Agrees memory r' (exec (cal_get_ant_dly memory r'.cal) awake_radio effects)
radio_is_ready_example =
    radio_is_ready memory heard_beacon (tag_in State.ranging help) awake_radio awake_radio-Agrees

silent_without_beacon_example :
    let r = tag_in State.ranging help in
    (pick is_tx (superframe memory r heard_nothing).1
      ≡ pick is_alert_tx (superframe memory r heard_nothing).1)
    × ((hear memory r heard_nothing).0.ctx.state ≢ State.scan
        → pick is_tx (superframe memory r heard_nothing).1 ≡ [])
unfolding hear listen
silent_without_beacon_example =
    silent_without_beacon memory (tag_in State.ranging help) heard_nothing refl

abbrev pressed : Runner memory
pressed = record (tag_in State.ranging help) { force_full_window = true }

-- A HELP that was called and cancelled.
abbrev cancelled_day : List AlertOp
cancelled_day = AlertOp.raises 1000 ∷ AlertOp.cancels 5000 ∷ []

abbrev cancelled : TagAlert memory
cancelled = run_ops memory (tag_alert_init memory mounted eui) cancelled_day

cancelled_example : cancelled.core.state ≡ cancelling
unfolding run_ops apply_op tag_alert_init restore boot_core tag_alert_raise tag_alert_cancel raise
    cancel init storage_read alert_persist_locked storage_write
cancelled_example = refl

cancel_undone_by_reset_example :
    let r = record (tag_in State.ranging help) { alert = cancelled } in
    let t' = tag_alert_init memory (run memory r (heard_beacon ∷ [])).0.alert.storage eui in
    (t'.core.state ≡ help) × (t'.core.epoch ≡ cancelled.core.epoch)
cancel_undone_by_reset_example =
    cancel_undone_by_reset memory memory-IsLawful (λ f id item. refl) mounted eui cancelled_day refl
      cancelled_example (record (tag_in State.ranging help) { alert = cancelled })
      (heard_beacon ∷ []) (refl, tt) refl

-- Scores that are plain numbers.
abbrev plain_scores : Scores
plain_scores = record {
  Score = ℕ;
  zero_score = 0;
  score_of = λ p q. q;
  averaged = λ a b. (3 * a + 7 * b) / 10;
  decayed = λ a. a / 2;
  is_less = λ a b. ltb a b;
}

abbrev empty_pool : List (AnchorEntry plain_scores)
empty_pool = replicate 6 (empty_entry plain_scores)

empty_pool-IsDistinct : (x : ℕ) → entries_of plain_scores x empty_pool ≤ 1
unfolding entries_of
empty_pool-IsDistinct x = omega arith

abbrev three_responses : List (ℕ × ℤ × ℕ)
three_responses = (1, pos 0, 80) ∷ (3, pos 0, 95) ∷ (1, pos 0, 70) ∷ []

discovery_selects_example :
    let (es', selected) = run_discovery plain_scores empty_pool true three_responses in
    IsDistinct plain_scores es'
    × (length es' ≡ 6)
    × (length selected ≤ anchor_select_max)
    × ((x : ℕ)
        → (occurrences x selected ≤ entries_of plain_scores x es') × (occurrences x selected ≤ 1))
discovery_selects_example =
    discovery_selects plain_scores empty_pool true three_responses empty_pool-IsDistinct
