-- ===== src/Runner/Flags.antt =====
-- The flags of an action word: which parts of step 4 of src/uwb_net_runner.c they let run.
use tag_testting.Common.{
  ℕ, ◌≡◌, ◌⊎◌, ◌∙◌, refl, ap, Bool, true, false, not, ◌||◌, ◌==◌, bit_and, bit_or, and-and,
  and_none, flag-or, arith, List, Option,
}
use tag_testting.Storage.{Nvs}
use tag_testting.Cal.Store.{cal_is_valid}
use tag_testting.Net.Act
use tag_testting.Net.Tiers.{Table}
use tag_testting.Net.Machine.{Event, Ctx, handle, lease_age}
use tag_testting.Net.Machine.EvKind.{grant, grant_miss}
use tag_testting.Alert.Persist.{tag_alert_active}
use tag_testting.Runner.{Runner, Turn}
use tag_testting.Runner.Listen.{climb, decide}
use tag_testting.Runner.Exchange.{has, join_part, grant_event}

pub has-or : (a b m : ℕ) → has (bit_or a b) m ≡ (has a m || has b m)
has-or a b m = ground (arith, flag-or a b m)

-- A mask that covers a flag keeps it.
pub has-mask : (act mask m : ℕ) → bit_and mask m ≡ m → has (bit_and act mask) m ≡ has act m
has-mask act mask m h = ap (λ t. not (t == 0)) (and-and act mask m ∙ ap (λ t. bit_and act t) h)

-- A mask without a flag clears it.
pub cleared-mask : (act mask m : ℕ) → bit_and mask m ≡ 0 → has (bit_and act mask) m ≡ false
cleared-mask act mask m h =
    ap (λ t. not (t == 0)) (and-and act mask m ∙ ap (λ t. bit_and act t) h ∙ and_none act)

-- The calibration gate keeps every flag but the sweep's.
pub has-gate_actions :
    (act : ℕ) (valid : Bool) (m : ℕ)
    → bit_and 0xffff_fff7 m ≡ m
    → has (Act.gate_actions act valid) m ≡ has act m
unfolding Act.gate_actions
has-gate_actions act true m h = refl
has-gate_actions act false m h = has-mask act 0xffff_fff7 m h

-- The gate of an uncalibrated tag clears the sweep.
pub sweep-gate_actions : (act : ℕ) → has (Act.gate_actions act false) Act.run_sweep ≡ false
unfolding Act.gate_actions
sweep-gate_actions act = cleared-mask act 0xffff_fff7 Act.run_sweep refl

pub sweep_gated :
    (act : ℕ) (valid : Bool)
    → has act Act.run_sweep ≡ false
    → has (Act.gate_actions act valid) Act.run_sweep ≡ false
unfolding Act.gate_actions
sweep_gated act true h = h
sweep_gated act false h = sweep-gate_actions act

-- A union with a word that has not the flag.
has-or_false : (a b m : ℕ) → has b m ≡ false → has (bit_or a b) m ≡ has a m
has-or_false a b m h = ground (arith, has-or a b m)

-- Without a pending alert the machine sends none.
no_alert :
    (tbl : Table) (c : Ctx) (ev : Event)
    → ev.alert_pending ≡ false
    → has (handle tbl c ev).1 Act.send_alert ≡ false
unfolding handle lease_age
no_alert tbl c ev h = ground arith

-- A grant, or its absence, asks for no keepalive, no sweep and no alert.
after_grant :
    (tbl : Table) (c : Ctx) (ev : Event)
    → (ev.kind ≡ grant) ⊎ (ev.kind ≡ grant_miss)
    → ev.alert_pending ≡ false
    → (has (handle tbl c ev).1 Act.send_keepalive ≡ false)
      × (has (handle tbl c ev).1 Act.run_sweep ≡ false)
      × (has (handle tbl c ev).1 Act.send_alert ≡ false)
unfolding handle lease_age
after_grant tbl c ev k h = ground arith

grant_event_lem :
    (frame : Option (List ℕ)) (eui : List ℕ)
    → ((grant_event frame eui).kind ≡ grant ⊎ (grant_event frame eui).kind ≡ grant_miss)
      × ((grant_event frame eui).alert_pending ≡ false)
unfolding grant_event
grant_event_lem frame eui = ground arith

module _ (N : Nvs) where
  -- The answer to a join request adds none of the three.
  pub flags-join_part :
      (r : Runner N) (t : Turn N) (act : ℕ)
      → let act' = (join_part N r t act).1 in
        (has act' Act.send_keepalive ≡ has act Act.send_keepalive)
        × (has act' Act.run_sweep ≡ has act Act.run_sweep)
        × (has act' Act.send_alert ≡ has act Act.send_alert)
  unfolding join_part
  flags-join_part r t act =
      let ev = grant_event t.grant_frame r.runner_eui in
      let more = (handle r.tiers r.ctx ev).1 in
      let valid = cal_is_valid N r.cal in
      let gated = Act.gate_actions more valid in
      let kind = grant_event_lem t.grant_frame r.runner_eui in
      let absent = after_grant r.tiers r.ctx ev kind.0 kind.1 in
      ground (
        arith,
        has-or_false act gated Act.send_keepalive
            (has-gate_actions more valid Act.send_keepalive refl ∙ absent.0),
        has-or_false act gated Act.run_sweep (sweep_gated more valid absent.1),
        has-or_false act gated Act.send_alert
            (has-gate_actions more valid Act.send_alert refl ∙ absent.2),
      )

  -- An alert goes out for a pending one only.
  pub alert-decide :
      (r : Runner N) (ev : Event) (scanning : Bool)
      → tag_alert_active N r.alert ≡ false
      → has (decide N r ev scanning).1 Act.send_alert ≡ false
  unfolding decide
  alert-decide r ev scanning h =
      let ev' = record ev { alert_pending = tag_alert_active N r.alert } in
      let climbed = climb N r ev' scanning in
      has-gate_actions (handle r.tiers climbed.ctx ev').1 (cal_is_valid N r.cal) Act.send_alert refl
      ∙ no_alert r.tiers climbed.ctx ev' h
