-- ===== src/Runner/Silence.antt =====
-- A superframe of src/uwb_net_runner.c without a beacon.
use mathlib.Core.List.{append-nil}
use tag_testting.Common.{ℕ, ◌≡◌, ◌≢◌, ◌∙◌, refl, sym, Bool, true, false, none, [], ◌++◌, arith}
use tag_testting.Storage.{Nvs}
use tag_testting.Alert.Persist.{tag_alert_active}
use tag_testting.Cal.Store.{cal_is_valid}
use tag_testting.Net.Act
use tag_testting.Net.Tiers.{Table}
use tag_testting.Net.Machine.{Event, Ctx, handle, lease_age}
use tag_testting.Net.Machine.EvKind.{beacon_miss}
use tag_testting.Net.Machine.State.{scan}
use tag_testting.Runner.{Runner, Turn, Effect}
use tag_testting.Runner.Listen.{Aim, sense, sense_miss, climb, decide, is_scan}
use tag_testting.Runner.Exchange.{
  has, join_part, keepalive_part, alert_part, quiet, discover_part, sweep_part, sleep_part, act_out,
}
use tag_testting.Runner.Superframe.{hear, react, superframe}
use tag_testting.Runner.Effects.{
  pick, pick-append, pick_local, is_tx, is_tx-OfTx, is_alert_tx, is_alert_tx-OfTx, is_local,
  all_local, OfTx, local-hear,
}
use tag_testting.Runner.Flags.{has-gate_actions, has-mask, cleared-mask, sweep_gated}

-- A word of the machine that only an alert can go out for.
abbrev pub Still : ℕ → Type 0
Still act =
    (has act Act.send_join ≡ false)
    × (has act Act.send_keepalive ≡ false)
    × (has act Act.run_discover ≡ false)
    × (has act Act.run_sweep ≡ false)

Still-handle :
    (tbl : Table) (c : Ctx) (ev : Event) → ev.kind ≡ beacon_miss → Still (handle tbl c ev).1
unfolding handle lease_age
Still-handle tbl c ev h = ground arith

quiet_word :
    (tbl : Table) (c : Ctx) (ev : Event)
    → ev.kind ≡ beacon_miss
    → c.state ≢ scan
    → has (handle tbl c ev).1 Act.send_alert ≡ false
unfolding handle lease_age
quiet_word tbl c ev h k = ground arith

module _ (N : Nvs) where
  Still-decide :
      (r : Runner N) (ev : Event) (scanning : Bool)
      → ev.kind ≡ beacon_miss
      → let act = (decide N r ev scanning).1 in
        Still act × (r.ctx.state ≢ scan → has act Act.send_alert ≡ false)
  unfolding decide climb
  Still-decide r ev scanning h =
      let ev' = record ev { alert_pending = tag_alert_active N r.alert } in
      let climbed = climb N r ev' scanning in
      let word = (handle r.tiers climbed.ctx ev').1 in
      let valid = cal_is_valid N r.cal in
      let still = Still-handle r.tiers climbed.ctx ev' h in
      (
        (
          has-gate_actions word valid Act.send_join refl ∙ still.0,
          has-gate_actions word valid Act.send_keepalive refl ∙ still.1,
          has-gate_actions word valid Act.run_discover refl ∙ still.2,
          sweep_gated word valid still.3,
        ),
        λ k.
            has-gate_actions word valid Act.send_alert refl
            ∙ quiet_word r.tiers climbed.ctx ev' h k,
      )

  Still-react :
      (r : Runner N) (t : Turn N) (a : Aim)
      → let act = (react N r t a none).1 in
        Still act × (r.ctx.state ≢ scan → has act Act.send_alert ≡ false)
  unfolding react sense sense_miss
  Still-react r t a = Still-decide (sense_miss N r).0 (sense_miss N r).1 (is_scan r.ctx.state) refl

  still-join_part :
      (r : Runner N) (t : Turn N) (act : ℕ)
      → has act Act.send_join ≡ false
      → join_part N r t act ≡ (r, act, [])
  unfolding join_part
  still-join_part r t act h = ground arith

  still-alert_part :
      (r : Runner N) (t : Turn N) (act : ℕ)
      → (pick is_tx (alert_part N r t act).1 ≡ pick is_alert_tx (alert_part N r t act).1)
        × (has act Act.send_alert ≡ false → pick is_tx (alert_part N r t act).1 ≡ [])
  unfolding alert_part pick is_tx is_alert_tx is_local
  still-alert_part r t act = ground arith

  quiet-Still :
      (r : Runner N) (act : ℕ)
      → Still act
      → (has (quiet N r act) Act.run_discover ≡ false) × (has (quiet N r act) Act.run_sweep ≡ false)
  unfolding quiet
  quiet-Still r act h = ground (
    arith,
    has-mask act 0xffff_fffb Act.run_sweep refl,
    cleared-mask act 0xffff_fffb Act.run_discover refl,
  )

  no_keepalive :
      (r : Runner N) (t : Turn N) (act : ℕ)
      → has act Act.send_keepalive ≡ false
      → keepalive_part N r t act ≡ []
  unfolding keepalive_part
  no_keepalive r t act h = ground arith

  no_discover :
      (r : Runner N) (t : Turn N) (act : ℕ)
      → has act Act.run_discover ≡ false
      → (discover_part N r t act).1 ≡ []
  unfolding discover_part
  no_discover r t act h = ground arith

  no_sweep :
      (r : Runner N) (t : Turn N) (act : ℕ)
      → has act Act.run_sweep ≡ false
      → (sweep_part N r t act).1 ≡ []
  unfolding sweep_part
  no_sweep r t act h = ground arith

  local-sleep_part :
      (r : Runner N) (t : Turn N) (act : ℕ) → all_local (sleep_part N r t act).1 ≡ true
  unfolding sleep_part all_local is_local
  local-sleep_part r t act = ground arith

  rest-Still :
      (p : Effect → Bool) (r : Runner N) (t : Turn N) (act : ℕ)
      → OfTx p
      → Still act
      → pick p (act_out N r t act).1 ≡ pick p (alert_part N r t act).1
  unfolding act_out pick
  rest-Still p r t act o h =
      let kept = keepalive_part N r t act in
      let (r1, alerted) = alert_part N r t act in
      let act' = quiet N r1 act in
      let (r2, found) = discover_part N r1 t act' in
      let (r3, ranged) = sweep_part N r2 t act' in
      let slept = (sleep_part N r3 t act').1 in
      let still = quiet-Still r1 act h in
      rw
        (
          pick-append p (kept ++ alerted ++ found ++ ranged) slept,
          pick-append p (kept ++ alerted ++ found) ranged,
          pick-append p (kept ++ alerted) found,
          pick-append p kept alerted,
          no_keepalive r t act h.1,
          no_discover r1 t act' still.0,
          no_sweep r2 t act' still.1,
          pick_local p slept o (local-sleep_part r3 t act'),
        )
        (append-nil (pick p alerted ++ [] ++ [])
          ∙ append-nil (pick p alerted ++ [])
          ∙ append-nil (pick p alerted))

  -- What is picked after a window without a beacon is picked from the alert part.
  after-react :
      (p : Effect → Bool) (r : Runner N) (t : Turn N) (a : Aim)
      → OfTx p
      → let (r2, act) = react N r t a none in
        let (r3, act', joined) = join_part N r2 t act in
        pick p joined ++ pick p (act_out N r3 t act').1 ≡ pick p (alert_part N r2 t act).1
  unfolding pick
  after-react p r t a o =
      let (r2, act) = react N r t a none in
      let still = (Still-react r t a).0 in
      rw (still-join_part r2 t act still.0) (rest-Still p r2 t act o still)

  after-hear :
      (p : Effect → Bool) (r : Runner N) (t : Turn N)
      → OfTx p
      → (hear N r t).2 ≡ none
      → let (r2, act) = react N (hear N r t).0 t (hear N r t).1 none in
        pick p (superframe N r t).1 ≡ pick p (alert_part N r2 t act).1
  unfolding superframe
  after-hear p r t o h =
      let (r1, aimed, got, heard) = hear N r t in
      let (r2, act) = react N r1 t aimed got in
      let (r3, act', joined) = join_part N r2 t act in
      let done = (act_out N r3 t act').1 in
      rw
        (
          pick-append p (heard ++ joined) done,
          pick-append p heard joined,
          pick_local p heard o (local-hear N r t),
          h,
        )
        (after-react p r1 t aimed o)

  -- A superframe without a beacon transmits nothing but an alert, and outside SCAN not even that.
  pub silent_without_beacon :
      (r : Runner N) (t : Turn N)
      → (hear N r t).2 ≡ none
      → (pick is_tx (superframe N r t).1 ≡ pick is_alert_tx (superframe N r t).1)
        × ((hear N r t).0.ctx.state ≢ scan → pick is_tx (superframe N r t).1 ≡ [])
  silent_without_beacon r t h =
      let r1 = (hear N r t).0 in
      let aimed = (hear N r t).1 in
      let (r2, act) = react N r1 t aimed none in
      let alerted = still-alert_part r2 t act in
      let transmitted = after-hear is_tx r t is_tx-OfTx h in
      (
        transmitted ∙ alerted.0 ∙ sym (after-hear is_alert_tx r t is_alert_tx-OfTx h),
        λ k. transmitted ∙ alerted.1 ((Still-react r1 t aimed).1 k),
      )
