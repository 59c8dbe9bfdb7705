-- ===== src/Runner/Help.antt =====
-- A HELP reaches the air: the superframes of src/uwb_net_runner.c with an active alert.
use tag_testting.Common.{
  ℕ, ◌^◌, ◌<◌, ◌≡◌, ◌≢◌, ◌⊎◌, ◌∙◌, refl, ap, Bool, true, ◌&&◌, Option, none, some, List, [], ◌∷◌,
  length, replicate, arith, ◌==◌,
}
use tag_testting.Storage.{Nvs}
use tag_testting.Alert.Message.{Alert}
use tag_testting.Alert.Persist.{tag_alert_active, tag_alert_frame_due, tag_alert_sent}
use tag_testting.Cal.Store.{cal_is_valid}
use tag_testting.Frame.Beacon.{is_beacon, parse_beacon}
use tag_testting.Frame.Header.{ok}
use tag_testting.Frame.Reports.{len_alert, alert_build}
use tag_testting.Frame.ReportTrips.{IsWire, CarriesAlert, alert_round_trip}
use tag_testting.Net.Act
use tag_testting.Net.Tiers.{Table}
use tag_testting.Net.Machine.{Event, Ctx, handle, lease_age}
use tag_testting.Net.Machine.EvKind.{beacon, beacon_miss}
use tag_testting.Net.Machine.State.{scan}
use tag_testting.Runner.{Runner, Turn, Heard, offer, choose_tier}
use tag_testting.Runner.Effect.{tx_alert}
use tag_testting.Runner.Listen.{
  Aim, aim, wait, deadline_of, len_beacon, listen, sense, sense_miss, beacon_event, climb, decide,
  is_scan,
}
use tag_testting.Runner.Exchange.{
  has, minislot, frame_built, join_part, called, interrupted, alert_part,
}
use tag_testting.Runner.Superframe.{hear, react, superframe}
use tag_testting.Runner.Effects.{pick, is_alert_tx}
use tag_testting.Runner.Flags.{has-gate_actions, flags-join_part}
use tag_testting.Runner.Alerts.{alert-hear, alert-sense, alert-superframe}

-- What a window gives is a beacon of the full length.
is_full : Option (List ℕ × ℕ) → Bool
is_full none = true
is_full (some (buf, ms)) = length buf == len_beacon && is_beacon buf (length buf)

full-listen : (deadline : ℕ) (hs : List Heard) → is_full (listen deadline hs) ≡ true
unfolding listen is_full
full-listen deadline [] = refl
full-listen deadline (x ∷ xs) = ground (arith, full-listen deadline xs)

alert_flag :
    (tbl : Table) (c : Ctx) (ev : Event)
    → ev.alert_pending ≡ true
    → (ev.kind ≡ beacon) ⊎ ((ev.kind ≡ beacon_miss) × (c.state ≡ scan))
    → has (handle tbl c ev).1 Act.send_alert ≡ true
unfolding handle lease_age
alert_flag tbl c ev h k = ground arith

module _ (N : Nvs) where
  -- The tag heard a beacon, or is scanning.
  abbrev pub Hears : Runner N → Option (List ℕ × ℕ) → Type 0
  Hears r got = (got ≢ none) ⊎ (r.ctx.state ≡ scan)

  sensed :
      (r : Runner N) (t : Turn N) (a : Aim) (got : Option (List ℕ × ℕ))
      → is_full got ≡ true
      → Hears r got
      → let (r', ev) = sense N r t a got in
        (ev.kind ≡ beacon) ⊎ ((ev.kind ≡ beacon_miss) × (r'.ctx.state ≡ scan))
  unfolding sense sense_miss beacon_event parse_beacon is_full
  sensed r t a none f h = ground arith
  sensed r t a (some (buf, ms)) f h = ground arith

  flag-decide :
      (r : Runner N) (ev : Event) (scanning : Bool)
      → tag_alert_active N r.alert ≡ true
      → (ev.kind ≡ beacon) ⊎ ((ev.kind ≡ beacon_miss) × (r.ctx.state ≡ scan))
      → has (decide N r ev scanning).1 Act.send_alert ≡ true
  unfolding decide climb
  flag-decide r ev scanning h k =
      let ev' = record ev { alert_pending = tag_alert_active N r.alert } in
      let climbed = climb N r ev' scanning in
      has-gate_actions (handle r.tiers climbed.ctx ev').1 (cal_is_valid N r.cal) Act.send_alert refl
      ∙ alert_flag r.tiers climbed.ctx ev' h k

  flag-react :
      (r : Runner N) (t : Turn N) (a : Aim) (got : Option (List ℕ × ℕ))
      → tag_alert_active N r.alert ≡ true
      → is_full got ≡ true
      → Hears r got
      → has (react N r t a got).1 Act.send_alert ≡ true
  unfolding react
  flag-react r t a got h f k =
      let (r', ev) = sense N r t a got in
      flag-decide r' ev (is_scan r.ctx.state)
        (ap (tag_alert_active N) (alert-sense N r t a got) ∙ h) (sensed r t a got f k)

  -- The runner in front of the alert part of a superframe, and the actions.
  abbrev pub before_alert : Runner N → Turn N → Runner N × ℕ
  before_alert r t =
      let (r1, aimed, got, heard) = hear N r t in
      let (r2, act) = react N r1 t aimed got in
      let (r3, act', joined) = join_part N r2 t act in (r3, act')

  sends-alert_part :
      (r : Runner N) (t : Turn N) (act : ℕ) (a : Alert) (frame : List ℕ)
      → has act Act.send_alert ≡ true
      → (tag_alert_frame_due N
          (called N r.alert t.alert_calls)
          r.ctx.short_addr
          t.alert_ms
          t.batt_soc
          t.last_pos).1
        ≡ some a
      → alert_build (some (replicate len_alert 0)) len_alert r.ctx.short_addr a
        ≡ ok (frame, len_alert)
      → let (alert', due) =
          tag_alert_frame_due N
            (called N r.alert t.alert_calls)
            r.ctx.short_addr
            t.alert_ms
            t.batt_soc
            t.last_pos in
        let (r', effects) = alert_part N r t act in
        (r'.alert ≡ tag_alert_sent N (called N alert' t.late_calls) t.alert_ms)
        × (pick is_alert_tx effects ≡ tx_alert frame (minislot t.alert_rand) t.alert_ok ∷ [])
  unfolding alert_part interrupted pick is_alert_tx frame_built
  sends-alert_part r t act a frame h d b = ground arith

  full-hear : (r : Runner N) (t : Turn N) → is_full (hear N r t).2 ≡ true
  unfolding hear
  full-hear r t =
      let r0 = (offer N r t).0 in
      let (r1, planned) = aim N (choose_tier N r0 t) in
      full-listen (deadline_of N (wait N r1 t planned).1 t) t.heard

  -- In a superframe that hears a beacon, or in SCAN, an active HELP is transmitted, if after the calls
  -- that land in the superframe a message is due that fits the wire: exactly one alert frame is sent,
  -- in a mini-slot, that the parser reads as the due message, from the tag's short address to the
  -- gateway. The alert, after the calls that land during the transmission, then counts it as sent,
  -- also if `uwb_radio_tx_cap` failed.
  pub help_goes_out :
      (r : Runner N) (t : Turn N) (a : Alert)
      → tag_alert_active N r.alert ≡ true
      → Hears (hear N r t).0 (hear N r t).2
      → let r' = (before_alert r t).0 in
        (tag_alert_frame_due N
            (called N r.alert t.alert_calls)
            r'.ctx.short_addr
            t.alert_ms
            t.batt_soc
            t.last_pos).1
          ≡ some a
        → IsWire a
        → (before_alert r t).0.ctx.short_addr < 2 ^ 16
        → let addr = (before_alert r t).0.ctx.short_addr in
          let alert' =
            (tag_alert_frame_due N
              (called N r.alert t.alert_calls)
              addr
              t.alert_ms
              t.batt_soc
              t.last_pos).0 in
          (frame : List ℕ) × CarriesAlert a addr frame []
          × (pick is_alert_tx (superframe N r t).1
              ≡ tx_alert frame (minislot t.alert_rand) t.alert_ok ∷ [])
          × ((superframe N r t).0.alert
              ≡ tag_alert_sent N (called N alert' t.late_calls) t.alert_ms)
  help_goes_out r t a active hears due wire word =
      let (r1, aimed, got, heard) = hear N r t in
      let (r2, act) = react N r1 t aimed got in
      let (r3, act') = before_alert r t in
      let parts = alert-superframe N r t in
      let built =
        (alert_round_trip (replicate len_alert 0) len_alert r3.ctx.short_addr a (omega arith) wire
            word).0
          (omega arith) in
      let flag =
        (flags-join_part N r2 t act).2
        ∙ flag-react r1 t aimed got (ap (tag_alert_active N) (alert-hear N r t) ∙ active)
            (full-hear r t) hears in
      let sends = sends-alert_part r3 t act' a built.0 flag (rw parts.0 due) built.1 in
      (built.0, built.2, parts.2 ∙ sends.1, parts.1 ∙ sends.0 ∙ rw parts.0)
