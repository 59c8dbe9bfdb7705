-- ===== src/Runner/Alerts.antt =====
-- Which alerts the superframes of src/uwb_net_runner.c send.
use tag_testting.Common.{ℕ, ◌≡◌, ◌∙◌, refl, ap, ap₂, false, Option, List, [], ◌∷◌, ◌++◌, All, arith}
use mathlib.Core.List.{append-nil}
use tag_testting.Storage.{Nvs}
use tag_testting.Alert.Core.{cancelling, is_help}
use tag_testting.Alert.Persist.{tag_alert_active}
use tag_testting.Net.Act
use tag_testting.Runner.{
  Runner, Turn, offer, choose_tier, take_tier, take_edge, filter_tier, wake_radio, taken_back,
}
use tag_testting.Runner.Listen.{Aim, aim, wait, sense, decide, is_scan}
use tag_testting.Runner.Exchange.{
  has, join_part, keepalive_part, alert_part, interrupted, called, quiet, discover_part, sweep_part,
  sleep_part, act_out,
}
use tag_testting.Runner.Superframe.{hear, react, superframe, run}
use tag_testting.Runner.Effects.{
  pick, pick-append, pick_local, is_alert_tx, is_alert_tx-OfTx, local-hear,
}
use tag_testting.Runner.Flags.{flags-join_part, alert-decide}

module _ (N : Nvs) where
  alert-offer : (r : Runner N) (t : Turn N) → (offer N r t).0.alert ≡ r.alert
  unfolding offer wake_radio taken_back
  alert-offer r t = ground arith

  alert-choose_tier : (r : Runner N) (t : Turn N) → (choose_tier N r t).alert ≡ r.alert
  unfolding choose_tier take_tier take_edge filter_tier
  alert-choose_tier r t = ground arith

  alert-aim : (r : Runner N) → (aim N r).0.alert ≡ r.alert
  unfolding aim
  alert-aim r = ground arith

  alert-wait : (r : Runner N) (t : Turn N) (a : Aim) → (wait N r t a).0.alert ≡ r.alert
  unfolding wait
  alert-wait r t a = ground arith

  alert-wake_radio : (r : Runner N) → (wake_radio N r).0.alert ≡ r.alert
  unfolding wake_radio
  alert-wake_radio r = ground arith

  pub alert-hear : (r : Runner N) (t : Turn N) → (hear N r t).0.alert ≡ r.alert
  unfolding hear
  alert-hear r t =
      let r0 = (offer N r t).0 in
      let (r1, planned) = aim N (choose_tier N r0 t) in
      alert-wake_radio (wait N r1 t planned).0
      ∙ alert-wait r1 t planned
      ∙ alert-aim (choose_tier N r0 t)
      ∙ alert-choose_tier r0 t
      ∙ alert-offer r t

  pub alert-sense :
      (r : Runner N) (t : Turn N) (a : Aim) (got : Option (List ℕ × ℕ))
      → (sense N r t a got).0.alert ≡ r.alert
  unfolding sense
  alert-sense r t a got = ground arith

  pub alert-react :
      (r : Runner N) (t : Turn N) (a : Aim) (got : Option (List ℕ × ℕ))
      → (react N r t a got).0.alert ≡ r.alert
  unfolding react decide
  alert-react r t a got = alert-sense r t a got

  -- No alert without one that is active.
  flag-react :
      (r : Runner N) (t : Turn N) (a : Aim) (got : Option (List ℕ × ℕ))
      → tag_alert_active N r.alert ≡ false
      → has (react N r t a got).1 Act.send_alert ≡ false
  unfolding react
  flag-react r t a got h =
      let (r', ev) = sense N r t a got in
      alert-decide N r' ev (is_scan r.ctx.state)
        (ap (tag_alert_active N) (alert-sense r t a got) ∙ h)

  alert-join_part :
      (r : Runner N) (t : Turn N) (act : ℕ)
      → ((join_part N r t act).0.alert ≡ r.alert) × (pick is_alert_tx (join_part N r t act).2 ≡ [])
  unfolding join_part pick is_alert_tx
  alert-join_part r t act = ground arith

  keepalive_lem :
      (r : Runner N) (t : Turn N) (act : ℕ) → pick is_alert_tx (keepalive_part N r t act) ≡ []
  unfolding keepalive_part pick is_alert_tx
  keepalive_lem r t act = ground arith

  alert-discover_part :
      (r : Runner N) (t : Turn N) (act : ℕ)
      → ((discover_part N r t act).0.alert ≡ r.alert)
        × (pick is_alert_tx (discover_part N r t act).1 ≡ [])
  unfolding discover_part pick is_alert_tx
  alert-discover_part r t act = ground arith

  alert-sweep_part :
      (r : Runner N) (t : Turn N) (act : ℕ)
      → ((sweep_part N r t act).0.alert ≡ r.alert)
        × (pick is_alert_tx (sweep_part N r t act).1 ≡ [])
  unfolding sweep_part pick is_alert_tx
  alert-sweep_part r t act = ground arith

  alert-sleep_part :
      (r : Runner N) (t : Turn N) (act : ℕ)
      → ((sleep_part N r t act).0.alert ≡ r.alert)
        × (pick is_alert_tx (sleep_part N r t act).1 ≡ [])
  unfolding sleep_part pick is_alert_tx
  alert-sleep_part r t act = ground arith

  -- The alerts of step 4 are those of its alert part.
  alert-act_out :
      (r : Runner N) (t : Turn N) (act : ℕ)
      → ((act_out N r t act).0.alert ≡ (alert_part N r t act).0.alert)
        × (pick is_alert_tx (act_out N r t act).1 ≡ pick is_alert_tx (alert_part N r t act).1)
  unfolding act_out
  alert-act_out r t act =
      let kept = keepalive_part N r t act in
      let (r1, alerted) = alert_part N r t act in
      let act' = quiet N r1 act in
      let (r2, found) = discover_part N r1 t act' in
      let (r3, ranged) = sweep_part N r2 t act' in
      let slept = (sleep_part N r3 t act').1 in
      (
        (alert-sleep_part r3 t act').0
            ∙ (alert-sweep_part r2 t act').0
            ∙ (alert-discover_part r1 t act').0,
        rw
            (
              pick-append is_alert_tx (kept ++ alerted ++ found ++ ranged) slept,
              pick-append is_alert_tx (kept ++ alerted ++ found) ranged,
              pick-append is_alert_tx (kept ++ alerted) found,
              pick-append is_alert_tx kept alerted,
              keepalive_lem r t act,
              (alert-discover_part r1 t act').1,
              (alert-sweep_part r2 t act').1,
              (alert-sleep_part r3 t act').1,
            )
            (append-nil (pick is_alert_tx alerted ++ [] ++ [])
              ∙ append-nil (pick is_alert_tx alerted ++ [])
              ∙ append-nil (pick is_alert_tx alerted)),
      )

  pub alert-superframe :
      (r : Runner N) (t : Turn N)
      → let (r1, aimed, got, heard) = hear N r t in
        let (r2, act) = react N r1 t aimed got in
        let (r3, act', joined) = join_part N r2 t act in
        (r3.alert ≡ r.alert)
        × ((superframe N r t).0.alert ≡ (alert_part N r3 t act').0.alert)
        × (pick is_alert_tx (superframe N r t).1 ≡ pick is_alert_tx (alert_part N r3 t act').1)
  unfolding superframe
  alert-superframe r t =
      let (r1, aimed, got, heard) = hear N r t in
      let (r2, act) = react N r1 t aimed got in
      let (r3, act', joined) = join_part N r2 t act in
      let done = (act_out N r3 t act').1 in
      (
        (alert-join_part r2 t act).0 ∙ alert-react r1 t aimed got ∙ alert-hear r t,
        (alert-act_out r3 t act').0,
        rw
            (
              pick-append is_alert_tx (heard ++ joined) done,
              pick-append is_alert_tx heard joined,
              pick_local is_alert_tx heard is_alert_tx-OfTx (local-hear N r t),
              (alert-join_part r2 t act).1,
            )
            (alert-act_out r3 t act').1,
      )

  silent-alert_part :
      (r : Runner N) (t : Turn N) (act : ℕ)
      → has act Act.send_alert ≡ false
      → t.alert_calls ≡ []
      → ((alert_part N r t act).0.alert ≡ r.alert)
        × (pick is_alert_tx (alert_part N r t act).1 ≡ [])
  unfolding alert_part interrupted called pick
  silent-alert_part r t act h n = rw (h, n) (refl, refl)

  silent-superframe :
      (r : Runner N) (t : Turn N)
      → tag_alert_active N r.alert ≡ false
      → t.alert_calls ≡ []
      → ((superframe N r t).0.alert ≡ r.alert) × (pick is_alert_tx (superframe N r t).1 ≡ [])
  silent-superframe r t h n =
      let (r1, aimed, got, heard) = hear N r t in
      let (r2, act) = react N r1 t aimed got in
      let (r3, act', joined) = join_part N r2 t act in
      let parts = alert-superframe r t in
      let flag =
        (flags-join_part N r2 t act).2
        ∙ flag-react r1 t aimed got (ap (tag_alert_active N) (alert-hear r t) ∙ h) in
      let silent = silent-alert_part r3 t act' flag n in
      (parts.1 ∙ silent.0 ∙ parts.0, parts.2 ∙ silent.1)

  -- No call lands in a superframe.
  abbrev pub Uncalled : List (Turn N) → Type 0
  Uncalled = All (λ t. t.alert_calls ≡ [])

  -- Superframes in which no HELP is active send no alert and leave the alert as it is.
  silent-run :
      (r : Runner N) (ts : List (Turn N))
      → tag_alert_active N r.alert ≡ false
      → Uncalled ts
      → ((run N r ts).0.alert ≡ r.alert) × (pick is_alert_tx (run N r ts).1 ≡ [])
  unfolding run pick
  silent-run r [] h n = (refl, refl)
  silent-run r (t ∷ ts) h n =
      let (r', effects) = superframe N r t in
      let now = silent-superframe r t h n.0 in
      let later = silent-run r' ts (ap (tag_alert_active N) now.0 ∙ h) n.1 in
      (
        later.0 ∙ now.0,
        pick-append is_alert_tx effects (run N r' ts).1 ∙ ap₂ (λ xs ys. xs ++ ys) now.1 later.1,
      )

  -- The CANCEL of an alert is never transmitted, if the cancel comes between two superframes and no
  -- other call lands in those after it: whatever else they bring, no alert frame goes out, and the
  -- alert stays in CANCELLING with all its repeats to send.
  pub cancel_never_sent :
      (r : Runner N) (ts : List (Turn N))
      → r.alert.core.state ≡ cancelling
      → Uncalled ts
      → ((run N r ts).0.alert ≡ r.alert) × (pick is_alert_tx (run N r ts).1 ≡ [])
  unfolding tag_alert_active
  cancel_never_sent r ts h n = silent-run r ts (ap is_help h) n
