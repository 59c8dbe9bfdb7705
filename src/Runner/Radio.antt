-- ===== src/Runner/Radio.antt =====
-- The radio under src/uwb_net_runner.c: what it is asked to do, it is awake for, and it ranges with
-- the antenna delays of the active calibration.
use tag_testting.Common.{
  ℕ, ◌≡◌, ◌∙◌, refl, ap, Bool, true, false, ◌&&◌, Option, none, some, List, [], ◌∷◌, ◌++◌,
  if◌then◌else◌, arith, ◌==◌,
}
use tag_testting.Storage.{Nvs}
use tag_testting.Cal.Store.{cal_get_ant_dly}
use tag_testting.Runner.{
  Runner, Turn, Effect, offer, choose_tier, take_tier, take_edge, filter_tier, wake_radio,
  taken_back, apply_delays,
}
use tag_testting.Runner.Effect.{wake, handover, radio_sleep, set_delays, listens, naps, sweeps}
use tag_testting.Runner.Listen.{Aim, aim, wait, deadline_of, sense, decide}
use tag_testting.Runner.Exchange.{
  join_part, keepalive_part, alert_part, quiet, discover_part, sweep_part, sleep_part, act_out,
}
use tag_testting.Runner.Superframe.{hear, react, superframe}

-- The DW3000 as the runner sees it: deep sleep, the delays that were set since it last woke or was
-- handed over, and whether it was ever asked for what it could not do.
pub record Radio : Type 0 where
  pub asleep : Bool
  pub delays : Option (ℕ × ℕ)
  pub misused : Bool

-- The delays are set to these.
pub is_set : Option (ℕ × ℕ) → ℕ × ℕ → Bool
is_set none want = false
is_set (some (tx, rx)) want = tx == want.0 && rx == want.1

-- Use that wants the radio awake.
abbrev pub use_awake : Radio → Radio
use_awake s = record s { misused = if s.asleep then true else s.misused }

-- An effect on the radio. Every use but waking it misuses a radio that is asleep, and a sweep
-- misuses one without the delays that are wanted.
pub step : ℕ × ℕ → Radio → Effect → Radio
step want s wake = record s { asleep = false; delays = none }
step want s (naps until_ms) = s
step want s handover = record (use_awake s) { delays = none }
step want s (set_delays tx rx) = record (use_awake s) { delays = some (tx, rx) }
step want s radio_sleep = record (use_awake s) { asleep = true; delays = none }
step want s (sweeps start_ms) =
    if is_set s.delays want then use_awake s else record s { misused = true }
step want s _ = use_awake s

pub exec : ℕ × ℕ → Radio → List Effect → Radio
exec want s [] = s
exec want s (e ∷ es) = exec want (step want s e) es

exec-append :
    (want : ℕ × ℕ) (s : Radio) (xs ys : List Effect)
    → exec want s (xs ++ ys) ≡ exec want (exec want s xs) ys
unfolding exec
exec-append want s [] ys = refl
exec-append want s (x ∷ xs) ys = exec-append want (step want s x) xs ys

module _ (N : Nvs) where
  -- The radio is as the runner takes it to be.
  pub record Agrees (r : Runner N) (s : Radio) : Type 0 where
    pub same_sleep : s.asleep ≡ r.radio_asleep
    pub never_misused : s.misused ≡ false
    pub delays_set : r.radio_asleep ≡ false → s.delays ≡ some (cal_get_ant_dly N r.cal)

  module _ (want : ℕ × ℕ) (t : Turn N) where
    Agrees-offer :
        (r : Runner N) (s : Radio)
        → Agrees r s
        → Agrees (offer N r t).0 (exec want s (offer N r t).1)
    unfolding offer wake_radio taken_back exec step apply_delays
    Agrees-offer r s h = ground arith

    Agrees-choose_tier : (r : Runner N) (s : Radio) → Agrees r s → Agrees (choose_tier N r t) s
    unfolding choose_tier take_tier take_edge filter_tier
    Agrees-choose_tier r s h = ground arith

    Agrees-aim : (r : Runner N) (s : Radio) → Agrees r s → Agrees (aim N r).0 s
    unfolding aim
    Agrees-aim r s h = ground arith

    Agrees-wait :
        (r : Runner N) (s : Radio) (a : Aim)
        → Agrees r s
        → Agrees (wait N r t a).0 (exec want s (wait N r t a).2)
    unfolding wait exec step
    Agrees-wait r s a h = ground arith

    Agrees-wake_radio :
        (r : Runner N) (s : Radio)
        → Agrees r s
        → Agrees (wake_radio N r).0 (exec want s (wake_radio N r).1)
          × ((wake_radio N r).0.radio_asleep ≡ false)
    unfolding wake_radio exec step apply_delays
    Agrees-wake_radio r s h = ground arith

    -- The radio is awake, as the runner takes it to be.
    Ready : Runner N → Radio → Type 0
    Ready r s = Agrees r s × (r.radio_asleep ≡ false)

    Ready-listens :
        (r : Runner N) (s : Radio) (d : ℕ) → Ready r s → Ready r (exec want s (listens d ∷ []))
    unfolding Ready exec step
    Ready-listens r s d h = ground arith

    Ready-hear :
        (r : Runner N) (s : Radio) → Agrees r s → Ready (hear N r t).0 (exec want s (hear N r t).3)
    unfolding hear Ready
    Ready-hear r s h =
        let (r0, offered) = offer N r t in
        let chosen = choose_tier N r0 t in
        let (r1, planned) = aim N chosen in
        let (r2, aimed, napped) = wait N r1 t planned in
        let (r3, woke) = wake_radio N r2 in
        let deadline = deadline_of N aimed t in
        let s0 = exec want s offered in
        let s1 = exec want s0 napped in
        let first = Agrees-offer r s h in
        let second =
          Agrees-wait r1 s0 planned (Agrees-aim chosen s0 (Agrees-choose_tier r0 s0 first)) in
        rw
          (
            exec-append want s (offered ++ napped ++ woke) (listens deadline ∷ []),
            exec-append want s (offered ++ napped) woke,
            exec-append want s offered napped,
          )
          (Ready-listens r3 (exec want s1 woke) deadline (Agrees-wake_radio r2 s1 second))

    Ready-react :
        (r : Runner N) (s : Radio) (a : Aim) (got : Option (List ℕ × ℕ))
        → Ready r s
        → Ready (react N r t a got).0 s
    unfolding Ready react sense decide
    Ready-react r s a got h = ground arith

    Ready-join_part :
        (r : Runner N) (s : Radio) (act : ℕ)
        → Ready r s
        → Ready (join_part N r t act).0 (exec want s (join_part N r t act).2)
    unfolding Ready join_part exec step
    Ready-join_part r s act h = ground arith

    Ready-keepalive_part :
        (r : Runner N) (s : Radio) (act : ℕ)
        → Ready r s
        → Ready r (exec want s (keepalive_part N r t act))
    unfolding Ready keepalive_part exec step
    Ready-keepalive_part r s act h = ground arith

    Ready-alert_part :
        (r : Runner N) (s : Radio) (act : ℕ)
        → Ready r s
        → Ready (alert_part N r t act).0 (exec want s (alert_part N r t act).1)
    unfolding Ready alert_part exec step
    Ready-alert_part r s act h = ground arith

    Ready-discover_part :
        (r : Runner N) (s : Radio) (act : ℕ)
        → Ready r s
        → Ready (discover_part N r t act).0 (exec want s (discover_part N r t act).1)
    unfolding Ready discover_part exec step
    Ready-discover_part r s act h = ground arith

    Ready-sweep_part :
        (r : Runner N) (s : Radio) (act : ℕ)
        → want ≡ cal_get_ant_dly N r.cal
        → Ready r s
        → Ready (sweep_part N r t act).0 (exec want s (sweep_part N r t act).1)
    unfolding Ready sweep_part exec step is_set
    Ready-sweep_part r s act w h = ground arith

    Agrees-sleep_part :
        (r : Runner N) (s : Radio) (act : ℕ)
        → Ready r s
        → Agrees (sleep_part N r t act).0 (exec want s (sleep_part N r t act).1)
    unfolding Ready sleep_part exec step
    Agrees-sleep_part r s act h = ground arith

  module _ (t : Turn N) where
    cal-alert_part : (r : Runner N) (act : ℕ) → (alert_part N r t act).0.cal ≡ r.cal
    unfolding alert_part
    cal-alert_part r act = ground arith

    cal-discover_part : (r : Runner N) (act : ℕ) → (discover_part N r t act).0.cal ≡ r.cal
    unfolding discover_part
    cal-discover_part r act = ground arith

    cal-sweep_part : (r : Runner N) (act : ℕ) → (sweep_part N r t act).0.cal ≡ r.cal
    unfolding sweep_part
    cal-sweep_part r act = ground arith

    cal-sleep_part : (r : Runner N) (act : ℕ) → (sleep_part N r t act).0.cal ≡ r.cal
    unfolding sleep_part
    cal-sleep_part r act = ground arith

    Agrees-act_out :
        (r : Runner N) (s : Radio) (act : ℕ)
        → let want = cal_get_ant_dly N (act_out N r t act).0.cal in
          Ready want t r s → Agrees (act_out N r t act).0 (exec want s (act_out N r t act).1)
    unfolding act_out
    Agrees-act_out r s act h =
        let kept = keepalive_part N r t act in
        let (r1, alerted) = alert_part N r t act in
        let act' = quiet N r1 act in
        let (r2, found) = discover_part N r1 t act' in
        let (r3, ranged) = sweep_part N r2 t act' in
        let (r4, slept) = sleep_part N r3 t act' in
        let want = cal_get_ant_dly N r4.cal in
        let s0 = exec want s kept in
        let s1 = exec want s0 alerted in
        let s2 = exec want s1 found in
        let h1 = Ready-alert_part want t r s0 act (Ready-keepalive_part want t r s act h) in
        let h2 = Ready-discover_part want t r1 s1 act' h1 in
        let ours = ap (cal_get_ant_dly N) (cal-sleep_part r3 act' ∙ cal-sweep_part r2 act') in
        rw
          (
            exec-append want s (kept ++ alerted ++ found ++ ranged) slept,
            exec-append want s (kept ++ alerted ++ found) ranged,
            exec-append want s (kept ++ alerted) found,
            exec-append want s kept alerted,
          )
          (Agrees-sleep_part want t r3 (exec want s2 ranged) act'
            (Ready-sweep_part want t r2 s2 act' ours h2))

    -- In every superframe the radio is awake for all that it is asked to do, and every sweep is made with
    -- the antenna delays of the calibration that is active at its end; the radio and the runner agree on
    -- whether it sleeps, and agree again afterwards.
    pub radio_is_ready :
        (r : Runner N) (s : Radio)
        → Agrees r s
        → let (r', effects) = superframe N r t in
          Agrees r' (exec (cal_get_ant_dly N r'.cal) s effects)
    unfolding superframe
    radio_is_ready r s h =
        let (r1, aimed, got, heard) = hear N r t in
        let (r2, act) = react N r1 t aimed got in
        let (r3, act', joined) = join_part N r2 t act in
        let (r4, done) = act_out N r3 t act' in
        let want = cal_get_ant_dly N r4.cal in
        let s1 = exec want s heard in
        let h1 = Ready-react want t r1 s1 aimed got (Ready-hear want t r s h) in
        rw (exec-append want s (heard ++ joined) done, exec-append want s heard joined)
          (Agrees-act_out r3 (exec want s1 joined) act' (Ready-join_part want t r2 s1 act h1))
