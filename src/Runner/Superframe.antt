-- ===== src/Runner/Superframe.antt =====
-- One turn of the loop of `runner_fn` in src/uwb_net_runner.c, and the runner before the first one.
-- Calls from other threads come between the turns, or land in one as its `alert_calls` and
-- `late_calls`.
use tag_testting.Common.{ℕ, Bool, true, false, Option, List, [], ◌∷◌, ◌++◌, not, ◌||◌, ◌==◌}
use tag_testting.Storage.{Nvs}
use tag_testting.Alert.Persist.{TagAlert, tag_alert_raise, tag_alert_cancel}
use tag_testting.Backoff.{ScanBackoff}
use tag_testting.Backoff
use tag_testting.Cal.Store.{CalStore}
use tag_testting.Net.Gate
use tag_testting.Net.Machine
use tag_testting.Net.Machine.{Event}
use tag_testting.Net.Tiers.{Table, tier_fast, get_tier_params}
use tag_testting.Sched.{BeaconSched}
use tag_testting.Sched
use tag_testting.Stats.{RxStats}
use tag_testting.Track
use tag_testting.Runner.{
  Runner, Turn, Effect, offer, choose_tier, wake_radio, runner_wake, t_superframe_ms, bt_guard_ms,
  bt_warmup_n, bt_ema_shift,
}
use tag_testting.Runner.Effect.{listens}
use tag_testting.Runner.Listen.{Aim, is_scan, aim, wait, deadline_of, listen, sense, decide}
use tag_testting.Runner.Exchange.{join_part, act_out}

module _ (N : Nvs) where
  -- `uwb_net_runner_start` and `runner_fn` up to the loop.
  unfoldable pub start :
      List ℕ → BeaconSched → ScanBackoff → Table → RxStats → TagAlert N → CalStore N → Runner N
  start eui sched backoff tiers rx_stats alert cal = record {
    ctx = Machine.init eui;
    bt = Track.reset t_superframe_ms bt_guard_ms bt_warmup_n bt_ema_shift;
    sched = Sched.reset sched t_superframe_ms;
    backoff = Backoff.reset backoff;
    sweep_gate = Gate.init;
    tiers = tiers;
    rx_stats = rx_stats;
    alert = alert;
    cal = cal;
    radio_asleep = false;
    dw_sleep_enabled = true;
    pending_tier = 0;
    tier_pending = false;
    motion_moving = false;
    motion_edge = false;
    force_full_window = false;
    runner_eui = eui;
  }

  -- The turn up to the end of the beacon window: the runner with the radio awake, whether it was
  -- scanning, its aim, and what it heard.
  unfoldable pub hear : Runner N → Turn N → Runner N × Aim × Option (List ℕ × ℕ) × List Effect
  unfolding choose_tier
  hear r t =
      let (r0, offered) = offer N r t in
      let (r1, planned) = aim N (choose_tier N r0 t) in
      let (r2, aimed, napped) = wait N r1 t planned in
      let (r3, woke) = wake_radio N r2 in
      let deadline = deadline_of N aimed t in
      (r3, aimed, listen deadline t.heard, offered ++ napped ++ woke ++ (listens deadline ∷ []))

  -- The event and the gated actions.
  unfoldable pub react : Runner N → Turn N → Aim → Option (List ℕ × ℕ) → Runner N × ℕ
  react r t a got = let (r', ev) = sense N r t a got in decide N r' ev (is_scan r.ctx.state)

  -- One superframe.
  unfoldable pub superframe : Runner N → Turn N → Runner N × List Effect
  superframe r t =
      let (r1, aimed, got, heard) = hear r t in
      let (r2, act) = react r1 t aimed got in
      let (r3, act', joined) = join_part N r2 t act in
      let (r4, done) = act_out N r3 t act' in (r4, heard ++ joined ++ done)

  -- The superframes in order.
  unfoldable pub run : Runner N → List (Turn N) → Runner N × List Effect
  run r [] = (r, [])
  run r (t ∷ ts) =
      let (r', effects) = superframe r t in let (r'', later) = run r' ts in (r'', effects ++ later)

  -- `tag_alert_raise` with its wake-up.
  unfoldable pub press : Runner N → ℕ → Runner N
  press r now_ms = runner_wake N (record r { alert = tag_alert_raise N r.alert now_ms })

  -- `tag_alert_cancel` with its wake-up.
  unfoldable pub call_off : Runner N → ℕ → Runner N
  call_off r now_ms = runner_wake N (record r { alert = tag_alert_cancel N r.alert now_ms })

  -- `uwb_radio_set_sleep_enabled`
  unfoldable pub set_sleep_enabled : Runner N → Bool → Runner N
  set_sleep_enabled r en = record r { dw_sleep_enabled = en }

  -- The out parameters of `uwb_net_runner_sched_get`, and its result last.
  unfoldable pub sched_get : Runner N → ℕ × ℕ × ℕ × ℕ × ℕ × ℕ × Bool
  sched_get r =
      let p = Sched.plan r.sched (get_tier_params r.tiers tier_fast).listen_skip in
      (
        r.sched.period_q16,
        p.window_ms,
        p.effective_skip,
        r.sched.misses,
        r.sched.ok_count,
        r.sched.miss_count,
        not (r.sched.ok_count == 0) || not (r.sched.miss_count == 0),
      )

  -- `uwb_net_runner_sched_reset_stats`
  unfoldable pub sched_reset_stats : Runner N → Runner N
  sched_reset_stats r = record r { sched = Sched.stats_reset r.sched }

  -- `uwb_net_runner_scan_get`
  unfoldable pub scan_get : Runner N → ℕ × ℕ
  scan_get r = (Backoff.rung_of r.backoff, Backoff.next_ms r.backoff)
