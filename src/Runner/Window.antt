-- ===== src/Runner/Window.antt =====
-- When the beacon window of src/uwb_net_runner.c is a whole superframe.
use tag_testting.Common.{◌+◌, ◌≡◌, ◌⊎◌, ◌∙◌, refl, true, false, ◌&&◌, u32, arith}
use tag_testting.Storage.{Nvs}
use tag_testting.Track
use tag_testting.Runner.{
  Runner, Turn, offer, choose_tier, take_tier, take_edge, filter_tier, wake_radio, taken_back,
  t_superframe_ms, t_beacon_ms,
}
use tag_testting.Runner.Listen.{Aim, near_plan, plan_window, aim, wait, deadline_of}
use tag_testting.Runner.Superframe.{hear}

module _ (N : Nvs) where
  -- Nothing to aim at, or a request not to.
  Unaimed : Runner N → Type 0
  Unaimed r = ((near_plan r.bt).narrow ≡ false) ⊎ (r.force_full_window ≡ true)

  Unaimed-offer :
      (r : Runner N) (t : Turn N)
      → ((t.claim && t.yielded) ≡ true) ⊎ (r.force_full_window ≡ true)
      → Unaimed (offer N r t).0
  unfolding Unaimed offer wake_radio taken_back near_plan Track.plan Track.reset
  Unaimed-offer r t h = ground arith

  Unaimed-choose_tier : (r : Runner N) (t : Turn N) → Unaimed r → Unaimed (choose_tier N r t)
  unfolding Unaimed choose_tier take_tier take_edge filter_tier
  Unaimed-choose_tier r t h = ground arith

  full-aim :
      (r : Runner N)
      → Unaimed r
      → ((aim N r).0.force_full_window ≡ false)
        × ((aim N r).1.narrow ≡ false)
        × ((aim N r).1.eff_skip ≡ 1)
  unfolding Unaimed aim plan_window near_plan
  full-aim r h = ground arith

  full-wait :
      (r : Runner N) (t : Turn N) (a : Aim)
      → r.force_full_window ≡ false
      → a.narrow ≡ false
      → ((wait N r t a).0.force_full_window ≡ false) × ((wait N r t a).1 ≡ a)
  unfolding wait
  full-wait r t a f h = ground arith

  flag-wake_radio : (r : Runner N) → (wake_radio N r).0.force_full_window ≡ r.force_full_window
  unfolding wake_radio
  flag-wake_radio r = ground arith

  -- After a handover of the radio, and after a wake-up, the beacon window is open for a whole
  -- superframe and counts as one superframe, whatever was predicted; the request is then used up.
  pub full_window :
      (r : Runner N) (t : Turn N)
      → ((t.claim && t.yielded) ≡ true) ⊎ (r.force_full_window ≡ true)
      → let (r1, aimed, got, heard) = hear N r t in
        (deadline_of N aimed t ≡ u32 (t.open_ms + t_superframe_ms + t_beacon_ms))
        × (aimed.eff_skip ≡ 1)
        × (r1.force_full_window ≡ false)
  unfolding hear deadline_of
  full_window r t h =
      let r0 = (offer N r t).0 in
      let chosen = choose_tier N r0 t in
      let (r1, planned) = aim N chosen in
      let r2 = (wait N r1 t planned).0 in
      let full = full-aim chosen (Unaimed-choose_tier r0 t (Unaimed-offer r t h)) in
      let waited = full-wait r1 t planned full.0 full.1 in
      rw (waited.1, full.1, full.2) (refl, refl, flag-wake_radio r2 ∙ waited.0)
