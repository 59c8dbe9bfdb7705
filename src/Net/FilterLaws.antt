-- ===== src/Net/FilterLaws.antt =====
-- The hysteresis of `uwb_net_tier_filter` on a timeline.
use tag_testting.Common.{
  ℕ, ◌+◌, ◌^◌, ◌≤◌, ◌<◌, ◌≡◌, List, [], ◌∷◌, refl, All, true, false, arith, u32, sub32,
}
use tag_testting.Net.Tiers.{tier_slow, tier_fast}
use tag_testting.Net.Machine.{Ctx}
use tag_testting.Net.Filter.{tier_filter, hold_fast_ms}

-- Motion gives FAST at once from every tier, and stamps the activity.
moving-fast :
    (c : Ctx) (now : ℕ)
    → ((tier_filter c true now).filt_tier ≡ tier_fast)
      × ((tier_filter c true now).last_active_ms ≡ now)
unfolding tier_filter
moving-fast c now = ground arith

-- Calls without motion, at offsets from one clock reading.
unfoldable pub still : Ctx → ℕ → List ℕ → Ctx
still c t [] = c
still c t (d ∷ ds) = still (tier_filter c false (u32 (t + d))) t ds

tier_filter-held :
    (c : Ctx) (t d : ℕ)
    → t < 2 ^ 32
    → d < hold_fast_ms
    → c.filt_tier ≡ tier_fast
    → c.last_active_ms ≡ t
    → tier_filter c false (u32 (t + d)) ≡ c
unfolding tier_filter sub32
tier_filter-held c t d ht hd f a = ground arith

still-held :
    (c : Ctx) (t : ℕ) (ds : List ℕ)
    → t < 2 ^ 32
    → All (λ d. d < hold_fast_ms) ds
    → c.filt_tier ≡ tier_fast
    → c.last_active_ms ≡ t
    → still c t ds ≡ c
unfolding still
still-held c t [] ht hd f a = refl
still-held c t (d ∷ ds) ht hd f a =
    rw (tier_filter-held c t d ht hd.0 f a) (still-held c t ds ht hd.1 f a)

-- After motion at `t` the tier stays FAST over any number of still calls within `hold_fast_ms`, and
-- the first still call from then on, up to half the clock's range, demotes it to SLOW.
pub fast_held :
    (c : Ctx) (t : ℕ) (ds : List ℕ) (d : ℕ)
    → t < 2 ^ 32
    → All (λ e. e < hold_fast_ms) ds
    → hold_fast_ms ≤ d
    → d < 2 ^ 31
    → let held = still (tier_filter c true t) t ds in
      (held.filt_tier ≡ tier_fast) × ((tier_filter held false (u32 (t + d))).filt_tier ≡ tier_slow)
unfolding tier_filter sub32
fast_held c t ds d ht hs lo hi =
    ground (arith, still-held (tier_filter c true t) t ds ht hs, moving-fast c t)

-- One call lowers the tier by at most one step, and never raises it without motion.
one_step_down :
    (c : Ctx) (now : ℕ)
    → c.filt_tier ≤ tier_fast
    → let c' = tier_filter c false now in
      (c'.filt_tier ≤ c.filt_tier) × (c.filt_tier ≤ c'.filt_tier + 1)
unfolding tier_filter
one_step_down c now h = ground arith
