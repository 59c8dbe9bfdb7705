-- ===== src/Net/Filter.antt =====
-- `uwb_net_tier_filter`: the tier hysteresis over the motion state.
use tag_testting.Common.{ℕ, Bool, if◌then◌else◌, not, ◌==◌, sub32, sge32}
use tag_testting.Net.Tiers.{tier_idle, tier_slow, tier_fast}
use tag_testting.Net.Machine.{Ctx}

abbrev pub hold_fast_ms : ℕ
hold_fast_ms = 30000

abbrev pub hold_slow_ms : ℕ
hold_slow_ms = 60000

-- The demotions, for a tag that does not move.
hold : Ctx → ℕ → Ctx
hold c now_ms =
    if c.filt_tier == tier_fast
    then if sge32 (sub32 now_ms c.last_active_ms) hold_fast_ms
      then record c { filt_tier = tier_slow; tier_since_ms = now_ms }
      else c
    else if c.filt_tier == tier_slow
    then if sge32 (sub32 now_ms c.tier_since_ms) hold_slow_ms
      then record c { filt_tier = tier_idle; tier_since_ms = now_ms }
      else c
    else c

promote : Ctx → ℕ → Ctx
promote c now_ms =
    let c' = record c { last_active_ms = now_ms } in
    if not (c'.filt_tier == tier_fast)
    then record c' { filt_tier = tier_fast; tier_since_ms = now_ms }
    else c'

-- The C function returns the new `filt_tier`, which is read off the context here.
unfoldable pub tier_filter : Ctx → Bool → ℕ → Ctx
unfolding hold promote
tier_filter c moving now_ms = if moving then promote c now_ms else hold c now_ms
