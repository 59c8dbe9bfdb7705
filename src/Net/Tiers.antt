-- ===== src/Net/Tiers.antt =====
-- The tier table of src/uwb_net.c: `tier_params`, its setter, getter and reset.
use tag_testting.Common.{ℕ, ltb, ◌==◌, if◌then◌else◌}

-- `struct uwb_tier_params`, two `uint16_t`
pub record TierParams : Type 0 where
  pub listen_skip : ℕ
  pub range_every : ℕ

-- The static array `tier_params[UWB_TIER_COUNT]`, indexed by `uwb_tier_t`.
pub record Table : Type 0 where
  pub at_idle : TierParams
  pub at_slow : TierParams
  pub at_fast : TierParams

-- `uwb_tier_t` is cast from a byte of a frame, so a tier is any number.
abbrev pub tier_idle : ℕ
tier_idle = 0

abbrev pub tier_slow : ℕ
tier_slow = 1

abbrev pub tier_fast : ℕ
tier_fast = 2

abbrev pub tier_count : ℕ
tier_count = 3

abbrev pub listen_skip_cap : ℕ
listen_skip_cap = 25

-- `tier_defaults`
abbrev pub tier_defaults : Table
tier_defaults = record {
  at_idle = record { listen_skip = 300; range_every = 1 };
  at_slow = record { listen_skip = 75; range_every = 1 };
  at_fast = record { listen_skip = 1; range_every = 1 };
}

-- `uwb_net_reset_tier_params`
unfoldable pub reset_tier_params : Table → Table
reset_tier_params t = tier_defaults

-- `tier_params[t]`, for `t` below `tier_count`
abbrev pub entry : Table → ℕ → TierParams
entry tbl t = if t == 0 then tbl.at_idle else if t == 1 then tbl.at_slow else tbl.at_fast

-- `uwb_net_set_tier_params`
unfoldable pub set_tier_params : Table → ℕ → TierParams → Table
set_tier_params tbl t p =
    if ltb t tier_count
    then if t == 0
      then record tbl { at_idle = p }
      else if t == 1
      then record tbl { at_slow = p }
      else record tbl { at_fast = p }
    else tbl

abbrev pub cap_skip : TierParams → TierParams
cap_skip p = if ltb listen_skip_cap p.listen_skip then record p { listen_skip = 25 } else p

abbrev pub skip_nonzero : TierParams → TierParams
skip_nonzero p = if p.listen_skip == 0 then record p { listen_skip = 1 } else p

abbrev pub every_nonzero : TierParams → TierParams
every_nonzero p = if p.range_every == 0 then record p { range_every = 1 } else p

-- `uwb_net_get_tier_params`
unfoldable pub get_tier_params : Table → ℕ → TierParams
get_tier_params tbl t =
    every_nonzero (skip_nonzero (cap_skip (if ltb t tier_count then entry tbl t else tbl.at_fast)))
