-- ===== src/Net/TierLaws.antt =====
-- What the tier table promises: ranges of what is read, and reads after writes.
use tag_testting.Common.{ℕ, ◌≤◌, ◌<◌, ◌≡◌, arith, min, max, ◌==◌, if◌then◌else◌}
use tag_testting.Net.Tiers.{
  TierParams, Table, tier_count, tier_fast, listen_skip_cap, set_tier_params, get_tier_params,
}

-- Whatever was stored, and for tiers out of range too, a read gives a skip between 1 and the cap
-- and a range cadence of at least 1.
get_bounds :
    (tbl : Table) (t : ℕ)
    → let p = get_tier_params tbl t in
      (1 ≤ p.listen_skip) × (p.listen_skip ≤ listen_skip_cap) × (1 ≤ p.range_every)
unfolding get_tier_params
get_bounds tbl t = ground arith

-- A read after a write: a valid tier gives back what was written, with the skip clamped to
-- 1..`listen_skip_cap` and the cadence to at least 1; every other tier below `tier_count` reads as
-- before.
pub get-set :
    (tbl : Table) (t u : ℕ) (p : TierParams)
    → t < tier_count
    → u < tier_count
    → get_tier_params (set_tier_params tbl t p) u ≡ (
        if (u == t)
        then record {
          listen_skip = max 1 (min p.listen_skip listen_skip_cap);
          range_every = max 1 p.range_every;
        }
        else get_tier_params tbl u)
unfolding get_tier_params set_tier_params
get-set tbl t u p ht hu = ground arith

-- A tier out of range is not written and reads as FAST.
out_of_range :
    (tbl : Table) (t : ℕ) (p : TierParams)
    → tier_count ≤ t
    → (set_tier_params tbl t p ≡ tbl) × (get_tier_params tbl t ≡ get_tier_params tbl tier_fast)
unfolding get_tier_params set_tier_params
out_of_range tbl t p h = ground arith
