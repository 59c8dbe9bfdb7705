-- ===== src/Net/Bounds.antt =====
-- What holds of the network context of src/uwb_net.c between two events.
use tag_testting.Common.{ℕ, ◌-◌, ◌^◌, ◌<◌, ◌≡◌, arith}
use tag_testting.Net.Tiers.{Table, get_tier_params}
use tag_testting.Net.Machine.{
  joining, Event, Ctx, lease_age, handle, handle_core, miss_max, join_retry_max,
}

-- The counters never reach the limits at which the machine falls back, nor wrap.
pub record Bounded (c : Ctx) : Type 0 where
  pub misses_low : c.miss_count < miss_max
  pub retries_low : c.state ≡ joining → c.join_retries < join_retry_max
  pub lease_word : c.lease_remaining < 2 ^ 16
  pub parts_low : c.part_count < 2 ^ 16 - 1

-- The fields that the machine stores are words.
abbrev pub IsWordEvent : Event → Type 0
IsWordEvent ev = ev.g_lease < 2 ^ 16

abbrev pub IsWordTable : Table → Type 0
IsWordTable t =
    (t.at_idle.range_every < 2 ^ 16)
    × (t.at_slow.range_every < 2 ^ 16)
    × (t.at_fast.range_every < 2 ^ 16)

range_every_lt :
    (tbl : Table) (t : ℕ) → IsWordTable tbl → (get_tier_params tbl t).range_every < 2 ^ 16
unfolding get_tier_params
range_every_lt tbl t w = ground arith

handle_core-Bounded :
    (tbl : Table) (c : Ctx) (ev : Event)
    → IsWordTable tbl
    → IsWordEvent ev
    → Bounded c
    → Bounded (handle_core tbl c ev).0
unfolding handle_core lease_age
handle_core-Bounded tbl c ev w e b = ground (arith, range_every_lt tbl c.tier)

-- From any bounded context, a beacon miss, a lost seat or an exhausted join keeps the counters
-- below their limits: `uwb_net_handle` preserves the bounds on every state and every event.
pub handle-Bounded :
    (tbl : Table) (c : Ctx) (ev : Event)
    → IsWordTable tbl
    → IsWordEvent ev
    → Bounded c
    → Bounded (handle tbl c ev).0
unfolding handle
handle-Bounded tbl c ev w e b = handle_core-Bounded tbl c ev w e b
