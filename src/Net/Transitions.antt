-- ===== src/Net/Transitions.antt =====
-- The state diagram of `uwb_net_handle`, and the paths through it.
use tag_testting.Common.{◌+◌, u8, ◌≤◌, ◌<◌, ◌≡◌, ◌≢◌, ◌∷◌, [], false, arith}
use tag_testting.Net.Gate.{min_anchors}
use tag_testting.Net.Tiers.{Table}
use tag_testting.Net.Machine.{
  State, scan, joining, discover, ranging, beacon, beacon_miss, grant, grant_miss, discovered,
  swept, Event, Ctx, handle, lease_age, proto_ver_net, miss_max, join_retry_max,
}
use tag_testting.Net.Trace.{after}

-- An edge out of a context, with the event and the counts that it needs.
infix 40 ◌⟶◌
pub data ◌⟶◌ (ev : Event) : Ctx → State → Type 0 where
  join :
      {c : Ctx}
      → c.state ≡ scan
      → ev.kind ≡ beacon
      → ev.proto_ver ≡ proto_ver_net
      → ◌⟶◌ ev c joining
  seat : {c : Ctx} → c.state ≡ joining → ev.kind ≡ grant → ◌⟶◌ ev c discover
  give_up :
      {c : Ctx}
      → c.state ≡ joining
      → ev.kind ≡ grant_miss
      → join_retry_max ≤ u8 (c.join_retries + 1)
      → ◌⟶◌ ev c scan
  enough :
      {c : Ctx}
      → c.state ≡ discover
      → ev.kind ≡ discovered
      → min_anchors ≤ ev.n_anchors
      → ◌⟶◌ ev c ranging
  short :
      {c : Ctx}
      → c.state ≡ ranging
      → ev.kind ≡ swept
      → ev.n_anchors < min_anchors
      → ◌⟶◌ ev c discover
  reclaimed :
      {c : Ctx}
      → c.state ≢ scan
      → c.state ≢ joining
      → ev.kind ≡ beacon
      → ev.in_map ≡ false
      → ◌⟶◌ ev c scan
  lost :
      {c : Ctx}
      → c.state ≢ scan
      → c.state ≢ joining
      → ev.kind ≡ beacon_miss
      → miss_max ≤ u8 (c.miss_count + 1)
      → ◌⟶◌ ev c scan

-- Every change of state follows an edge of the diagram: a join to a beacon of the right version, a
-- grant, the last grant that may be missed, a discovery of enough anchors, a sweep of too few, a
-- beacon that does not list the tag, and the last beacon in a row that may be missed.
pub handle-⟶ :
    (tbl : Table) (c : Ctx) (ev : Event)
    → (handle tbl c ev).0.state ≢ c.state
    → ◌⟶◌ ev c (handle tbl c ev).0.state
unfolding handle lease_age
handle-⟶ tbl c ev h = grind (arith, join, seat, give_up, enough, short, reclaimed, lost)

-- Out of SCAN a beacon of the right version, a grant and a discovery of enough anchors lead to
-- RANGING, with the address, slot and lease of the grant and no misses counted.
pub join_path :
    (tbl : Table) (c : Ctx) (b g d : Event)
    → c.state ≡ scan
    → b.kind ≡ beacon
    → b.proto_ver ≡ proto_ver_net
    → g.kind ≡ grant
    → d.kind ≡ discovered
    → min_anchors ≤ d.n_anchors
    → let c' = after tbl c (b ∷ g ∷ d ∷ []) in
      (c'.state ≡ ranging)
      × (c'.short_addr ≡ g.g_short_addr)
      × (c'.slot_index ≡ g.g_slot)
      × (c'.lease_remaining ≡ g.g_lease)
      × (c'.n_anchors ≡ d.n_anchors)
      × (c'.miss_count ≡ 0)
unfolding after handle
join_path tbl c b g d s kb v kg kd n = ground arith
