-- ===== src/Net/Lease.antt =====
-- The lease count of `lease_age` and its renewal while the tag skips superframes.
use tag_testting.Common.{
  ℕ, ◌+◌, ◌-◌, ◌/◌, ◌^◌, ◌≤◌, ◌<◌, ◌≡◌, ◌↔◌, ◌⊎◌, List, [], ◌∷◌, true, arith, u32, u8, sub32,
}
use tag_testting.Net.Act
use tag_testting.Net.Tiers.{Table, listen_skip_cap}
use tag_testting.Net.Machine.{
  beacon, beacon_miss, discovered, swept, motion, Event, Ctx, handle, lease_age, lease_sf, miss_max,
}
use tag_testting.Net.Trace.{HasSeat, after}

lease_age_lem :
    (c : Ctx) (ev : Event) (d : ℕ)
    → c.lease_remaining < 2 ^ 16
    → c.frame_counter < 2 ^ 32
    → d < 2 ^ 32
    → ev.frame_counter ≡ u32 (c.frame_counter + d)
    → (lease_age c ev).lease_remaining ≡ c.lease_remaining - d
unfolding lease_age sub32
lease_age_lem c ev d l f h e = ground arith

-- Skipping superframes ages the lease as hearing their beacons would: one beacon `d + k`
-- superframes on leaves the same lease as a beacon after `d` superframes and another after `k`
-- more, also where the frame counter wraps.
pub lease_age_skips :
    (c : Ctx) (near far : Event) (d k : ℕ)
    → c.lease_remaining < 2 ^ 16
    → c.frame_counter < 2 ^ 32
    → d + k < 2 ^ 32
    → near.frame_counter ≡ u32 (c.frame_counter + d)
    → far.frame_counter ≡ u32 (c.frame_counter + (d + k))
    → let heard = record (lease_age c near) { frame_counter = near.frame_counter } in
      (lease_age heard far).lease_remaining ≡ (lease_age c far).lease_remaining
lease_age_skips c near far d k l f h en ef =
    let heard = record (lease_age c near) { frame_counter = near.frame_counter } in
    omega (
      arith,
      lease_age_lem c near d l f (omega arith) en,
      lease_age_lem c far (d + k) l f h ef,
      lease_age_lem heard far k (omega (arith, lease_age_lem c near d l f (omega arith) en))
          (omega arith) (omega arith) (omega arith),
    )

-- What the runner may tell a tag that keeps its seat: a beacon that lists it, within the cap on
-- `listen_skip` of the one before; a miss that is not one too many; and what came of a discovery, a
-- sweep or an edge of the motion sensor.
abbrev pub Resync : Ctx → Event → Type 0
Resync c ev =
    ((ev.kind ≡ beacon)
      × (ev.in_map ≡ true)
      × (sub32 ev.frame_counter c.frame_counter ≤ listen_skip_cap))
    ⊎ ((ev.kind ≡ beacon_miss) × (u8 (c.miss_count + 1) < miss_max))
    ⊎ (ev.kind ≡ discovered)
    ⊎ (ev.kind ≡ swept)
    ⊎ (ev.kind ≡ motion)

-- Every event is such an event for the context that it meets.
abbrev pub Resyncs : Table → Ctx → List Event → Type 0
Resyncs tbl c [] = Unit
Resyncs tbl c (ev ∷ evs) = Resync c ev × Resyncs tbl (handle tbl c ev).0 evs

-- The lease is still running when each beacon arrives.
abbrev pub Alive : Table → Ctx → List Event → Type 0
Alive tbl c [] = Unit
Alive tbl c (ev ∷ evs) =
    (ev.kind ≡ beacon → 0 < (lease_age c ev).lease_remaining) × Alive tbl (handle tbl c ev).0 evs

handle-lease :
    (tbl : Table) (c : Ctx) (ev : Event)
    → HasSeat c
    → lease_sf / 2 < c.lease_remaining
    → c.lease_remaining < 2 ^ 16
    → Resync c ev
    → (ev.kind ≡ beacon → 0 < (lease_age c ev).lease_remaining)
      × HasSeat (handle tbl c ev).0
      × (lease_sf / 2 < (handle tbl c ev).0.lease_remaining)
      × ((handle tbl c ev).0.lease_remaining < 2 ^ 16)
unfolding handle lease_age
handle-lease tbl c ev s l w r = ground arith

-- While each beacon that the tag hears lists it and is at most `listen_skip_cap` superframes after
-- the one before, and fewer than `miss_max` beacons in a row are missed, and whatever discoveries,
-- sweeps and edges of the motion sensor bring in between: a tag in DISCOVER or RANGING that starts
-- above half its lease, a 16-bit count, never meets a beacon with its lease run out, stays in
-- DISCOVER or RANGING, and ends above half its lease again.
pub lease_kept :
    (tbl : Table) (c : Ctx) (evs : List Event)
    → HasSeat c
    → lease_sf / 2 < c.lease_remaining
    → c.lease_remaining < 2 ^ 16
    → Resyncs tbl c evs
    → Alive tbl c evs
      × HasSeat (after tbl c evs)
      × (lease_sf / 2 < (after tbl c evs).lease_remaining)
unfolding after
lease_kept tbl c [] s l w r = (tt, s, l)
lease_kept tbl c (ev ∷ evs) s l w r =
    let (alive, seated, above, word) = handle-lease tbl c ev s l w r.0 in
    let (rest, kept, half) = lease_kept tbl (handle tbl c ev).0 evs seated above word r.1 in
    ((alive, rest), kept, half)

-- In a state with a seat the keepalive bit is set on exactly the beacons that list the tag and find
-- at most half of the lease left.
keepalive_iff :
    (tbl : Table) (c : Ctx) (ev : Event)
    → HasSeat c
    → (Act.masked (handle tbl c ev).1 Act.send_keepalive ≡ Act.send_keepalive) ↔ (
        (ev.kind ≡ beacon) × (ev.in_map ≡ true) × ((lease_age c ev).lease_remaining ≤ lease_sf / 2))
unfolding handle lease_age
keepalive_iff tbl c ev s = ground arith
