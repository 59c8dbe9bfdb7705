-- ===== src/Net/Trace.antt =====
-- Sequences of events handed to `uwb_net_handle` under one tier table, and facts about them.
use tag_testting.Common.{ℕ, suc, ◌-◌, ◌^◌, ◌<◌, ◌≡◌, sub32, ◌⊎◌, inl, List, [], ◌∷◌, All, arith}
use tag_testting.Net.Gate.{min_anchors}
use tag_testting.Net.Tiers.{Table}
use tag_testting.Net.Machine.{
  discover, ranging, grant, discovered, Event, Ctx, init, handle, lease_age,
}
use tag_testting.Net.Bounds.{Bounded, IsWordTable, IsWordEvent, handle-Bounded}

module _ (tbl : Table) where
  -- The context after the events.
  unfoldable pub after : Ctx → List Event → Ctx
  after c [] = c
  after c (ev ∷ evs) = after (handle tbl c ev).0 evs

  -- The action word of each event.
  unfoldable pub actions : Ctx → List Event → List ℕ
  actions c [] = []
  actions c (ev ∷ evs) = (handle tbl c ev).1 ∷ actions (handle tbl c ev).0 evs

-- Some event of the list is as `P` says.
abbrev pub Any : (Event → Type 0) → List Event → Type 0
Any P [] = ⊥
Any P (ev ∷ evs) = P ev ⊎ Any P evs

init-Bounded : (eui : List ℕ) → Bounded (init eui)
unfolding init
init-Bounded eui = ground arith

after-Bounded :
    (tbl : Table) (c : Ctx) (evs : List Event)
    → IsWordTable tbl
    → All IsWordEvent evs
    → Bounded c
    → Bounded (after tbl c evs)
unfolding after
after-Bounded tbl c [] w e b = b
after-Bounded tbl c (ev ∷ evs) w e b =
    after-Bounded tbl (handle tbl c ev).0 evs w e.1 (handle-Bounded tbl c ev w e.0 b)

-- On each event `lease_age` lowers the count of the lease by the superframes since the beacon before,
-- and stops at 0.
abbrev pub Ages : Table → Ctx → List Event → Type 0
Ages tbl c [] = Unit
Ages tbl c (ev ∷ evs) =
    ((lease_age c ev).lease_remaining ≡ c.lease_remaining - sub32 ev.frame_counter c.frame_counter)
    × Ages tbl (handle tbl c ev).0 evs

lease_age-eq :
    (c : Ctx) (ev : Event)
    → c.lease_remaining < 2 ^ 16
    → (lease_age c ev).lease_remaining ≡ c.lease_remaining - sub32 ev.frame_counter c.frame_counter
unfolding lease_age
lease_age-eq c ev h = ground arith

Bounded-Ages :
    (tbl : Table) (c : Ctx) (evs : List Event)
    → IsWordTable tbl
    → All IsWordEvent evs
    → Bounded c
    → Ages tbl c evs
Bounded-Ages tbl c [] w e b = tt
Bounded-Ages tbl c (ev ∷ evs) w e b = (
  lease_age-eq c ev b.lease_word,
  Bounded-Ages tbl (handle tbl c ev).0 evs w e.1 (handle-Bounded tbl c ev w e.0 b),
)

-- Where the table's cadences and the granted leases are 16-bit words: from `uwb_net_init`, after
-- any events at all, the miss count stays below `miss_max`, the join retries below `join_retry_max`
-- while joining, the lease below `2 ^ 16` and the participation count below its largest value; and
-- on each event `lease_age` lowers the lease count by the superframes since the last beacon taken up,
-- down to 0 and never round to a large value.
pub counters-Bounded :
    (tbl : Table) (eui : List ℕ) (evs : List Event)
    → IsWordTable tbl
    → All IsWordEvent evs
    → Bounded (after tbl (init eui) evs) × Ages tbl (init eui) evs
counters-Bounded tbl eui evs w e = (
  after-Bounded tbl (init eui) evs w e (init-Bounded eui),
  Bounded-Ages tbl (init eui) evs w e (init-Bounded eui),
)

abbrev pub HasSeat : Ctx → Type 0
HasSeat c = (c.state ≡ discover) ⊎ (c.state ≡ ranging)

handle-seat :
    (tbl : Table) (c : Ctx) (ev : Event)
    → HasSeat (handle tbl c ev).0
    → HasSeat c ⊎ (ev.kind ≡ grant)
unfolding handle lease_age
handle-seat tbl c ev h = ground arith

after-seat :
    (tbl : Table) (c : Ctx) (evs : List Event)
    → HasSeat (after tbl c evs)
    → HasSeat c ⊎ Any (λ ev. ev.kind ≡ grant) evs
unfolding after
after-seat tbl c [] h = inl h
after-seat tbl c (ev ∷ evs) h =
    ground (arith, after-seat tbl (handle tbl c ev).0 evs h, handle-seat tbl c ev)

-- A tag holds no seat, in DISCOVER or in RANGING, unless a grant was among its events.
pub seat_needs_grant :
    (tbl : Table) (eui : List ℕ) (evs : List Event)
    → HasSeat (after tbl (init eui) evs)
    → Any (λ ev. ev.kind ≡ grant) evs
unfolding init
seat_needs_grant tbl eui evs h = ground (arith, after-seat tbl (init eui) evs h)

abbrev Found : Event → Type 0
Found ev = (ev.kind ≡ discovered) × (min_anchors < suc ev.n_anchors)

handle-ranging :
    (tbl : Table) (c : Ctx) (ev : Event)
    → (handle tbl c ev).0.state ≡ ranging
    → (c.state ≡ ranging) ⊎ Found ev
unfolding handle lease_age
handle-ranging tbl c ev h = ground arith

after-ranging :
    (tbl : Table) (c : Ctx) (evs : List Event)
    → (after tbl c evs).state ≡ ranging
    → (c.state ≡ ranging) ⊎ Any Found evs
unfolding after
after-ranging tbl c [] h = inl h
after-ranging tbl c (ev ∷ evs) h =
    ground (arith, after-ranging tbl (handle tbl c ev).0 evs h, handle-ranging tbl c ev)

-- A tag is never in RANGING without a discovery round that found enough anchors.
ranging_needs_anchors :
    (tbl : Table) (eui : List ℕ) (evs : List Event)
    → (after tbl (init eui) evs).state ≡ ranging
    → Any Found evs
unfolding init
ranging_needs_anchors tbl eui evs h = ground (arith, after-ranging tbl (init eui) evs h)
