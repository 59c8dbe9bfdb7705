-- ===== src/Net/Emission.antt =====
-- What `uwb_net_handle` may transmit, and when.
use tag_testting.Common.{◌+◌, ◌≤◌, ◌≡◌, ◌≢◌, ◌⊎◌, ◌↔◌, true, arith, u8}
use tag_testting.Net.Act
use tag_testting.Net.Tiers.{Table, get_tier_params}
use tag_testting.Net.Machine.{
  scan, joining, discover, ranging, beacon, beacon_miss, Event, Ctx, handle, miss_max, lease_age,
}

-- A missed beacon outside SCAN transmits nothing: either the action word is empty and the state
-- stays, or the miss is the one that reaches `miss_max` in a state with a seat, the word is the
-- fall back to SCAN alone, and the miss count starts again.
pub miss_is_silent :
    (tbl : Table) (c : Ctx) (ev : Event)
    → c.state ≢ scan
    → ev.kind ≡ beacon_miss
    → let (c', act) = handle tbl c ev in
      ((act ≡ Act.idle) × (c'.state ≡ c.state))
      ⊎ ((act ≡ Act.to_scan)
          × (c.state ≢ joining)
          × (miss_max ≤ u8 (c.miss_count + 1))
          × (c'.state ≡ scan)
          × (c'.miss_count ≡ 0))
unfolding handle
miss_is_silent tbl c ev s k = ground arith

-- The alert is sent exactly when one is pending and the event is a beacon, or a missed beacon in
-- SCAN.
pub alert_iff :
    (tbl : Table) (c : Ctx) (ev : Event)
    → (Act.masked (handle tbl c ev).1 Act.send_alert ≡ Act.send_alert) ↔ (
        (ev.alert_pending ≡ true)
        × ((ev.kind ≡ beacon) ⊎ ((ev.kind ≡ beacon_miss) × (c.state ≡ scan))))
unfolding handle lease_age
alert_iff tbl c ev = ground arith

-- The tag sweeps exactly on a beacon in RANGING that lists it and completes the tier's round of
-- participations.
sweep_iff :
    (tbl : Table) (c : Ctx) (ev : Event)
    → c.part_count ≤ 65534
    → (Act.masked (handle tbl c ev).1 Act.run_sweep ≡ Act.run_sweep) ↔ (
        (c.state ≡ ranging)
        × (ev.kind ≡ beacon)
        × (ev.in_map ≡ true)
        × ((get_tier_params tbl c.tier).range_every ≤ c.part_count + 1))
unfolding handle lease_age
sweep_iff tbl c ev h = ground arith

-- In DISCOVER and RANGING a keepalive, a sweep or an alert goes out on a beacon only, and a join
-- request never.
seat_transmits_on_beacon :
    (tbl : Table) (c : Ctx) (ev : Event)
    → (c.state ≡ discover) ⊎ (c.state ≡ ranging)
    → (Act.masked (handle tbl c ev).1 Act.send_join ≡ 0)
      × ((Act.masked (handle tbl c ev).1 (Act.send_keepalive + Act.run_sweep + Act.send_alert) ≢ 0)
          → ev.kind ≡ beacon)
unfolding handle lease_age
seat_transmits_on_beacon tbl c ev s = ground arith
