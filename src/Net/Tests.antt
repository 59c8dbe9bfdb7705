-- ===== src/Net/Tests.antt =====
-- The theorems on src/uwb_net.c at concrete contexts, tables and events.
use tag_testting.Common.{
  ℕ, ◌+◌, ◌/◌, ◌≤◌, ◌<◌, ◌≡◌, ◌≢◌, ◌⊎◌, inl, inr, refl, List, [], ◌∷◌, true, arith, u8, sub32,
}
use tag_testting.Net.Act
use tag_testting.Net.Tiers.{tier_defaults}
use tag_testting.Net.Machine.{
  State, scan, joining, discover, ranging, EvKind, beacon, beacon_miss, grant, Event, Ctx, handle,
  lease_sf, miss_max, lease_age,
}
use tag_testting.Net.Machine
use tag_testting.Net.Trace.{after, counters-Bounded, Ages, HasSeat}
use tag_testting.Net.Bounds.{Bounded}
use tag_testting.Net.Emission.{miss_is_silent}
use tag_testting.Net.Transitions.{◌⟶◌, handle-⟶}
use tag_testting.Net.Lease.{lease_kept, Alive}

abbrev the_eui : List ℕ
the_eui = 1 ∷ 2 ∷ 3 ∷ 4 ∷ 5 ∷ 6 ∷ 7 ∷ 8 ∷ []

abbrev event_of : EvKind → ℕ → Event
event_of k fc = record {
  kind = k;
  proto_ver = 2;
  frame_counter = fc;
  in_map = true;
  map_slot = 4;
  g_short_addr = 0x1001;
  g_slot = 4;
  g_tier = 2;
  g_lease = 50;
  n_anchors = 4;
  req_tier = 2;
  alert_pending = true;
}

abbrev seated : Ctx
seated = record (Machine.init the_eui) {
  state = ranging;
  short_addr = 0x1001;
  slot_index = 4;
  lease_remaining = 40;
  frame_counter = 100;
  n_anchors = 4;
}

abbrev two_beacons : List Event
two_beacons = event_of beacon 125 ∷ event_of beacon 150 ∷ []

lease_kept_example :
    Alive tier_defaults seated two_beacons
    × HasSeat (after tier_defaults seated two_beacons)
    × (lease_sf / 2 < (after tier_defaults seated two_beacons).lease_remaining)
unfolding handle lease_age Machine.init sub32
lease_kept_example =
    lease_kept tier_defaults seated two_beacons (inr refl) (omega arith) (omega arith)
      (inl (refl, refl, omega arith), (inl (refl, refl, ground arith), tt))

miss_is_silent_example :
    let (c', act) = handle tier_defaults seated (event_of beacon_miss 101) in
    ((act ≡ Act.idle) × (c'.state ≡ ranging))
    ⊎ ((act ≡ Act.to_scan)
        × (ranging ≢ joining)
        × (miss_max ≤ u8 (seated.miss_count + 1))
        × (c'.state ≡ scan)
        × (c'.miss_count ≡ 0))
unfolding Machine.init
miss_is_silent_example =
    miss_is_silent tier_defaults seated (event_of beacon_miss 101) (λ e. cc) refl

counters-Bounded_example :
    Bounded (after tier_defaults (Machine.init the_eui) two_beacons)
    × Ages tier_defaults (Machine.init the_eui) two_beacons
counters-Bounded_example =
    counters-Bounded tier_defaults the_eui two_beacons (ground arith) (ground arith)

handle-⟶_example :
    ◌⟶◌
      (event_of beacon 1)
      (Machine.init the_eui)
      (handle tier_defaults (Machine.init the_eui) (event_of beacon 1)).0.state
unfolding handle Machine.init
handle-⟶_example = handle-⟶ tier_defaults (Machine.init the_eui) (event_of beacon 1) (λ e. cc)
