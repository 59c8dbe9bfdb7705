-- ===== src/Track/Tests.antt =====
-- The theorem on src/beacon_track_core.c for a seed of 200 ms and a true period of 195 ms.
use tag_testting.Common.{◌+◌, ◌*◌, ◌≡◌, true, false, arith, u32}
use tag_testting.Track.{BeaconTrack, plan, beacon, miss}
use tag_testting.Track.Converge.{beats, window_centred}

abbrev seeded : BeaconTrack
seeded = record {
  period_est_ms = 200;
  last_beacon_ms = 0;
  have_last = false;
  warmup_count = 0;
  guard_ms = 5;
  warmup_n = 4;
  ema_shift = 3;
  tracking = false;
}

window_centred_example :
    let c' = beats (beacon (miss seeded) 4294967000) 195 5 in
    (c'.period_est_ms ≡ 195)
    × ((plan c').narrow ≡ true)
    × ((plan c').window_ms ≡ 2 * 5)
    × (u32 ((plan c').arm_at_ms + 5) ≡ u32 (c'.last_beacon_ms + 195))
window_centred_example =
    window_centred seeded 4294967000 195 5 (omega arith) (omega arith) (omega arith) (omega arith)
      (omega arith) (omega arith) (omega arith)
