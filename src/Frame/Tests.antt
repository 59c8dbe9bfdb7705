-- ===== src/Frame/Tests.antt =====
-- The round trips of src/uwb_frame_802_15_4z.c in a buffer of 64 bytes.
use tag_testting.Common.{
  ℕ, ◌+◌, ◌*◌, ◌<◌, ◌≤◌, ◌≡◌, List, [], ◌∷◌, none, some, drop, replicate, arith,
}
use tag_testting.Alert.Message.{Alert}
use tag_testting.Frame.Header.{
  einval, emsgsize, ok, err, addr_gateway, addr_bcast, get_src_addr, get_dest_addr,
}
use tag_testting.Frame.Ranging.{AnchorSlot}
use tag_testting.Frame.Beacon.{proto_ver_frame, beacon_build, parse_beacon}
use tag_testting.Frame.BeaconTrips.{beacon_round_trip}
use tag_testting.Frame.Seat.{Join, Grant}
use tag_testting.Frame.Reports.{PosReport, len_alert, alert_build}
use tag_testting.Frame.ReportTrips.{IsWire, CarriesAlert, alert_round_trip}

abbrev buffer : List ℕ
buffer = replicate 64 0

abbrev help_call : Alert
help_call = record {
  state = 1;
  epoch = 7;
  repeat_seq = 3;
  sender_hop = 255;
  ttl = 6;
  orig_eui = 1 ∷ 2 ∷ 3 ∷ 4 ∷ 5 ∷ 6 ∷ 7 ∷ 8 ∷ [];
  orig_addr = 0x1001;
  batt_soc = 80;
  last_x = 0x3f800000;
  last_y = 0;
}

help_call-IsWire : IsWire help_call
help_call-IsWire = ground arith

alert_round_trip_example :
    (len_alert ≤ 64
      → (out : List ℕ) × (alert_build (some buffer) 64 0x1001 help_call ≡ ok (out, len_alert))
        × CarriesAlert help_call 0x1001 out (drop len_alert buffer))
    × (64 < len_alert → alert_build (some buffer) 64 0x1001 help_call ≡ err emsgsize)
    × (alert_build none 64 0x1001 help_call ≡ err einval)
alert_round_trip_example =
    alert_round_trip buffer 64 0x1001 help_call (omega arith) help_call-IsWire (omega arith)

abbrev report : PosReport
report = record {
  src_addr = 0x1001;
  x = 0x3f800000;
  y = 0x40000000;
  residual_m = 0;
  n_anchors = 4;
  batt_soc = 80;
}

beacon_round_trip_example :
    (15 + 2 * 2 ≤ 64
      → (out : List ℕ) × (beacon_build (some buffer) 64 77 (some (0x1001 ∷ 0 ∷ [])) 2
          ≡ ok (out, 15 + 2 * 2))
        × (parse_beacon out (15 + 2 * 2)
            ≡ ok (record {
              proto_ver = proto_ver_frame;
              frame_counter = 77;
              slot_map = 0x1001 ∷ 0 ∷ [];
              n_slots = 2;
            }))
        × (get_src_addr out ≡ addr_gateway)
        × (get_dest_addr out ≡ addr_bcast))
    × (64 < 15 + 2 * 2 → beacon_build (some buffer) 64 77 (some (0x1001 ∷ 0 ∷ [])) 2 ≡ err emsgsize)
    × (beacon_build (some buffer) 64 77 none 2 ≡ err einval)
beacon_round_trip_example =
    beacon_round_trip buffer 64 77 (0x1001 ∷ 0 ∷ []) (omega arith) (omega arith)
      (omega arith, (omega arith, tt)) (omega arith)

abbrev seat : Grant
seat = record {
  eui = 1 ∷ 2 ∷ 3 ∷ 4 ∷ 5 ∷ 6 ∷ 7 ∷ 8 ∷ [];
  short_addr = 0x1001;
  slot_index = 4;
  rate_tier = 2;
  lease = 50;
}

abbrev wish : Join
wish = record { eui = 1 ∷ 2 ∷ 3 ∷ 4 ∷ 5 ∷ 6 ∷ 7 ∷ 8 ∷ []; req_tier = 2 }

abbrev two_slots : List AnchorSlot
two_slots =
    record { addr = 0x2001; delay_us = 900 } ∷ record { addr = 0x2002; delay_us = 1800 } ∷ []
