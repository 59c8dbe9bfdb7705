-- ===== src/Net/Machine.antt =====
-- The lifecycle machine of src/uwb_net.c: `uwb_net_init`, `uwb_net_handle` and what they call.
use tag_testting.Common.{
  ℕ, ◌+◌, ◌-◌, ◌/◌, ◌^◌, List, Bool, true, false, not, ltb, leb, ◌==◌, if◌then◌else◌, bit_or, u8,
  u16, sub32,
}
use tag_testting.Net.Act
use tag_testting.Net.Gate.{min_anchors}
use tag_testting.Net.Tiers.{Table, tier_fast, get_tier_params}

abbrev pub lease_sf : ℕ
lease_sf = 50

abbrev pub miss_max : ℕ
miss_max = 3

abbrev pub join_retry_max : ℕ
join_retry_max = 4

abbrev pub proto_ver_net : ℕ
proto_ver_net = 2

-- `uwb_net_state_t`
pub data State : Type 0 where
  scan joining discover ranging : State

-- `uwb_ev_kind_t`
pub data EvKind : Type 0 where
  beacon beacon_miss grant grant_miss discovered swept motion : EvKind

-- `struct uwb_net_event`
pub record Event : Type 0 where
  pub kind : EvKind
  pub proto_ver : ℕ
  pub frame_counter : ℕ
  pub in_map : Bool
  pub map_slot : ℕ
  pub g_short_addr : ℕ
  pub g_slot : ℕ
  pub g_tier : ℕ
  pub g_lease : ℕ
  pub n_anchors : ℕ
  pub req_tier : ℕ
  pub alert_pending : Bool

-- `struct uwb_net_ctx`
pub record Ctx : Type 0 where
  pub state : State
  pub eui : List ℕ
  pub short_addr : ℕ
  pub slot_index : ℕ
  pub tier : ℕ
  pub req_tier : ℕ
  pub lease_remaining : ℕ
  pub miss_count : ℕ
  pub join_retries : ℕ
  pub frame_counter : ℕ
  pub n_anchors : ℕ
  pub part_count : ℕ
  pub filt_tier : ℕ
  pub last_active_ms : ℕ
  pub tier_since_ms : ℕ

-- `uwb_net_init`
unfoldable pub init : List ℕ → Ctx
init eui = record {
  state = scan;
  eui = eui;
  short_addr = 0;
  slot_index = 0;
  tier = tier_fast;
  req_tier = tier_fast;
  lease_remaining = 0;
  miss_count = 0;
  join_retries = 0;
  frame_counter = 0;
  n_anchors = 0;
  part_count = 0;
  filt_tier = tier_fast;
  last_active_ms = 0;
  tier_since_ms = 0;
}

-- `lease_age`
unfoldable pub lease_age : Ctx → Event → Ctx
lease_age c ev =
    let elapsed = sub32 ev.frame_counter c.frame_counter in
    if ltb elapsed c.lease_remaining
    then record c { lease_remaining = u16 (c.lease_remaining + 2 ^ 16 - u16 elapsed) }
    else record c { lease_remaining = 0 }

-- `alert_action`
alert_of_kind : State → EvKind → ℕ
alert_of_kind scan beacon = Act.send_alert
alert_of_kind scan beacon_miss = Act.send_alert
alert_of_kind scan _ = Act.idle
alert_of_kind _ beacon = Act.send_alert
alert_of_kind _ _ = Act.idle

unfoldable pub alert_action : State → Event → ℕ
unfolding alert_of_kind
alert_action st ev = if not ev.alert_pending then Act.idle else alert_of_kind st ev.kind

-- `case UWB_ST_SCAN`
on_scan : EvKind → Ctx → Event → Ctx × ℕ
on_scan beacon c ev =
    if ev.proto_ver == proto_ver_net
    then (
      record c {
        frame_counter = ev.frame_counter;
        miss_count = 0;
        join_retries = 0;
        state = joining;
      },
      Act.send_join,
    )
    else (c, Act.sleep)
on_scan _ c ev = (c, Act.sleep)

-- `case UWB_ST_JOINING`
on_joining : EvKind → Ctx → Event → Ctx × ℕ
on_joining grant c ev = (
  record c {
    short_addr = ev.g_short_addr;
    slot_index = ev.g_slot;
    tier = ev.g_tier;
    lease_remaining = ev.g_lease;
    miss_count = 0;
    state = discover;
  },
  Act.run_discover,
)
on_joining grant_miss c ev =
    let c' = record c { join_retries = u8 (c.join_retries + 1) } in
    if leb join_retry_max c'.join_retries
    then (record c' { state = scan }, Act.idle)
    else (c', Act.send_join)
on_joining beacon c ev =
    if ev.proto_ver == proto_ver_net
    then (record c { miss_count = 0; frame_counter = ev.frame_counter }, Act.send_join)
    else (c, Act.idle)
on_joining _ c ev = (c, Act.idle)

-- The `UWB_EV_BEACON_MISS` branch that DISCOVER and RANGING share.
on_miss : Ctx → Ctx × ℕ
on_miss c =
    let c' = record c { miss_count = u8 (c.miss_count + 1) } in
    if leb miss_max c'.miss_count
    then (record c' { state = scan; miss_count = 0 }, Act.to_scan)
    else (c', Act.idle)

-- `miss_count = 0; lease_age(c, ev); frame_counter = ev->frame_counter`
abbrev pub synced : Ctx → Event → Ctx
synced c ev = record (lease_age (record c { miss_count = 0 }) ev) {
  frame_counter = ev.frame_counter;
}

-- The keepalive test: the optimistic renewal at half the lease, with the bit that it sets.
abbrev pub renew : Ctx → Ctx × Bool
renew c =
    if leb c.lease_remaining (lease_sf / 2)
    then (record c { lease_remaining = lease_sf }, true)
    else (c, false)

abbrev pub keepalive_bit : Bool → ℕ
keepalive_bit b = if b then Act.send_keepalive else 0

-- `case UWB_ST_DISCOVER`
on_discover : EvKind → Ctx → Event → Ctx × ℕ
unfolding on_miss
on_discover discovered c ev =
    let c' = record c { n_anchors = ev.n_anchors } in
    if leb min_anchors ev.n_anchors
    then (record c' { state = ranging }, Act.idle)
    else (c', Act.run_discover)
on_discover beacon_miss c ev = on_miss c
on_discover beacon c ev =
    let c' = synced c ev in
    if not ev.in_map
    then (record c' { state = scan }, Act.to_scan)
    else let (c'', kept) = renew (record c' { slot_index = ev.map_slot }) in
      (c'', bit_or Act.run_discover (keepalive_bit kept))
on_discover _ c ev = (c, Act.idle)

-- The participation counter of RANGING: sweep, or sleep.
count_part : Table → Ctx → ℕ → Ctx × ℕ
count_part tbl c act =
    let c' = record c { part_count = u16 (c.part_count + 1) } in
    if leb (get_tier_params tbl c.tier).range_every c'.part_count
    then (record c' { part_count = 0 }, bit_or act Act.run_sweep)
    else (c', bit_or act Act.sleep)

-- `case UWB_ST_RANGING`
on_ranging : Table → EvKind → Ctx → Event → Ctx × ℕ
unfolding on_miss count_part
on_ranging tbl beacon_miss c ev = on_miss c
on_ranging tbl swept c ev =
    if ltb ev.n_anchors min_anchors
    then (record c { state = discover }, Act.run_discover)
    else (c, Act.idle)
on_ranging tbl beacon c ev =
    let c' = synced c ev in
    if not ev.in_map
    then (record c' { state = scan }, Act.to_scan)
    else let (c'', kept) = renew (record c' { slot_index = ev.map_slot }) in
      count_part tbl c'' (keepalive_bit kept)
on_ranging tbl _ c ev = (c, Act.idle)

dispatch : Table → State → EvKind → Ctx → Event → Ctx × ℕ
unfolding on_scan on_joining on_discover on_ranging
dispatch tbl scan k c ev = on_scan k c ev
dispatch tbl joining k c ev = on_joining k c ev
dispatch tbl discover k c ev = on_discover k c ev
dispatch tbl ranging k c ev = on_ranging tbl k c ev

-- `uwb_net_handle_core`
is_motion : EvKind → Bool
is_motion motion = true
is_motion _ = false

unfoldable pub handle_core : Table → Ctx → Event → Ctx × ℕ
unfolding dispatch is_motion
handle_core tbl c ev =
    if is_motion ev.kind
    then (record c { req_tier = ev.req_tier; tier = ev.req_tier }, Act.idle)
    else dispatch tbl c.state ev.kind c ev

-- `uwb_net_handle`
unfoldable pub handle : Table → Ctx → Event → Ctx × ℕ
unfolding handle_core alert_action
handle tbl c ev = let (c', act) = handle_core tbl c ev in (c', bit_or act (alert_action c.state ev))
