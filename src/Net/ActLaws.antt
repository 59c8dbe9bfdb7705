-- ===== src/Net/ActLaws.antt =====
-- The calibration gate over the action words that `uwb_net_handle` returns.
use tag_testting.Common.{◌≡◌, true, false, arith}
use tag_testting.Net.Act
use tag_testting.Net.Tiers.{Table}
use tag_testting.Net.Machine.{Event, Ctx, handle, lease_age}

-- On every word that the machine returns the gate of an uncalibrated tag clears the sweep and
-- leaves every other action; a calibrated tag's word passes unchanged.
gate_clears_sweep :
    (tbl : Table) (c : Ctx) (ev : Event)
    → let act = (handle tbl c ev).1 in
      let gated = Act.gate_actions act false in
      (Act.gate_actions act true ≡ act)
      × (Act.masked gated Act.run_sweep ≡ 0)
      × (Act.masked gated Act.send_join ≡ Act.masked act Act.send_join)
      × (Act.masked gated Act.send_keepalive ≡ Act.masked act Act.send_keepalive)
      × (Act.masked gated Act.run_discover ≡ Act.masked act Act.run_discover)
      × (Act.masked gated Act.sleep ≡ Act.masked act Act.sleep)
      × (Act.masked gated Act.to_scan ≡ Act.masked act Act.to_scan)
      × (Act.masked gated Act.send_alert ≡ Act.masked act Act.send_alert)
unfolding handle lease_age Act.gate_actions
gate_clears_sweep tbl c ev = ground arith
