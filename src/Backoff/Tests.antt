-- ===== src/Backoff/Tests.antt =====
-- The ladder of src/scan_backoff_core.c from its first rung.
use tag_testting.Common.{false}
use tag_testting.Backoff.{ScanBackoff}

abbrev lowest : ScanBackoff
lowest = record { rung = 0; alert_pinned = false }
