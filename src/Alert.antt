-- ===== src/Alert.antt =====
-- The HELP alert: its message (`struct uwb_alert`), the tag's side (src/tag_alert_core.c) and the
-- side of anchors and gateway (src/alert_relay.c).
pub mod Message
pub mod Core
pub mod Dedup
pub mod Relay
pub mod Latch
pub mod Persist
mod Tests
