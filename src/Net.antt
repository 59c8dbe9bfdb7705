-- ===== src/Net.antt =====
-- src/uwb_net.c and src/uwb_net.h: the TDMA network layer of the tag.
pub mod Tiers
pub mod Gate
pub mod Act
pub mod Machine
pub mod Bounds
pub mod Emission
pub mod Trace
pub mod Transitions
pub mod Lease
pub mod Cadence
pub mod Filter
pub mod TierLaws
pub mod GateLaws
pub mod FilterLaws
pub mod ActLaws
mod Tests
