-- ===== src/Frame.antt =====
-- src/uwb_frame_802_15_4z.c: the frames of the UWB network, built and parsed in byte buffers.
pub mod Bytes
pub mod Header
pub mod Ranging
pub mod RangingTrips
pub mod Beacon
pub mod BeaconTrips
pub mod Kinds
pub mod Seat
pub mod SeatTrips
pub mod Reports
pub mod ReportTrips
mod Tests
