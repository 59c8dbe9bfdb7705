-- ===== src/Debug.antt =====
-- src/pos_dbg.c: the log of raw ranges that goes out over Bluetooth in binary records. The encoders are
-- in Encode, the session and its commands in Session; Decode and Host are the listener at the other
-- end, written from the layouts in src/pos_dbg.h.
pub mod Encode
mod Flags
pub mod Decode
pub mod Trips
pub mod SetTrips
pub mod Session
pub mod Host
pub mod Lines
pub mod Listener
pub mod Capture
pub mod Lossless
mod Tests
