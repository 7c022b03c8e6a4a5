-- ===== src/Storage/Wal.antt =====
-- crates/core/nova-storage/src/wal.rs: records, their bytes, the log file and its replay.
pub mod Codec
pub mod RoundTrip
pub mod Records
pub mod Log
pub mod Frames
pub mod Replay
pub mod Recovery
pub mod Crash
pub mod Tests
pub mod Faults
