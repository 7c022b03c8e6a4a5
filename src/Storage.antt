-- ===== src/Storage.antt =====
-- crates/core/nova-storage: the write-ahead log.
pub mod Wal
