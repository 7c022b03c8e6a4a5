-- ===== src/Louds.antt =====
-- crates/engines/nova-engine-louds/src: the delta, the store in memory, and its compaction.
pub mod Delta
pub mod Parts
pub mod Store
pub mod Compact
pub mod Batch
pub mod Engine
pub mod Pattern
mod Tests
