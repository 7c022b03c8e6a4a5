-- ===== src/Dictionary.antt =====
-- The dictionary of crates/core/nova-core/src/dict.rs: the keys of quads, and the ids of graphs.
pub mod Keys
pub mod Graphs
pub mod Terms
pub mod Varint
mod Tests
