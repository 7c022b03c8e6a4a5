-- ===== src/Store.antt =====
-- Quad stores: the trait of crates/core/nova-core/src/store.rs and the engines behind it.
pub mod Vec
pub mod Memory
