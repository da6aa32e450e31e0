-- ===== src/Unpersisted.antt =====
-- What a snapshot has not persisted yet (storage/mooncake_table/persistence_buffer.rs).
pub mod Records
pub mod Prune
pub mod Indices
