-- ===== src/Batch.antt =====
-- The ids of batches (storage/mooncake_table/batch_id_counter.rs).
pub mod Counter
pub mod Ids
