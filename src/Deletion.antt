-- ===== src/Deletion.antt =====
-- The rows of a batch that are deleted (storage/mooncake_table/delete_vector.rs).
pub mod Bits
pub mod Vector
pub mod Valid
pub mod Update
pub mod Rows
pub mod Active
