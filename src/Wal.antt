-- ===== src/Wal.antt =====
-- The write-ahead log of a table (src/moonlink/src/storage/wal.rs).
pub mod Transaction
pub mod Manager
pub mod Truncate
pub mod Persist
pub mod Complete
pub mod Store
pub mod Recovery
pub mod Valid
pub mod History
pub mod Readable
pub mod Writes
pub mod Crash
pub mod Durable
pub mod Replay
pub mod Restored
pub mod Reopened
pub mod Marked
