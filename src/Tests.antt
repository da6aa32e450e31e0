-- ===== src/Tests.antt =====
-- Runs of the log at concrete inputs, and the theorems at them.
pub mod Log
pub mod Witnesses
pub mod Disk
pub mod Replay
pub mod Reopened
pub mod Handler
pub mod Writes
pub mod Lru
pub mod Cache
pub mod Read
pub mod Deletion
pub mod Batch
pub mod Unpersisted
