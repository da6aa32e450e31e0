-- ===== src/Handler.antt =====
-- The table handler (src/moonlink/src/table_handler).
pub mod Options
pub mod State
pub mod Lsns
pub mod Blocking
pub mod Maintenance
pub mod Discard
pub mod Persisted
pub mod Alter
pub mod Idle
pub mod Valid
pub mod Requests
pub mod Serves
pub mod Log
pub mod Writes
