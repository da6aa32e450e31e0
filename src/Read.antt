-- ===== src/Read.antt =====
-- Reads of a table at an LSN (union_read/read_state_manager.rs, lsn_state.rs).
pub mod Lsn
pub mod Manager
pub mod Fresh
pub mod Answers
pub mod Waits
pub mod Failed
