-- ===== src/Cache.antt =====
-- The object storage cache (storage/cache/object_storage).
pub mod Lru
pub mod Entry
pub mod Internal
pub mod Interface
pub mod Sizes
pub mod Valid
pub mod Requests
