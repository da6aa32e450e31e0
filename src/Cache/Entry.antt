-- ===== src/Cache/Entry.antt =====
-- What the cache holds (base_cache.rs, cache_config.rs, object_storage_cache.rs). A file id and a file
-- path are numbers.
use moonlink.Base.{ℕ, Bool, List}
use moonlink.Cache.Lru.{Lru}

pub record FileMetadata : Type 0 where
  pub file_size : ℕ

pub record CacheEntry : Type 0 where
  pub cache_filepath : ℕ
  pub file_metadata : FileMetadata

pub record CacheEntryWrapper : Type 0 where
  pub cache_entry : CacheEntry
  pub reference_count : ℕ
  pub deletable : Bool

abbrev pub size : CacheEntryWrapper → ℕ
size w = w.cache_entry.file_metadata.file_size

pub record ObjectStorageCacheConfig : Type 0 where
  pub max_bytes : ℕ
  pub cache_directory : ℕ
  pub optimize_local_filesystem : Bool

pub record ObjectStorageCacheInternal (lru : Lru CacheEntryWrapper) : Type 0 where
  pub config : ObjectStorageCacheConfig
  pub cur_bytes : ℕ
  pub evicted_entries : List ℕ
  pub evictable_cache : lru.Map
  pub non_evictable_cache : List (ℕ × CacheEntryWrapper)

-- A pinned file; its cache is the one that it is used with.
pub record NonEvictableHandle : Type 0 where
  pub file_id : ℕ
  pub cache_entry : CacheEntry
