-- ===== src/Cache/Interface.antt =====
-- The cache's interface (object_storage_cache.rs, `CacheTrait`; cache_handle.rs). Each function is one
-- critical section. `get_cache_entry` has two, with the load of the file between them.
use moonlink.Base.{
  ℕ, ◌^◌, Bool, true, false, Option, none, some, List, [], Outcome, done, panics, Panic, ◌>>=◌,
  ◌>>◌, assert, leb, ltb, ◌==◌, if◌then◌else◌, lookup, insert,
}
use moonlink.Base.Words.{u64_mod}
use moonlink.Base.Checked.{checked_sub, checked_add}
use moonlink.Cache.Lru.{Lru, null}
use moonlink.Cache.Entry.{
  CacheEntry, CacheEntryWrapper, size, ObjectStorageCacheConfig, NonEvictableHandle,
}
use moonlink.Cache.Internal.{
  Internal, insert_non_evictable, delete_cache_entry, unreference,
  try_replace_evictable_with_remote, try_replace_only_reference_count_with_remote,
}

abbrev pub u32_mod : ℕ
u32_mod = 2 ^ 32

abbrev pub handle_of : ℕ → CacheEntryWrapper → NonEvictableHandle
handle_of k w = record { file_id = k; cache_entry = w.cache_entry }

module _ (lru : Lru CacheEntryWrapper) where
  unfoldable pub new : ObjectStorageCacheConfig → Internal lru
  new config = record {
    config = config;
    cur_bytes = 0;
    evicted_entries = [];
    evictable_cache = lru.unbounded;
    non_evictable_cache = [];
  }

  unfoldable pub import_cache_entry :
      Internal lru
      → (file_id : ℕ) → CacheEntry
      → Outcome (Internal lru × NonEvictableHandle × List ℕ)
  import_cache_entry c k entry =
      let w : CacheEntryWrapper = record {
        cache_entry = entry;
        reference_count = 1;
        deletable = true;
      } in
      do
        bytes ← checked_add u64_mod c.cur_bytes (size w)
        (c', _, paths) ←
            insert_non_evictable lru (record c { cur_bytes = bytes }) k w c.config.max_bytes false
        done (c', handle_of k w, paths)

  -- A pinned entry with one more reference.
  unfoldable pub pin_again :
      Internal lru → (file_id : ℕ) → CacheEntryWrapper → Outcome (Internal lru)
  pin_again c k w = do
    assert (ltb 0 w.reference_count)
    count ← checked_add u32_mod w.reference_count 1
    done (record c {
      non_evictable_cache = insert k (record w { reference_count = count }) c.non_evictable_cache;
    })

  -- An evictable entry is pinned. Nothing has to be evicted for it.
  unfoldable pub pin_evictable :
      Internal lru
      → (file_id : ℕ) → CacheEntryWrapper
      → Outcome (Internal lru × Option NonEvictableHandle)
  pin_evictable c k w = do
    assert (w.reference_count == 0)
    count ← checked_add u32_mod w.reference_count 1
    (c', _, paths) ←
        insert_non_evictable lru c k (record w { reference_count = count }) c.config.max_bytes true
    assert (null paths)
    done (c', some (handle_of k w))

  -- The first section of `get_cache_entry`: no handle means that the file has to be loaded.
  unfoldable pub get_cached :
      Internal lru → (file_id : ℕ) → Outcome (Internal lru × Option NonEvictableHandle)
  unfolding pin_again pin_evictable
  get_cached c k = elim (lookup k c.non_evictable_cache) [
    | some w ↦ pin_again c k w >>= λ c'. done (c', some (handle_of k w))
    | none ↦ elim (lru.pop k c.evictable_cache).0 [
      | some w ↦ pin_evictable (record c { evictable_cache = (lru.pop k c.evictable_cache).1 }) k w
      | none ↦ done (record c { evictable_cache = (lru.pop k c.evictable_cache).1 }, none)
    ]
  ]

  -- The end of the second section.
  unfoldable pub keep_if :
      Bool
      → Internal lru
      → NonEvictableHandle
      → (file_size : ℕ) → Outcome (Internal lru × Option NonEvictableHandle)
  keep_if true c handle file_size = done (c, some handle)
  keep_if false c handle file_size = do
    assert (leb file_size c.cur_bytes)
    bytes ← checked_sub c.cur_bytes file_size
    done (record c { cur_bytes = bytes }, none)

  -- The second section, with the wrapper that `get_cache_handle_from_remote` made.
  unfoldable pub insert_loaded :
      Internal lru
      → (file_id : ℕ) → CacheEntryWrapper
      → Outcome (Internal lru × Option NonEvictableHandle × List ℕ)
  unfolding keep_if
  insert_loaded c k w = do
    bytes ← checked_add u64_mod c.cur_bytes (size w)
    (c', success, paths) ←
        insert_non_evictable lru (record c { cur_bytes = bytes }) k w c.config.max_bytes true
    (c'', handle) ← keep_if success c' (handle_of k w) (size w)
    done (c'', handle, paths)

  unfoldable pub try_delete_cache_entry :
      Internal lru → (file_id : ℕ) → Outcome (Internal lru × List ℕ)
  try_delete_cache_entry c k = delete_cache_entry lru c k false

  unfoldable pub increment_reference_count :
      Internal lru → NonEvictableHandle → Outcome (Internal lru)
  unfolding pin_again
  increment_reference_count c handle = elim (lookup handle.file_id c.non_evictable_cache) [
    | some w ↦ pin_again c handle.file_id w
    | none ↦ panics Panic.unwrap_failed
  ]

  unfoldable pub unreference_and_delete :
      Internal lru → NonEvictableHandle → Outcome (Internal lru × List ℕ)
  unreference_and_delete c handle = do
    (c', paths) ← unreference lru c handle.file_id
    assert (null paths)
    delete_cache_entry lru c' handle.file_id true

  module _ (is_local : ℕ → Bool) where
    unfoldable pub unreference_and_replace_with_remote :
        Internal lru → NonEvictableHandle → (remote_filepath : ℕ) → Outcome (Internal lru × List ℕ)
    unreference_and_replace_with_remote c handle remote = do
      (c', paths) ← unreference lru c handle.file_id
      assert (null paths)
      done (try_replace_evictable_with_remote lru is_local c' handle.file_id remote)

    -- The handle takes the remote path if the replacement succeeded.
    unfoldable pub replace_with_remote :
        Internal lru
        → NonEvictableHandle
        → (remote_filepath : ℕ) → Outcome (Internal lru × NonEvictableHandle × List ℕ)
    replace_with_remote c handle remote = do
      (c', paths) ←
          try_replace_only_reference_count_with_remote lru is_local c handle.file_id remote
      done (
        c',
        (if null paths then handle else record handle {
          cache_entry = record handle.cache_entry { cache_filepath = remote };
        }),
        paths,
      )
