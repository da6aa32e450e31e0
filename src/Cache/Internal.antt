-- ===== src/Cache/Internal.antt =====
-- The operations inside the cache's lock (object_storage_cache.rs, `ObjectStorageCacheInternal`).
use moonlink.Base.{
  ℕ, zero, suc, Bool, true, false, not, none, some, List, [], ◌∷◌, ◌++◌, Outcome, done, panics,
  Panic, ◌>>=◌, ◌>>◌, assert, leb, ltb, ◌==◌, if◌then◌else◌, lookup, erase, insert, length, retain,
}
use moonlink.Base.Checked.{checked_sub}
use moonlink.Event.{is_some}
use moonlink.Cache.Lru.{Lru}
use moonlink.Cache.Entry.{CacheEntryWrapper, size, ObjectStorageCacheInternal}

-- `HashSet::contains` and `HashSet::remove`.
abbrev pub member : ℕ → List ℕ → Bool
member k [] = false
member k (j ∷ js) = if j == k then true else member k js

abbrev pub discard : ℕ → List ℕ → List ℕ
discard k = retain (λ j. not (j == k))

-- The path, if the file may be deleted.
abbrev pub deleted_path : CacheEntryWrapper → List ℕ
deleted_path w = if w.deletable then w.cache_entry.cache_filepath ∷ [] else []

unfoldable pub replaced : CacheEntryWrapper → (remote_path : ℕ) → CacheEntryWrapper
replaced w remote = record w {
  cache_entry = record w.cache_entry { cache_filepath = remote };
  deletable = false;
}

module _ (lru : Lru CacheEntryWrapper) where
  abbrev pub Internal : Type 0
  Internal = ObjectStorageCacheInternal lru

  -- One round of the loop: the least recently used entry goes.
  unfoldable pub evict_one : Internal → Outcome (Internal × List ℕ)
  evict_one c = elim (lru.pop_lru c.evictable_cache) [
    | none ↦ panics Panic.unwrap_failed
    | some ((_, w), rest) ↦ do
      assert (w.reference_count == 0)
      bytes ← checked_sub c.cur_bytes (size w)
      done (record c { evictable_cache = rest; cur_bytes = bytes }, deleted_path w)
  ]

  -- The loop, on fuel.
  unfoldable pub evict_loop :
      (fuel : ℕ)
      → Internal
      → (max_bytes : ℕ) (tolerate_insufficiency : Bool) → Outcome (Internal × Bool × List ℕ)
  evict_loop zero c max tolerate = panics Panic.unreachable
  evict_loop (suc fuel) c max tolerate = elim (ltb max c.cur_bytes) [
    | false ↦ done (c, true, [])
    | true ↦ elim (lru.is_empty c.evictable_cache) [
      | true ↦ assert tolerate >> done (c, false, [])
      | false ↦ do
        (c', path) ← evict_one c
        (c'', success, paths) ← evict_loop fuel c' max tolerate
        done (c'', success, path ++ paths)
    ]
  ]

  -- Each round removes an entry, and the last one finds none.
  unfoldable pub evict_cache_entries :
      Internal
      → (max_bytes : ℕ) (tolerate_insufficiency : Bool) → Outcome (Internal × Bool × List ℕ)
  evict_cache_entries c max tolerate =
      evict_loop (suc (length (lru.entries c.evictable_cache))) c max tolerate

  -- A failed insertion is undone.
  unfoldable pub undo_unless : Bool → Internal → (file_id : ℕ) → Outcome Internal
  undo_unless true c k = done c
  undo_unless false c k = do
    assert (is_some (lookup k c.non_evictable_cache))
    done (record c { non_evictable_cache = erase k c.non_evictable_cache })

  unfoldable pub insert_non_evictable :
      Internal
      → (file_id : ℕ) → CacheEntryWrapper
      → (max_bytes : ℕ) (tolerate_insufficiency : Bool) → Outcome (Internal × Bool × List ℕ)
  unfolding undo_unless
  insert_non_evictable c k w max tolerate = do
    let (found, touched) = lru.get k c.evictable_cache
    assert (not (is_some found))
    assert (not (is_some (lookup k c.non_evictable_cache)))
    (c', success, paths) ←
        evict_cache_entries
          (record c {
            evictable_cache = touched;
            non_evictable_cache = insert k w c.non_evictable_cache;
          })
          max tolerate
    c'' ← undo_unless success c' k
    done (c'', success, paths)

  unfoldable pub delete_cache_entry :
      Internal → (file_id : ℕ) (panic_if_non_existent : Bool) → Outcome (Internal × List ℕ)
  delete_cache_entry c k must_exist = elim (lru.pop k c.evictable_cache).0 [
    | some w ↦ do
      assert (w.reference_count == 0)
      bytes ← checked_sub c.cur_bytes (size w)
      done (
        record c { evictable_cache = (lru.pop k c.evictable_cache).1; cur_bytes = bytes },
        deleted_path w,
      )
    | none ↦ elim (lookup k c.non_evictable_cache) [
      | some _ ↦ do
        assert (not (member k c.evicted_entries))
        done (
          record c {
            evictable_cache = (lru.pop k c.evictable_cache).1;
            evicted_entries = k ∷ c.evicted_entries;
          },
          [],
        )
      | none ↦
          assert (not must_exist)
          >> done (record c { evictable_cache = (lru.pop k c.evictable_cache).1 }, [])
    ]
  ]

  -- The last reference is gone: the entry is removed if it is marked as deleted, and becomes
  -- evictable otherwise.
  unfoldable pub release :
      Internal → (file_id : ℕ) → CacheEntryWrapper → Outcome (Internal × List ℕ)
  release c k w = elim (member k c.evicted_entries) [
    | true ↦ do
      assert (leb (size w) c.cur_bytes)
      bytes ← checked_sub c.cur_bytes (size w)
      done (
        record c {
          cur_bytes = bytes;
          evicted_entries = discard k c.evicted_entries;
          non_evictable_cache = erase k c.non_evictable_cache;
        },
        deleted_path w,
      )
    | false ↦ done (
      record c {
        evictable_cache = lru.push k w c.evictable_cache;
        non_evictable_cache = erase k c.non_evictable_cache;
      },
      [],
    )
  ]

  unfoldable pub unreference : Internal → (file_id : ℕ) → Outcome (Internal × List ℕ)
  unreference c k = elim (lookup k c.non_evictable_cache) [
    | none ↦ panics Panic.unwrap_failed
    | some w ↦ checked_sub w.reference_count 1 >>= λ count. elim (count == 0) [
      | true ↦ release c k (record w { reference_count = count })
      | false ↦ done (
        record c {
          non_evictable_cache =
              insert k (record w { reference_count = count }) c.non_evictable_cache;
        },
        [],
      )
    ]
  ]

  -- `is_local` is `path_utils::is_local_filepath`, a call of the `url` crate.
  module _ (is_local : ℕ → Bool) where
    unfoldable pub try_replace_evictable_with_remote :
        Internal → (file_id remote_path : ℕ) → Internal × List ℕ
    unfolding replaced
    try_replace_evictable_with_remote c k remote =
        if not c.config.optimize_local_filesystem
        then (c, [])
        else if not (is_local remote)
        then (c, [])
        else elim (lru.get_mut k c.evictable_cache) [
          | none ↦ (c, [])
          | some (w, write) ↦ (
            record c { evictable_cache = write (replaced w remote) },
            w.cache_entry.cache_filepath ∷ [],
          )
        ]

    unfoldable pub try_replace_only_reference_count_with_remote :
        Internal → (file_id remote_path : ℕ) → Outcome (Internal × List ℕ)
    unfolding replaced
    try_replace_only_reference_count_with_remote c k remote =
        if not c.config.optimize_local_filesystem
        then done (c, [])
        else if not (is_local remote)
        then done (c, [])
        else if member k c.evicted_entries
        then done (c, [])
        else elim (lookup k c.non_evictable_cache) [
          | none ↦ done (c, [])
          | some w ↦
              assert (leb 1 w.reference_count)
              >> (if ltb 1 w.reference_count
                  then done (c, [])
                  else done (
                    record c {
                      non_evictable_cache = insert k (replaced w remote) c.non_evictable_cache;
                    },
                    w.cache_entry.cache_filepath ∷ [],
                  ))
        ]
