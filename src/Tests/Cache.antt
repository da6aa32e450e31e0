-- ===== src/Tests/Cache.antt =====
-- The cache on concrete files.
use moonlink.Base.{
  ◌%◌, ◌==◌, ℕ, ◌+◌, ◌≤◌, ◌≡◌, refl, inl, inr, Bool, true, false, some, List, [], ◌∷◌, done, panics,
  Panic, arith, lookup,
}
use moonlink.Cache.Entry.{
  CacheEntry, CacheEntryWrapper, ObjectStorageCacheConfig, NonEvictableHandle,
}
use moonlink.Base.Checked.{checked_add, checked_sub}
use moonlink.Cache.Internal.{
  Internal, insert_non_evictable, evict_cache_entries, evict_loop, evict_one, undo_unless,
  unreference, release, delete_cache_entry,
}
use moonlink.Cache.Interface.{
  new, import_cache_entry, get_cached, insert_loaded, increment_reference_count, handle_of,
  pin_again, keep_if, try_delete_cache_entry,
}
use moonlink.Cache.Sizes.{sizes}
use moonlink.Cache.Valid.Evict.{Evicts, evict_cache_entries-Evicts}
use moonlink.Cache.Requests.{
  Request, imports, gets, loads, clones, unreferences, State, Serving, Held, serve, count, Served,
}
use moonlink.Cache.Requests.Serve.{Serves, stays, asks, serve-Served, Serves-new-pinned}
use moonlink.Cache.Requests.Refuse.{serve-panics}
use moonlink.Tests.Lru.{list_lru, list_lru_laws}

-- Even paths are local.
abbrev is_local : ℕ → Bool
is_local path = path % 2 == 0

abbrev config : ObjectStorageCacheConfig
config = record { max_bytes = 10; cache_directory = 0; optimize_local_filesystem = false }

abbrev file : ℕ → CacheEntry
file n = record { cache_filepath = n; file_metadata = record { file_size = 6 } }

abbrev loaded : ℕ → CacheEntryWrapper
loaded n = record { cache_entry = file n; reference_count = 1; deletable = true }

abbrev handle : ℕ → NonEvictableHandle
handle n = handle_of n (loaded n)

-- The names that a run unfolds.
unfoldable cache : Unit {0}
unfolding serve new import_cache_entry insert_non_evictable evict_cache_entries evict_loop evict_one
    undo_unless checked_add checked_sub increment_reference_count pin_again unreference release
    get_cached insert_loaded keep_if try_delete_cache_entry delete_cache_entry
cache = tt

-- Two files of six bytes do not fit: the one that nobody uses goes.
abbrev requests : List Request
requests =
    imports 1 (file 1)
    ∷ clones (handle 1)
    ∷ unreferences (handle 1)
    ∷ unreferences (handle 1)
    ∷ gets 2
    ∷ loads 2 (loaded 2)
    ∷ []

abbrev last : State list_lru
last = (
  2 ∷ [],
  record {
    config = config;
    cur_bytes = 6;
    evicted_entries = [];
    evictable_cache = list_lru.unbounded;
    non_evictable_cache = (2, loaded 2) ∷ [];
  },
)

requests-Serves : Serves list_lru is_local ([], new list_lru config) requests last
unfolding cache
requests-Serves =
    asks ((refl, refl, omega arith), omega arith) refl
      (asks (omega arith, omega arith) refl
        (asks (omega arith) refl (
          asks (omega arith) refl
            (asks (omega arith) refl (asks (refl, (refl, refl, omega arith)) refl stays)))))

Serves-new-pinned_example :
    (last.1.cur_bytes ≤ 10)
    × (last.1.cur_bytes
        ≡ sizes (list_lru.entries last.1.evictable_cache) + sizes last.1.non_evictable_cache)
    × ((k : ℕ)
        → Held list_lru k last.0
        → (w : CacheEntryWrapper) × (lookup k last.1.non_evictable_cache ≡ some w)
          × (w.reference_count ≡ count k last.0))
Serves-new-pinned_example =
    Serves-new-pinned list_lru list_lru_laws is_local config requests last.0 last.1 requests-Serves

-- Nobody uses the one file of the cache.
abbrev crowded : Internal list_lru
crowded = record {
  config = config;
  cur_bytes = 6;
  evicted_entries = [];
  evictable_cache = ((1, record (loaded 1) { reference_count = 0 }) ∷ [], (refl, tt));
  non_evictable_cache = [];
}

crowded-Serving : Serving list_lru ([], crowded)
crowded-Serving = record {
  valid = record {
    idle = ((refl, refl), tt);
    referenced = tt;
    unique = tt;
    marked = tt;
    bytes = refl;
  };
  within = omega arith;
  counts = λ k. refl;
}

serve-Served_example : Served list_lru is_local (loads 2 (loaded 2)) ([], crowded)
serve-Served_example =
    serve-Served list_lru list_lru_laws is_local (loads 2 (loaded 2)) ([], crowded) crowded-Serving
      (refl, (refl, refl, omega arith))

-- A second load of the file.
serve-panics_example :
    (p : Panic) × (serve list_lru is_local (loads 1 (loaded 1)) ([], crowded) ≡ panics p)
serve-panics_example =
    serve-panics list_lru list_lru_laws is_local (loads 1 (loaded 1)) ([], crowded) crowded-Serving
      (inl (record (loaded 1) { reference_count = 0 }, refl), omega arith)

evict_cache_entries-Evicts_example :
    (c' : Internal list_lru) × (success : Bool) × (paths : List ℕ) × (evict_cache_entries list_lru
        crowded 3 false
      ≡ done (c', success, paths))
    × Evicts list_lru 0 3 crowded c' success paths
evict_cache_entries-Evicts_example =
    evict_cache_entries-Evicts list_lru list_lru_laws 0 3 false crowded crowded-Serving.valid
      (inr (omega arith))
