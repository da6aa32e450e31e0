-- ===== src/Cache/Requests.antt =====
-- The cache and the handles its users hold, as sequences of the users' requests.
pub mod Counts
pub mod Reference
pub mod Deletion
pub mod Insertion
pub mod Lookup
pub mod Serve
pub mod Refuse
pub mod Replace
use moonlink.Base.{
  ℕ, suc, ◌+◌, ◌-◌, ◌≤◌, ◌<◌, ◌≡◌, Bool, true, false, Option, none, some, List, [], ◌∷◌, Outcome,
  done, ◌>>=◌, ◌==◌, if◌then◌else◌, lookup,
}
use moonlink.Base.Words.{u64_mod}
use moonlink.Cache.Lru.{Lru}
use moonlink.Cache.Entry.{
  CacheEntry, CacheEntryWrapper, size, ObjectStorageCacheConfig, NonEvictableHandle,
}
use moonlink.Cache.Internal.{Internal, member, unreference}
use moonlink.Cache.Interface.{
  u32_mod, import_cache_entry, get_cached, insert_loaded, try_delete_cache_entry,
  increment_reference_count, unreference_and_delete, unreference_and_replace_with_remote,
  replace_with_remote,
}
use moonlink.Cache.Sizes.{sizes}
use moonlink.Cache.Valid.{IsValid}

-- What users ask the cache for. `gets` and `loads` are the two critical sections of
-- `get_cache_entry`.
pub data Request : Type 0 where
  imports : (file_id : ℕ) → CacheEntry → Request
  gets : (file_id : ℕ) → Request
  loads : (file_id : ℕ) → CacheEntryWrapper → Request
  clones unreferences unreferences_and_deletes : NonEvictableHandle → Request
  deletes : (file_id : ℕ) → Request
  unreferences_and_replaces replaces : NonEvictableHandle → (remote_filepath : ℕ) → Request

-- The handles for a file in a list of the handles' files.
abbrev pub count : ℕ → List ℕ → ℕ
count k [] = 0
count k (j ∷ handles) = if j == k then suc (count k handles) else count k handles

-- One handle for a file is given back.
abbrev pub give_back : ℕ → List ℕ → List ℕ
give_back k [] = []
give_back k (j ∷ handles) = if j == k then handles else j ∷ give_back k handles

abbrev pub received : Option NonEvictableHandle → List ℕ → List ℕ
received none handles = handles
received (some handle) handles = handle.file_id ∷ handles

abbrev pub references : Option CacheEntryWrapper → ℕ
references none = 0
references (some w) = w.reference_count

module _ (lru : Lru CacheEntryWrapper) where
  -- The files of the handles that users hold, and the cache.
  abbrev pub State : Type 0
  State = List ℕ × Internal lru

  -- The file is not in the cache, and the sum of the bytes is one of 64 bits.
  abbrev pub Fits : (file_id file_size : ℕ) → Internal lru → Type 0
  Fits k n c =
      (lookup k (lru.entries c.evictable_cache) ≡ none)
      × (lookup k c.non_evictable_cache ≡ none)
      × (c.cur_bytes + n < u64_mod)

  -- The user holds a handle for the file.
  abbrev pub Held : ℕ → List ℕ → Type 0
  Held k handles = 1 ≤ count k handles

  abbrev pub Unmarked : ℕ → Internal lru → Type 0
  Unmarked k c = member k c.evicted_entries ≡ false

  -- What a request asks of its user. A file that is imported fits beside the pinned ones.
  abbrev pub Allowed : Request → State → Type 0
  Allowed (imports k entry) (handles, c) =
      Fits k entry.file_metadata.file_size c
      × (entry.file_metadata.file_size + sizes c.non_evictable_cache ≤ c.config.max_bytes)
  Allowed (gets k) (handles, c) = count k handles + 1 < u32_mod
  Allowed (loads k w) (handles, c) = (w.reference_count ≡ 1) × Fits k (size w) c
  Allowed (clones handle) (handles, c) =
      Held handle.file_id handles × (count handle.file_id handles + 1 < u32_mod)
  Allowed (unreferences handle) (handles, c) = Held handle.file_id handles
  Allowed (unreferences_and_deletes handle) (handles, c) =
      Held handle.file_id handles × Unmarked handle.file_id c
  Allowed (deletes k) (handles, c) = Unmarked k c
  Allowed (unreferences_and_replaces handle remote) (handles, c) =
      Held handle.file_id handles × Unmarked handle.file_id c
  Allowed (replaces handle remote) s = Unit

  -- The cache is valid and within its bytes, and counts each file's handles.
  pub record Serving (s : State) : Type 0 where
    pub valid : IsValid lru 0 s.1
    pub within : s.1.cur_bytes ≤ s.1.config.max_bytes
    pub counts : (k : ℕ) → references (lookup k s.1.non_evictable_cache) ≡ count k s.0

-- `is_local` is the `url` crate's answer, as in the cache's operations.
module _ (lru : Lru CacheEntryWrapper) (is_local : ℕ → Bool) where
  unfoldable pub serve : Request → State lru → Outcome (State lru)
  serve (imports k entry) (handles, c) = do
    (c', handle, _) ← import_cache_entry lru c k entry
    done (handle.file_id ∷ handles, c')
  serve (gets k) (handles, c) = do
    (c', handle) ← get_cached lru c k
    done (received handle handles, c')
  serve (loads k w) (handles, c) = do
    (c', handle, _) ← insert_loaded lru c k w
    done (received handle handles, c')
  serve (clones handle) (handles, c) = do
    c' ← increment_reference_count lru c handle
    done (handle.file_id ∷ handles, c')
  serve (unreferences handle) (handles, c) = do
    (c', _) ← unreference lru c handle.file_id
    done (give_back handle.file_id handles, c')
  serve (unreferences_and_deletes handle) (handles, c) = do
    (c', _) ← unreference_and_delete lru c handle
    done (give_back handle.file_id handles, c')
  serve (deletes k) (handles, c) = do (c', _) ← try_delete_cache_entry lru c k; done (handles, c')
  serve (unreferences_and_replaces handle remote) (handles, c) = do
    (c', _) ← unreference_and_replace_with_remote lru is_local c handle remote
    done (give_back handle.file_id handles, c')
  serve (replaces handle remote) (handles, c) = do
    (c', _, _) ← replace_with_remote lru is_local c handle remote
    done (handles, c')

  -- The request returns, and the cache serves on with the same configuration.
  abbrev pub Served : Request → State lru → Type 0
  Served r s =
      (s' : State lru) × (serve r s ≡ done s') × Serving lru s' × (s'.1.config ≡ s.1.config)
