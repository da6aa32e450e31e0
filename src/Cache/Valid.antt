-- ===== src/Cache/Valid.antt =====
-- The invariant of the cache.
pub mod Evict
pub mod Insert
pub mod Release
pub mod Recount
use moonlink.Base.{ℕ, ◌+◌, ◌≤◌, ◌≡◌, ◌⊎◌, Option, none, some, List, lookup, All, Unique}
use moonlink.Cache.Lru.{Lru}
use moonlink.Cache.Entry.{CacheEntryWrapper}
use moonlink.Cache.Internal.{Internal}
use moonlink.Cache.Sizes.{sizes}

-- An evictable entry has no reference, and its file is not pinned too.
abbrev pub Idle : List (ℕ × CacheEntryWrapper) → ℕ × CacheEntryWrapper → Type 0
Idle pinned e = (e.1.reference_count ≡ 0) × (lookup e.0 pinned ≡ none)

abbrev pub Referenced : ℕ × CacheEntryWrapper → Type 0
Referenced e = 1 ≤ e.1.reference_count

-- The file is pinned.
abbrev pub Pinned : List (ℕ × CacheEntryWrapper) → ℕ → Type 0
Pinned pinned k = (w : CacheEntryWrapper) × (lookup k pinned ≡ some w)

-- The cache has the file.
abbrev pub Present : (lru : Lru CacheEntryWrapper) → ℕ → Internal lru → Type 0
Present lru k c =
    ((w : CacheEntryWrapper) × (lookup k (lru.entries c.evictable_cache) ≡ some w))
    ⊎ Pinned c.non_evictable_cache k

-- Evictable and pinned entries are apart, a pinned entry has a reference, only pinned entries are
-- marked as deleted, and the bytes are those of all entries and of `extra` more.
pub record IsValid (lru : Lru CacheEntryWrapper) (extra : ℕ) (c : Internal lru) : Type 0 where
  pub idle : All (Idle c.non_evictable_cache) (lru.entries c.evictable_cache)
  pub referenced : All Referenced c.non_evictable_cache
  pub unique : Unique c.non_evictable_cache
  pub marked : All (Pinned c.non_evictable_cache) c.evicted_entries
  pub bytes :
      c.cur_bytes ≡ sizes (lru.entries c.evictable_cache) + sizes c.non_evictable_cache + extra
