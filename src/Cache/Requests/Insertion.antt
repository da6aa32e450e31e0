-- ===== src/Cache/Requests/Insertion.antt =====
-- A new file is imported, and a loaded one is kept or given back to the loader.
use moonlink.Base.{
  ℕ, ◌+◌, ◌-◌, ◌≤◌, ◌<◌, ◌≡◌, refl, ◌⊎◌, inl, inr, Bool, true, false, List, [], ◌∷◌, done, arith,
  leb, insert, sym, ap, subst, ◌∙◌,
}
use moonlink.Base.Checked.{checked_sub_le, checked_add, checked_add_lt}
use moonlink.Base.Words.{u64_mod}
use moonlink.Cache.Lru.{Lru, LruLaws}
use moonlink.Cache.Entry.{CacheEntry, CacheEntryWrapper, ObjectStorageCacheConfig, size}
use moonlink.Cache.Internal.{Internal, insert_non_evictable}
use moonlink.Cache.Interface.{import_cache_entry, insert_loaded, keep_if}
use moonlink.Cache.Sizes.{sizes}
use moonlink.Cache.Valid.{IsValid}
use moonlink.Cache.Valid.Insert.{Inserts, insert_non_evictable-Inserts}
use moonlink.Cache.Requests.{
  imports, loads, serve, Serving, Allowed, Served, Fits, references, count,
}
use moonlink.Cache.Requests.Counts.{Counts, Counts-take}

module _ (lru : Lru CacheEntryWrapper) (laws : LruLaws lru) (handles : List ℕ) (c : Internal lru)
    (s : Serving lru (handles, c)) (k : ℕ) (w : CacheEntryWrapper) (fits : Fits lru k (size w) c)
    (single : w.reference_count ≡ 1) where
  -- The file's bytes are counted before there is room for them.
  abbrev counted : Internal lru
  counted = record c { cur_bytes = c.cur_bytes + size w }

  counted-IsValid : IsValid lru (size w) counted
  counted-IsValid = record {
    idle = s.valid.idle;
    referenced = s.valid.referenced;
    unique = s.valid.unique;
    marked = s.valid.marked;
    bytes = omega (arith, s.valid.bytes);
  }

  -- An absent file has no handle.
  unheld : count k handles ≡ 0
  unheld = sym (s.counts k) ∙ ap references fits.1

  -- The file is pinned with its one handle.
  kept-Serving :
      (c' : Internal lru)
      → IsValid lru 0 c'
      → c'.non_evictable_cache ≡ insert k w c.non_evictable_cache
      → c'.cur_bytes ≤ c.config.max_bytes
      → c'.config ≡ c.config
      → Serving lru (k ∷ handles, c')
  kept-Serving c' v pinned within same = record {
    valid = v;
    within = omega (arith, within, ap (λ (x : ObjectStorageCacheConfig). x.max_bytes) same);
    counts =
        subst (λ m. Counts m (k ∷ handles)) (sym pinned)
          (Counts-take k c.non_evictable_cache handles s.counts w (omega (arith, unheld)));
  }

  -- The file is not kept: its bytes are taken off again.
  refused-Serving :
      (c' : Internal lru)
      → IsValid lru (size w) c'
      → c'.non_evictable_cache ≡ c.non_evictable_cache
      → lru.entries c'.evictable_cache ≡ []
      → c'.config ≡ c.config
      → Serving lru (handles, record c' { cur_bytes = c'.cur_bytes - size w })
  refused-Serving c' v pinned none_left same = record {
    valid = record {
      idle = v.idle;
      referenced = v.referenced;
      unique = v.unique;
      marked = v.marked;
      bytes = omega (arith, v.bytes);
    };
    within = omega (
      arith,
      v.bytes,
      s.valid.bytes,
      s.within,
      ap sizes pinned,
      ap sizes none_left,
      ap (λ (x : ObjectStorageCacheConfig). x.max_bytes) same,
    );
    counts = subst (λ m. Counts m handles) (sym pinned) s.counts;
  }

  inserted :
      (tolerate : Bool)
      → (tolerate ≡ true) ⊎ (size w + sizes c.non_evictable_cache ≤ c.config.max_bytes)
      → (c' : Internal lru) × (success : Bool) × (paths : List ℕ) × (insert_non_evictable lru
            counted k w c.config.max_bytes tolerate
          ≡ done (c', success, paths))
        × Inserts lru k w c.config.max_bytes counted c' success paths
  inserted =
      insert_non_evictable-Inserts lru laws k w counted counted-IsValid fits.0 fits.1 (omega arith)
        c.config.max_bytes

  pub imported-Serving :
      size w + sizes c.non_evictable_cache ≤ c.config.max_bytes
      → (c' : Internal lru) × (success : Bool) × (paths : List ℕ) × (insert_non_evictable lru
            counted k w c.config.max_bytes false
          ≡ done (c', success, paths))
        × Serving lru (k ∷ handles, c')
        × (c'.config ≡ c.config)
  imported-Serving room =
      let (c', success, paths, run, i) = inserted false (inr room) in
      (c', success, paths, run, serving c' success i.config i.outcome, i.config)
    where
      serving :
          (c' : Internal lru) (success : Bool)
          → c'.config ≡ c.config
          → ((success ≡ true)
              × IsValid lru 0 c'
              × (c'.non_evictable_cache ≡ insert k w c.non_evictable_cache)
              × (c'.cur_bytes ≤ c.config.max_bytes))
            ⊎ ((success ≡ false)
                × IsValid lru (size w) c'
                × (c'.non_evictable_cache ≡ c.non_evictable_cache)
                × (c.config.max_bytes < c'.cur_bytes)
                × (lru.entries c'.evictable_cache ≡ []))
          → Serving lru (k ∷ handles, c')
      serving c' success same (inl (_, v, pinned, within)) = kept-Serving c' v pinned within same
      serving c' success same (inr (_, v, pinned, over, none_left)) =
          absurd (omega (arith, v.bytes, ap sizes pinned, ap sizes none_left, over, room))

  -- The loaded file is kept if there is room for it, and given back otherwise.
  pub loads-Served : (is_local : ℕ → Bool) → Served lru is_local (loads k w) (handles, c)
  unfolding serve insert_loaded keep_if
  loads-Served is_local =
      let (c', success, paths, run, i) = inserted true (inl refl) in
      finish c' success paths run i.config i.outcome
    where
      added : checked_add u64_mod c.cur_bytes (size w) ≡ done (c.cur_bytes + size w)
      added = checked_add_lt u64_mod c.cur_bytes (size w) fits.2

      finish :
          (c' : Internal lru) (success : Bool) (paths : List ℕ)
          → insert_non_evictable lru counted k w c.config.max_bytes true ≡ done (c', success, paths)
          → c'.config ≡ c.config
          → ((success ≡ true)
              × IsValid lru 0 c'
              × (c'.non_evictable_cache ≡ insert k w c.non_evictable_cache)
              × (c'.cur_bytes ≤ c.config.max_bytes))
            ⊎ ((success ≡ false)
                × IsValid lru (size w) c'
                × (c'.non_evictable_cache ≡ c.non_evictable_cache)
                × (c.config.max_bytes < c'.cur_bytes)
                × (lru.entries c'.evictable_cache ≡ []))
          → Served lru is_local (loads k w) (handles, c)
      finish c' success paths run same (inl (e, v, pinned, within)) = (
        (k ∷ handles, c'),
        rw (added, insert_loaded, run, e, keep_if) refl,
        kept-Serving c' v pinned within same,
        same,
      )
      finish c' success paths run same (inr (e, v, pinned, over, none_left)) =
          let enough : size w ≤ c'.cur_bytes = omega (arith, v.bytes) in
          let test : leb (size w) c'.cur_bytes ≡ true = ground arith in
          (
            (handles, record c' { cur_bytes = c'.cur_bytes - size w }),
            rw
                (
                  added,
                  insert_loaded,
                  run,
                  e,
                  keep_if,
                  test,
                  checked_sub_le c'.cur_bytes (size w) enough,
                )
                refl,
            refused-Serving c' v pinned none_left same,
            same,
          )

module _ (lru : Lru CacheEntryWrapper) (laws : LruLaws lru) (handles : List ℕ) (c : Internal lru)
    (s : Serving lru (handles, c)) (k : ℕ) (entry : CacheEntry) where
  pub imports-Served :
      (is_local : ℕ → Bool)
      → Allowed lru (imports k entry) (handles, c)
      → Served lru is_local (imports k entry) (handles, c)
  unfolding serve import_cache_entry
  imports-Served is_local (fits, room) =
      let w : CacheEntryWrapper = record {
        cache_entry = entry;
        reference_count = 1;
        deletable = true;
      } in
      let (c', success, paths, run, s', same) =
        imported-Serving lru laws handles c s k w fits refl room in
      (
        (k ∷ handles, c'),
        rw (checked_add_lt u64_mod c.cur_bytes (size w) fits.2, import_cache_entry, run) refl,
        s',
        same,
      )
