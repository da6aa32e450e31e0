-- ===== src/Cache/Requests/Reference.antt =====
-- A handle is cloned, and given back.
use moonlink.Base.{
  Bool, ℕ, ◌+◌, ◌-◌, ◌≤◌, ◌≡◌, refl, ◌⊎◌, inl, inr, false, some, List, [], ◌∷◌, done, arith, lookup,
  sym, ap, subst, ◌∙◌, insert, erase,
}
use moonlink.Cache.Lru.{Lru, LruLaws}
use moonlink.Cache.Entry.{CacheEntryWrapper, NonEvictableHandle, ObjectStorageCacheConfig}
use moonlink.Cache.Internal.{Internal, unreference, member}
use moonlink.Cache.Interface.{pin_again, increment_reference_count}
use moonlink.Cache.Valid.{Present}
use moonlink.Cache.Valid.Recount.{recounted, recounted-IsValid, pin_again-done, unreference-done}
use moonlink.Cache.Requests.{
  clones, unreferences, serve, Serving, Held, Allowed, Served, count, give_back,
}
use moonlink.Cache.Requests.Counts.{
  Counts, held-pinned, Counts-take, Counts-insert_back, Counts-erase_back,
}

module _ (lru : Lru CacheEntryWrapper) (laws : LruLaws lru) (handles : List ℕ) (c : Internal lru)
    (s : Serving lru (handles, c)) where
  -- A pinned file has one more handle.
  pub again-Serving :
      (k : ℕ) (w : CacheEntryWrapper)
      → lookup k c.non_evictable_cache ≡ some w
      → w.reference_count ≡ count k handles
      → (pinned : lookup k c.non_evictable_cache ≡ some w)
      → Serving lru (k ∷ handles, recounted lru laws c k w s.valid pinned (w.reference_count + 1))
  again-Serving k w e n pinned = record {
    valid = recounted-IsValid lru laws c k w s.valid pinned (w.reference_count + 1) (omega arith);
    within = s.within;
    counts =
        Counts-take k c.non_evictable_cache handles s.counts
          (record w { reference_count = w.reference_count + 1 }) (omega arith);
  }

  pub clones-Served :
      (is_local : ℕ → Bool) (handle : NonEvictableHandle)
      → Allowed lru (clones handle) (handles, c)
      → Served lru is_local (clones handle) (handles, c)
  unfolding serve increment_reference_count
  clones-Served is_local handle (held, bound) =
      let (w, pinned, n) = held-pinned handle.file_id c.non_evictable_cache handles s.counts held in
      let run : pin_again lru c handle.file_id w
          ≡ done (recounted lru laws c handle.file_id w s.valid pinned (w.reference_count + 1)) =
        pin_again-done lru laws c handle.file_id w s.valid pinned (omega arith) in
      (
        (
          handle.file_id ∷ handles,
          recounted lru laws c handle.file_id w s.valid pinned (w.reference_count + 1),
        ),
        rw (pinned, increment_reference_count, run) refl,
        again-Serving handle.file_id w pinned n pinned,
        refl,
      )

  -- The cache after one reference of a file is given back.
  pub unreference-Serving :
      (k : ℕ)
      → Held lru k handles
      → (c' : Internal lru) × (paths : List ℕ) × (unreference lru c k ≡ done (c', paths))
        × Serving lru (give_back k handles, c')
        × (c'.config ≡ c.config)
        × (member k c.evicted_entries ≡ false
            → (paths ≡ []) × (c'.evicted_entries ≡ c.evicted_entries) × Present lru k c')
  unreference-Serving k held =
      let (w, pinned, n) = held-pinned k c.non_evictable_cache handles s.counts held in
      let (c', paths, run, v, less, same, kept, left) =
        unreference-done lru laws c k w s.valid pinned in
      (
        c',
        paths,
        run,
        record {
          valid = v;
          within = omega (arith, s.within, ap (λ (x : ObjectStorageCacheConfig). x.max_bytes) same);
          counts = counted w c' n left;
        },
        same,
        kept,
      )
    where
      counted :
          (w : CacheEntryWrapper) (c' : Internal lru)
          → w.reference_count ≡ count k handles
          → ((w.reference_count ≡ 1) × (c'.non_evictable_cache ≡ erase k c.non_evictable_cache))
            ⊎ ((2 ≤ w.reference_count)
                × (c'.non_evictable_cache
                    ≡ insert k
                        (record w { reference_count = w.reference_count - 1 })
                        c.non_evictable_cache))
          → Counts c'.non_evictable_cache (give_back k handles)
      counted w c' n (inl (last, left)) =
          subst (λ m. Counts m (give_back k handles)) (sym left)
            (Counts-erase_back k c.non_evictable_cache handles s.counts (sym n ∙ last))
      counted w c' n (inr (more, left)) =
          subst (λ m. Counts m (give_back k handles)) (sym left)
            (Counts-insert_back k c.non_evictable_cache handles s.counts
              (record w { reference_count = w.reference_count - 1 }) (ap (λ t. t - 1) n))

  pub unreferences-Served :
      (is_local : ℕ → Bool) (handle : NonEvictableHandle)
      → Allowed lru (unreferences handle) (handles, c)
      → Served lru is_local (unreferences handle) (handles, c)
  unfolding serve
  unreferences-Served is_local handle held =
      let (c', paths, run, s', same, _) = unreference-Serving handle.file_id held in
      ((give_back handle.file_id handles, c'), rw (run, serve) refl, s', same)
