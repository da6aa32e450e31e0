-- ===== src/Cache/Requests/Replace.antt =====
-- A file's path is replaced by the remote one.
use moonlink.Base.{
  ℕ, ◌≡◌, refl, inl, inr, Bool, true, some, List, [], ◌∷◌, ◌++◌, done, arith, leb, ltb, ◌==◌,
  if◌then◌else◌, lookup, erase, insert, sym, ap, subst, ◌∙◌, All, All-map, All-append,
  Unique-insert, Option-cases, Bool-cases, lookup-insert,
}
use moonlink.Cache.Lru.{Lru, LruLaws, null}
use moonlink.Cache.Entry.{CacheEntryWrapper, NonEvictableHandle}
use moonlink.Cache.Internal.{
  Internal, member, replaced, try_replace_evictable_with_remote,
  try_replace_only_reference_count_with_remote,
}
use moonlink.Cache.Interface.{unreference_and_replace_with_remote, replace_with_remote}
use moonlink.Cache.Sizes.{sizes, sizes-append, sizes-erase, All_pairs-erase, All_pairs-lookup}
use moonlink.Cache.Valid.{Idle, Referenced, Pinned}
use moonlink.Cache.Valid.Insert.{missing-All, Pinned-insert, Idle-insert}
use moonlink.Cache.Valid.Release.{not_evictable, bytes_left}
use moonlink.Cache.Requests.{
  unreferences_and_replaces, replaces, serve, Served, Allowed, Serving, Held, Unmarked, references,
  count, give_back,
}
use moonlink.Cache.Requests.Reference.{unreference-Serving}

module _ (lru : Lru CacheEntryWrapper) (laws : LruLaws lru) (handles : List ℕ) (c : Internal lru)
    (s : Serving lru (handles, c)) (k remote : ℕ) (w : CacheEntryWrapper) where
  -- An evictable entry with the remote path.
  evictable-Serving :
      (m : lru.Map)
      → lookup k (lru.entries c.evictable_cache) ≡ some w
      → lru.entries m ≡ erase k (lru.entries c.evictable_cache) ++ ((k, replaced w remote) ∷ [])
      → Serving lru (handles, record c { evictable_cache = m })
  unfolding replaced
  evictable-Serving m e left =
      let old = lru.entries c.evictable_cache in
      let i = All_pairs-lookup (Idle c.non_evictable_cache) k old w s.valid.idle e in
      record {
        valid = record {
          idle = subst (All (Idle c.non_evictable_cache)) (sym left) (
              All-append (Idle c.non_evictable_cache) (erase k old) ((k, replaced w remote) ∷ [])
                (All_pairs-erase (Idle c.non_evictable_cache) k old s.valid.idle) (i, tt));
          referenced = s.valid.referenced;
          unique = s.valid.unique;
          marked = s.valid.marked;
          bytes = omega (
            arith,
            s.valid.bytes,
            ap sizes left,
            sizes-append (erase k old) k (replaced w remote),
            sizes-erase k old w (laws.unique c.evictable_cache) e,
          );
        };
        within = s.within;
        counts = s.counts;
      }

  -- A pinned entry with the remote path.
  pinned-Serving :
      lookup k c.non_evictable_cache ≡ some w
      → Serving lru (
        handles,
        record c { non_evictable_cache = insert k (replaced w remote) c.non_evictable_cache },
      )
  unfolding replaced
  pinned-Serving e =
      let w' = replaced w remote in
      let old = c.non_evictable_cache in
      record {
        valid = record {
          idle =
              Idle-insert k w' old (lru.entries c.evictable_cache)
                (missing-All k (lru.entries c.evictable_cache)
                  (not_evictable lru laws c k w s.valid e))
                s.valid.idle;
          referenced = (
            All_pairs-lookup Referenced k old w s.valid.referenced e,
            All_pairs-erase Referenced k old s.valid.referenced,
          );
          unique = Unique-insert k w' old s.valid.unique;
          marked =
              All-map (Pinned old) (Pinned (insert k w' old)) (Pinned-insert k w' old)
                c.evicted_entries s.valid.marked;
          bytes = omega (arith, s.valid.bytes, bytes_left lru laws c k w s.valid e);
        };
        within = s.within;
        counts = λ j. elim (Bool-cases (k == j)) [
          | inl t ↦
              let same : k ≡ j = ground arith in
              rw (lookup-insert k j w' old, t)
                (sym (ap references e) ∙ s.counts k ∙ ap (λ i. count i handles) same)
          | inr f ↦ rw (lookup-insert k j w' old, f) (s.counts j)
        ];
      }

module _ (lru : Lru CacheEntryWrapper) (laws : LruLaws lru) (is_local : ℕ → Bool) (handles : List ℕ)
    (c : Internal lru) (s : Serving lru (handles, c)) where
  unchanged-Serving :
      (x : Internal lru × List ℕ)
      → x ≡ (c, [])
      → Serving lru (handles, x.0) × (x.0.config ≡ c.config)
  unchanged-Serving x e = rw e (s, refl)

  try_replace_evictable_with_remote-Serving :
      (k remote : ℕ)
      → Serving lru (handles, (try_replace_evictable_with_remote lru is_local c k remote).0)
        × ((try_replace_evictable_with_remote lru is_local c k remote).0.config ≡ c.config)
  unfolding try_replace_evictable_with_remote
  try_replace_evictable_with_remote-Serving k remote =
      elim (Bool-cases c.config.optimize_local_filesystem) [
        | inr off ↦
            unchanged-Serving (try_replace_evictable_with_remote lru is_local c k remote)
              (ground (arith, off))
        | inl on ↦ elim (Bool-cases (is_local remote)) [
          | inr far ↦
              unchanged-Serving (try_replace_evictable_with_remote lru is_local c k remote)
                (ground (arith, on, far))
          | inl near ↦ elim (Option-cases (lookup k (lru.entries c.evictable_cache))) [
            | inl e ↦
                unchanged-Serving (try_replace_evictable_with_remote lru is_local c k remote)
                  (ground (arith, on, near, laws.get_mut_missing k c.evictable_cache e))
            | inr (w, e) ↦
                let (write, found, left) = laws.get_mut_found k c.evictable_cache w e in
                let changed : try_replace_evictable_with_remote lru is_local c k remote ≡ (
                  record c { evictable_cache = write (replaced w remote) },
                  w.cache_entry.cache_filepath ∷ [],
                ) =
                  ground (arith, on, near, found) in
                rw changed (
                  evictable-Serving lru laws handles c s k remote w (write (replaced w remote)) e
                      (left (replaced w remote)),
                  refl,
                )
          ]
        ]
      ]

  -- What the replacement of a pinned file's path gives.
  Replaced : (k remote : ℕ) → Type 0
  Replaced k remote =
      (c' : Internal lru) × (paths : List ℕ) × (try_replace_only_reference_count_with_remote lru
          is_local c k remote
        ≡ done (c', paths))
      × Serving lru (handles, c')
      × (c'.config ≡ c.config)

  try_replace_only_reference_count_with_remote-Replaced : (k remote : ℕ) → Replaced k remote
  unfolding Replaced try_replace_only_reference_count_with_remote
  try_replace_only_reference_count_with_remote-Replaced k remote =
      elim (Bool-cases c.config.optimize_local_filesystem) [
        | inr off ↦ (c, [], rw off refl, s, refl)
        | inl on ↦ elim (Bool-cases (is_local remote)) [
          | inr far ↦ (c, [], rw (on, far) refl, s, refl)
          | inl near ↦ elim (Bool-cases (member k c.evicted_entries)) [
            | inl marked ↦ (c, [], rw (on, near, marked) refl, s, refl)
            | inr kept ↦ elim (Option-cases (lookup k c.non_evictable_cache)) [
              | inl e ↦ (c, [], ground (arith, on, near, kept, e), s, refl)
              | inr (w, e) ↦
                  let held : leb 1 w.reference_count ≡ true = ground (
                    arith,
                    All_pairs-lookup Referenced k c.non_evictable_cache w s.valid.referenced e,
                  ) in
                  elim (Bool-cases (ltb 1 w.reference_count)) [
                    | inl more ↦ (c, [], ground (arith, on, near, kept, e, held, more), s, refl)
                    | inr one ↦ (
                      record c {
                        non_evictable_cache = insert k (replaced w remote) c.non_evictable_cache;
                      },
                      w.cache_entry.cache_filepath ∷ [],
                      ground (arith, on, near, kept, e, held, one),
                      pinned-Serving lru laws handles c s k remote w e,
                      refl,
                    )
                  ]
            ]
          ]
        ]
      ]

  replace_with_remote-Serving :
      (handle : NonEvictableHandle) (remote : ℕ)
      → (c' : Internal lru) × (handle' : NonEvictableHandle) × (paths : List ℕ)
        × (replace_with_remote lru is_local c handle remote ≡ done (c', handle', paths))
        × Serving lru (handles, c')
        × (c'.config ≡ c.config)
  unfolding Replaced replace_with_remote
  replace_with_remote-Serving handle remote =
      let (c', paths, run, s', same) =
        try_replace_only_reference_count_with_remote-Replaced handle.file_id remote in
      (
        c',
        (if null paths then handle else record handle {
          cache_entry = record handle.cache_entry { cache_filepath = remote };
        }),
        paths,
        rw (run, replace_with_remote) refl,
        s',
        same,
      )

module _ (lru : Lru CacheEntryWrapper) (laws : LruLaws lru) (is_local : ℕ → Bool) (handles : List ℕ)
    (c : Internal lru) (s : Serving lru (handles, c)) where
  unreference_and_replace_with_remote-Serving :
      (handle : NonEvictableHandle) (remote : ℕ)
      → Held lru handle.file_id handles
      → Unmarked lru handle.file_id c
      → (c' : Internal lru) × (paths : List ℕ) × (unreference_and_replace_with_remote lru is_local c
            handle remote
          ≡ done (c', paths))
        × Serving lru (give_back handle.file_id handles, c')
        × (c'.config ≡ c.config)
  unfolding unreference_and_replace_with_remote
  unreference_and_replace_with_remote-Serving handle remote held unmarked =
      let (c₁, paths₁, run₁, s₁, same₁, kept) =
        unreference-Serving lru laws handles c s handle.file_id held in
      let (silent, marks, present) = kept unmarked in
      let (s', same) =
        try_replace_evictable_with_remote-Serving lru laws is_local
          (give_back handle.file_id handles) c₁ s₁ handle.file_id remote in
      (
        (try_replace_evictable_with_remote lru is_local c₁ handle.file_id remote).0,
        (try_replace_evictable_with_remote lru is_local c₁ handle.file_id remote).1,
        rw (run₁, unreference_and_replace_with_remote, silent) refl,
        s',
        same ∙ same₁,
      )

  pub unreferences_and_replaces-Served :
      (handle : NonEvictableHandle) (remote : ℕ)
      → Allowed lru (unreferences_and_replaces handle remote) (handles, c)
      → Served lru is_local (unreferences_and_replaces handle remote) (handles, c)
  unfolding serve
  unreferences_and_replaces-Served handle remote (held, unmarked) =
      let (c', paths, run, s', same) =
        unreference_and_replace_with_remote-Serving handle remote held unmarked in
      ((give_back handle.file_id handles, c'), rw (run, serve) refl, s', same)

  pub replaces-Served :
      (handle : NonEvictableHandle) (remote : ℕ)
      → Served lru is_local (replaces handle remote) (handles, c)
  unfolding serve
  replaces-Served handle remote =
      let (c', handle', paths, run, s', same) =
        replace_with_remote-Serving lru laws is_local handles c s handle remote in
      ((handles, c'), rw (run, serve) refl, s', same)
