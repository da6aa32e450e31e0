-- ===== src/Cache/Requests/Lookup.antt =====
-- A file is looked up.
use moonlink.Base.{
  ℕ, ◌+◌, ◌≤◌, ◌<◌, ◌≡◌, refl, inl, inr, Bool, true, Option, none, some, List, ◌∷◌, done, arith,
  lookup, insert, sym, ap, subst, ◌∙◌, Option-cases,
}
use mathlib.Core.Bool.{false≢true}
use moonlink.Base.Checked.{checked_add}
use moonlink.Cache.Lru.{Lru, LruLaws}
use moonlink.Cache.Entry.{CacheEntryWrapper, NonEvictableHandle, ObjectStorageCacheConfig}
use moonlink.Cache.Internal.{Internal}
use moonlink.Cache.Interface.{u32_mod, pin_again, pin_evictable, get_cached, handle_of}
use moonlink.Cache.Valid.{IsValid}
use moonlink.Cache.Valid.Insert.{Inserts, insert_non_evictable-Inserts}
use moonlink.Cache.Valid.Recount.{
  recounted, pin_again-done, popped, popped-IsValid, popped_found, popped_missing, unreferenced,
  not_pinned,
}
use moonlink.Cache.Requests.{gets, serve, Serving, Allowed, Served, references, count}
use moonlink.Cache.Requests.Counts.{Counts, Counts-take}
use moonlink.Cache.Requests.Deletion.{missed, missed-Serving}
use moonlink.Cache.Requests.Reference.{again-Serving}

module _ (lru : Lru CacheEntryWrapper) (laws : LruLaws lru) (handles : List ℕ) (c : Internal lru)
    (s : Serving lru (handles, c)) (k : ℕ) where
  -- The cache after a lookup, and the handle it gave.
  abbrev Got : Option NonEvictableHandle → List ℕ → Type 0
  Got handle handles' =
      (c' : Internal lru) × (get_cached lru c k ≡ done (c', handle))
      × Serving lru (handles', c')
      × (c'.config ≡ c.config)

  get_cached-pinned :
      (w : CacheEntryWrapper)
      → lookup k c.non_evictable_cache ≡ some w
      → count k handles + 1 < u32_mod
      → Got (some (handle_of k w)) (k ∷ handles)
  unfolding get_cached
  get_cached-pinned w pinned bound =
      let n : w.reference_count ≡ count k handles = sym (ap references pinned) ∙ s.counts k in
      let run : pin_again lru c k w
          ≡ done (recounted lru laws c k w s.valid pinned (w.reference_count + 1)) =
        pin_again-done lru laws c k w s.valid pinned (omega arith) in
      (
        recounted lru laws c k w s.valid pinned (w.reference_count + 1),
        rw (pinned, get_cached, run) refl,
        again-Serving lru laws handles c s k w pinned n pinned,
        refl,
      )

  get_cached-evictable :
      (w : CacheEntryWrapper)
      → lookup k (lru.entries c.evictable_cache) ≡ some w
      → Got (some (handle_of k w)) (k ∷ handles)
  unfolding get_cached pin_evictable checked_add
  get_cached-evictable w e =
      let c₁ = popped lru laws c k w s.valid e in
      let (c', success, paths, run, i) =
        insert_non_evictable-Inserts lru laws k w' c₁ (popped-IsValid lru laws c k w s.valid e)
          (popped_missing lru laws c k w s.valid e) absent (omega arith) c.config.max_bytes true
          (inl refl) in
      let fit = i.unneeded s.within in
      (
        c',
        rw (absent, get_cached, popped_found lru laws c k w s.valid e, zero_count, run, fit.1) refl,
        record {
          valid = (kept c' success paths i fit.0).0;
          within = omega (
            arith,
            (kept c' success paths i fit.0).2,
            ap (λ (x : ObjectStorageCacheConfig). x.max_bytes) i.config,
          );
          counts =
              subst (λ m. Counts m (k ∷ handles)) (sym (kept c' success paths i fit.0).1)
                (Counts-take k c.non_evictable_cache handles s.counts w'
                  (omega (arith, s.counts k, ap references absent)));
        },
        i.config,
      )
    where
      w' : CacheEntryWrapper
      w' = record w { reference_count = 1 }

      zero_count : w.reference_count ≡ 0
      zero_count = unreferenced lru laws c k w s.valid e

      kept :
          (c' : Internal lru) (success : Bool) (paths : List ℕ)
          → Inserts lru k w' c.config.max_bytes (popped lru laws c k w s.valid e) c' success paths
          → success ≡ true
          → IsValid lru 0 c'
            × (c'.non_evictable_cache ≡ insert k w' c.non_evictable_cache)
            × (c'.cur_bytes ≤ c.config.max_bytes)
      kept c' success paths i t = elim i.outcome [
        | inl o ↦ (o.1, o.2, o.3)
        | inr o ↦ absurd (false≢true (sym o.0 ∙ t))
      ]

      absent : lookup k c.non_evictable_cache ≡ none
      absent = not_pinned lru laws c k w s.valid e

  get_cached-missing :
      lookup k (lru.entries c.evictable_cache) ≡ none
      → lookup k c.non_evictable_cache ≡ none
      → Got none handles
  unfolding get_cached
  get_cached-missing missing absent = (
    record c { evictable_cache = (lru.pop k c.evictable_cache).1 },
    rw (absent, get_cached, missed lru laws handles c s k missing) refl,
    missed-Serving lru laws handles c s k missing c.evicted_entries s.valid.marked,
    refl,
  )

  pub gets-Served :
      (is_local : ℕ → Bool)
      → Allowed lru (gets k) (handles, c)
      → Served lru is_local (gets k) (handles, c)
  unfolding serve
  gets-Served is_local bound = elim (Option-cases (lookup k c.non_evictable_cache)) [
    | inr (w, e) ↦
        let (c', run, s', same) = get_cached-pinned w e bound in
        ((k ∷ handles, c'), rw (run, serve) refl, s', same)
    | inl absent ↦ elim (Option-cases (lookup k (lru.entries c.evictable_cache))) [
      | inr (w, e) ↦
          let (c', run, s', same) = get_cached-evictable w e in
          ((k ∷ handles, c'), rw (run, serve) refl, s', same)
      | inl missing ↦
          let (c', run, s', same) = get_cached-missing missing absent in
          ((handles, c'), rw (run, serve) refl, s', same)
    ]
  ]
