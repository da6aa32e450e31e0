-- ===== src/Cache/Requests/Serve.antt =====
-- All requests together, and sequences of them from an empty cache.
use moonlink.Base.{
  Bool, ℕ, ◌+◌, ◌≤◌, ◌≡◌, refl, some, List, [], ◌∷◌, done, arith, lookup, sym, ap, subst, ◌∙◌, All,
}
use moonlink.Cache.Lru.{Lru, LruLaws}
use moonlink.Cache.Entry.{CacheEntryWrapper, ObjectStorageCacheConfig}
use moonlink.Cache.Internal.{Internal}
use moonlink.Cache.Interface.{new}
use moonlink.Cache.Sizes.{sizes}
use moonlink.Cache.Valid.{Idle}
use moonlink.Cache.Requests.{
  Request, imports, gets, loads, clones, unreferences, unreferences_and_deletes, deletes,
  unreferences_and_replaces, replaces, State, serve, Allowed, Serving, Served, Held, count,
}
use moonlink.Cache.Requests.Counts.{held-pinned}
use moonlink.Cache.Requests.Reference.{clones-Served, unreferences-Served}
use moonlink.Cache.Requests.Deletion.{deletes-Served, unreferences_and_deletes-Served}
use moonlink.Cache.Requests.Insertion.{imports-Served, loads-Served}
use moonlink.Cache.Requests.Replace.{replaces-Served, unreferences_and_replaces-Served}
use moonlink.Cache.Requests.Lookup.{gets-Served}

-- Requests that are allowed, one after the other.
pub data Serves (lru : Lru CacheEntryWrapper) (is_local : ℕ → Bool)
    : State lru → List Request → State lru → Type 0 where
  stays : {s : State lru} → Serves lru is_local s [] s
  asks :
      {s s' t : State lru} {r : Request} {rs : List Request}
      → Allowed lru r s
      → serve lru is_local r s ≡ done s'
      → Serves lru is_local s' rs t
      → Serves lru is_local s (r ∷ rs) t

done-injective {ℓ} : {A : Type ℓ} {x y : A} → done x ≡ done y → x ≡ y
done-injective e = cc

module _ (lru : Lru CacheEntryWrapper) (laws : LruLaws lru) (is_local : ℕ → Bool) where
  pub new-Serving : (config : ObjectStorageCacheConfig) → Serving lru ([], new lru config)
  unfolding new
  new-Serving config = record {
    valid = record {
      idle = subst (All (Idle [])) (sym laws.unbounded_lem) tt;
      referenced = tt;
      unique = tt;
      marked = tt;
      bytes = omega (arith, ap sizes laws.unbounded_lem);
    };
    within = omega arith;
    counts = λ k. refl;
  }

  -- In a serving cache a request that its user may make fails no assertion, overflows nothing and does not run for
  -- ever: it returns, and the cache keeps its invariant, its limit of bytes, its configuration
  -- and the count of each file's handles.
  pub serve-Served :
      (r : Request) (s : State lru) → Serving lru s → Allowed lru r s → Served lru is_local r s
  serve-Served (imports k entry) (handles, c) s a =
      imports-Served lru laws handles c s k entry is_local a
  serve-Served (gets k) (handles, c) s a = gets-Served lru laws handles c s k is_local a
  serve-Served (loads k w) (handles, c) s a = loads-Served lru laws handles c s k w a.1 a.0 is_local
  serve-Served (clones handle) (handles, c) s a =
      clones-Served lru laws handles c s is_local handle a
  serve-Served (unreferences handle) (handles, c) s a =
      unreferences-Served lru laws handles c s is_local handle a
  serve-Served (unreferences_and_deletes handle) (handles, c) s a =
      unreferences_and_deletes-Served lru laws handles c s handle is_local a
  serve-Served (deletes k) (handles, c) s a = deletes-Served lru laws handles c s k is_local a
  serve-Served (unreferences_and_replaces handle remote) (handles, c) s a =
      unreferences_and_replaces-Served lru laws is_local handles c s handle remote a
  serve-Served (replaces handle remote) (handles, c) s a =
      replaces-Served lru laws is_local handles c s handle remote

  Serving-Serves :
      {s t : State lru} {rs : List Request}
      → Serving lru s
      → Serves lru is_local s rs t
      → Serving lru t × (t.1.config ≡ s.1.config)
  Serving-Serves v stays = (v, refl)
  Serving-Serves {s = s} v (asks {s' = s'} {r = r} a run rest) =
      let (found, e, v', same) = serve-Served r s v a in
      let agree : found ≡ s' = done-injective (sym e ∙ run) in
      let (vt, later) = Serving-Serves (subst (Serving lru) agree v') rest in
      (vt, later ∙ ap (λ (x : State lru). x.1.config) (sym agree) ∙ same)

  -- After requests to a fresh cache a file of which a user holds a handle is in the cache, with
  -- as many references as there are handles, and the cache holds no more bytes than its limit.
  pub Serves-new-pinned :
      (config : ObjectStorageCacheConfig) (rs : List Request) (handles : List ℕ) (c : Internal lru)
      → Serves lru is_local ([], new lru config) rs (handles, c)
      → (c.cur_bytes ≤ config.max_bytes)
        × (c.cur_bytes ≡ sizes (lru.entries c.evictable_cache) + sizes c.non_evictable_cache)
        × ((k : ℕ)
            → Held lru k handles
            → (w : CacheEntryWrapper) × (lookup k c.non_evictable_cache ≡ some w)
              × (w.reference_count ≡ count k handles))
  unfolding new
  Serves-new-pinned config rs handles c run =
      let (v, same) = Serving-Serves (new-Serving config) run in
      (
        omega (arith, v.within, ap (λ (x : ObjectStorageCacheConfig). x.max_bytes) same),
        omega (arith, v.valid.bytes),
        λ k held. held-pinned k c.non_evictable_cache handles v.counts held,
      )
