-- ===== src/Cache/Valid/Insert.antt =====
-- Pinning a file that the cache does not hold.
use moonlink.Base.{
  ℕ, ◌+◌, ◌≤◌, ◌<◌, ◌≡◌, refl, ◌⊎◌, inl, inr, Bool, true, false, none, List, [], ◌∷◌, done, arith,
  ◌==◌, All, All-map, Unique, Unique-insert, lookup, erase, insert, lookup-insert, Bool-cases, sym,
  ap, subst, ◌∙◌,
}
use moonlink.Event.{is_some}
use moonlink.Cache.Lru.{Lru, LruLaws}
use moonlink.Cache.Entry.{CacheEntryWrapper, size}
use moonlink.Cache.Internal.{Internal, undo_unless, evict_cache_entries, insert_non_evictable}
use moonlink.Cache.Sizes.{sizes, erase-missing, All_pairs-erase}
use moonlink.Cache.Valid.{IsValid, Idle, Referenced, Pinned}
use moonlink.Cache.Valid.Evict.{Evicts, Tolerates, evict_cache_entries-Evicts}

-- A file whose key an association list does not have is none of its entries.
pub missing-All {ℓ} :
    {V : Type ℓ} (k : ℕ) (m : List (ℕ × V)) → lookup k m ≡ none → All (λ e. (k == e.0) ≡ false) m
missing-All k [] h = tt
missing-All k ((j, v) ∷ m) h = elim (Bool-cases (j == k)) [
  | inl e ↦ absurd (cc (rw e at h))
  | inr e ↦ (ground arith, missing-All k m (rw e at h))
]

pub Pinned-insert :
    (k : ℕ) (w : CacheEntryWrapper) (m : List (ℕ × CacheEntryWrapper)) (j : ℕ)
    → Pinned m j
    → Pinned (insert k w m) j
Pinned-insert k w m j (v, found) = elim (Bool-cases (k == j)) [
  | inl e ↦ (w, lookup-insert k j w m ∙ rw e refl)
  | inr e ↦ (v, lookup-insert k j w m ∙ rw e found)
]

-- Both lists of entries keep their places when a missing file is pinned.
pub Idle-insert :
    (k : ℕ) (w : CacheEntryWrapper) (pinned m : List (ℕ × CacheEntryWrapper))
    → All (λ e. (k == e.0) ≡ false) m
    → All (Idle pinned) m
    → All (Idle (insert k w pinned)) m
Idle-insert k w pinned [] h i = tt
Idle-insert k w pinned ((j, v) ∷ m) h i =
    ((i.0.0, lookup-insert k j w pinned ∙ rw (h.0) i.0.1), Idle-insert k w pinned m h.1 i.1)

-- What the insertion of entry `w` gives: it is pinned and the bytes fit; or it is not, nothing
-- evictable is left, and its bytes are still counted.
pub record Inserts (lru : Lru CacheEntryWrapper) (k : ℕ) (w : CacheEntryWrapper) (max : ℕ)
    (c c' : Internal lru) (success : Bool) (paths : List ℕ) : Type 0 where
  pub outcome :
      ((success ≡ true)
        × IsValid lru 0 c'
        × (c'.non_evictable_cache ≡ insert k w c.non_evictable_cache)
        × (c'.cur_bytes ≤ max))
      ⊎ ((success ≡ false)
          × IsValid lru (size w) c'
          × (c'.non_evictable_cache ≡ c.non_evictable_cache)
          × (max < c'.cur_bytes)
          × (lru.entries c'.evictable_cache ≡ []))
  pub marks : c'.evicted_entries ≡ c.evicted_entries
  pub config : c'.config ≡ c.config
  pub unneeded : c.cur_bytes ≤ max → (success ≡ true) × (paths ≡ [])

module _ (lru : Lru CacheEntryWrapper) (laws : LruLaws lru) (k : ℕ) (w : CacheEntryWrapper)
    (c : Internal lru) (v : IsValid lru (size w) c)
    (not_evictable : lookup k (lru.entries c.evictable_cache) ≡ none)
    (not_pinned : lookup k c.non_evictable_cache ≡ none) (referenced : 1 ≤ w.reference_count) where
  abbrev pinned : Internal lru
  pinned = record c {
    evictable_cache = (lru.get k c.evictable_cache).1;
    non_evictable_cache = insert k w c.non_evictable_cache;
  }

  same_entries : lru.entries pinned.evictable_cache ≡ lru.entries c.evictable_cache
  same_entries = laws.get_missing k c.evictable_cache not_evictable

  sizes-insert : sizes (insert k w c.non_evictable_cache) ≡ size w + sizes c.non_evictable_cache
  sizes-insert = ap (λ m. size w + sizes m) (erase-missing k c.non_evictable_cache not_pinned)

  pinned-IsValid : IsValid lru 0 pinned
  pinned-IsValid = record {
    idle = subst (All (Idle (insert k w c.non_evictable_cache))) (sym same_entries) (
        Idle-insert k w c.non_evictable_cache (lru.entries c.evictable_cache)
          (missing-All k (lru.entries c.evictable_cache) not_evictable) v.idle);
    referenced = (referenced, All_pairs-erase Referenced k c.non_evictable_cache v.referenced);
    unique = Unique-insert k w c.non_evictable_cache v.unique;
    marked =
        All-map (Pinned c.non_evictable_cache) (Pinned (insert k w c.non_evictable_cache))
          (Pinned-insert k w c.non_evictable_cache) c.evicted_entries v.marked;
    bytes = omega (arith, v.bytes, sizes-insert, ap sizes same_entries);
  }

  erase-insert_self : erase k (insert k w c.non_evictable_cache) ≡ c.non_evictable_cache
  erase-insert_self =
      let same : (k == k) ≡ true = ground arith in
      rw same (
        ap (erase k) (erase-missing k c.non_evictable_cache not_pinned)
        ∙ erase-missing k c.non_evictable_cache not_pinned)

  found_self : is_some (lookup k (insert k w c.non_evictable_cache)) ≡ true
  found_self = let same : (k == k) ≡ true = ground arith in rw same refl

  -- After a failed eviction the entry is taken out again.
  undone-IsValid :
      (max : ℕ) (c' : Internal lru) (success : Bool) (paths : List ℕ)
      → Evicts lru 0 max pinned c' success paths
      → lru.entries c'.evictable_cache ≡ []
      → IsValid lru (size w) (record c' { non_evictable_cache = erase k c'.non_evictable_cache })
  undone-IsValid max c' success paths e none_left =
      let same : erase k c'.non_evictable_cache ≡ c.non_evictable_cache =
        ap (erase k) e.pinned ∙ erase-insert_self in
      record {
        idle = subst (All (Idle (erase k c'.non_evictable_cache))) (sym none_left) tt;
        referenced = subst (All Referenced) (sym same) v.referenced;
        unique = subst Unique (sym same) v.unique;
        marked =
            subst (λ m. All (Pinned m) c'.evicted_entries) (sym same)
              (subst (All (Pinned c.non_evictable_cache)) (sym e.marks) v.marked);
        bytes = omega (arith, e.valid.bytes, sizes-insert, ap sizes e.pinned, ap sizes same);
      }

  -- The insertion fails no assertion, and its outcome is one of two.
  pub insert_non_evictable-Inserts :
      (max : ℕ) (tolerate : Bool)
      → Tolerates tolerate (size w + sizes c.non_evictable_cache) max
      → (c' : Internal lru) × (success : Bool) × (paths : List ℕ) × (insert_non_evictable lru c k w
            max tolerate
          ≡ done (c', success, paths))
        × Inserts lru k w max c c' success paths
  unfolding insert_non_evictable undo_unless
  insert_non_evictable-Inserts max tolerate t =
      let (c', success, paths, run, e) =
        evict_cache_entries-Evicts lru laws 0 max tolerate pinned pinned-IsValid
          (subst (λ n. Tolerates tolerate n max) (omega (arith, sizes-insert)) t) in
      finish c' success paths run e e.fits
    where
      missing : (lru.get k c.evictable_cache).0 ≡ none
      missing = laws.get_found k c.evictable_cache ∙ not_evictable

      Inserted : Type 0
      Inserted =
          (c' : Internal lru) × (success : Bool) × (paths : List ℕ) × (insert_non_evictable lru c k
              w max tolerate
            ≡ done (c', success, paths))
          × Inserts lru k w max c c' success paths

      finish :
          (c' : Internal lru) (success : Bool) (paths : List ℕ)
          → evict_cache_entries lru pinned max tolerate ≡ done (c', success, paths)
          → Evicts lru 0 max pinned c' success paths
          → ((success ≡ true) × (c'.cur_bytes ≤ max))
            ⊎ ((success ≡ false) × (lru.entries c'.evictable_cache ≡ []) × (max < c'.cur_bytes))
          → Inserted
      finish c' success paths run e (inl (s, fits)) = (
        c',
        success,
        paths,
        rw (missing, not_pinned, run, s) refl,
        record {
          outcome = inl (s, e.valid, e.pinned, fits);
          marks = e.marks;
          config = e.config;
          unneeded = λ l. (s, (e.unneeded l).1);
        },
      )
      finish c' success paths run e (inr (s, none_left, over)) =
          let here : is_some (lookup k c'.non_evictable_cache) ≡ true =
            ap (λ m. is_some (lookup k m)) e.pinned ∙ found_self in
          (
            record c' { non_evictable_cache = erase k c'.non_evictable_cache },
            success,
            paths,
            rw (missing, not_pinned, run, s, here) refl,
            record {
              outcome = inr (
                s,
                undone-IsValid max c' success paths e none_left,
                ap (erase k) e.pinned ∙ erase-insert_self,
                over,
                none_left,
              );
              marks = e.marks;
              config = e.config;
              unneeded = λ l.
                  absurd
                    (omega (arith, over, ap (λ (x : Internal lru). x.cur_bytes) (e.unneeded l).0));
            },
          )
