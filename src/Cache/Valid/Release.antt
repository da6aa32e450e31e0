-- ===== src/Cache/Valid/Release.antt =====
-- Giving back a reference, and deleting.
use moonlink.Base.{
  ℕ, ◌+◌, ◌-◌, ◌≤◌, ◌≡◌, refl, inl, inr, true, false, none, some, List, [], ◌∷◌, ◌++◌, done, arith,
  ◌==◌, leb, if◌then◌else◌, All, All-map, All-append, Unique-erase, lookup, erase, lookup-erase,
  Bool-cases, Option-cases, sym, ap, subst, ◌∙◌,
}
use moonlink.Base.Checked.{checked_sub_le}
use moonlink.Cache.Lru.{Lru, LruLaws}
use moonlink.Cache.Entry.{CacheEntryWrapper, size}
use moonlink.Cache.Internal.{Internal, member, discard, deleted_path, release}
use moonlink.Cache.Sizes.{
  sizes, sizes-append, sizes-erase, erase-missing, All_pairs-erase, All_pairs-lookup,
}
use moonlink.Cache.Valid.{IsValid, Present, Idle, Referenced, Pinned}

-- Entries that are not pinned stay so when another file is unpinned.
Idle-erase :
    (k : ℕ) (pinned m : List (ℕ × CacheEntryWrapper))
    → All (Idle pinned) m
    → All (Idle (erase k pinned)) m
Idle-erase k pinned =
    All-map (Idle pinned) (Idle (erase k pinned))
      (λ e i. (i.0, ground (arith, lookup-erase k e.0 pinned, i.1)))

-- Other files than the one that is unpinned stay pinned.
Pinned-erase :
    (k : ℕ) (pinned : List (ℕ × CacheEntryWrapper)) (marks : List ℕ)
    → All (Pinned pinned) marks
    → member k marks ≡ false
    → All (Pinned (erase k pinned)) marks
Pinned-erase k pinned [] p absent = tt
Pinned-erase k pinned (j ∷ marks) p absent = elim (Bool-cases (j == k)) [
  | inl e ↦ absurd (cc (rw e at absent))
  | inr e ↦ (
    (p.0.0, ground (arith, lookup-erase k j pinned, p.0.1)),
    Pinned-erase k pinned marks p.1 (rw e at absent),
  )
]

discard-absent : (k : ℕ) (marks : List ℕ) → member k (discard k marks) ≡ false
discard-absent k [] = refl
discard-absent k (j ∷ marks) = elim (Bool-cases (j == k)) [
  | inl e ↦ rw e (discard-absent k marks)
  | inr e ↦ rw (e, e) (discard-absent k marks)
]

All-discard : (P : ℕ → Type 0) (k : ℕ) (marks : List ℕ) → All P marks → All P (discard k marks)
All-discard P k [] p = tt
All-discard P k (j ∷ marks) p = elim (Bool-cases (j == k)) [
  | inl e ↦ rw e (All-discard P k marks p.1)
  | inr e ↦ rw e (p.0, All-discard P k marks p.1)
]

lookup-append_last :
    (k : ℕ) (w : CacheEntryWrapper) (m : List (ℕ × CacheEntryWrapper))
    → lookup k m ≡ none
    → lookup k (m ++ ((k, w) ∷ [])) ≡ some w
lookup-append_last k w [] h = let same : (k == k) ≡ true = ground arith in rw same refl
lookup-append_last k w ((j, v) ∷ m) h = elim (Bool-cases (j == k)) [
  | inl e ↦ absurd (cc (rw e at h))
  | inr e ↦ rw e (lookup-append_last k w m (rw e at h))
]

module _ (lru : Lru CacheEntryWrapper) (laws : LruLaws lru) (c : Internal lru) (k : ℕ)
    (w : CacheEntryWrapper) (v : IsValid lru 0 c)
    (pinned : lookup k c.non_evictable_cache ≡ some w) where
  pub bytes_left : sizes (erase k c.non_evictable_cache) + size w ≡ sizes c.non_evictable_cache
  bytes_left = sizes-erase k c.non_evictable_cache w v.unique pinned

  gone : lookup k (erase k c.non_evictable_cache) ≡ none
  gone = ground (arith, lookup-erase k k c.non_evictable_cache)

  -- A pinned file is not evictable.
  pub not_evictable : lookup k (lru.entries c.evictable_cache) ≡ none
  not_evictable = elim (Option-cases (lookup k (lru.entries c.evictable_cache))) [
    | inl e ↦ e
    | inr (u, e) ↦
        let i =
          All_pairs-lookup (Idle c.non_evictable_cache) k (lru.entries c.evictable_cache) u v.idle
            e in
        absurd (cc)
  ]

  unmarked_entries :
      lru.entries (lru.push k (record w { reference_count = 0 }) c.evictable_cache)
      ≡ lru.entries c.evictable_cache ++ ((k, record w { reference_count = 0 }) ∷ [])
  unmarked_entries =
      laws.push_lem k (record w { reference_count = 0 }) c.evictable_cache
      ∙ ap (λ m. m ++ ((k, record w { reference_count = 0 }) ∷ []))
          (erase-missing k (lru.entries c.evictable_cache) not_evictable)

  -- What is left of the cache without the file's pinned entry.
  still_unused : All (Idle (erase k c.non_evictable_cache)) (lru.entries c.evictable_cache)
  still_unused = Idle-erase k c.non_evictable_cache (lru.entries c.evictable_cache) v.idle

  still_counted : All Referenced (erase k c.non_evictable_cache)
  still_counted = All_pairs-erase Referenced k c.non_evictable_cache v.referenced

  marked-IsValid : IsValid lru 0 (record c {
    cur_bytes = c.cur_bytes - size w;
    evicted_entries = discard k c.evicted_entries;
    non_evictable_cache = erase k c.non_evictable_cache;
  })
  marked-IsValid = record {
    idle = still_unused;
    referenced = still_counted;
    unique = Unique-erase k c.non_evictable_cache v.unique;
    marked =
        Pinned-erase k c.non_evictable_cache (discard k c.evicted_entries)
          (All-discard (Pinned c.non_evictable_cache) k c.evicted_entries v.marked)
          (discard-absent k c.evicted_entries);
    bytes = omega (arith, v.bytes, bytes_left);
  }

  unmarked-IsValid :
      member k c.evicted_entries ≡ false
      → IsValid lru 0 (record c {
        evictable_cache = lru.push k (record w { reference_count = 0 }) c.evictable_cache;
        non_evictable_cache = erase k c.non_evictable_cache;
      })
  unmarked-IsValid absent = record {
    idle = subst (All (Idle (erase k c.non_evictable_cache))) (sym unmarked_entries) (
        All-append (Idle (erase k c.non_evictable_cache)) (lru.entries c.evictable_cache)
          ((k, record w { reference_count = 0 }) ∷ []) still_unused ((refl, gone), tt));
    referenced = still_counted;
    unique = Unique-erase k c.non_evictable_cache v.unique;
    marked = Pinned-erase k c.non_evictable_cache c.evicted_entries v.marked absent;
    bytes = omega (
      arith,
      v.bytes,
      bytes_left,
      ap sizes unmarked_entries,
      sizes-append (lru.entries c.evictable_cache) k (record w { reference_count = 0 }),
    );
  }

  -- The last reference is given back: a marked file leaves the cache, and another becomes evictable.
  pub release-done :
      (c' : Internal lru) × (release lru c k (record w { reference_count = 0 })
        ≡ done (c', (if member k c.evicted_entries then deleted_path w else [])))
      × IsValid lru 0 c'
      × (c'.non_evictable_cache ≡ erase k c.non_evictable_cache)
      × (c'.cur_bytes ≤ c.cur_bytes)
      × (c'.config ≡ c.config)
      × (member k c.evicted_entries ≡ false
          → (c'.evicted_entries ≡ c.evicted_entries) × Present lru k c')
  unfolding release
  release-done = elim (Bool-cases (member k c.evicted_entries)) [
    | inl e ↦
        let within : size w ≤ c.cur_bytes = omega (arith, v.bytes, bytes_left) in
        let test : leb (size w) c.cur_bytes ≡ true = ground arith in
        (
          record c {
            cur_bytes = c.cur_bytes - size w;
            evicted_entries = discard k c.evicted_entries;
            non_evictable_cache = erase k c.non_evictable_cache;
          },
          rw (e, release, test, checked_sub_le c.cur_bytes (size w) within) refl,
          marked-IsValid,
          refl,
          omega arith,
          refl,
          λ absent. absurd (cc),
        )
    | inr e ↦ (
      record c {
        evictable_cache = lru.push k (record w { reference_count = 0 }) c.evictable_cache;
        non_evictable_cache = erase k c.non_evictable_cache;
      },
      rw (e, release) refl,
      unmarked-IsValid e,
      refl,
      omega arith,
      refl,
      λ _. (
        refl,
        inl (
          record w { reference_count = 0 },
          ap (lookup k) unmarked_entries
              ∙ lookup-append_last k (record w { reference_count = 0 })
                  (lru.entries c.evictable_cache) not_evictable,
        ),
      ),
    )
  ]
