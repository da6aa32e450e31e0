-- ===== src/Cache/Valid/Recount.antt =====
-- A new reference count of a pinned file, and the removal of an evictable one.
use moonlink.Base.{
  ℕ, ◌+◌, ◌-◌, ◌≤◌, ◌<◌, ◌≡◌, refl, ◌⊎◌, inl, inr, Bool, true, false, none, some, List, [], Outcome,
  done, arith, ◌==◌, ltb, if◌then◌else◌, All, All-map, Unique-insert, lookup, erase, insert,
  lookup-erase, Bool-cases, sym, ap, subst, ◌∙◌,
}
use moonlink.Base.Checked.{checked_sub, checked_sub_le, checked_add_lt}
use moonlink.Cache.Lru.{Lru, LruLaws}
use moonlink.Cache.Entry.{CacheEntryWrapper, size}
use moonlink.Cache.Internal.{Internal, member, deleted_path, unreference, release}
use moonlink.Cache.Interface.{u32_mod, pin_again}
use moonlink.Cache.Sizes.{sizes, sizes-erase, All_pairs-erase, All_pairs-lookup}
use moonlink.Cache.Valid.{IsValid, Present, Idle, Referenced, Pinned}
use moonlink.Cache.Valid.Insert.{missing-All, Pinned-insert, Idle-insert}
use moonlink.Cache.Valid.Release.{not_evictable, bytes_left, release-done}

module _ (lru : Lru CacheEntryWrapper) (laws : LruLaws lru) (c : Internal lru) (k : ℕ)
    (w : CacheEntryWrapper) (v : IsValid lru 0 c) where
  module _ (pinned : lookup k c.non_evictable_cache ≡ some w) where
    -- The cache with another count of the file's references.
    abbrev pub recounted : ℕ → Internal lru
    recounted n = record c {
      non_evictable_cache = insert k (record w { reference_count = n }) c.non_evictable_cache;
    }

    pub recounted-IsValid : (n : ℕ) → 1 ≤ n → IsValid lru 0 (recounted n)
    recounted-IsValid n h = record {
      idle =
          Idle-insert k (record w { reference_count = n }) c.non_evictable_cache
            (lru.entries c.evictable_cache)
            (missing-All k (lru.entries c.evictable_cache) (not_evictable lru laws c k w v pinned))
            v.idle;
      referenced = (h, All_pairs-erase Referenced k c.non_evictable_cache v.referenced);
      unique = Unique-insert k (record w { reference_count = n }) c.non_evictable_cache v.unique;
      marked =
          All-map (Pinned c.non_evictable_cache)
            (Pinned (insert k (record w { reference_count = n }) c.non_evictable_cache))
            (Pinned-insert k (record w { reference_count = n }) c.non_evictable_cache)
            c.evicted_entries v.marked;
      bytes = omega (arith, v.bytes, bytes_left lru laws c k w v pinned);
    }

    pub positive : 1 ≤ w.reference_count
    positive = All_pairs-lookup Referenced k c.non_evictable_cache w v.referenced pinned

    pub pin_again-done :
        w.reference_count + 1 < u32_mod
        → pin_again lru c k w ≡ done (recounted (w.reference_count + 1))
    unfolding pin_again
    pin_again-done h =
        let test : ltb 0 w.reference_count ≡ true = ground (arith, positive) in
        rw (test, checked_add_lt u32_mod w.reference_count 1 h) refl

    -- A reference is given back, the last one or not.
    pub unreference-done :
        (c' : Internal lru) × (paths : List ℕ) × (unreference lru c k ≡ done (c', paths))
        × IsValid lru 0 c'
        × (c'.cur_bytes ≤ c.cur_bytes)
        × (c'.config ≡ c.config)
        × (member k c.evicted_entries ≡ false
            → (paths ≡ []) × (c'.evicted_entries ≡ c.evicted_entries) × Present lru k c')
        × (((w.reference_count ≡ 1) × (c'.non_evictable_cache ≡ erase k c.non_evictable_cache))
            ⊎ ((2 ≤ w.reference_count)
                × (c'.non_evictable_cache
                    ≡ (recounted (w.reference_count - 1)).non_evictable_cache)))
    unfolding unreference
    unreference-done = elim (Bool-cases (w.reference_count - 1 == 0)) [
      | inl e ↦
          let last : w.reference_count ≡ 1 = ground (arith, positive) in
          let (c', run, v', left, less, same, kept) = release-done lru laws c k w v pinned in
          (
            c',
            (if member k c.evicted_entries then deleted_path w else []),
            rw (pinned, unreference, once, last) run,
            v',
            less,
            same,
            (λ absent. (rw absent refl, (kept absent).0, (kept absent).1)),
            inl (last, left),
          )
      | inr e ↦
          let same : (k == k) ≡ true = ground arith in
          let here : lookup k (recounted (w.reference_count - 1)).non_evictable_cache
              ≡ some (record w { reference_count = w.reference_count - 1 }) =
            rw same refl in
          let more : 2 ≤ w.reference_count = ground (arith, positive) in
          (
            recounted (w.reference_count - 1),
            [],
            rw (pinned, unreference, once) (ap (tested (w.reference_count - 1)) e),
            recounted-IsValid (w.reference_count - 1) (omega arith),
            omega arith,
            refl,
            (λ _. (refl, refl, inr (record w { reference_count = w.reference_count - 1 }, here))),
            inr (more, refl),
          )
    ]
      where
        once : checked_sub w.reference_count 1 ≡ done (w.reference_count - 1)
        once = checked_sub_le w.reference_count 1 positive

        tested : ℕ → Bool → Outcome (Internal lru × List ℕ)
        tested n b = elim b [
          | true ↦ release lru c k (record w { reference_count = n })
          | false ↦ done (recounted n, [])
        ]

  -- An evictable entry is taken out. Its bytes are still counted.
  module _ (evictable : lookup k (lru.entries c.evictable_cache) ≡ some w) where
    abbrev pub popped : Internal lru
    popped = record c { evictable_cache = (lru.pop k c.evictable_cache).1 }

    pub unreferenced : w.reference_count ≡ 0
    unreferenced =
        (All_pairs-lookup (Idle c.non_evictable_cache) k (lru.entries c.evictable_cache) w v.idle
          evictable).0

    pub not_pinned : lookup k c.non_evictable_cache ≡ none
    not_pinned =
        (All_pairs-lookup (Idle c.non_evictable_cache) k (lru.entries c.evictable_cache) w v.idle
          evictable).1

    pub popped_found : (lru.pop k c.evictable_cache).0 ≡ some w
    popped_found = laws.pop_found k c.evictable_cache ∙ evictable

    popped_bytes :
        sizes (lru.entries popped.evictable_cache) + size w ≡ sizes (lru.entries c.evictable_cache)
    popped_bytes = omega (
      arith,
      ap sizes (laws.pop_left k c.evictable_cache),
      sizes-erase k (lru.entries c.evictable_cache) w (laws.unique c.evictable_cache) evictable,
    )

    pub popped_missing : lookup k (lru.entries popped.evictable_cache) ≡ none
    popped_missing =
        ap (lookup k) (laws.pop_left k c.evictable_cache)
        ∙ ground (arith, lookup-erase k k (lru.entries c.evictable_cache))

    pub popped-IsValid : IsValid lru (size w) popped
    popped-IsValid = record {
      idle =
          subst (All (Idle c.non_evictable_cache)) (sym (laws.pop_left k c.evictable_cache))
            (All_pairs-erase (Idle c.non_evictable_cache) k (lru.entries c.evictable_cache) v.idle);
      referenced = v.referenced;
      unique = v.unique;
      marked = v.marked;
      bytes = omega (arith, v.bytes, popped_bytes);
    }
