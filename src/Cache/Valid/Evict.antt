-- ===== src/Cache/Valid/Evict.antt =====
-- Eviction (object_storage_cache.rs, `evict_cache_entries`).
use moonlink.Base.{
  ℕ, zero, suc, ◌+◌, ◌-◌, ◌≤◌, ◌<◌, ◌≡◌, refl, ◌⊎◌, inl, inr, Bool, true, false, Option, none, some,
  List, [], ◌∷◌, ◌++◌, done, arith, ltb, ◌==◌, length, map, retain, All, Bool-cases, sym, ap, subst,
  ◌∙◌,
}
use mathlib.Core.Bool.{false≢true}
use moonlink.Base.Checked.{checked_sub_le}
use moonlink.Cache.Lru.{Lru, LruLaws, PopsFirst, null}
use moonlink.Cache.Entry.{CacheEntryWrapper, size}
use moonlink.Cache.Internal.{Internal, deleted_path, evict_one, evict_loop, evict_cache_entries}
use moonlink.Cache.Sizes.{sizes}
use moonlink.Cache.Valid.{IsValid, Idle}

-- The paths of the entries whose files the cache may delete.
abbrev pub local_paths : List (ℕ × CacheEntryWrapper) → List ℕ
local_paths entries =
    map (λ e. e.1.cache_entry.cache_filepath) (retain (λ e. e.1.deletable) entries)

-- Without the last entry that is gone, the bytes would still exceed the limit.
abbrev pub Needed : (max bytes : ℕ) → List (ℕ × CacheEntryWrapper) → Type 0
Needed max bytes [] = Unit
Needed max bytes (e ∷ []) = max < bytes + size e.1
Needed max bytes (_ ∷ e ∷ gone) = Needed max bytes (e ∷ gone)

-- What an eviction does: pinned entries and marks stay; either the bytes fit now, or nothing
-- evictable is left and they do not. The entries that go are the least recently used ones, and no
-- more than needed; their bytes are freed, and the paths are those of their files.
pub record Evicts (lru : Lru CacheEntryWrapper) (extra max : ℕ) (c c' : Internal lru)
    (success : Bool) (paths : List ℕ) : Type 0 where
  pub valid : IsValid lru extra c'
  pub pinned : c'.non_evictable_cache ≡ c.non_evictable_cache
  pub marks : c'.evicted_entries ≡ c.evicted_entries
  pub config : c'.config ≡ c.config
  pub fits :
      ((success ≡ true) × (c'.cur_bytes ≤ max))
      ⊎ ((success ≡ false) × (lru.entries c'.evictable_cache ≡ []) × (max < c'.cur_bytes))
  pub gone : List (ℕ × CacheEntryWrapper)
  pub oldest : lru.entries c.evictable_cache ≡ gone ++ lru.entries c'.evictable_cache
  pub freed : c.cur_bytes ≡ sizes gone + c'.cur_bytes
  pub deleted : paths ≡ local_paths gone
  pub needed : Needed max c'.cur_bytes gone
  pub unneeded : c.cur_bytes ≤ max → (c' ≡ c) × (paths ≡ [])

Needed-first :
    (max bytes : ℕ) (e : ℕ × CacheEntryWrapper) (gone : List (ℕ × CacheEntryWrapper))
    → max < sizes (e ∷ gone) + bytes
    → Needed max bytes gone
    → Needed max bytes (e ∷ gone)
Needed-first max bytes e [] over h = omega (arith, over)
Needed-first max bytes e (f ∷ gone) over h = h

local_paths-deleted :
    (j : ℕ) (w : CacheEntryWrapper) (gone : List (ℕ × CacheEntryWrapper))
    → deleted_path w ++ local_paths gone ≡ local_paths ((j, w) ∷ gone)
local_paths-deleted j w gone = elim (Bool-cases w.deletable) [ inl e ↦ simp e | inr e ↦ simp e ]

-- There is room once all evictable entries are gone, or the caller tolerates that there is none.
abbrev pub Tolerates : Bool → (pinned_bytes max : ℕ) → Type 0
Tolerates tolerate pinned max = (tolerate ≡ true) ⊎ (pinned ≤ max)

null-empty {ℓ} : {A : Type ℓ} (xs : List A) → null xs ≡ true → xs ≡ []
null-empty [] h = refl
null-empty (x ∷ xs) h = absurd (cc)

module _ (lru : Lru CacheEntryWrapper) (laws : LruLaws lru) (extra max : ℕ) (tolerate : Bool) where
  -- The round that evicts entry `w`.
  evict_one-done :
      (c : Internal lru) (j : ℕ) (w : CacheEntryWrapper) (rest : lru.Map)
      → IsValid lru extra c
      → lru.pop_lru c.evictable_cache ≡ some ((j, w), rest)
      → lru.entries c.evictable_cache ≡ (j, w) ∷ lru.entries rest
      → (evict_one lru c
          ≡ done (
            record c { evictable_cache = rest; cur_bytes = c.cur_bytes - size w },
            deleted_path w,
          ))
        × (c.cur_bytes ≡ size w + (c.cur_bytes - size w))
        × IsValid lru extra (record c { evictable_cache = rest; cur_bytes = c.cur_bytes - size w })
  unfolding evict_one
  evict_one-done c j w rest v popped front =
      let idle : All (Idle c.non_evictable_cache) ((j, w) ∷ lru.entries rest) =
        subst (All (Idle c.non_evictable_cache)) front v.idle in
      let bytes : c.cur_bytes
          ≡ size w + sizes (lru.entries rest) + sizes c.non_evictable_cache + extra =
        v.bytes ∙ ap (λ t. sizes t + sizes c.non_evictable_cache + extra) front in
      let unreferenced : (w.reference_count == 0) ≡ true = ground (arith, idle.0.0) in
      let fits : size w ≤ c.cur_bytes = omega arith in
      (
        rw (popped, evict_one, unreferenced, checked_sub_le c.cur_bytes (size w) fits) refl,
        omega (arith, fits),
        record {
          idle = idle.1;
          referenced = v.referenced;
          unique = v.unique;
          marked = v.marked;
          bytes = omega arith;
        },
      )

  -- What the loop returns.
  Result : (fuel : ℕ) → Internal lru → Type 0
  Result fuel c =
      (c' : Internal lru) × (success : Bool) × (paths : List ℕ) × (evict_loop lru fuel c max
          tolerate
        ≡ done (c', success, paths))
      × Evicts lru extra max c c' success paths

  evict_step :
      (fuel : ℕ) (c c₁ : Internal lru) (j : ℕ) (w : CacheEntryWrapper)
      → lru.entries c.evictable_cache ≡ (j, w) ∷ lru.entries c₁.evictable_cache
      → evict_one lru c ≡ done (c₁, deleted_path w)
      → c.cur_bytes ≡ size w + c₁.cur_bytes
      → c₁.non_evictable_cache ≡ c.non_evictable_cache
      → c₁.evicted_entries ≡ c.evicted_entries
      → c₁.config ≡ c.config
      → ltb max c.cur_bytes ≡ true
      → lru.is_empty c.evictable_cache ≡ false
      → Result fuel c₁
      → Result (suc fuel) c
  unfolding Result evict_loop
  evict_step fuel c c₁ j w shorter run bytes pinned marks config over more
        (c', success, paths, rest, e) =
      (
        c',
        success,
        deleted_path w ++ paths,
        rw (over, evict_loop, more, run, rest) refl,
        record {
          valid = e.valid;
          pinned = e.pinned ∙ pinned;
          marks = e.marks ∙ marks;
          config = e.config ∙ config;
          fits = e.fits;
          gone = (j, w) ∷ e.gone;
          oldest = shorter ∙ ap (λ t. (j, w) ∷ t) e.oldest;
          freed = omega (arith, bytes, e.freed);
          deleted = ap (λ t. deleted_path w ++ t) e.deleted ∙ local_paths-deleted j w e.gone;
          needed =
              let exceeds : max < c.cur_bytes = ground (arith, over) in
              Needed-first max c'.cur_bytes (j, w) e.gone (omega (arith, bytes, e.freed)) e.needed;
          unneeded = λ l. absurd (ground (arith, over));
        },
      )

  -- The round of a loop that has too many bytes and an entry to evict.
  evict_round :
      (fuel : ℕ) (c : Internal lru) (o : Option ((ℕ × CacheEntryWrapper) × lru.Map))
      → IsValid lru extra c
      → length (lru.entries c.evictable_cache) < suc fuel
      → lru.pop_lru c.evictable_cache ≡ o
      → PopsFirst lru c.evictable_cache o
      → ltb max c.cur_bytes ≡ true
      → lru.is_empty c.evictable_cache ≡ false
      → ((c₁ : Internal lru)
          → IsValid lru extra c₁
          → length (lru.entries c₁.evictable_cache) < fuel
          → c₁.non_evictable_cache ≡ c.non_evictable_cache
          → Result fuel c₁)
      → Result (suc fuel) c
  evict_round fuel c none v f e front over more ih =
      absurd (false≢true (sym more ∙ laws.is_empty_lem c.evictable_cache ∙ ap null front))
  evict_round fuel c (some ((j, w), rest)) v f e front over more ih =
      let (run, bytes, v₁) = evict_one-done c j w rest v e front in
      let c₁ : Internal lru = record c {
        evictable_cache = rest;
        cur_bytes = c.cur_bytes - size w;
      } in
      evict_step fuel c c₁ j w front run bytes refl refl refl over more
        (ih c₁ v₁ (omega (arith, f, ap length front)) refl)

  -- The loop has too many bytes and nothing to evict.
  evict_nothing :
      (fuel : ℕ) (c : Internal lru)
      → IsValid lru extra c
      → Tolerates tolerate (sizes c.non_evictable_cache + extra) max
      → lru.entries c.evictable_cache ≡ []
      → ltb max c.cur_bytes ≡ true
      → lru.is_empty c.evictable_cache ≡ true
      → Result (suc fuel) c
  unfolding Result evict_loop
  evict_nothing fuel c v (inr room) none_left over empty =
      let bytes : c.cur_bytes ≡ sizes c.non_evictable_cache + extra =
        v.bytes ∙ ap (λ t. sizes t + sizes c.non_evictable_cache + extra) none_left ∙ omega arith in
      absurd (ground (arith, over))
  evict_nothing fuel c v (inl tolerated) none_left over empty =
      let exceeds : max < c.cur_bytes = ground arith in
      (
        c,
        false,
        [],
        rw (over, evict_loop, empty, tolerated) refl,
        record {
          valid = v;
          pinned = refl;
          marks = refl;
          config = refl;
          fits = inr (refl, none_left, exceeds);
          gone = [];
          oldest = refl;
          freed = omega arith;
          deleted = refl;
          needed = tt;
          unneeded = λ l. absurd (omega arith);
        },
      )

  evict_loop-Evicts :
      (fuel : ℕ) (c : Internal lru)
      → IsValid lru extra c
      → length (lru.entries c.evictable_cache) < fuel
      → Tolerates tolerate (sizes c.non_evictable_cache + extra) max
      → Result fuel c
  unfolding Result evict_loop
  evict_loop-Evicts zero c v f t = absurd (omega arith)
  evict_loop-Evicts (suc fuel) c v f t = elim (Bool-cases (ltb max c.cur_bytes)) [
    | inr fits ↦
        let within : c.cur_bytes ≤ max = ground arith in
        (
          c,
          true,
          [],
          rw (fits, evict_loop) refl,
          record {
            valid = v;
            pinned = refl;
            marks = refl;
            config = refl;
            fits = inl (refl, within);
            gone = [];
            oldest = refl;
            freed = omega arith;
            deleted = refl;
            needed = tt;
            unneeded = λ _. (refl, refl);
          },
        )
    | inl over ↦ elim (Bool-cases (lru.is_empty c.evictable_cache)) [
      | inl none_left ↦
          evict_nothing fuel c v t
            (null-empty _ (sym (laws.is_empty_lem c.evictable_cache) ∙ none_left)) over none_left
      | inr more ↦
          evict_round fuel c (lru.pop_lru c.evictable_cache) v f refl
            (laws.pop_lru_lem c.evictable_cache) over more
            (λ c₁ v₁ shorter same.
              evict_loop-Evicts fuel c₁ v₁ shorter
                (subst (λ m. Tolerates tolerate (sizes m + extra) max) (sym same) t))
    ]
  ]

  -- From a valid cache whose pinned bytes are within the limit, or whose caller tolerates that they
  -- are not, eviction ends without a failed assertion. It removes the least recently used entries, no
  -- more than needed, until the bytes fit or nothing evictable is left, and nothing if they fitted; it
  -- frees their bytes and returns the paths of those whose files may be deleted.
  pub evict_cache_entries-Evicts :
      (c : Internal lru)
      → IsValid lru extra c
      → Tolerates tolerate (sizes c.non_evictable_cache + extra) max
      → (c' : Internal lru) × (success : Bool) × (paths : List ℕ) × (evict_cache_entries lru c max
            tolerate
          ≡ done (c', success, paths))
        × Evicts lru extra max c c' success paths
  unfolding evict_cache_entries Result
  evict_cache_entries-Evicts c v t =
      evict_loop-Evicts (suc (length (lru.entries c.evictable_cache))) c v (omega arith) t
