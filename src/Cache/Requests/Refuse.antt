-- ===== src/Cache/Requests/Refuse.antt =====
-- Requests that stop the program.
use moonlink.Base.{
  ℕ, ◌+◌, ◌<◌, ◌≡◌, refl, inl, inr, Bool, true, false, none, List, [], ◌∷◌, panics, Panic, arith,
  ◌==◌, lookup, sym, ap, subst, ◌∙◌, All, Option-cases, Bool-cases,
}
use moonlink.Base.Checked.{checked_add_lt}
use moonlink.Base.Words.{u64_mod}
use moonlink.Cache.Lru.{Lru, LruLaws}
use moonlink.Cache.Entry.{CacheEntryWrapper, size}
use moonlink.Cache.Internal.{
  Internal, member, insert_non_evictable, delete_cache_entry, unreference,
}
use moonlink.Cache.Interface.{
  import_cache_entry, insert_loaded, try_delete_cache_entry, increment_reference_count,
  unreference_and_delete, unreference_and_replace_with_remote,
}
use moonlink.Cache.Sizes.{All_pairs-lookup}
use moonlink.Cache.Valid.{Referenced, Pinned, Present}
use moonlink.Cache.Valid.Release.{not_evictable}
use moonlink.Cache.Requests.{
  Request, imports, gets, loads, clones, unreferences, unreferences_and_deletes, deletes,
  unreferences_and_replaces, replaces, State, serve, Serving, references, count,
}

-- What the cache does not stand: a file that it has already, a handle that it did not give, and a
-- second deletion of a pinned file.
abbrev pub Refused : (lru : Lru CacheEntryWrapper) → Request → State lru → Type 0
Refused lru (imports k entry) (handles, c) =
    Present lru k c × (c.cur_bytes + entry.file_metadata.file_size < u64_mod)
Refused lru (gets k) s = ⊥
Refused lru (loads k w) (handles, c) = Present lru k c × (c.cur_bytes + size w < u64_mod)
Refused lru (clones handle) (handles, c) = count handle.file_id handles ≡ 0
Refused lru (unreferences handle) (handles, c) = count handle.file_id handles ≡ 0
Refused lru (unreferences_and_deletes handle) (handles, c) = count handle.file_id handles ≡ 0
Refused lru (unreferences_and_replaces handle remote) (handles, c) =
    count handle.file_id handles ≡ 0
Refused lru (replaces handle remote) s = ⊥
Refused lru (deletes k) (handles, c) = member k c.evicted_entries ≡ true

-- What holds of a list's members.
All-member : (P : ℕ → Type 0) (k : ℕ) (marks : List ℕ) → All P marks → member k marks ≡ true → P k
All-member P k [] p e = absurd (cc)
All-member P k (j ∷ marks) p e = elim (Bool-cases (j == k)) [
  | inl same ↦ let equal : j ≡ k = ground arith in subst P equal p.0
  | inr other ↦ All-member P k marks p.1 (rw other at e)
]

module _ (lru : Lru CacheEntryWrapper) (laws : LruLaws lru) (handles : List ℕ) (c : Internal lru)
    (s : Serving lru (handles, c)) (k : ℕ) where
  insert-Present :
      (bytes : ℕ) (w : CacheEntryWrapper) (max : ℕ) (tolerate : Bool)
      → Present lru k c
      → insert_non_evictable lru (record c { cur_bytes = bytes }) k w max tolerate
        ≡ panics Panic.assertion_failed
  unfolding insert_non_evictable
  insert-Present bytes w max tolerate (inl (u, e)) =
      rw (laws.get_found k c.evictable_cache ∙ e, insert_non_evictable) refl
  insert-Present bytes w max tolerate (inr (u, e)) =
      rw
        (
          laws.get_found k c.evictable_cache ∙ not_evictable lru laws c k u s.valid e,
          insert_non_evictable,
          e,
        )
        refl

  unheld-missing : count k handles ≡ 0 → lookup k c.non_evictable_cache ≡ none
  unheld-missing h = elim (Option-cases (lookup k c.non_evictable_cache)) [
    | inl e ↦ e
    | inr (w, e) ↦ absurd (
        omega (
          arith,
          All_pairs-lookup Referenced k c.non_evictable_cache w s.valid.referenced e,
          sym (ap references e) ∙ s.counts k,
        ))
  ]

  delete-marked :
      (must_exist : Bool)
      → member k c.evicted_entries ≡ true
      → delete_cache_entry lru c k must_exist ≡ panics Panic.assertion_failed
  unfolding delete_cache_entry
  delete-marked must_exist h =
      let (w, e) = All-member (Pinned c.non_evictable_cache) k c.evicted_entries s.valid.marked h in
      rw
        (
          laws.pop_found k c.evictable_cache ∙ not_evictable lru laws c k w s.valid e,
          delete_cache_entry,
          e,
          h,
        )
        refl

-- In a serving cache a second import or load of a file that the cache has, whose bytes fit 64 bits, a
-- clone or a return of a handle that nobody holds, and a second deletion of a pinned file stop the
-- program.
pub serve-panics :
    (lru : Lru CacheEntryWrapper) (laws : LruLaws lru) (is_local : ℕ → Bool) (r : Request)
    (s : State lru)
    → Serving lru s
    → Refused lru r s
    → (p : Panic) × (serve lru is_local r s ≡ panics p)
unfolding serve import_cache_entry insert_loaded try_delete_cache_entry increment_reference_count
    unreference unreference_and_delete unreference_and_replace_with_remote
serve-panics lru laws is_local (imports k entry) (handles, c) v (present, fits) =
    let w : CacheEntryWrapper = record {
      cache_entry = entry;
      reference_count = 1;
      deletable = true;
    } in
    (
      Panic.assertion_failed,
      rw
          (
            checked_add_lt u64_mod c.cur_bytes (size w) fits,
            import_cache_entry,
            insert-Present lru laws handles c v k (c.cur_bytes + size w) w c.config.max_bytes false
                present,
          )
          refl,
    )
serve-panics lru laws is_local (gets k) s v h = elim h [ ]
serve-panics lru laws is_local (loads k w) (handles, c) v (present, fits) = (
  Panic.assertion_failed,
  rw
      (
        checked_add_lt u64_mod c.cur_bytes (size w) fits,
        insert_loaded,
        insert-Present lru laws handles c v k (c.cur_bytes + size w) w c.config.max_bytes true
            present,
      )
      refl,
)
serve-panics lru laws is_local (clones handle) (handles, c) v h = (
  Panic.unwrap_failed,
  rw (unheld-missing lru laws handles c v handle.file_id h, increment_reference_count) refl,
)
serve-panics lru laws is_local (unreferences handle) (handles, c) v h = (
  Panic.unwrap_failed,
  rw (unheld-missing lru laws handles c v handle.file_id h, unreference) refl,
)
serve-panics lru laws is_local (unreferences_and_deletes handle) (handles, c) v h = (
  Panic.unwrap_failed,
  rw (unheld-missing lru laws handles c v handle.file_id h, unreference_and_delete, unreference)
      refl,
)
serve-panics lru laws is_local (unreferences_and_replaces handle remote) (handles, c) v h = (
  Panic.unwrap_failed,
  rw
      (
        unheld-missing lru laws handles c v handle.file_id h,
        unreference_and_replace_with_remote,
        unreference,
      )
      refl,
)
serve-panics lru laws is_local (replaces handle remote) s v h = elim h [ ]
serve-panics lru laws is_local (deletes k) (handles, c) v h = (
  Panic.assertion_failed,
  rw (delete-marked lru laws handles c v k false h, try_delete_cache_entry) refl,
)
