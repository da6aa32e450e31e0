-- ===== src/Cache/Requests/Deletion.antt =====
-- A file is deleted, and deleted with the handle that is given back.
use moonlink.Base.{
  ℕ, ◌-◌, ◌≤◌, ◌≡◌, refl, inl, inr, Bool, true, false, none, some, List, [], ◌∷◌, done, arith, ◌==◌,
  lookup, sym, ap, subst, ◌∙◌, All, Option-cases,
}
use moonlink.Base.Checked.{checked_sub_le}
use moonlink.Cache.Lru.{Lru, LruLaws}
use moonlink.Cache.Entry.{CacheEntryWrapper, NonEvictableHandle, size}
use moonlink.Cache.Internal.{Internal, member, deleted_path, delete_cache_entry}
use moonlink.Cache.Interface.{try_delete_cache_entry, unreference_and_delete}
use moonlink.Cache.Sizes.{sizes, erase-missing}
use moonlink.Cache.Valid.{Idle, Present, Pinned}
use moonlink.Cache.Valid.Recount.{popped-IsValid, popped_found, unreferenced}
use moonlink.Cache.Requests.{
  deletes, unreferences_and_deletes, serve, Serving, Allowed, Served, give_back, Unmarked,
}
use moonlink.Cache.Requests.Reference.{unreference-Serving}

module _ (lru : Lru CacheEntryWrapper) (laws : LruLaws lru) (handles : List ℕ) (c : Internal lru)
    (s : Serving lru (handles, c)) (k : ℕ) where
  -- The cache after a file is deleted.
  Deleted : Bool → Type 0
  Deleted must_exist =
      (c' : Internal lru) × (paths : List ℕ) × (delete_cache_entry lru c k must_exist
        ≡ done (c', paths))
      × Serving lru (handles, c')
      × (c'.config ≡ c.config)

  delete-evictable :
      (must_exist : Bool) (w : CacheEntryWrapper)
      → lookup k (lru.entries c.evictable_cache) ≡ some w
      → Deleted must_exist
  unfolding Deleted delete_cache_entry
  delete-evictable must_exist w e =
      let v = popped-IsValid lru laws c k w s.valid e in
      let zero_count : (w.reference_count == 0) ≡ true =
        ground (arith, unreferenced lru laws c k w s.valid e) in
      let enough : size w ≤ c.cur_bytes = omega (arith, v.bytes) in
      (
        record c {
          evictable_cache = (lru.pop k c.evictable_cache).1;
          cur_bytes = c.cur_bytes - size w;
        },
        deleted_path w,
        rw
            (
              popped_found lru laws c k w s.valid e,
              delete_cache_entry,
              zero_count,
              checked_sub_le c.cur_bytes (size w) enough,
            )
            refl,
        record {
          valid = record {
            idle = v.idle;
            referenced = v.referenced;
            unique = v.unique;
            marked = v.marked;
            bytes = omega (arith, v.bytes);
          };
          within = omega (arith, s.within);
          counts = s.counts;
        },
        refl,
      )

  -- A file that is not evictable: the entries stay as they are, whatever else is marked.
  module _ (missing : lookup k (lru.entries c.evictable_cache) ≡ none) where
    pub missed : (lru.pop k c.evictable_cache).0 ≡ none
    missed = laws.pop_found k c.evictable_cache ∙ missing

    same_entries : lru.entries (lru.pop k c.evictable_cache).1 ≡ lru.entries c.evictable_cache
    same_entries =
        laws.pop_left k c.evictable_cache ∙ erase-missing k (lru.entries c.evictable_cache) missing

    pub missed-Serving :
        (marks : List ℕ)
        → All (Pinned c.non_evictable_cache) marks
        → Serving lru (
          handles,
          record c { evictable_cache = (lru.pop k c.evictable_cache).1; evicted_entries = marks },
        )
    missed-Serving marks p = record {
      valid = record {
        idle = subst (All (Idle c.non_evictable_cache)) (sym same_entries) s.valid.idle;
        referenced = s.valid.referenced;
        unique = s.valid.unique;
        marked = p;
        bytes = omega (arith, s.valid.bytes, ap sizes same_entries);
      };
      within = s.within;
      counts = s.counts;
    }

    delete-pinned :
        (must_exist : Bool) (w : CacheEntryWrapper)
        → lookup k c.non_evictable_cache ≡ some w
        → Unmarked lru k c
        → Deleted must_exist
    unfolding Deleted delete_cache_entry
    delete-pinned must_exist w e unmarked = (
      record c {
        evictable_cache = (lru.pop k c.evictable_cache).1;
        evicted_entries = k ∷ c.evicted_entries;
      },
      [],
      rw (missed, delete_cache_entry, e, unmarked) refl,
      missed-Serving (k ∷ c.evicted_entries) ((w, e), s.valid.marked),
      refl,
    )

    delete-missing : lookup k c.non_evictable_cache ≡ none → Deleted false
    unfolding Deleted delete_cache_entry
    delete-missing e = (
      record c { evictable_cache = (lru.pop k c.evictable_cache).1 },
      [],
      rw (missed, delete_cache_entry, e) refl,
      missed-Serving c.evicted_entries s.valid.marked,
      refl,
    )

  delete-Present : (must_exist : Bool) → Unmarked lru k c → Present lru k c → Deleted must_exist
  delete-Present must_exist unmarked (inl (w, e)) = delete-evictable must_exist w e
  delete-Present must_exist unmarked (inr (w, e)) =
      elim (Option-cases (lookup k (lru.entries c.evictable_cache))) [
        | inl missing ↦ delete-pinned missing must_exist w e unmarked
        | inr (u, found) ↦ delete-evictable must_exist u found
      ]

  try_delete-Deleted : Unmarked lru k c → Deleted false
  try_delete-Deleted unmarked = elim (Option-cases (lookup k c.non_evictable_cache)) [
    | inr (w, e) ↦ delete-Present false unmarked (inr (w, e))
    | inl e ↦ elim (Option-cases (lookup k (lru.entries c.evictable_cache))) [
      | inl missing ↦ delete-missing missing e
      | inr (u, found) ↦ delete-evictable false u found
    ]
  ]

  pub deletes-Served :
      (is_local : ℕ → Bool)
      → Allowed lru (deletes k) (handles, c)
      → Served lru is_local (deletes k) (handles, c)
  unfolding serve Deleted try_delete_cache_entry
  deletes-Served is_local unmarked =
      let (c', paths, run, s', same) = try_delete-Deleted unmarked in
      ((handles, c'), rw (run, try_delete_cache_entry) refl, s', same)

module _ (lru : Lru CacheEntryWrapper) (laws : LruLaws lru) (handles : List ℕ) (c : Internal lru)
    (s : Serving lru (handles, c)) (handle : NonEvictableHandle) where
  pub unreferences_and_deletes-Served :
      (is_local : ℕ → Bool)
      → Allowed lru (unreferences_and_deletes handle) (handles, c)
      → Served lru is_local (unreferences_and_deletes handle) (handles, c)
  unfolding serve Deleted unreference_and_delete
  unreferences_and_deletes-Served is_local (held, unmarked) =
      let (c₁, paths₁, run₁, s₁, same₁, kept) =
        unreference-Serving lru laws handles c s handle.file_id held in
      let (silent, marks, present) = kept unmarked in
      let (c', paths, run, s', same) =
        delete-Present lru laws (give_back handle.file_id handles) c₁ s₁ handle.file_id true
          (ap (member handle.file_id) marks ∙ unmarked) present in
      (
        (give_back handle.file_id handles, c'),
        rw (run₁, unreference_and_delete, silent, run) refl,
        s',
        same ∙ same₁,
      )
