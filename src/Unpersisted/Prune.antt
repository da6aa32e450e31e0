-- ===== src/Unpersisted/Prune.antt =====
-- Buffering and pruning (persistence_buffer.rs, `prune_persisted_records`).
use moonlink.Base.{
  ℕ, suc, ◌≤◌, ◌≡◌, refl, Bool, true, false, List, [], ◌∷◌, ◌++◌, map, done, assert, arith, leb,
  ◌==◌, length, >>=-eq-done, ap, subst, ◌∙◌,
}
use moonlink.Cache.Lru.{null}
use moonlink.Unpersisted.Records.{
  UnpersistedRecords, PersistedRecords, SnapshotTask, is_empty, buffer_compaction_if,
  buffer_unpersisted_records, drop, drain, prune_remap, prune_persisted_records, new,
}

-- The persistence was of all that was buffered then.
pub record Persists (u : UnpersistedRecords) (p : PersistedRecords) : Type 0 where
  pub data_files : length p.new_data_files ≡ length u.new_data_files
  pub file_indices : length p.new_file_indices ≡ length u.new_file_indices
  pub merged_old : length p.merged_old_removed ≡ length u.merged_file_indices_to_remove
  pub merged_new : length p.merged_new_imported ≡ length u.merged_file_indices_to_add
  pub files_added : length p.compacted_new_files_imported ≡ length u.compacted_data_files_to_add
  pub files_removed : length p.compacted_old_files_removed ≡ length u.compacted_data_files_to_remove
  pub indices_added :
      length p.compacted_new_indices_imported ≡ length u.compacted_file_indices_to_add
  pub indices_removed :
      length p.compacted_old_indices_removed ≡ length u.compacted_file_indices_to_remove
  pub remap : length p.data_file_records_remap ≡ length u.compacted_data_file_remap

done-injective : {A : Type 0} {x y : A} → done x ≡ done y → x ≡ y
done-injective e = cc

drop-append : (xs ys : List ℕ) → drop (length xs) (xs ++ ys) ≡ ys
drop-append [] ys = refl
drop-append (x ∷ xs) ys = drop-append xs ys

length-append_le : (xs ys : List ℕ) → length xs ≤ length (xs ++ ys)
length-append_le [] ys = omega arith
length-append_le (x ∷ xs) ys = omega (arith, length-append_le xs ys)

drain-append : (xs ys ps : List ℕ) → length ps ≡ length xs → drain (xs ++ ys) ps ≡ done ys
unfolding drain
drain-append xs ys ps h =
    let fits : leb (length ps) (length (xs ++ ys)) ≡ true =
      ground (arith, h, length-append_le xs ys) in
    rw (fits, drain, h, drop-append xs ys) refl

drain-all : (xs ps : List ℕ) → length ps ≡ length xs → drain xs ps ≡ done []
unfolding drain
drain-all xs ps h =
    let fits : leb (length ps) (length xs) ≡ true = ground (arith, h) in
    rw (fits, drain, h) (ap done (drop_all xs))
  where
    drop_all : (xs : List ℕ) → drop (length xs) xs ≡ []
    drop_all [] = refl
    drop_all (x ∷ xs) = drop_all xs

prune_remap-all :
    (buffered persisted : List (ℕ × ℕ))
    → length persisted ≡ length buffered
    → prune_remap buffered persisted ≡ done []
unfolding prune_remap
prune_remap-all [] [] h = refl
prune_remap-all (b ∷ buffered) [] h = absurd (omega (arith, h))
prune_remap-all buffered (p ∷ persisted) h =
    let same : (suc (length persisted) == length buffered) ≡ true = ground (arith, h) in
    rw same refl

null-empty : (xs : List (ℕ × ℕ)) → assert (null xs) ≡ done tt → xs ≡ []
null-empty [] e = refl
null-empty (x ∷ xs) e = absurd (cc)

length-zero : (xs : List (ℕ × ℕ)) → length xs ≡ 0 → xs ≡ []
length-zero [] e = refl
length-zero (x ∷ xs) e = absurd (omega (arith, e))

module _ (u : UnpersistedRecords) (p : PersistedRecords) (h : Persists u p)
    (task : SnapshotTask) where
  -- Nothing fails, and what is left is what the task alone would have buffered.
  Left : UnpersistedRecords → Type 0
  Left u' =
      (left : UnpersistedRecords) × (prune_persisted_records u' p ≡ done left)
      × (buffer_unpersisted_records new task ≡ done left)

  pub prune_persisted_records-buffered :
      (u' : UnpersistedRecords)
      → buffer_unpersisted_records u task ≡ done u'
      → (left : UnpersistedRecords) × (prune_persisted_records u' p ≡ done left)
        × (buffer_unpersisted_records new task ≡ done left)
  unfolding Left buffer_unpersisted_records buffer_compaction_if prune_persisted_records new
      prune_remap
  prune_persisted_records-buffered u' run =
      let (empty, e, rest) = >>=-eq-done (is_empty task.data_compaction_result) _ run in
      go empty e rest
    where
      base : UnpersistedRecords → UnpersistedRecords
      base u = record u {
        new_data_files = u.new_data_files ++ task.new_data_files;
        new_file_indices = u.new_file_indices ++ task.new_file_indices;
        merged_file_indices_to_add =
            u.merged_file_indices_to_add ++ task.index_merge_result.new_file_indices;
        merged_file_indices_to_remove =
            u.merged_file_indices_to_remove ++ task.index_merge_result.old_file_indices;
      }

      go :
          (empty : Bool)
          → is_empty task.data_compaction_result ≡ done empty
          → buffer_compaction_if empty (base u) task.data_compaction_result ≡ done u'
          → Left u'
      go true e rest = subst Left (done-injective rest) (
        record new {
          new_data_files = task.new_data_files;
          new_file_indices = task.new_file_indices;
          merged_file_indices_to_add = task.index_merge_result.new_file_indices;
          merged_file_indices_to_remove = task.index_merge_result.old_file_indices;
        },
        rw
            (
              drain-append u.new_data_files task.new_data_files p.new_data_files h.data_files,
              prune_persisted_records,
              drain-append u.new_file_indices task.new_file_indices p.new_file_indices
                  h.file_indices,
              drain-append u.merged_file_indices_to_remove task.index_merge_result.old_file_indices
                  p.merged_old_removed h.merged_old,
              drain-append u.merged_file_indices_to_add task.index_merge_result.new_file_indices
                  p.merged_new_imported h.merged_new,
              drain-all u.compacted_data_files_to_add p.compacted_new_files_imported h.files_added,
              drain-all u.compacted_data_files_to_remove p.compacted_old_files_removed
                  h.files_removed,
              drain-all u.compacted_file_indices_to_add p.compacted_new_indices_imported
                  h.indices_added,
              drain-all u.compacted_file_indices_to_remove p.compacted_old_indices_removed
                  h.indices_removed,
              prune_remap-all u.compacted_data_file_remap p.data_file_records_remap h.remap,
            )
            refl,
        rw (e, buffer_unpersisted_records) refl,
      )
      go false e rest =
          let r = task.data_compaction_result in
          let (_, no_remap, same) =
            >>=-eq-done (assert (null u.compacted_data_file_remap)) _ rest in
          let none_left : u.compacted_data_file_remap ≡ [] =
            null-empty u.compacted_data_file_remap no_remap in
          let none_persisted : p.data_file_records_remap ≡ [] =
            length-zero p.data_file_records_remap (h.remap ∙ ap length none_left) in
          subst Left (done-injective same) (
            record {
              new_data_files = task.new_data_files;
              new_file_indices = task.new_file_indices;
              merged_file_indices_to_add = task.index_merge_result.new_file_indices;
              merged_file_indices_to_remove = task.index_merge_result.old_file_indices;
              compacted_data_files_to_add = map (λ x. x.0) r.new_data_files;
              compacted_data_files_to_remove = r.old_data_files;
              compacted_file_indices_to_add = r.new_file_indices;
              compacted_file_indices_to_remove = r.old_file_indices;
              compacted_data_file_remap = r.remapped_data_files;
            },
            rw
                (
                  drain-append u.new_data_files task.new_data_files p.new_data_files h.data_files,
                  prune_persisted_records,
                  drain-append u.new_file_indices task.new_file_indices p.new_file_indices
                      h.file_indices,
                  drain-append u.merged_file_indices_to_remove
                      task.index_merge_result.old_file_indices p.merged_old_removed h.merged_old,
                  drain-append u.merged_file_indices_to_add task.index_merge_result.new_file_indices
                      p.merged_new_imported h.merged_new,
                  drain-append u.compacted_data_files_to_add (map (λ x. x.0) r.new_data_files)
                      p.compacted_new_files_imported h.files_added,
                  drain-append u.compacted_data_files_to_remove r.old_data_files
                      p.compacted_old_files_removed h.files_removed,
                  drain-append u.compacted_file_indices_to_add r.new_file_indices
                      p.compacted_new_indices_imported h.indices_added,
                  drain-append u.compacted_file_indices_to_remove r.old_file_indices
                      p.compacted_old_indices_removed h.indices_removed,
                  none_persisted,
                  prune_remap,
                )
                refl,
            rw (e, buffer_unpersisted_records) refl,
          )
