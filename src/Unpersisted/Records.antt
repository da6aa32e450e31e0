-- ===== src/Unpersisted/Records.antt =====
-- `UnpersistedRecords`. A data file, a file index and a remapped record are numbers.
use moonlink.Base.{
  ℕ, zero, suc, ◌+◌, Bool, true, false, List, [], ◌∷◌, ◌++◌, map, Outcome, done, ◌>>=◌, ◌>>◌,
  assert, leb, ◌==◌, if◌then◌else◌, length,
}
use moonlink.Cache.Lru.{null}
use moonlink.Cache.Internal.{member}

pub record FileIndiceMergeResult : Type 0 where
  pub new_file_indices : List ℕ
  pub old_file_indices : List ℕ

pub record DataCompactionResult : Type 0 where
  pub new_data_files : List (ℕ × ℕ)
  pub old_data_files : List ℕ
  pub new_file_indices : List ℕ
  pub old_file_indices : List ℕ
  pub remapped_data_files : List (ℕ × ℕ)
  pub evicted_files_to_delete : List ℕ

-- What the persistence of a snapshot reports.
pub record PersistedRecords : Type 0 where
  pub new_data_files : List ℕ
  pub new_file_indices : List ℕ
  pub merged_old_removed : List ℕ
  pub merged_new_imported : List ℕ
  pub compacted_new_files_imported : List ℕ
  pub compacted_old_files_removed : List ℕ
  pub compacted_new_indices_imported : List ℕ
  pub compacted_old_indices_removed : List ℕ
  pub data_file_records_remap : List (ℕ × ℕ)

-- The part of a task that is buffered. `new_data_files` and `new_file_indices` are what the task's
-- getters collect.
pub record SnapshotTask : Type 0 where
  pub new_data_files : List ℕ
  pub new_file_indices : List ℕ
  pub index_merge_result : FileIndiceMergeResult
  pub data_compaction_result : DataCompactionResult

pub record UnpersistedRecords : Type 0 where
  pub new_data_files : List ℕ
  pub new_file_indices : List ℕ
  pub merged_file_indices_to_remove : List ℕ
  pub merged_file_indices_to_add : List ℕ
  pub compacted_data_files_to_remove : List ℕ
  pub compacted_data_files_to_add : List ℕ
  pub compacted_file_indices_to_remove : List ℕ
  pub compacted_file_indices_to_add : List ℕ
  pub compacted_data_file_remap : List (ℕ × ℕ)

-- A compaction that removed no file did nothing.
unfoldable pub is_empty : DataCompactionResult → Outcome Bool
is_empty r =
    if null r.old_data_files
    then (assert (null r.remapped_data_files)
        >> assert (null r.old_file_indices)
        >> assert (null r.new_file_indices)
        >> assert (null r.evicted_files_to_delete)
        >> done true)
    else done false

unfoldable pub buffer_compaction_if :
    (empty : Bool) → UnpersistedRecords → DataCompactionResult → Outcome UnpersistedRecords
buffer_compaction_if true u r = done u
buffer_compaction_if false u r = do
  assert (null u.compacted_data_file_remap)
  done (record u {
    compacted_data_files_to_add = u.compacted_data_files_to_add ++ map (λ e. e.0) r.new_data_files;
    compacted_data_files_to_remove = u.compacted_data_files_to_remove ++ r.old_data_files;
    compacted_file_indices_to_add = u.compacted_file_indices_to_add ++ r.new_file_indices;
    compacted_file_indices_to_remove = u.compacted_file_indices_to_remove ++ r.old_file_indices;
    compacted_data_file_remap = r.remapped_data_files;
  })

unfoldable pub buffer_unpersisted_records :
    UnpersistedRecords → SnapshotTask → Outcome UnpersistedRecords
unfolding buffer_compaction_if
buffer_unpersisted_records u task = do
  empty ← is_empty task.data_compaction_result
  buffer_compaction_if empty
      (record u {
        new_data_files = u.new_data_files ++ task.new_data_files;
        new_file_indices = u.new_file_indices ++ task.new_file_indices;
        merged_file_indices_to_add =
            u.merged_file_indices_to_add ++ task.index_merge_result.new_file_indices;
        merged_file_indices_to_remove =
            u.merged_file_indices_to_remove ++ task.index_merge_result.old_file_indices;
      })
      task.data_compaction_result

-- `drain(0..n)` after the assertion on the length.
abbrev pub drop {ℓ} : {A : Type ℓ} → ℕ → List A → List A
drop zero xs = xs
drop (suc n) [] = []
drop (suc n) (x ∷ xs) = drop n xs

unfoldable pub drain : (buffered persisted : List ℕ) → Outcome (List ℕ)
drain buffered persisted = do
  assert (leb (length persisted) (length buffered))
  done (drop (length persisted) buffered)

unfoldable pub prune_remap : (buffered persisted : List (ℕ × ℕ)) → Outcome (List (ℕ × ℕ))
prune_remap buffered [] = done buffered
prune_remap buffered (r ∷ persisted) = do
  assert (length (r ∷ persisted) == length buffered)
  done []

unfoldable pub prune_persisted_records :
    UnpersistedRecords → PersistedRecords → Outcome UnpersistedRecords
prune_persisted_records u p = do
  data_files ← drain u.new_data_files p.new_data_files
  file_indices ← drain u.new_file_indices p.new_file_indices
  merged_old ← drain u.merged_file_indices_to_remove p.merged_old_removed
  merged_new ← drain u.merged_file_indices_to_add p.merged_new_imported
  files_added ← drain u.compacted_data_files_to_add p.compacted_new_files_imported
  files_removed ← drain u.compacted_data_files_to_remove p.compacted_old_files_removed
  indices_added ← drain u.compacted_file_indices_to_add p.compacted_new_indices_imported
  indices_removed ← drain u.compacted_file_indices_to_remove p.compacted_old_indices_removed
  remap ← prune_remap u.compacted_data_file_remap p.data_file_records_remap
  done (record {
    new_data_files = data_files;
    new_file_indices = file_indices;
    merged_file_indices_to_remove = merged_old;
    merged_file_indices_to_add = merged_new;
    compacted_data_files_to_remove = files_removed;
    compacted_data_files_to_add = files_added;
    compacted_file_indices_to_remove = indices_removed;
    compacted_file_indices_to_add = indices_added;
    compacted_data_file_remap = remap;
  })

-- `HashSet::extend`, from an empty set.
abbrev pub distinct : List ℕ → List ℕ
distinct [] = []
distinct (k ∷ ks) = if member k (distinct ks) then distinct ks else k ∷ distinct ks

unfoldable pub get_unpersisted_file_indices_set : UnpersistedRecords → Outcome (List ℕ)
get_unpersisted_file_indices_set u =
    let all =
      distinct
        (u.new_file_indices ++ (u.merged_file_indices_to_add ++ u.compacted_file_indices_to_add)) in
    assert (
      length u.new_file_indices
        + length u.merged_file_indices_to_add
        + length u.compacted_data_files_to_add
      == length all)
    >> done all

unfoldable pub new : UnpersistedRecords
new = record {
  new_data_files = [];
  new_file_indices = [];
  merged_file_indices_to_remove = [];
  merged_file_indices_to_add = [];
  compacted_data_files_to_remove = [];
  compacted_data_files_to_add = [];
  compacted_file_indices_to_remove = [];
  compacted_file_indices_to_add = [];
  compacted_data_file_remap = [];
}
