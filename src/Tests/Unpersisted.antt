-- ===== src/Tests/Unpersisted.antt =====
-- A compaction is persisted while a data file is added.
use moonlink.Base.{◌≡◌, refl, [], ◌∷◌, done, panics, Panic, arith}
use moonlink.Unpersisted.Records.{
  UnpersistedRecords, PersistedRecords, SnapshotTask, buffer_unpersisted_records,
  buffer_compaction_if, is_empty, prune_persisted_records, get_unpersisted_file_indices_set, new,
}
use moonlink.Unpersisted.Prune.{Persists, prune_persisted_records-buffered}
use moonlink.Unpersisted.Indices.{get_unpersisted_file_indices_set-panics}

-- Two data files of a compaction with one file index.
abbrev compacted : UnpersistedRecords
compacted = record {
  new_data_files = 1 ∷ [];
  new_file_indices = 2 ∷ [];
  merged_file_indices_to_remove = [];
  merged_file_indices_to_add = [];
  compacted_data_files_to_remove = 3 ∷ [];
  compacted_data_files_to_add = 4 ∷ 5 ∷ [];
  compacted_file_indices_to_remove = 6 ∷ [];
  compacted_file_indices_to_add = 7 ∷ [];
  compacted_data_file_remap = (8, 9) ∷ [];
}

abbrev persisted : PersistedRecords
persisted = record {
  new_data_files = 1 ∷ [];
  new_file_indices = 2 ∷ [];
  merged_old_removed = [];
  merged_new_imported = [];
  compacted_new_files_imported = 4 ∷ 5 ∷ [];
  compacted_old_files_removed = 3 ∷ [];
  compacted_new_indices_imported = 7 ∷ [];
  compacted_old_indices_removed = 6 ∷ [];
  data_file_records_remap = (8, 9) ∷ [];
}

compacted-Persists : Persists compacted persisted
compacted-Persists = record {
  data_files = refl;
  file_indices = refl;
  merged_old = refl;
  merged_new = refl;
  files_added = refl;
  files_removed = refl;
  indices_added = refl;
  indices_removed = refl;
  remap = refl;
}

abbrev task : SnapshotTask
task = record {
  new_data_files = 10 ∷ [];
  new_file_indices = 11 ∷ [];
  index_merge_result = record { new_file_indices = []; old_file_indices = [] };
  data_compaction_result = record {
    new_data_files = [];
    old_data_files = [];
    new_file_indices = [];
    old_file_indices = [];
    remapped_data_files = [];
    evicted_files_to_delete = [];
  };
}

abbrev buffered : UnpersistedRecords
buffered = record compacted { new_data_files = 1 ∷ 10 ∷ []; new_file_indices = 2 ∷ 11 ∷ [] }

buffers : buffer_unpersisted_records compacted task ≡ done buffered
unfolding buffer_unpersisted_records buffer_compaction_if is_empty
buffers = refl

prune_persisted_records-buffered_example :
    (left : UnpersistedRecords) × (prune_persisted_records buffered persisted ≡ done left)
    × (buffer_unpersisted_records new task ≡ done left)
prune_persisted_records-buffered_example =
    prune_persisted_records-buffered compacted persisted compacted-Persists task buffered buffers

get_unpersisted_file_indices_set-panics_example :
    get_unpersisted_file_indices_set compacted ≡ panics Panic.assertion_failed
get_unpersisted_file_indices_set-panics_example =
    get_unpersisted_file_indices_set-panics compacted (omega arith)
