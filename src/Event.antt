-- ===== src/Event.antt =====
-- The events of a table handler (src/moonlink/src/table_notify.rs).
-- `Row` stands for `MoonlinkRow`, `Payload` for the payloads and results that internal events
-- carry, `Error` for the crate's error type. Transaction ids, LSNs and event ids are numbers, and
-- a name (a file, a column) is a number too. `is_ingest_event` is that of a build without tests.
use moonlink.Base.{
  ℕ, Bool, true, false, Option, none, some, List, Outcome, done, panics, Panic, Result,
}

pub data TableEvent (Row Payload Error : Type 0) : Type 0 where
  append :
      (row : Row) (xact_id : Option ℕ) (lsn : ℕ) (recovery : Bool) → TableEvent Row Payload Error
  delete :
      (row : Row) (lsn : ℕ) (xact_id : Option ℕ) (delete_if_exists : Bool) (recovery : Bool)
      → TableEvent Row Payload Error
  commit : (lsn : ℕ) (xact_id : Option ℕ) (recovery : Bool) → TableEvent Row Payload Error
  stream_abort :
      (xact_id : ℕ) (recovery : Bool) (closes_incomplete_wal_transaction : Bool)
      → TableEvent Row Payload Error
  flush_result :
      (event_id : ℕ) (xact_id : Option ℕ) (flush_result : Option (Result Payload Error))
      → TableEvent Row Payload Error
  load_files : (files : List ℕ) (storage_config : Payload) (lsn : ℕ) → TableEvent Row Payload Error
  commit_flush : (lsn : ℕ) (xact_id : Option ℕ) (recovery : Bool) → TableEvent Row Payload Error
  stream_flush : (xact_id : ℕ) (recovery : Bool) → TableEvent Row Payload Error
  force_snapshot : (lsn : Option ℕ) → TableEvent Row Payload Error
  force_regular_index_merge force_regular_data_compaction force_full_maintenance drop_table :
      TableEvent Row Payload Error
  alter_table : (columns_to_drop : List ℕ) → TableEvent Row Payload Error
  start_initial_copy : TableEvent Row Payload Error
  finish_initial_copy : (start_lsn : ℕ) → TableEvent Row Payload Error
  periodical_mooncake_table_snapshot : (uuid : ℕ) → TableEvent Row Payload Error
  mooncake_table_snapshot_result : Payload → TableEvent Row Payload Error
  regular_iceberg_snapshot : Payload → TableEvent Row Payload Error
  persistence_snapshot_result : Result Payload Error → TableEvent Row Payload Error
  index_merge_result : Result Payload Error → TableEvent Row Payload Error
  data_compaction_result : Result Payload Error → TableEvent Row Payload Error
  evicted_files_to_delete : (evicted_files : List ℕ) → TableEvent Row Payload Error
  periodical_persistence_update_wal : (uuid : ℕ) → TableEvent Row Payload Error
  periodical_wal_persistence_update_result : Result Payload Error → TableEvent Row Payload Error
  finish_recovery : (highest_completion_lsn : ℕ) → TableEvent Row Payload Error

abbrev pub is_some {ℓ} : {A : Type ℓ} → Option A → Bool
is_some none = false
is_some (some _) = true

module _ {R P E : Type 0} where
  unfoldable pub is_ingest_event : TableEvent R P E → Bool
  is_ingest_event (TableEvent.append _ _ _ _) = true
  is_ingest_event (TableEvent.delete _ _ _ _ _) = true
  is_ingest_event (TableEvent.commit _ _ _) = true
  is_ingest_event (TableEvent.stream_abort _ _ _) = true
  is_ingest_event _ = false

  unfoldable pub is_streaming_update : TableEvent R P E → Bool
  is_streaming_update (TableEvent.append _ x _ _) = is_some x
  is_streaming_update (TableEvent.delete _ _ x _ _) = is_some x
  is_streaming_update (TableEvent.stream_abort _ _ _) = true
  is_streaming_update (TableEvent.commit _ x _) = is_some x
  is_streaming_update (TableEvent.commit_flush _ x _) = is_some x
  is_streaming_update (TableEvent.stream_flush _ _) = true
  is_streaming_update _ = false

  unfoldable pub get_lsn_for_ingest_event : TableEvent R P E → Option ℕ
  get_lsn_for_ingest_event (TableEvent.append _ _ lsn _) = some lsn
  get_lsn_for_ingest_event (TableEvent.delete _ lsn _ _ _) = some lsn
  get_lsn_for_ingest_event (TableEvent.commit lsn _ _) = some lsn
  get_lsn_for_ingest_event (TableEvent.stream_abort _ _ _) = none
  get_lsn_for_ingest_event (TableEvent.commit_flush lsn _ _) = some lsn
  get_lsn_for_ingest_event _ = none

  unfoldable pub is_recovery : TableEvent R P E → Outcome Bool
  is_recovery (TableEvent.append _ _ _ r) = done r
  is_recovery (TableEvent.delete _ _ _ _ r) = done r
  is_recovery (TableEvent.commit _ _ r) = done r
  is_recovery (TableEvent.stream_abort _ r _) = done r
  is_recovery (TableEvent.commit_flush _ _ r) = done r
  is_recovery (TableEvent.stream_flush _ r) = done r
  is_recovery _ = panics Panic.unimplemented

  unfoldable pub set_is_recovery : TableEvent R P E → Bool → Outcome (TableEvent R P E)
  set_is_recovery (TableEvent.append row x lsn _) r = done (TableEvent.append row x lsn r)
  set_is_recovery (TableEvent.delete row lsn x d _) r = done (TableEvent.delete row lsn x d r)
  set_is_recovery (TableEvent.commit lsn x _) r = done (TableEvent.commit lsn x r)
  set_is_recovery (TableEvent.stream_abort x _ c) r = done (TableEvent.stream_abort x r c)
  set_is_recovery (TableEvent.commit_flush lsn x _) r = done (TableEvent.commit_flush lsn x r)
  set_is_recovery (TableEvent.stream_flush x _) r = done (TableEvent.stream_flush x r)
  set_is_recovery _ _ = panics Panic.unimplemented
