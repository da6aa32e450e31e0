-- ===== src/Handler/Maintenance.antt =====
-- Snapshots and table maintenance in the table handler's state
-- (table_handler/table_handler_state.rs). A fresh event id is an argument.
use moonlink.Base.{
  ℕ, Bool, true, false, ◌&&◌, ◌||◌, not, Option, none, some, Outcome, done, panics, Panic, ◌>>◌,
  assert, Result, ok, err, ltb, if◌then◌else◌,
}
use moonlink.Handler.Options.{MaintenanceOption, IcebergSnapshotOption, SnapshotOption}
use moonlink.Handler.State.{
  TableHandlerState, MaintenanceRequestStatus, MaintenanceProcessStatus, is_requested,
  is_maintenance_ongoing, is_in_process, is_ready_to_persist,
}

unfoldable pub can_initiate_iceberg_snapshot :
    (flush_lsn min_ongoing_flush_lsn : ℕ)
    (persistence_snapshot_result_consumed persistence_snapshot_ongoing : Bool)
    → Bool
can_initiate_iceberg_snapshot flush_lsn min_ongoing consumed ongoing =
    consumed && not ongoing && ltb flush_lsn min_ongoing

-- The option that a request status asks for.
unfoldable pub requested_option : MaintenanceRequestStatus → (event_id : ℕ) → MaintenanceOption
requested_option MaintenanceRequestStatus.unrequested id = MaintenanceOption.best_effort id
requested_option MaintenanceRequestStatus.force_regular id = MaintenanceOption.force_regular id
requested_option MaintenanceRequestStatus.force_full id = MaintenanceOption.force_full id

module _ {Q V : Type 0} where
  unfoldable pub reset_iceberg_state_at_mooncake_snapshot :
      TableHandlerState Q V → Outcome (TableHandlerState Q V)
  reset_iceberg_state_at_mooncake_snapshot s = do
    assert (not s.persistence_snapshot_ongoing || s.persistence_snapshot_result_consumed)
    done (
        if s.persistence_snapshot_result_consumed then s else record s {
          persistence_snapshot_result_consumed = true;
          persistence_snapshot_ongoing = false;
        })

  unfoldable pub get_maintenance_task_option :
      TableHandlerState Q V → MaintenanceRequestStatus → (event_id : ℕ) → MaintenanceOption
  unfolding is_maintenance_ongoing requested_option
  get_maintenance_task_option s status id =
      if is_maintenance_ongoing s.table_maintenance_process_status
      then MaintenanceOption.skip
      else requested_option status id

  unfoldable pub get_iceberg_snapshot_option :
      TableHandlerState Q V → (event_id : ℕ) → IcebergSnapshotOption
  get_iceberg_snapshot_option s id =
      if s.persistence_snapshot_ongoing
      then IcebergSnapshotOption.skip
      else IcebergSnapshotOption.best_effort id

  -- Whether a snapshot is created in any case.
  unfoldable pub forces_snapshot : TableHandlerState Q V → (request_force : Bool) → Bool
  unfolding is_requested is_maintenance_ongoing
  forces_snapshot s force =
      let status = s.table_maintenance_process_status in
      let ready = if is_ready_to_persist status then true else force in
      let merging =
        if is_requested s.index_merge_request_status && not (is_maintenance_ongoing status)
        then true
        else ready in
      if is_requested s.data_compaction_request_status && not (is_maintenance_ongoing status)
      then true
      else merging

  unfoldable pub get_mooncake_snapshot_option :
      TableHandlerState Q V
      → (request_force : Bool) → (uuid : ℕ) (iceberg_id index_id compaction_id : ℕ) → SnapshotOption
  unfolding forces_snapshot get_iceberg_snapshot_option get_maintenance_task_option
  get_mooncake_snapshot_option s force uuid iceberg_id index_id compaction_id = record {
    uuid = uuid;
    force_create = forces_snapshot s force;
    dump_snapshot = false;
    iceberg_snapshot_option = get_iceberg_snapshot_option s iceberg_id;
    index_merge_option = get_maintenance_task_option s s.index_merge_request_status index_id;
    data_compaction_option =
        get_maintenance_task_option s s.data_compaction_request_status compaction_id;
  }

  unfoldable pub mark_index_merge_completed :
      TableHandlerState Q V → Outcome (TableHandlerState Q V)
  mark_index_merge_completed s = do
    assert (is_in_process s.table_maintenance_process_status)
    done (record s {
      index_merge_request_status = MaintenanceRequestStatus.unrequested;
      table_maintenance_process_status = MaintenanceProcessStatus.ready_to_persist;
    })

  -- The new state and the error that is sent, if there is one. `has_receiver` says whether the
  -- channel takes it: `send` fails if nobody listens.
  unfoldable pub mark_data_compaction_completed :
      {A E : Type 0}
      → TableHandlerState Q V
      → (data_compaction_result : Result A E) (has_receiver : Bool)
      → Outcome (TableHandlerState Q V × Option E)
  mark_data_compaction_completed s (ok _) has_receiver = done (
    record s {
      data_compaction_request_status = MaintenanceRequestStatus.unrequested;
      table_maintenance_process_status = MaintenanceProcessStatus.ready_to_persist;
    },
    none,
  )
  mark_data_compaction_completed s (err e) true = done (
    record s {
      data_compaction_request_status = MaintenanceRequestStatus.unrequested;
      table_maintenance_process_status = MaintenanceProcessStatus.unrequested;
    },
    some e,
  )
  mark_data_compaction_completed s (err e) false = panics Panic.unwrap_failed

  unfoldable pub can_start_new_maintenance : TableHandlerState Q V → Bool
  unfolding is_requested is_maintenance_ongoing
  can_start_new_maintenance s =
      if is_maintenance_ongoing s.table_maintenance_process_status
      then false
      else if is_requested s.index_merge_request_status
      then false
      else if is_requested s.data_compaction_request_status
      then false
      else true
