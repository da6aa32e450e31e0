-- ===== src/Tests/Handler.antt =====
-- The theorems on the table handler's state at concrete states.
use moonlink.Base.{Option, ℕ, ◌≤◌, ◌<◌, ◌≡◌, refl, ◌⊎◌, ◌↔◌, true, false, some, none, [], done}
use moonlink.Handler.State.{
  TableHandlerState, SpecialTableState, MaintenanceRequestStatus, MaintenanceProcessStatus,
}
use moonlink.Handler.Lsns.{should_discard_event, update_iceberg_persisted_lsn}
use moonlink.Handler.Blocking.{
  is_in_blocking_state, start_alter_table, should_complete_alter_table, finish_alter_table,
}
use moonlink.Handler.Discard.{main_lsn, should_discard_event_iff}
use moonlink.Handler.Persisted.{Reported, update_iceberg_persisted_lsn-reports}
use moonlink.Handler.Alter.{start_alter_table-completes}
use moonlink.Handler.Requests.{force_snapshot}
use moonlink.Handler.Serves.{Served, force_snapshot-Served}
use moonlink.Tests.Log.{Event, main_commit}

abbrev pub State : Type 0
State = TableHandlerState ℕ Event

-- A handler that starts from LSN 4, with a snapshot at 4 and one waiting for 6.
abbrev pub at_four : State
at_four = record {
  initial_persistence_lsn = some 4;
  table_consistent_view_lsn = some 4;
  latest_commit_lsn = some 4;
  last_unflushed_commit_lsn = none;
  persistence_snapshot_result_consumed = false;
  persistence_snapshot_ongoing = false;
  mooncake_snapshot_ongoing = false;
  largest_force_snapshot_lsn = some 6;
  special_table_state = SpecialTableState.normal;
  initial_copy_buffered_events = [];
  index_merge_request_status = MaintenanceRequestStatus.unrequested;
  data_compaction_request_status = MaintenanceRequestStatus.unrequested;
  table_maintenance_process_status = MaintenanceProcessStatus.unrequested;
  wal_persist_ongoing = false;
}

should_discard_event_iff_example : (should_discard_event at_four main_commit ≡ true) ↔ (
    (from : ℕ) × (lsn : ℕ) × (at_four.initial_persistence_lsn ≡ some from)
    × (main_lsn main_commit ≡ some lsn)
    × (lsn ≤ from))
should_discard_event_iff_example = should_discard_event_iff at_four main_commit

update_iceberg_persisted_lsn-reports_example :
    (s' : State) × (lsn : ℕ) × (update_iceberg_persisted_lsn at_four 4 9 ≡ done (s', lsn))
    × (4 ≤ lsn)
    × ((waiting : ℕ)
        → some 6 ≡ some waiting
        → ((waiting ≤ lsn) × (s'.largest_force_snapshot_lsn ≡ none))
          ⊎ ((lsn < waiting) × (s'.largest_force_snapshot_lsn ≡ some waiting)))
update_iceberg_persisted_lsn-reports_example = update_iceberg_persisted_lsn-reports at_four 4 9

start_alter_table-completes_example :
    (s' : State) × (s'' : State) × (largest : ℕ) × (start_alter_table at_four 1 ≡ done s')
    × (is_in_blocking_state s' ≡ true)
    × (s'.largest_force_snapshot_lsn ≡ some largest)
    × (4 ≤ largest)
    × (should_complete_alter_table s' 4 ≡ done true)
    × ((p : ℕ) → p < 4 → should_complete_alter_table s' p ≡ done false)
    × (finish_alter_table s' ≡ done s'')
    × (is_in_blocking_state s'' ≡ false)
start_alter_table-completes_example = start_alter_table-completes at_four 1 4 refl refl

force_snapshot-Served_example :
    (s' : State) × (answer : Option ℕ) × (table_lsn : ℕ) × (force_snapshot at_four true
        (some 9)
        (some 4)
        5
      ≡ done (s', answer))
    × Reported (some 4) at_four.table_consistent_view_lsn 5 table_lsn
    × Served 9 table_lsn at_four s' answer
force_snapshot-Served_example = force_snapshot-Served at_four true (some 9) (some 4) 5 9 refl

abbrev merging : State
merging = record at_four { table_maintenance_process_status = MaintenanceProcessStatus.in_process }
