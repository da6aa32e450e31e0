-- ===== src/Handler/State.antt =====
-- The state of the table handler (table_handler/table_handler_state.rs). The two channels are
-- outside the program: a method returns the messages that it sends. `Request` stands for the request
-- to alter the table, and the buffered events are those of the handler.
use moonlink.Base.{
  ℕ, Bool, true, false, Option, none, some, List, [], Outcome, done, panics, Panic, ◌==◌,
}

pub data SpecialTableState (Request : Type 0) : Type 0 where
  normal initial_copy : SpecialTableState Request
  alter_table :
      (alter_table_lsn : ℕ) (alter_table_request : Option Request) → SpecialTableState Request
  drop_table : SpecialTableState Request

pub data MaintenanceRequestStatus : Type 0 where
  unrequested force_regular force_full : MaintenanceRequestStatus

pub data MaintenanceProcessStatus : Type 0 where
  unrequested in_process ready_to_persist in_persist : MaintenanceProcessStatus

unfoldable pub is_force_request : MaintenanceRequestStatus → Bool
is_force_request MaintenanceRequestStatus.unrequested = false
is_force_request MaintenanceRequestStatus.force_regular = true
is_force_request MaintenanceRequestStatus.force_full = true

unfoldable pub is_requested : MaintenanceRequestStatus → Bool
is_requested MaintenanceRequestStatus.unrequested = false
is_requested MaintenanceRequestStatus.force_regular = true
is_requested MaintenanceRequestStatus.force_full = true

unfoldable pub is_maintenance_ongoing : MaintenanceProcessStatus → Bool
is_maintenance_ongoing MaintenanceProcessStatus.unrequested = false
is_maintenance_ongoing MaintenanceProcessStatus.in_process = true
is_maintenance_ongoing MaintenanceProcessStatus.ready_to_persist = true
is_maintenance_ongoing MaintenanceProcessStatus.in_persist = true

-- `== SpecialTableState::Normal`, and the like.
abbrev pub is_normal : {Q : Type 0} → SpecialTableState Q → Bool
is_normal SpecialTableState.normal = true
is_normal _ = false

abbrev pub is_initial_copy : {Q : Type 0} → SpecialTableState Q → Bool
is_initial_copy SpecialTableState.initial_copy = true
is_initial_copy _ = false

abbrev pub is_alter_table : {Q : Type 0} → SpecialTableState Q → Bool
is_alter_table (SpecialTableState.alter_table _ _) = true
is_alter_table _ = false

abbrev pub is_in_process : MaintenanceProcessStatus → Bool
is_in_process MaintenanceProcessStatus.in_process = true
is_in_process _ = false

abbrev pub is_ready_to_persist : MaintenanceProcessStatus → Bool
is_ready_to_persist MaintenanceProcessStatus.ready_to_persist = true
is_ready_to_persist _ = false

-- `==` on optional LSNs.
abbrev pub same_lsn : Option ℕ → Option ℕ → Bool
same_lsn none none = true
same_lsn (some a) (some b) = a == b
same_lsn none (some _) = false
same_lsn (some _) none = false

abbrev pub unwrap_or : Option ℕ → ℕ → ℕ
unwrap_or none d = d
unwrap_or (some a) d = a

abbrev pub unwrap {ℓ} : {A : Type ℓ} → Option A → Outcome A
unwrap none = panics Panic.unwrap_failed
unwrap (some a) = done a

pub record TableHandlerState (Request Event : Type 0) : Type 0 where
  pub initial_persistence_lsn : Option ℕ
  pub table_consistent_view_lsn : Option ℕ
  pub latest_commit_lsn : Option ℕ
  pub last_unflushed_commit_lsn : Option ℕ
  pub persistence_snapshot_result_consumed : Bool
  pub persistence_snapshot_ongoing : Bool
  pub mooncake_snapshot_ongoing : Bool
  pub largest_force_snapshot_lsn : Option ℕ
  pub special_table_state : SpecialTableState Request
  pub initial_copy_buffered_events : List Event
  pub index_merge_request_status : MaintenanceRequestStatus
  pub data_compaction_request_status : MaintenanceRequestStatus
  pub table_maintenance_process_status : MaintenanceProcessStatus
  pub wal_persist_ongoing : Bool

unfoldable pub new :
    {Q V : Type 0}
    → (initial_persistence_lsn persistence_snapshot_lsn : Option ℕ) → TableHandlerState Q V
new initial persisted = record {
  initial_persistence_lsn = initial;
  table_consistent_view_lsn = persisted;
  latest_commit_lsn = none;
  last_unflushed_commit_lsn = none;
  persistence_snapshot_result_consumed = true;
  persistence_snapshot_ongoing = false;
  mooncake_snapshot_ongoing = false;
  largest_force_snapshot_lsn = none;
  special_table_state = SpecialTableState.normal;
  initial_copy_buffered_events = [];
  index_merge_request_status = MaintenanceRequestStatus.unrequested;
  data_compaction_request_status = MaintenanceRequestStatus.unrequested;
  table_maintenance_process_status = MaintenanceProcessStatus.unrequested;
  wal_persist_ongoing = false;
}
