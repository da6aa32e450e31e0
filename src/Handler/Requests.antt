-- ===== src/Handler/Requests.antt =====
-- Requests to the table handler for a snapshot or for maintenance (the branches of the event loop in
-- table_handler.rs). What the branch sends is returned: an LSN to those who wait for a snapshot, or
-- whether the end of maintenance is acknowledged at once.
use moonlink.Base.{
  ℕ, Bool, true, false, not, Option, none, some, Outcome, done, panics, Panic, ◌>>=◌, ◌>>◌, assert,
  leb, if◌then◌else◌,
}
use moonlink.Handler.State.{TableHandlerState, MaintenanceRequestStatus, is_requested}
use moonlink.Handler.Lsns.{get_persisted_table_lsn}
use moonlink.Handler.Blocking.{raised}
use moonlink.Handler.Maintenance.{can_start_new_maintenance}

abbrev pub requested_lsn : (lsn latest_commit_lsn : Option ℕ) → Option ℕ
requested_lsn none latest = latest
requested_lsn (some lsn) latest = some lsn

module _ {Q V : Type 0} where
  -- The LSN is already persisted, or it is recorded for a later commit.
  unfoldable pub settle_or_wait :
      TableHandlerState Q V → (requested persisted_table_lsn : ℕ) → TableHandlerState Q V × Option ℕ
  settle_or_wait s requested persisted = if leb requested persisted then (s, some persisted) else (
    record s { largest_force_snapshot_lsn = raised s.largest_force_snapshot_lsn requested },
    none,
  )

  -- Whether somebody waits for forced snapshots is an argument: with no commit to snapshot the
  -- answer's `send` is unwrapped.
  unfoldable pub force_snapshot :
      TableHandlerState Q V
      → (has_receiver : Bool) (lsn persistence_snapshot_lsn : Option ℕ) (replication_lsn : ℕ)
      → Outcome (TableHandlerState Q V × Option ℕ)
  unfolding settle_or_wait
  force_snapshot s has_receiver lsn persisted replication =
      elim (requested_lsn lsn s.latest_commit_lsn) [
        | none ↦ if has_receiver then done (s, some 0) else panics Panic.unwrap_failed
        | some requested ↦ get_persisted_table_lsn s persisted replication >>= λ table_lsn.
            done (settle_or_wait s requested table_lsn)
      ]

  unfoldable pub force_regular_index_merge :
      TableHandlerState Q V → Outcome (TableHandlerState Q V × Bool)
  force_regular_index_merge s =
      if not (can_start_new_maintenance s)
      then done (s, true)
      else (assert (not (is_requested s.index_merge_request_status))
          >> done (
            record s { index_merge_request_status = MaintenanceRequestStatus.force_regular },
            false,
          ))

  unfoldable pub force_regular_data_compaction :
      TableHandlerState Q V → Outcome (TableHandlerState Q V × Bool)
  force_regular_data_compaction s =
      if not (can_start_new_maintenance s)
      then done (s, true)
      else (assert (not (is_requested s.data_compaction_request_status))
          >> done (
            record s { data_compaction_request_status = MaintenanceRequestStatus.force_regular },
            false,
          ))

  unfoldable pub force_full_maintenance :
      TableHandlerState Q V → Outcome (TableHandlerState Q V × Bool)
  force_full_maintenance s =
      if not (can_start_new_maintenance s)
      then done (s, true)
      else (assert (not (is_requested s.index_merge_request_status))
          >> assert (not (is_requested s.data_compaction_request_status))
          >> done (
            record s { data_compaction_request_status = MaintenanceRequestStatus.force_full },
            false,
          ))
