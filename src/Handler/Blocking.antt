-- ===== src/Handler/Blocking.antt =====
-- The operations that block the table: drop, alter and initial copy
-- (table_handler/table_handler_state.rs). `has_ongoing_flush` is the mooncake table's.
use moonlink.Base.{
  ℕ, max, Bool, true, false, not, Option, none, some, Outcome, done, ◌>>=◌, ◌>>◌, assert, leb, ◌==◌,
  if◌then◌else◌,
}
use moonlink.Event.{is_some}
use moonlink.Handler.State.{
  TableHandlerState, SpecialTableState, is_normal, is_initial_copy, is_alter_table, unwrap,
  is_maintenance_ongoing,
}

-- A pending forced snapshot, raised to cover an LSN.
abbrev pub raised : Option ℕ → ℕ → Option ℕ
raised none lsn = some lsn
raised (some old) lsn = some (max old lsn)

module _ {Q V : Type 0} where
  unfoldable pub is_in_blocking_state : TableHandlerState Q V → Bool
  is_in_blocking_state s = not (is_normal s.special_table_state)

  -- In spite of its name: whether no background task is ongoing.
  unfoldable pub has_background_task_ongoing :
      TableHandlerState Q V → (has_ongoing_flush : Bool) → Bool
  unfolding is_maintenance_ongoing
  has_background_task_ongoing s flush =
      if s.mooncake_snapshot_ongoing
      then false
      else if s.persistence_snapshot_ongoing
      then false
      else if s.wal_persist_ongoing
      then false
      else if is_maintenance_ongoing s.table_maintenance_process_status
      then false
      else if flush
      then false
      else true

  unfoldable pub mark_drop_table : TableHandlerState Q V → Outcome (TableHandlerState Q V)
  mark_drop_table s = do
    assert (is_normal s.special_table_state)
    done (record s { special_table_state = SpecialTableState.drop_table })

  unfoldable pub can_drop_table_now : TableHandlerState Q V → (has_ongoing_flush : Bool) → Bool
  unfolding has_background_task_ongoing
  can_drop_table_now s flush = has_background_task_ongoing s flush

  unfoldable pub start_alter_table :
      TableHandlerState Q V → (alter_table_request : Q) → Outcome (TableHandlerState Q V)
  start_alter_table s request = do
    assert (is_some s.table_consistent_view_lsn)
    assert (is_normal s.special_table_state)
    lsn ← unwrap s.table_consistent_view_lsn
    done (record s {
      largest_force_snapshot_lsn = raised s.largest_force_snapshot_lsn lsn;
      special_table_state = SpecialTableState.alter_table lsn (some request);
    })

  unfoldable pub should_complete_alter_table :
      TableHandlerState Q V → (persistence_snapshot_lsn : ℕ) → Outcome Bool
  should_complete_alter_table s persisted = elim s.special_table_state [
    | SpecialTableState.alter_table lsn _ ↦ assert (leb persisted lsn) >> done (persisted == lsn)
    | _ ↦ done false
  ]

  unfoldable pub finish_alter_table : TableHandlerState Q V → Outcome (TableHandlerState Q V)
  finish_alter_table s = do
    assert (is_alter_table s.special_table_state)
    done (record s { special_table_state = SpecialTableState.normal })

  unfoldable pub start_initial_copy : TableHandlerState Q V → Outcome (TableHandlerState Q V)
  start_initial_copy s = do
    assert (is_normal s.special_table_state)
    done (record s { special_table_state = SpecialTableState.initial_copy })

  unfoldable pub finish_initial_copy :
      TableHandlerState Q V → (lsn : ℕ) → Outcome (TableHandlerState Q V)
  finish_initial_copy s lsn = do
    assert (is_initial_copy s.special_table_state)
    done (record s {
      special_table_state = SpecialTableState.normal;
      latest_commit_lsn = some lsn;
      table_consistent_view_lsn = some lsn;
    })
