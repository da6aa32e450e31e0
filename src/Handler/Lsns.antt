-- ===== src/Handler/Lsns.antt =====
-- The LSNs of the table handler: commits, what is persisted, and forced snapshots
-- (table_handler/table_handler_state.rs).
use moonlink.Base.{
  ℕ, max, Bool, false, ◌&&◌, not, Option, none, some, Outcome, done, ◌>>=◌, leb, ltb, if◌then◌else◌,
}
use moonlink.Event.{
  TableEvent, is_some, is_ingest_event, is_streaming_update, get_lsn_for_ingest_event,
}
use moonlink.Handler.State.{TableHandlerState, same_lsn, unwrap_or, unwrap}

abbrev pub unflushed_after : (xact_id : Option ℕ) → (lsn : ℕ) → Option ℕ → Option ℕ
unflushed_after none lsn old = some lsn
unflushed_after (some _) lsn old = old

-- The discard test against an initial LSN.
unfoldable pub discards_from :
    {R P E : Type 0} → (initial_persistence_lsn : ℕ) → TableEvent R P E → Bool
discards_from initial event =
    if is_streaming_update event
    then false
    else elim (get_lsn_for_ingest_event event) [ none ↦ false | some lsn ↦ leb lsn initial ]

-- The pending request is met once its LSN is persisted.
abbrev pub unset_if_reached : (persisted_table_lsn : ℕ) → Option ℕ → Option ℕ
unset_if_reached persisted none = none
unset_if_reached persisted (some largest) = if leb largest persisted then none else some largest

module _ {Q V : Type 0} where
  module _ {R P E : Type 0} where
    -- The match on an ingest event.
    unfoldable pub update_lsns_for :
        TableHandlerState Q V → TableEvent R P E → TableHandlerState Q V
    update_lsns_for s (TableEvent.commit lsn x _) = record s {
      latest_commit_lsn = some lsn;
      table_consistent_view_lsn = some lsn;
      last_unflushed_commit_lsn = unflushed_after x lsn s.last_unflushed_commit_lsn;
    }
    update_lsns_for s (TableEvent.commit_flush lsn _ _) = record s {
      latest_commit_lsn = some lsn;
      table_consistent_view_lsn = some lsn;
    }
    update_lsns_for s (TableEvent.append _ _ _ _) = record s { table_consistent_view_lsn = none }
    update_lsns_for s (TableEvent.delete _ _ _ _ _) = record s { table_consistent_view_lsn = none }
    update_lsns_for s (TableEvent.stream_abort _ _ _) = record s {
      table_consistent_view_lsn = none;
    }
    update_lsns_for s _ = s

    unfoldable pub update_table_lsns :
        TableHandlerState Q V → TableEvent R P E → TableHandlerState Q V
    unfolding update_lsns_for
    update_table_lsns s event = if is_ingest_event event then update_lsns_for s event else s

    unfoldable pub should_discard_event : TableHandlerState Q V → TableEvent R P E → Bool
    unfolding discards_from
    should_discard_event s event = elim s.initial_persistence_lsn [
      | none ↦ false
      | some initial ↦ discards_from initial event
    ]

  unfoldable pub get_persisted_table_lsn :
      TableHandlerState Q V
      → (persistence_snapshot_lsn : Option ℕ) → (replication_lsn : ℕ) → Outcome ℕ
  get_persisted_table_lsn s persisted replication =
      if not (is_some persisted) && not (is_some s.table_consistent_view_lsn)
      then done replication
      else if same_lsn persisted s.table_consistent_view_lsn
      then (unwrap persisted >>= λ lsn. done (max replication lsn))
      else done (unwrap_or persisted 0)

  -- The new state, and the LSN that is sent to those who wait for a forced snapshot.
  unfoldable pub update_iceberg_persisted_lsn :
      TableHandlerState Q V
      → (persistence_snapshot_lsn replication_lsn : ℕ) → Outcome (TableHandlerState Q V × ℕ)
  update_iceberg_persisted_lsn s persisted replication = do
    table_lsn ← get_persisted_table_lsn s (some persisted) replication
    done (
      record s {
        largest_force_snapshot_lsn = unset_if_reached table_lsn s.largest_force_snapshot_lsn;
      },
      table_lsn,
    )

  unfoldable pub has_pending_force_snapshot_request : TableHandlerState Q V → Bool
  has_pending_force_snapshot_request s = is_some s.largest_force_snapshot_lsn

  unfoldable pub should_force_flush :
      TableHandlerState Q V → (commit_lsn existing_flush_lsn : ℕ) → Bool
  should_force_flush s commit_lsn existing = elim s.largest_force_snapshot_lsn [
    | none ↦ false
    | some largest ↦ leb largest commit_lsn && ltb existing largest
  ]
