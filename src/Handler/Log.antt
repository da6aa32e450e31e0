-- ===== src/Handler/Log.antt =====
-- The branches of the event loop that write the log (table_handler.rs), and
-- `do_wal_persistence_update` (storage/mooncake_table.rs). The update that is handed to the
-- background task is returned.
use moonlink.Base.{
  ℕ, Bool, true, false, ◌&&◌, Option, none, some, Outcome, done, panics, Panic, ◌>>◌, ◌>>=◌, Result,
  ok, err, if◌then◌else◌,
}
use moonlink.Event.{is_some}
use moonlink.Wal.Manager.{WalManager}
use moonlink.Wal.Persist.{PreparePersistentUpdate, prepare_persistent_update, should_do_persistence}
use moonlink.Wal.Complete.{handle_complete_wal_persistence_update}
use moonlink.Handler.State.{TableHandlerState, SpecialTableState}
use moonlink.Handler.Blocking.{can_drop_table_now}

abbrev pub is_drop_table : {Q : Type 0} → SpecialTableState Q → Bool
is_drop_table SpecialTableState.drop_table = true
is_drop_table _ = false

-- A send to a channel, unwrapped.
unfoldable pub announce : (has_receiver : Bool) → (flushed_lsn : Option ℕ) → Outcome (Unit {0})
announce has_receiver none = done tt
announce true (some _) = done tt
announce false (some _) = panics Panic.unwrap_failed

module _ {R : Type 0} where
  unfoldable pub do_wal_persistence_update :
      WalManager R
      → (latest_persistence_snapshot_lsn : Option ℕ)
      → Outcome (WalManager R × Option (PreparePersistentUpdate R))
  unfolding should_do_persistence
  do_wal_persistence_update m lsn = do
    (m', u) ← prepare_persistent_update m lsn
    done (m', if should_do_persistence u then some u else none)

  module _ {Q V : Type 0} where
    unfoldable pub periodical_persistence_update_wal :
        TableHandlerState Q V
        → WalManager R
        → (latest_persistence_snapshot_lsn : Option ℕ)
        → Outcome (TableHandlerState Q V × WalManager R × Option (PreparePersistentUpdate R))
    periodical_persistence_update_wal s m lsn =
        if s.wal_persist_ongoing
        then done (s, m, none)
        else (do_wal_persistence_update m lsn >>= λ r.
            done (record s { wal_persist_ongoing = is_some r.1 }, r.0, r.1))

    -- The states, the LSN that is announced as flushed, and whether the table is dropped now. Whether
    -- somebody listens to the announcement is an argument: its `send` is unwrapped.
    unfoldable pub periodical_wal_persistence_update_result :
        {E : Type 0}
        → TableHandlerState Q V
        → WalManager R
        → (has_receiver has_ongoing_flush : Bool) → Result (PreparePersistentUpdate R) E
        → Outcome (TableHandlerState Q V × WalManager R × Option ℕ × Bool)
    unfolding announce
    periodical_wal_persistence_update_result s m has_receiver flush (err e) =
        done (s, m, none, false)
    periodical_wal_persistence_update_result s m has_receiver flush (ok u) =
        handle_complete_wal_persistence_update m u >>= λ r.
        announce has_receiver r.1
        >> (let s' = record s { wal_persist_ongoing = false } in
            done
              (s', r.0, r.1, is_drop_table s'.special_table_state && can_drop_table_now s' flush))
