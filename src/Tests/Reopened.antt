-- ===== src/Tests/Reopened.antt =====
-- A streaming transaction that was aborted at recovery and is sent again while an update is in flight
-- whose snapshot captured the abort.
use moonlink.Base.{ℕ, arith, done, ◌≡◌, refl, none, some, [], ◌∷◌, panics, Panic, ◌>>=◌}
use moonlink.Wal.Transaction.{WalTransactionState}
use moonlink.Wal.Manager.{WalEvent, WalManager, push}
use moonlink.Wal.Persist.{prepare_persistent_update}
use moonlink.Wal.Complete.{handle_complete_wal_persistence_update}
use moonlink.Wal.Reopened.{prepare_persistent_update-panics}
use moonlink.Tests.Log.{program, first_done, stream_append}

abbrev aborted : WalManager ℕ
aborted = record first_done {
  in_mem_buf = WalEvent.commit 6 none ∷ [];
  highest_completion_lsn = 6;
  active_transactions = (7, WalTransactionState.abort 0 5 0) ∷ [];
  main_transaction_tracker = WalTransactionState.commit 1 6 1 ∷ [];
}

-- The manager after the event that reopens the transaction and the update's completion.
abbrev stranded : WalManager ℕ
stranded = record aborted {
  in_mem_buf = WalEvent.append 10 (some 7) 6 ∷ [];
  live_wal_files_tracker = record { file_number = 1; highest_lsn = 6 } ∷ [];
  curr_file_number = 2;
  active_transactions = (7, WalTransactionState.opened 0) ∷ [];
}

reopened :
    (prepare_persistent_update aborted (some 5) >>= λ prepared.
    push prepared.0 stream_append >>= λ m. handle_complete_wal_persistence_update m prepared.1)
    ≡ done (stranded, some 6)
unfolding program
reopened = refl

prepare_persistent_update-panics_example :
    prepare_persistent_update stranded (some 5) ≡ panics Panic.assertion_failed
prepare_persistent_update-panics_example =
    prepare_persistent_update-panics stranded 7 0 5 (record { file_number = 1; highest_lsn = 6 }) []
      refl refl (omega arith)
