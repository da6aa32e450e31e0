-- ===== src/Tests/Witnesses.antt =====
-- The theorems on the log's state at the managers of Log.antt.
use moonlink.Base.{
  true, false, Unique, ℕ, ◌≡◌, ◌≢◌, refl, ◌⊎◌, inl, Option, panics, Panic, none, some, [], ◌∷◌,
  done, ◌>>◌, assert, arith, All,
}
use moonlink.Wal.Transaction.{WalTransactionState}
use moonlink.Wal.Manager.{WalManager, new, push}
use moonlink.Wal.Persist.{file_info, prepare_persistent_update, PreparePersistentUpdate}
use moonlink.Wal.Complete.{
  highest_persisted, xacts_are_consistent, handle_complete_wal_persistence_update,
}
use moonlink.Wal.Valid.{IsBounded, IsTracked}
use moonlink.Wal.Valid.Push.{Pushed, push-IsTracked}
use moonlink.Wal.Valid.Update.{IsIdle, IsInFlight, Extracted}
use moonlink.Wal.Valid.Prepare.{first_kept, prepare_persistent_update-IsInFlight}
use moonlink.Wal.Valid.Complete.{
  covers_commits, completed, handle_complete_wal_persistence_update-IsIdle,
  handle_complete_wal_persistence_update-done,
}
use moonlink.Wal.Restored.{Restored, from_persistent_wal_metadata-Restored}
use moonlink.Wal.History.Sound.{IsSound}
use moonlink.Wal.History.Safety.{new-IsIdle, Reach-IsSound, truncation_keeps_events}
use moonlink.Tests.Log.{
  program, main_commit, first_file, streaming, second_prepared, second_update, Accepts-commit,
  in_second_update, reached,
}

new-IsTracked : IsTracked none 0 (new {Row = ℕ} 1)
unfolding program
new-IsTracked = record {
  current = omega arith;
  streaming = tt;
  main = tt;
  shape = tt;
  ascending = tt;
}

commit-IsBounded : IsBounded none 0 1 (WalTransactionState.commit 0 5 0)
unfolding program
commit-IsBounded = record {
  kept = λ _. omega arith;
  begun = omega arith;
  ends = (omega arith, omega arith);
}

pub streaming-IsIdle : IsIdle 0 streaming
unfolding program
streaming-IsIdle = record {
  tracked = record {
    current = omega arith;
    streaming = (record { kept = λ _. omega arith; begun = omega arith; ends = tt }, tt);
    main = (commit-IsBounded, tt);
    shape = tt;
    ascending = (tt, tt);
  };
  live = (refl, refl);
}

second-IsInFlight : IsInFlight 0 1 second_prepared second_update
unfolding program
second-IsInFlight = record {
  tracked = record {
    current = omega arith;
    streaming = (record { kept = λ _. omega arith; begun = omega arith; ends = tt }, tt);
    main = (
      record { kept = λ e. absurd (cc); begun = omega arith; ends = (omega arith, omega arith) },
      tt,
    );
    shape = tt;
    ascending = (tt, tt);
  };
  deleted = (refl, refl);
  small = omega arith;
  next = (refl, refl);
  written = refl;
}

new-Unique : Unique (new {Row = ℕ} 1).active_transactions
unfolding program
new-Unique = tt

streaming-Unique : Unique streaming.active_transactions
streaming-Unique = (refl, tt)

from_persistent_wal_metadata-Restored_example :
    (m' : WalManager ℕ) × (u : PreparePersistentUpdate ℕ) × (r : WalManager ℕ)
    × (prepare_persistent_update streaming (some 5) ≡ done (m', u))
    × Restored (first_kept 0 streaming (some 5)) m' r u
from_persistent_wal_metadata-Restored_example =
    from_persistent_wal_metadata-Restored 0 streaming (some 5) streaming-IsIdle streaming-Unique
      (omega arith)

truncation_keeps_events_example : All (λ file. file.file_number ≢ 1) (first_file ∷ [])
unfolding program
truncation_keeps_events_example =
    truncation_keeps_events {R = ℕ} {P = ℕ} {E = ℕ} 0 (new 1) {h = in_second_update} second_update
      (record { file = 1; xact_id = 7 }) (WalTransactionState.opened 1) (new-IsIdle 1) new-Unique
      reached refl (inl refl) refl refl

Reach-IsSound_example : IsSound in_second_update
Reach-IsSound_example =
    Reach-IsSound {R = ℕ} {P = ℕ} {E = ℕ} 0 (new 1) (new-IsIdle 1) new-Unique reached

push-IsTracked_example :
    (m' : WalManager ℕ) × (push (new 1) main_commit ≡ done m')
    × IsTracked none 0 m'
    × Pushed (new 1) m' main_commit
push-IsTracked_example = push-IsTracked none 0 (new 1) main_commit Accepts-commit new-IsTracked

prepare_persistent_update-IsInFlight_example :
    (m' : WalManager ℕ) × (u : PreparePersistentUpdate ℕ) × (prepare_persistent_update streaming
        (some 5)
      ≡ done (m', u))
    × IsInFlight 0 (first_kept 0 streaming (some 5)) m' u
    × (u.accompanying_persistence_snapshot_lsn ≡ some 5)
    × (u.persistent_wal_metadata.mooncake_table_id ≡ 1)
    × Extracted streaming streaming.in_mem_buf m' u.files_to_persist
prepare_persistent_update-IsInFlight_example =
    prepare_persistent_update-IsInFlight 0 streaming (some 5) streaming-IsIdle (omega arith)

handle_complete_wal_persistence_update-IsIdle_example :
    ((covers_commits second_prepared second_update ≡ false)
      × (handle_complete_wal_persistence_update second_prepared second_update
          ≡ panics Panic.assertion_failed))
    ⊎ ((m' : WalManager ℕ) × (highest : Option ℕ) × (covers_commits second_prepared second_update
          ≡ true)
        × (handle_complete_wal_persistence_update second_prepared second_update
            ≡ done (m', highest))
        × IsIdle 1 m')
handle_complete_wal_persistence_update-IsIdle_example =
    handle_complete_wal_persistence_update-IsIdle 0 1 second_prepared second_update
      second-IsInFlight

handle_complete_wal_persistence_update-done_example :
    handle_complete_wal_persistence_update second_prepared second_update ≡ (
      assert (
        xacts_are_consistent
          (some 5)
          5
          ((7, WalTransactionState.opened 1) ∷ [])
          (completed second_prepared second_update).active_transactions)
      >> done (
        completed second_prepared second_update,
        highest_persisted (file_info second_update.files_to_persist),
      ))
handle_complete_wal_persistence_update-done_example =
    handle_complete_wal_persistence_update-done 0 1 second_prepared second_update second-IsInFlight
