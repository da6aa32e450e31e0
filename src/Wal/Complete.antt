-- ===== src/Wal/Complete.antt =====
-- A completed persistence update enters the trackers (storage/wal.rs, "Handling completed
-- persistence and truncation"), with the assertions of a debug build.
use moonlink.Base.{
  ℕ, Bool, true, false, ◌&&◌, Option, none, some, List, [], ◌∷◌, Outcome, done, ◌>>=◌, ◌>>◌, assert,
  leb, ltb, ◌==◌, if◌then◌else◌, lookup,
}
use moonlink.Event.{is_some}
use moonlink.Wal.Transaction.{WalTransactionState}
use moonlink.Wal.Manager.{WalFileInfo, WalManager}
use moonlink.Wal.Persist.{
  PreparePersistentUpdate, file_info, compute_updated_live_wal_file_tracker,
  compute_cleanedup_xacts,
}

abbrev pub same_file : WalFileInfo → WalFileInfo → Bool
same_file f g = f.file_number == g.file_number && f.highest_lsn == g.highest_lsn

-- `==` on vectors.
unfoldable pub same_files : List WalFileInfo → List WalFileInfo → Bool
same_files [] [] = true
same_files [] (_ ∷ _) = false
same_files (_ ∷ _) [] = false
same_files (f ∷ fs) (g ∷ gs) = same_file f g && same_files fs gs

abbrev is_after : (snapshot : Option ℕ) (lsn : ℕ) → Bool
is_after none lsn = true
is_after (some l) lsn = ltb l lsn

-- The assertions on one tracked streaming transaction: `snapshot` is the accompanying LSN,
-- `highest` and `persisted` are those of the written metadata.
unfoldable pub xact_is_consistent :
    (snapshot : Option ℕ) (highest : ℕ) (persisted : List (ℕ × WalTransactionState)) (xact_id : ℕ)
    → WalTransactionState
    → Bool
xact_is_consistent snapshot highest persisted x (WalTransactionState.commit _ lsn _) =
    is_after snapshot lsn && (if leb lsn highest then is_some (lookup x persisted) else true)
xact_is_consistent snapshot highest persisted x (WalTransactionState.abort _ _ _) = true
xact_is_consistent snapshot highest persisted x (WalTransactionState.opened _) = true

unfoldable pub xacts_are_consistent :
    (snapshot : Option ℕ) (highest : ℕ) (persisted : List (ℕ × WalTransactionState))
    → List (ℕ × WalTransactionState)
    → Bool
xacts_are_consistent snapshot highest persisted [] = true
xacts_are_consistent snapshot highest persisted ((x, s) ∷ xacts) =
    xact_is_consistent snapshot highest persisted x s
    && xacts_are_consistent snapshot highest persisted xacts

abbrev pub highest_persisted : Option WalFileInfo → Option ℕ
highest_persisted none = none
highest_persisted (some file) = some file.highest_lsn

module _ {R : Type 0} where
  unfoldable pub clean_up_xacts :
      WalManager R
      → (persistence_snapshot_lsn : Option ℕ) → (files_to_delete : List WalFileInfo)
      → Outcome (WalManager R)
  clean_up_xacts m none deleted = done m
  clean_up_xacts m (some lsn) deleted = do
    (xacts, main_xacts) ← compute_cleanedup_xacts m (some lsn) deleted
    done (record m { active_transactions = xacts; main_transaction_tracker = main_xacts })

  unfoldable pub update_live_wal_file_tracker :
      WalManager R → PreparePersistentUpdate R → WalManager R
  update_live_wal_file_tracker m u = record m {
    live_wal_files_tracker =
        compute_updated_live_wal_file_tracker m.live_wal_files_tracker u.files_to_delete
          (file_info u.files_to_persist);
  }

  unfoldable pub update_trackers_for_persistence_update_result :
      WalManager R → PreparePersistentUpdate R → Outcome (WalManager R)
  update_trackers_for_persistence_update_result m u = do
    m' ←
        clean_up_xacts (update_live_wal_file_tracker m u) u.accompanying_persistence_snapshot_lsn
          u.files_to_delete
    assert (same_files m'.live_wal_files_tracker u.persistent_wal_metadata.live_wal_files_tracker)
    assert (
        xacts_are_consistent u.accompanying_persistence_snapshot_lsn
          u.persistent_wal_metadata.highest_completion_lsn
          u.persistent_wal_metadata.active_transactions m'.active_transactions)
    done m'

  -- The manager after a completed update, and the highest LSN that it made durable.
  unfoldable pub handle_complete_wal_persistence_update :
      WalManager R → PreparePersistentUpdate R → Outcome (WalManager R × Option ℕ)
  handle_complete_wal_persistence_update m u = do
    m' ← update_trackers_for_persistence_update_result m u
    done (m', highest_persisted (file_info u.files_to_persist))
