-- ===== src/Wal/Reopened.antt =====
-- A transaction that is tracked as open and began in a file that is no longer live (storage/wal.rs,
-- `get_files_to_truncate`).
use moonlink.Base.{
  ℕ, ◌<◌, ◌≤◌, ◌≡◌, refl, false, some, List, ◌∷◌, panics, Panic, arith, ap, ◌∙◌, All-lookup, lookup,
}
use moonlink.Wal.Transaction.{
  WalTransactionState, get_start_file, get_completion_lsn_and_file, is_captured_in_iceberg_snapshot,
}
use moonlink.Wal.Manager.{WalFileInfo, WalManager}
use moonlink.Wal.Truncate.{get_lowest_file_to_keep, keeps_first_live, get_files_to_truncate}
use moonlink.Wal.Persist.{files_to_truncate_if, prepare_persistent_update}
use moonlink.Wal.Valid.Truncate.{KeepsStart, lowest-le-starts}

module _ {R : Type 0} where
  opened-lowest :
      (m : WalManager R) (x start lsn : ℕ)
      → lookup x m.active_transactions ≡ some (WalTransactionState.opened start)
      → get_lowest_file_to_keep m lsn ≤ start
  unfolding get_start_file get_completion_lsn_and_file is_captured_in_iceberg_snapshot
  opened-lowest m x start lsn found =
      All-lookup (KeepsStart m lsn) x m.active_transactions (lowest-le-starts m lsn).0 found refl

  -- If a manager tracks an open streaming transaction that began in a file before its first live one,
  -- then no update with a snapshot can be prepared: the assertion of the truncation fails.
  pub prepare_persistent_update-panics :
      (m : WalManager R) (x start lsn : ℕ) (file : WalFileInfo) (files : List WalFileInfo)
      → lookup x m.active_transactions ≡ some (WalTransactionState.opened start)
      → m.live_wal_files_tracker ≡ file ∷ files
      → start < file.file_number
      → prepare_persistent_update m (some lsn) ≡ panics Panic.assertion_failed
  unfolding prepare_persistent_update files_to_truncate_if get_files_to_truncate keeps_first_live
  prepare_persistent_update-panics m x start lsn file files found live before =
      let lowest = opened-lowest m x start lsn found in
      let first : keeps_first_live (get_lowest_file_to_keep m lsn) (file ∷ files) ≡ false =
        ground (arith, lowest, before) in
      let fails : keeps_first_live (get_lowest_file_to_keep m lsn) m.live_wal_files_tracker
          ≡ false =
        ap (keeps_first_live (get_lowest_file_to_keep m lsn)) live ∙ first in
      rw (prepare_persistent_update, files_to_truncate_if, get_files_to_truncate, fails) refl
