-- ===== src/Wal/Transaction.antt =====
-- The tracked state of a transaction (storage/wal.rs, `WalTransactionState`).
use moonlink.Base.{ℕ, Bool, true, false, Option, none, some, leb, ltb, if◌then◌else◌}

pub data WalTransactionState : Type 0 where
  commit : (start_file completion_lsn file_end : ℕ) → WalTransactionState
  abort : (start_file completion_lsn file_end : ℕ) → WalTransactionState
  opened : (start_file : ℕ) → WalTransactionState

unfoldable pub get_start_file : WalTransactionState → ℕ
get_start_file (WalTransactionState.opened start) = start
get_start_file (WalTransactionState.commit start _ _) = start
get_start_file (WalTransactionState.abort start _ _) = start

unfoldable pub get_completion_lsn_and_file : WalTransactionState → Option (ℕ × ℕ)
get_completion_lsn_and_file (WalTransactionState.opened _) = none
get_completion_lsn_and_file (WalTransactionState.commit _ lsn file_end) = some (lsn, file_end)
get_completion_lsn_and_file (WalTransactionState.abort _ lsn file_end) = some (lsn, file_end)

unfoldable pub is_closed : WalTransactionState → Bool
unfolding get_completion_lsn_and_file
is_closed s = elim (get_completion_lsn_and_file s) [ none ↦ false | some _ ↦ true ]

-- The assertion of a debug build: a transaction that completed after the snapshot ended in a file
-- that is kept.
unfoldable pub check_completed_xact_consistent_with_iceberg_snapshot :
    (completion_lsn completion_file_number persistence_snapshot_lsn lowest_file_kept : ℕ) → Bool
check_completed_xact_consistent_with_iceberg_snapshot lsn file snapshot kept =
    if ltb snapshot lsn then leb kept file else true

-- Whether the assertion that the test for capture makes in a debug build holds. The assertion
-- reads nothing that the test writes, so the two are separate functions.
unfoldable pub passes_check : WalTransactionState → ℕ → Option ℕ → Bool
unfolding get_completion_lsn_and_file check_completed_xact_consistent_with_iceberg_snapshot
passes_check s snapshot kept = elim (get_completion_lsn_and_file s) [
  | none ↦ true
  | some (lsn, file) ↦ elim kept [
    | none ↦ true
    | some lowest ↦ check_completed_xact_consistent_with_iceberg_snapshot lsn file snapshot lowest
  ]
]

unfoldable pub is_captured_in_iceberg_snapshot : WalTransactionState → ℕ → Bool
unfolding get_completion_lsn_and_file
is_captured_in_iceberg_snapshot s snapshot = elim (get_completion_lsn_and_file s) [
  | none ↦ false
  | some (lsn, _) ↦ leb lsn snapshot
]
