-- ===== src/Wal/Truncate.antt =====
-- Which files a snapshot makes obsolete (storage/wal.rs, "Preparing for truncate").
use moonlink.Base.{
  ℕ, Bool, true, not, Option, none, some, List, [], ◌∷◌, ◌++◌, map, Outcome, done, ◌>>◌, assert,
  leb, ltb, first?, retain, find?, values, min,
}
use moonlink.Wal.Transaction.{WalTransactionState, get_start_file, is_captured_in_iceberg_snapshot}
use moonlink.Wal.Manager.{WalFileInfo, WalManager}

-- `iter().min()`.
abbrev pub minimum? : List ℕ → Option ℕ
minimum? [] = none
minimum? (x ∷ xs) = elim (minimum? xs) [ none ↦ some x | some y ↦ some (min x y) ]

-- The start of a found entry, as the list that is pushed.
abbrev pub start_of : Option WalTransactionState → List ℕ
start_of none = []
start_of (some s) = get_start_file s ∷ []

abbrev pub or_else : Option ℕ → ℕ → ℕ
or_else none d = d
or_else (some x) d = x

abbrev pub is_uncaptured : ℕ → WalTransactionState → Bool
is_uncaptured lsn s = not (is_captured_in_iceberg_snapshot s lsn)

-- The first files of the transactions that the snapshot has not captured: of all the streaming
-- ones, and of the first such entry of the main transaction's tracker.
unfoldable pub files_to_keep : {R : Type 0} → WalManager R → (truncate_from_lsn : ℕ) → List ℕ
files_to_keep m lsn =
    map get_start_file (retain (is_uncaptured lsn) (values m.active_transactions))
    ++ start_of (find? (is_uncaptured lsn) m.main_transaction_tracker)

unfoldable pub get_lowest_file_to_keep : {R : Type 0} → WalManager R → (truncate_from_lsn : ℕ) → ℕ
unfolding files_to_keep
get_lowest_file_to_keep m lsn = or_else (minimum? (files_to_keep m lsn)) m.curr_file_number

-- The assertion on the oldest live file.
unfoldable pub keeps_first_live : (lowest_file_to_keep : ℕ) → List WalFileInfo → Bool
keeps_first_live lowest live = elim (first? live) [
  | none ↦ true
  | some file ↦ leb file.file_number lowest
]

unfoldable pub get_files_to_truncate :
    {R : Type 0} → WalManager R → (persistence_snapshot_lsn : ℕ) → Outcome (List WalFileInfo)
unfolding keeps_first_live
get_files_to_truncate m lsn = do
  assert (keeps_first_live (get_lowest_file_to_keep m lsn) m.live_wal_files_tracker)
  done (
      retain (λ file. ltb file.file_number (get_lowest_file_to_keep m lsn))
        m.live_wal_files_tracker)
