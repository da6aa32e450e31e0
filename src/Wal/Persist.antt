-- ===== src/Wal/Persist.antt =====
-- One persistence update: it is prepared, a background task writes it, and its completion is
-- recorded (storage/wal.rs, from "Preparing for persistence" on). The assertions are those of a
-- debug build.
use moonlink.Base.{
  ℕ, Bool, true, false, ◌&&◌, Option, none, some, List, [], ◌∷◌, ◌++◌, Outcome, done, ◌>>=◌, ◌>>◌,
  assert, leb, last?, retain, values,
}
use moonlink.Base.Words.{next_u64}
use moonlink.Wal.Transaction.{WalTransactionState, passes_check}
use moonlink.Wal.Manager.{WalEvent, WalFileInfo, WalManager}
use moonlink.Wal.Truncate.{get_files_to_truncate, is_uncaptured}

pub record PersistentWalMetadata : Type 0 where
  pub curr_file_number : ℕ
  pub highest_completion_lsn : ℕ
  pub live_wal_files_tracker : List WalFileInfo
  pub active_transactions : List (ℕ × WalTransactionState)
  pub main_transaction_tracker : List WalTransactionState
  pub persistence_snapshot_lsn : Option ℕ
  pub mooncake_table_id : ℕ

pub record PreparePersistentUpdate (Row : Type 0) : Type 0 where
  pub persistent_wal_metadata : PersistentWalMetadata
  pub files_to_delete : List WalFileInfo
  pub accompanying_persistence_snapshot_lsn : Option ℕ
  pub files_to_persist : Option (List (WalEvent Row) × WalFileInfo)

-- The information on the file to persist, without its events.
abbrev pub file_info : {R : Type 0} → Option (List (WalEvent R) × WalFileInfo) → Option WalFileInfo
file_info none = none
file_info (some (_, info)) = some info

-- `files_to_delete.last().map(|file| file.file_number + 1)`.
unfoldable pub lowest_file_kept : List WalFileInfo → Option ℕ
lowest_file_kept files = elim (last? files) [
  | none ↦ none
  | some file ↦ some (next_u64 file.file_number)
]

abbrev pub kept_files : Option ℕ → List WalFileInfo → List WalFileInfo
kept_files none live = live
kept_files (some lowest) live = retain (λ file. leb lowest file.file_number) live

abbrev pub push_file : List WalFileInfo → Option WalFileInfo → List WalFileInfo
push_file live none = live
push_file live (some file) = live ++ (file ∷ [])

-- The files that are live once `files_to_delete` are gone and `files_to_persist` is there.
unfoldable pub compute_updated_live_wal_file_tracker :
    List WalFileInfo
    → (files_to_delete : List WalFileInfo) → (files_to_persist : Option WalFileInfo)
    → List WalFileInfo
unfolding lowest_file_kept
compute_updated_live_wal_file_tracker live deleted persisted =
    push_file (kept_files (lowest_file_kept deleted) live) persisted

unfoldable pub all_pass : ℕ → Option ℕ → List WalTransactionState → Bool
all_pass lsn kept [] = true
all_pass lsn kept (s ∷ states) = passes_check s lsn kept && all_pass lsn kept states

module _ {R : Type 0} where
  -- The transactions that the snapshot has not captured, streaming and main.
  unfoldable pub compute_cleanedup_xacts :
      WalManager R
      → (persistence_snapshot_lsn : Option ℕ) → (files_to_delete : List WalFileInfo)
      → Outcome (List (ℕ × WalTransactionState) × List WalTransactionState)
  unfolding all_pass
  compute_cleanedup_xacts m none deleted = done (m.active_transactions, m.main_transaction_tracker)
  compute_cleanedup_xacts m (some lsn) deleted = do
    assert (all_pass lsn (lowest_file_kept deleted) (values m.active_transactions))
    assert (all_pass lsn (lowest_file_kept deleted) m.main_transaction_tracker)
    done (
      retain (λ e. is_uncaptured lsn e.1) m.active_transactions,
      retain (is_uncaptured lsn) m.main_transaction_tracker,
    )

  -- The buffer is taken. If it held events, they get the current file's number.
  unfoldable pub take_events :
      WalManager R
      → (events_to_persist : List (WalEvent R))
      → WalManager R × Option (List (WalEvent R) × WalFileInfo)
  take_events m [] = (record m { in_mem_buf = [] }, none)
  take_events m (event ∷ events) = (
    record m { in_mem_buf = []; curr_file_number = next_u64 m.curr_file_number },
    some (
      event ∷ events,
      record { file_number = m.curr_file_number; highest_lsn = m.highest_completion_lsn },
    ),
  )

  unfoldable pub extract_next_persistence_file :
      WalManager R → WalManager R × Option (List (WalEvent R) × WalFileInfo)
  unfolding take_events
  extract_next_persistence_file m = take_events m m.in_mem_buf

  unfoldable pub prepare_metadata :
      WalManager R
      → (persistence_snapshot_lsn : Option ℕ) → (files_to_delete : List WalFileInfo)
      → (files_to_persist : Option WalFileInfo) → Outcome PersistentWalMetadata
  prepare_metadata m lsn deleted persisted = do
    (xacts, main_xacts) ← compute_cleanedup_xacts m lsn deleted
    done (record {
      curr_file_number = m.curr_file_number;
      highest_completion_lsn = m.highest_completion_lsn;
      live_wal_files_tracker =
          compute_updated_live_wal_file_tracker m.live_wal_files_tracker deleted persisted;
      active_transactions = xacts;
      main_transaction_tracker = main_xacts;
      persistence_snapshot_lsn = lsn;
      mooncake_table_id = m.mooncake_table_id;
    })

  unfoldable pub files_to_truncate_if : WalManager R → Option ℕ → Outcome (List WalFileInfo)
  files_to_truncate_if m none = done []
  files_to_truncate_if m (some lsn) = get_files_to_truncate m lsn

  unfoldable pub prepare_persistent_update :
      WalManager R
      → (persistence_snapshot_lsn : Option ℕ) → Outcome (WalManager R × PreparePersistentUpdate R)
  unfolding files_to_truncate_if
  prepare_persistent_update m lsn = do
    files_to_truncate ← files_to_truncate_if m lsn
    let (m', next_files) = extract_next_persistence_file m
    metadata ← prepare_metadata m' lsn files_to_truncate (file_info next_files)
    done (
      m',
      record {
        persistent_wal_metadata = metadata;
        files_to_delete = files_to_truncate;
        accompanying_persistence_snapshot_lsn = lsn;
        files_to_persist = next_files;
      },
    )

  unfoldable pub should_do_persistence : PreparePersistentUpdate R → Bool
  should_do_persistence u = elim u.files_to_persist [
    | some _ ↦ true
    | none ↦ elim u.files_to_delete [ [] ↦ false | _ ∷ _ ↦ true ]
  ]
