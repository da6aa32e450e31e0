-- ===== src/Wal/Manager.antt =====
-- The state of the log, its persistent image, and how an event enters it (storage/wal.rs).
-- `WalConfig` is the table's id; the file accessor is a parameter of Store.antt.
use moonlink.Base.{
  ℕ, Bool, true, false, not, Option, none, some, List, [], ◌∷◌, ◌++◌, Outcome, done, panics, Panic,
  ◌>>=◌, ◌>>◌, assert, leb, ltb, ◌==◌, if◌then◌else◌, last?, drop_last, lookup, insert,
}
use moonlink.Event.{TableEvent, is_recovery}
use moonlink.Wal.Transaction.{WalTransactionState, get_start_file, is_closed}

pub data WalEvent (Row : Type 0) : Type 0 where
  append : (row : Row) (xact_id : Option ℕ) (lsn : ℕ) → WalEvent Row
  delete : (row : Row) (lsn : ℕ) (xact_id : Option ℕ) (delete_if_exists : Bool) → WalEvent Row
  commit : (lsn : ℕ) (xact_id : Option ℕ) → WalEvent Row
  stream_abort : (xact_id : ℕ) → WalEvent Row
  stream_flush : (xact_id : ℕ) → WalEvent Row

pub record WalFileInfo : Type 0 where
  pub file_number : ℕ
  pub highest_lsn : ℕ

pub record WalManager (Row : Type 0) : Type 0 where
  pub in_mem_buf : List (WalEvent Row)
  pub highest_completion_lsn : ℕ
  pub live_wal_files_tracker : List WalFileInfo
  pub curr_file_number : ℕ
  pub active_transactions : List (ℕ × WalTransactionState)
  pub main_transaction_tracker : List WalTransactionState
  pub mooncake_table_id : ℕ

unfoldable pub new : {Row : Type 0} → (mooncake_table_id : ℕ) → WalManager Row
new table = record {
  in_mem_buf = [];
  highest_completion_lsn = 0;
  live_wal_files_tracker = [];
  curr_file_number = 0;
  active_transactions = [];
  main_transaction_tracker = [];
  mooncake_table_id = table;
}

module _ {R P E : Type 0} where
  -- `WalEvent::new`.
  unfoldable pub to_wal_event : TableEvent R P E → Outcome (WalEvent R)
  to_wal_event (TableEvent.append row x lsn _) = done (WalEvent.append row x lsn)
  to_wal_event (TableEvent.delete row lsn x d _) = done (WalEvent.delete row lsn x d)
  to_wal_event (TableEvent.commit lsn x _) = done (WalEvent.commit lsn x)
  to_wal_event (TableEvent.stream_abort x _ _) = done (WalEvent.stream_abort x)
  to_wal_event (TableEvent.commit_flush lsn x _) = done (WalEvent.commit lsn x)
  to_wal_event (TableEvent.stream_flush x _) = done (WalEvent.stream_flush x)
  to_wal_event _ = panics Panic.unimplemented

  unfoldable pub into_table_event : WalEvent R → TableEvent R P E
  into_table_event (WalEvent.append row x lsn) = TableEvent.append row x lsn false
  into_table_event (WalEvent.delete row lsn x d) = TableEvent.delete row lsn x d false
  into_table_event (WalEvent.commit lsn x) = TableEvent.commit lsn x false
  into_table_event (WalEvent.stream_abort x) = TableEvent.stream_abort x false false
  into_table_event (WalEvent.stream_flush x) = TableEvent.stream_flush x false

  unfoldable pub get_updated_xact_state :
      TableEvent R P E
      → WalTransactionState
      → (highest_completion_lsn curr_file_number : ℕ) → Outcome WalTransactionState
  unfolding get_start_file
  get_updated_xact_state (TableEvent.append _ _ _ _) s highest curr =
      done (WalTransactionState.opened (get_start_file s))
  get_updated_xact_state (TableEvent.delete _ _ _ _ _) s highest curr =
      done (WalTransactionState.opened (get_start_file s))
  get_updated_xact_state (TableEvent.stream_flush _ _) s highest curr =
      done (WalTransactionState.opened (get_start_file s))
  get_updated_xact_state (TableEvent.commit lsn _ _) s highest curr =
      done (WalTransactionState.commit (get_start_file s) lsn curr)
  get_updated_xact_state (TableEvent.commit_flush lsn _ _) s highest curr =
      done (WalTransactionState.commit (get_start_file s) lsn curr)
  get_updated_xact_state (TableEvent.stream_abort _ _ _) s highest curr =
      done (WalTransactionState.abort (get_start_file s) highest curr)
  get_updated_xact_state _ s highest curr = panics Panic.unimplemented

  -- The transaction id by which `update_transaction_tracking` files an event.
  unfoldable pub tracked_xact_id : TableEvent R P E → Option ℕ
  tracked_xact_id (TableEvent.append _ x _ _) = x
  tracked_xact_id (TableEvent.delete _ _ x _ _) = x
  tracked_xact_id (TableEvent.commit _ x _) = x
  tracked_xact_id (TableEvent.stream_abort x _ _) = some x
  tracked_xact_id _ = none

-- `unwrap_or(Open { start_file: curr_file_number })`.
abbrev pub state_or_open : Option WalTransactionState → ℕ → WalTransactionState
state_or_open none curr = WalTransactionState.opened curr
state_or_open (some s) curr = s

-- The last entry of the main transaction's tracker, if it is still open, leaves the tracker;
-- otherwise a new entry begins in the current file.
unfoldable pub take_open_state :
    List WalTransactionState
    → (curr_file_number : ℕ) → WalTransactionState × List WalTransactionState
unfolding is_closed
take_open_state tracker curr = elim (last? tracker) [
  | none ↦ (WalTransactionState.opened curr, tracker)
  | some s ↦
      if is_closed s then (WalTransactionState.opened curr, tracker) else (s, drop_last tracker)
]

-- For each file only the highest commit is tracked: a commit takes the place of a last entry that
-- began in the current file.
unfoldable pub merge_with_last :
    WalTransactionState → List WalTransactionState → Outcome (List WalTransactionState)
merge_with_last (WalTransactionState.commit _ _ file_end) tracker = elim (last? tracker) [
  | none ↦ done tracker
  | some (WalTransactionState.commit prev_start _ _) ↦
      done (if prev_start == file_end then drop_last tracker else tracker)
  | some _ ↦ panics Panic.assertion_failed
]
merge_with_last (WalTransactionState.abort _ _ _) tracker = done tracker
merge_with_last (WalTransactionState.opened _) tracker = done tracker

-- A commit moves the highest completion LSN, which must not fall unless the commit's LSN is 0.
unfoldable pub raise_highest_lsn : {R : Type 0} → WalManager R → ℕ → Outcome (WalManager R)
raise_highest_lsn m lsn = do
  assert (if ltb 0 lsn then leb m.highest_completion_lsn lsn else true)
  done (record m { highest_completion_lsn = lsn })

module _ {R P E : Type 0} where
  unfoldable pub track_streaming :
      WalManager R → TableEvent R P E → (xact_id : ℕ) → Outcome (WalManager R)
  track_streaming m event x = do
    updated ←
        get_updated_xact_state event
          (state_or_open (lookup x m.active_transactions) m.curr_file_number)
          m.highest_completion_lsn m.curr_file_number
    done (record m { active_transactions = insert x updated m.active_transactions })

  unfoldable pub track_main : WalManager R → TableEvent R P E → Outcome (WalManager R)
  unfolding merge_with_last take_open_state
  track_main m event = do
    let (old_state, rest) = take_open_state m.main_transaction_tracker m.curr_file_number
    updated ← get_updated_xact_state event old_state m.highest_completion_lsn m.curr_file_number
    merged ← merge_with_last updated rest
    done (record m { main_transaction_tracker = merged ++ (updated ∷ []) })

  unfoldable pub update_transaction_tracking :
      WalManager R → TableEvent R P E → Outcome (WalManager R)
  unfolding track_streaming track_main
  update_transaction_tracking m event = elim (tracked_xact_id event) [
    | some x ↦ track_streaming m event x
    | none ↦ track_main m event
  ]

  unfoldable pub update_highest_lsn : WalManager R → TableEvent R P E → Outcome (WalManager R)
  unfolding raise_highest_lsn
  update_highest_lsn m (TableEvent.commit lsn _ _) = raise_highest_lsn m lsn
  update_highest_lsn m (TableEvent.commit_flush lsn _ _) = raise_highest_lsn m lsn
  update_highest_lsn m _ = done m

  unfoldable pub push : WalManager R → TableEvent R P E → Outcome (WalManager R)
  unfolding update_highest_lsn update_transaction_tracking
  push m event = do
    recovery ← is_recovery event
    assert (not recovery)
    wal_event ← to_wal_event event
    buffered ← update_highest_lsn (record m { in_mem_buf = m.in_mem_buf ++ (wal_event ∷ []) }) event
    update_transaction_tracking buffered event
