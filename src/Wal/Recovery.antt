-- ===== src/Wal/Recovery.antt =====
-- Recovery from the written log (storage/wal.rs, "Recovery"). What is sent to the table handler is
-- the list of the events sent; reading changes nothing on disk.
use moonlink.Base.{
  ℕ, zero, suc, ◌-◌, Bool, true, false, ◌&&◌, not, Option, none, some, List, [], ◌∷◌, ◌++◌, Outcome,
  done, panics, Panic, ◌>>=◌, ◌>>◌, assert, Result, ok, err, leb, ltb, ◌==◌, if◌then◌else◌, first?,
  last?, lookup, map,
}
use moonlink.Base.Words.{next_u64}
use moonlink.Event.{TableEvent, set_is_recovery}
use moonlink.Wal.Transaction.{WalTransactionState}
use moonlink.Wal.Manager.{WalEvent, WalFileInfo, WalManager, into_table_event}
use moonlink.Wal.Persist.{PersistentWalMetadata}
use moonlink.Wal.Store.{wal_file, metadata_file, FileSystem, Codec}

unfoldable pub event_already_captured_in_iceberg_snapshot :
    (lsn : ℕ) (last_persistence_snapshot_lsn : Option ℕ) → Bool
event_already_captured_in_iceberg_snapshot lsn none = false
event_already_captured_in_iceberg_snapshot lsn (some last) = leb lsn last

-- What `from_persistent_wal_metadata` restores.
unfoldable pub from_persistent_wal_metadata :
    {R : Type 0} → PersistentWalMetadata → (mooncake_table_id : ℕ) → Outcome (WalManager R)
from_persistent_wal_metadata m table = do
  assert (table == m.mooncake_table_id)
  done (record {
    in_mem_buf = [];
    highest_completion_lsn = m.highest_completion_lsn;
    live_wal_files_tracker = m.live_wal_files_tracker;
    curr_file_number = m.curr_file_number;
    active_transactions = m.active_transactions;
    main_transaction_tracker = m.main_transaction_tracker;
    mooncake_table_id = table;
  })

module _ {R P E : Type 0} where
  -- The assertion on an untracked streaming transaction: if the event is its commit, the snapshot
  -- has captured it.
  unfoldable pub untracked_is_captured :
      TableEvent R P E → (last_persistence_snapshot_lsn : Option ℕ) → Bool
  untracked_is_captured (TableEvent.commit lsn _ _) last =
      event_already_captured_in_iceberg_snapshot lsn last
  untracked_is_captured _ last = true

  unfoldable pub reapply_streaming :
      TableEvent R P E
      → Option WalTransactionState
      → (last_persistence_snapshot_lsn : Option ℕ) → Outcome Bool
  unfolding untracked_is_captured
  reapply_streaming event (some (WalTransactionState.commit _ lsn _)) last =
      done (not (event_already_captured_in_iceberg_snapshot lsn last))
  reapply_streaming event (some (WalTransactionState.abort _ lsn _)) last =
      done (not (event_already_captured_in_iceberg_snapshot lsn last))
  reapply_streaming event (some (WalTransactionState.opened _)) last = done false
  reapply_streaming event none last = do assert (untracked_is_captured event last); done false

  -- The branch of appends, deletes and commits.
  unfoldable pub reapply_update :
      TableEvent R P E
      → (lsn : ℕ) (xact_id : Option ℕ) (xact_map : List (ℕ × WalTransactionState))
        (highest_committed_lsn : ℕ) (last_persistence_snapshot_lsn : Option ℕ)
      → Outcome Bool
  unfolding reapply_streaming
  reapply_update event lsn (some x) xacts highest last =
      reapply_streaming event (lookup x xacts) last
  reapply_update event lsn none xacts highest last =
      done (not (event_already_captured_in_iceberg_snapshot lsn last) && leb lsn highest)

  unfoldable pub should_reapply_wal_event :
      TableEvent R P E
      → (xact_map : List (ℕ × WalTransactionState)) (highest_committed_lsn : ℕ)
        (last_persistence_snapshot_lsn : Option ℕ)
      → Outcome Bool
  unfolding reapply_update event_already_captured_in_iceberg_snapshot
  should_reapply_wal_event (TableEvent.append row x lsn r) xacts highest last =
      reapply_update (TableEvent.append row x lsn r) lsn x xacts highest last
  should_reapply_wal_event (TableEvent.delete row lsn x d r) xacts highest last =
      reapply_update (TableEvent.delete row lsn x d r) lsn x xacts highest last
  should_reapply_wal_event (TableEvent.commit lsn x r) xacts highest last =
      reapply_update (TableEvent.commit lsn x r) lsn x xacts highest last
  should_reapply_wal_event (TableEvent.commit_flush _ _ _) xacts highest last = done false
  should_reapply_wal_event (TableEvent.stream_flush _ _) xacts highest last = done false
  should_reapply_wal_event _ xacts highest last = panics Panic.unimplemented

  unfoldable pub send_if :
      Bool
      → TableEvent R P E
      → Outcome (List (TableEvent R P E))
      → Outcome (List (TableEvent R P E))
  send_if false e rest = rest
  send_if true e rest = do marked ← set_is_recovery e true; sent ← rest; done (marked ∷ sent)

  -- The loop over the stream: an item that could not be read is passed over.
  unfoldable pub replay_events :
      List (Result (TableEvent R P E) E)
      → (xact_map : List (ℕ × WalTransactionState)) (highest_committed_lsn : ℕ)
        (last_persistence_snapshot_lsn : Option ℕ)
      → Outcome (List (TableEvent R P E))
  unfolding send_if
  replay_events [] xacts highest last = done []
  replay_events (err _ ∷ items) xacts highest last = replay_events items xacts highest last
  replay_events (ok e ∷ items) xacts highest last =
      let rest = replay_events items xacts highest last in
      do reapply ← should_reapply_wal_event e xacts highest last; send_if reapply e rest

  -- `flat_map` over the files.
  unfoldable pub flatten_items :
      List (Result (List (WalEvent R)) E) → List (Result (TableEvent R P E) E)
  unfolding into_table_event
  flatten_items [] = []
  flatten_items (err e ∷ items) = err e ∷ flatten_items items
  flatten_items (ok events ∷ items) =
      map (λ e. ok (into_table_event e)) events ++ flatten_items items

  -- The transactions that were still open are closed: their events come again from the source.
  unfoldable pub close_open_xacts : List (ℕ × WalTransactionState) → List (TableEvent R P E)
  close_open_xacts [] = []
  close_open_xacts ((x, WalTransactionState.opened _) ∷ xacts) =
      TableEvent.stream_abort x false true ∷ close_open_xacts xacts
  close_open_xacts ((x, WalTransactionState.commit _ _ _) ∷ xacts) = close_open_xacts xacts
  close_open_xacts ((x, WalTransactionState.abort _ _ _) ∷ xacts) = close_open_xacts xacts

unfoldable pub decode_read :
    {R B E : Type 0} → Codec R B E → Result B E → Result (List (WalEvent R)) E
decode_read codec (err e) = err e
decode_read codec (ok bytes) = codec.decode_events bytes

module _ {R B E : Type 0} (fs : FileSystem B E) (codec : Codec R B E) where
  unfoldable pub recover_from_persistent_wal_metadata :
      fs.Disk → (mooncake_table_id : ℕ) → Outcome (Option PersistentWalMetadata)
  recover_from_persistent_wal_metadata d table = elim (fs.object_exists d (metadata_file table)) [
    | err _ ↦ panics Panic.unwrap_failed
    | ok false ↦ done none
    | ok true ↦ elim (fs.read_object d (metadata_file table)) [
      | err _ ↦ panics Panic.unwrap_failed
      | ok bytes ↦ elim (codec.decode_metadata bytes) [
        | none ↦ panics Panic.unwrap_failed
        | some m ↦ done (some m)
      ]
    ]
  ]

  -- One item of the stream: the events of a file, or the error in reading or decoding it.
  unfoldable pub read_wal_file :
      fs.Disk → (mooncake_table_id file_number : ℕ) → Result (List (WalEvent R)) E
  unfolding decode_read
  read_wal_file d table n = decode_read codec (fs.read_object d (wal_file table n))

  -- `stream::unfold`, from `file_number` to `end_file_number`. The fuel bounds the rounds.
  unfoldable pub recover_files :
      (fuel : ℕ)
      → fs.Disk
      → (mooncake_table_id file_number end_file_number : ℕ) → List (Result (List (WalEvent R)) E)
  recover_files zero d table n end = []
  recover_files (suc fuel) d table n end =
      let rest = recover_files fuel d table (next_u64 n) end in
      if ltb end n then [] else read_wal_file d table n ∷ rest

  unfoldable pub file_number_or_panic : Option WalFileInfo → Outcome ℕ
  file_number_or_panic none = panics Panic.unwrap_failed
  file_number_or_panic (some file) = done file.file_number

  -- One round for each number from the first live file to the last.
  unfoldable pub recover_flushed_wals :
      fs.Disk → PersistentWalMetadata → Outcome (List (Result (List (WalEvent R)) E))
  unfolding file_number_or_panic
  recover_flushed_wals d m = do
    start ← file_number_or_panic (first? m.live_wal_files_tracker)
    end ← file_number_or_panic (last? m.live_wal_files_tracker)
    done (recover_files (suc (suc end - start)) d m.mooncake_table_id start end)

  module _ {P : Type 0} where
    unfoldable pub replay_recovery_from_wal :
        fs.Disk
        → Option PersistentWalMetadata
        → (last_persistence_snapshot_lsn : Option ℕ) → Outcome (List (TableEvent R P E))
    replay_recovery_from_wal d none last = done []
    replay_recovery_from_wal d (some m) last = elim m.live_wal_files_tracker [
      | [] ↦ done []
      | _ ∷ _ ↦ do
        items ← recover_flushed_wals d m
        sent ←
            replay_events (flatten_items items) m.active_transactions m.highest_completion_lsn last
        done (
            sent
            ++ (close_open_xacts m.active_transactions
                ++ (TableEvent.finish_recovery m.highest_completion_lsn ∷ [])))
    ]
