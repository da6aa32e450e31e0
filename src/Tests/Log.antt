-- ===== src/Tests/Log.antt =====
-- A log of four events: a commit of the main transaction, its file, and a streaming transaction
-- that stays open while a snapshot makes the first file obsolete.
use moonlink.Base.{ℕ, ◌≡◌, refl, inr, false, none, some, [], ◌∷◌, done, arith}
use moonlink.Base.Words.{next_u64}
use moonlink.Event.{TableEvent, is_recovery}
use moonlink.Wal.Transaction.{
  WalTransactionState, get_start_file, get_completion_lsn_and_file, is_closed, passes_check,
  check_completed_xact_consistent_with_iceberg_snapshot, is_captured_in_iceberg_snapshot,
}
use moonlink.Wal.Manager.{
  WalEvent, WalFileInfo, WalManager, new, to_wal_event, get_updated_xact_state, tracked_xact_id,
  take_open_state, merge_with_last, raise_highest_lsn, track_streaming, track_main,
  update_transaction_tracking, update_highest_lsn, push,
}
use moonlink.Wal.Truncate.{
  files_to_keep, get_lowest_file_to_keep, keeps_first_live, get_files_to_truncate,
}
use moonlink.Wal.Persist.{
  PersistentWalMetadata, PreparePersistentUpdate, lowest_file_kept,
  compute_updated_live_wal_file_tracker, all_pass, compute_cleanedup_xacts, take_events,
  extract_next_persistence_file, prepare_metadata, files_to_truncate_if, prepare_persistent_update,
  should_do_persistence,
}
use moonlink.Wal.Complete.{
  same_files, xact_is_consistent, xacts_are_consistent, clean_up_xacts,
  update_live_wal_file_tracker, update_trackers_for_persistence_update_result,
  handle_complete_wal_persistence_update,
}
use moonlink.Wal.Valid.Push.{Accepts}
use moonlink.Wal.Valid.Prepare.{first_kept}
use moonlink.Wal.History.{History, Reach, start, next, pushes, prepares, completes}

abbrev pub Event : Type 0
Event = TableEvent ℕ ℕ ℕ

unfoldable pub program : Unit {0}
unfolding next_u64 is_recovery get_start_file get_completion_lsn_and_file is_closed passes_check
    check_completed_xact_consistent_with_iceberg_snapshot is_captured_in_iceberg_snapshot new
    to_wal_event get_updated_xact_state tracked_xact_id take_open_state merge_with_last
    raise_highest_lsn track_streaming track_main update_transaction_tracking update_highest_lsn push
    files_to_keep get_lowest_file_to_keep keeps_first_live get_files_to_truncate lowest_file_kept
    compute_updated_live_wal_file_tracker all_pass compute_cleanedup_xacts take_events
    extract_next_persistence_file prepare_metadata files_to_truncate_if prepare_persistent_update
    should_do_persistence same_files xact_is_consistent xacts_are_consistent clean_up_xacts
    update_live_wal_file_tracker update_trackers_for_persistence_update_result
    handle_complete_wal_persistence_update first_kept
program = tt

abbrev pub main_commit : Event
main_commit = TableEvent.commit 5 none false

abbrev pub stream_append : Event
stream_append = TableEvent.append 10 (some 7) 6 false

abbrev pub committed : WalManager ℕ
committed = record {
  in_mem_buf = WalEvent.commit 5 none ∷ [];
  highest_completion_lsn = 5;
  live_wal_files_tracker = [];
  curr_file_number = 0;
  active_transactions = [];
  main_transaction_tracker = WalTransactionState.commit 0 5 0 ∷ [];
  mooncake_table_id = 1;
}

abbrev pub first_file : WalFileInfo
first_file = record { file_number = 0; highest_lsn = 5 }

abbrev pub first_prepared : WalManager ℕ
first_prepared = record committed { in_mem_buf = []; curr_file_number = 1 }

abbrev pub first_metadata : PersistentWalMetadata
first_metadata = record {
  curr_file_number = 1;
  highest_completion_lsn = 5;
  live_wal_files_tracker = first_file ∷ [];
  active_transactions = [];
  main_transaction_tracker = WalTransactionState.commit 0 5 0 ∷ [];
  persistence_snapshot_lsn = none;
  mooncake_table_id = 1;
}

abbrev pub first_update : PreparePersistentUpdate ℕ
first_update = record {
  persistent_wal_metadata = first_metadata;
  files_to_delete = [];
  accompanying_persistence_snapshot_lsn = none;
  files_to_persist = some (WalEvent.commit 5 none ∷ [], first_file);
}

abbrev pub first_done : WalManager ℕ
first_done = record first_prepared { live_wal_files_tracker = first_file ∷ [] }

abbrev pub streaming : WalManager ℕ
streaming = record first_done {
  in_mem_buf = WalEvent.append 10 (some 7) 6 ∷ [];
  active_transactions = (7, WalTransactionState.opened 1) ∷ [];
}

abbrev pub second_prepared : WalManager ℕ
second_prepared = record streaming { in_mem_buf = []; curr_file_number = 2 }

abbrev pub second_file : WalFileInfo
second_file = record { file_number = 1; highest_lsn = 5 }

abbrev pub second_update : PreparePersistentUpdate ℕ
second_update = record {
  persistent_wal_metadata = record {
    curr_file_number = 2;
    highest_completion_lsn = 5;
    live_wal_files_tracker = second_file ∷ [];
    active_transactions = (7, WalTransactionState.opened 1) ∷ [];
    main_transaction_tracker = [];
    persistence_snapshot_lsn = some 5;
    mooncake_table_id = 1;
  };
  files_to_delete = first_file ∷ [];
  accompanying_persistence_snapshot_lsn = some 5;
  files_to_persist = some (WalEvent.append 10 (some 7) 6 ∷ [], second_file);
}

run :
    (push (new 1) main_commit ≡ done committed)
    × (prepare_persistent_update committed none ≡ done (first_prepared, first_update))
    × (handle_complete_wal_persistence_update first_prepared first_update
        ≡ done (first_done, some 5))
    × (push first_done stream_append ≡ done streaming)
    × (prepare_persistent_update streaming (some 5) ≡ done (second_prepared, second_update))
unfolding program
run = (refl, refl, refl, refl, refl)

pub Accepts-commit : Accepts (new 1) main_commit
unfolding program
Accepts-commit = record { logged = tt; live = refl; monotone = inr (omega arith); fresh = tt }

pub Accepts-append : Accepts first_done stream_append
unfolding program
Accepts-append = record { logged = tt; live = refl; monotone = tt; fresh = tt }

abbrev pub in_second_update : History ℕ
in_second_update = record {
  manager = second_prepared;
  in_flight = some second_update;
  entries = record { file = 1; xact_id = 7 } ∷ [];
}

pub reached : Reach ℕ ℕ ℕ (new 1) in_second_update
unfolding program
reached =
    next
      {h = record {
        manager = streaming;
        in_flight = none;
        entries = record { file = 1; xact_id = 7 } ∷ [];
      }}
      (next {h = record { manager = first_done; in_flight = none; entries = [] }}
        (next {h = record { manager = first_prepared; in_flight = some first_update; entries = [] }}
          (next {h = record { manager = committed; in_flight = none; entries = [] }}
            (next {h = record { manager = new 1; in_flight = none; entries = [] }} start
              (pushes main_commit committed Accepts-commit refl refl))
            (prepares none first_prepared first_update refl (omega arith) refl refl))
          (completes first_update first_done (some 5) refl refl refl))
        (pushes stream_append streaming Accepts-append refl refl))
      (prepares (some 5) second_prepared second_update refl (omega arith) refl refl)
