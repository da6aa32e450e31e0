-- ===== src/Lib.antt =====
-- A model of moonlink's core, with the theorems that make it correct.
--
-- Moonlink mirrors tables of a source database into a lake format. The table handler receives
-- `TableEvent`s (src/moonlink/src/table_notify.rs); it writes them to the mooncake table and to the
-- write-ahead log (src/moonlink/src/storage/wal.rs). From time to time the log's buffer leaves for a
-- numbered file, metadata is written, and the files that a persisted snapshot has made obsolete are
-- deleted. After a restart the log is read back and replayed into the handler.
--
-- Event.antt            table_notify.rs: `TableEvent` and its classifications
-- Wal/Transaction.antt  wal.rs: `WalTransactionState`
-- Wal/Manager.antt      wal.rs: `WalEvent`, `WalManager`, `push`, `update_transaction_tracking`
-- Wal/Truncate.antt     wal.rs: `get_lowest_file_to_keep`, `get_files_to_truncate`
-- Wal/Persist.antt      wal.rs: `prepare_persistent_update` and what it calls
-- Wal/Complete.antt     wal.rs: `handle_complete_wal_persistence_update` and what it calls
-- Wal/Store.antt        wal.rs: `wal_persist_truncate_async`, `persist_new_wal_file`,
--                       `persist_metadata`, `delete_files`
-- Wal/Recovery.antt     wal.rs: `recover_flushed_wals`, `should_reapply_wal_event`,
--                       `replay_recovery_from_wal`
-- Wal/Valid.antt and the files below it: the manager's invariant and that each operation keeps it
-- Wal/History.antt and the files below it: histories of the log as a step relation
-- Wal/Readable.antt, Wal/Writes.antt, Wal/Crash.antt, Wal/Durable.antt: the files on disk
-- Wal/Replay.antt, Wal/Marked.antt: recovery
-- Wal/Restored.antt, Wal/Reopened.antt: the manager that recovery restores, and a transaction whose
--                       first file is gone
-- Handler/Options.antt  storage/snapshot_options.rs
-- Handler/State.antt, Handler/Lsns.antt, Handler/Blocking.antt, Handler/Maintenance.antt
--                       table_handler/table_handler_state.rs: `TableHandlerState` and its methods
-- Handler/Requests.antt table_handler.rs: the branches of the event loop that request a snapshot or
--                       maintenance
-- Handler/Log.antt      table_handler.rs: the branches that write the log; mooncake_table.rs:
--                       `do_wal_persistence_update`
-- Handler/Valid.antt, Handler/Alter.antt, Handler/Persisted.antt, Handler/Discard.antt,
-- Handler/Idle.antt, Handler/Serves.antt and Handler/Writes.antt: what these methods keep and decide
-- Cache/Entry.antt      storage/cache/object_storage: the entries and the cache's state
-- Cache/Lru.antt        the `lru` crate's map, as a parameter
-- Cache/Internal.antt   object_storage_cache.rs: `ObjectStorageCacheInternal`
-- Cache/Interface.antt  object_storage_cache.rs: `ObjectStorageCache`; cache_handle.rs
-- Cache/Valid.antt, Cache/Sizes.antt and the files below: the cache's invariant
-- Cache/Requests.antt and the files below it: sequences of requests and the handles they give
-- Read/Lsn.antt         lsn_state.rs: `LsnState`
-- Read/Manager.antt     union_read/read_state_manager.rs: `ReadStateManager`
-- Read/Fresh.antt, Read/Answers.antt, Read/Waits.antt and Read/Failed.antt: what reads return, wait
--                       for, and lose
-- Deletion/Vector.antt  storage/mooncake_table/delete_vector.rs: `BatchDeletionVector`
-- Deletion/Bits.antt, Deletion/Valid.antt, Deletion/Update.antt, Deletion/Rows.antt and
-- Deletion/Active.antt: the vector as a set of rows
-- Batch/Counter.antt, Batch/Ids.antt
--                       storage/mooncake_table/batch_id_counter.rs: `BatchIdCounter` and its callers
-- Unpersisted/Records.antt, Unpersisted/Prune.antt, Unpersisted/Indices.antt
--                       storage/mooncake_table/persistence_buffer.rs: `UnpersistedRecords`
-- Base.antt and the files below it: shared names, lists, maps, results; Tests.antt: runs and
-- witnesses
--
-- How the code is written here. A method that changes `self` returns the new record. A panic, and a
-- failed assertion of a debug build, is `Outcome.panics`; a `Result` is `Result`. A `HashMap` is an
-- association list, without the map's order of iteration. LSNs, transaction ids and file numbers are
-- numbers; the increments of a file number wrap at 2 ^ 64 (`next_u64`). `merge_with_last` and the
-- other helpers are pieces of the methods that their module names.
--
-- The channels of the table handler are outside the program: a method returns what it sends, and
-- whether somebody listens is an argument. A fresh event id is an argument too.
--
-- Parameters. The file accessor (`FileSystem`) and the JSON encoding (`Codec`) are not the log's
-- code. Their laws say that an operation changes the object that it names and no other, that a write
-- that succeeds is read back, and that what was encoded is decoded; of a write that fails nothing is
-- known, since the log's local file system is configured without atomic writes. The cache's LRU map
-- (`Lru`) is the `lru` crate's; its laws say that a use puts an entry last and that `pop_lru` takes
-- the first. Whether a path is local (`is_local`) is the `url` crate's answer. `BitUtil` is the
-- arrow crate's `bit_util`; its laws say what its calls do within the bytes. Rows, the payloads of
-- internal events and errors are type parameters.
--
-- Fuel. `recover_files` reads one file for each unit of fuel. `recover_flushed_wals` gives it one
-- unit more than the files from the first live one to the last, which is enough for consecutive
-- files. `evict_loop` evicts one entry for each unit; `evict_cache_entries` gives it one unit more than
-- there are evictable entries.
--
-- The cache. Each function of Cache/Interface.antt is what happens under the cache's lock;
-- `get_cache_entry` locks it twice, and other users' requests may come between. Arithmetic that
-- overflows is a panic, as in a debug build (`Base.Checked`).
--
-- Reads. What the watch receivers hold when the code looks, and what a read of the table returns,
-- are arguments of `try_read`. It is one reader's request: the code shares the manager, so that
-- another reader may replace the cached state while this one waits, but the model keeps it. Contents
-- of the table at an LSN are a function, of which `Observed` and `Reads` say how the arguments
-- follow it.
--
-- Not modelled: `drop_wal`, which removes the log's folder; the other branches of the table handler's
-- event loop; the mooncake table, its snapshots, indexes and compaction; the loads of files into the
-- cache; the filter of a batch by its deletion vector; the thresholds of a new snapshot and the
-- validation of the unpersisted records; the formats, file systems, and the backend, connectors and
-- service around the core. Where a panic stops a replay, the events that were sent before it are not
-- part of the result.
pub mod Base
pub mod Event
pub mod Wal
pub mod Handler
pub mod Cache
pub mod Read
pub mod Deletion
pub mod Batch
pub mod Unpersisted
pub mod Tests
