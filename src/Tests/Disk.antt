-- ===== src/Tests/Disk.antt =====
-- A file system and an encoding that keep the laws, and the theorems on the log's files at them.
use moonlink.Base.{
  ℕ, ◌≡◌, refl, Bool, true, false, ◌&&◌, not, Option, none, some, List, [], ◌∷◌, done, Result, ok,
  err, arith, ◌==◌, if◌then◌else◌,
}
use moonlink.Wal.Manager.{WalEvent}
use moonlink.Wal.Persist.{PersistentWalMetadata}
use moonlink.Wal.Store.{WalPath, wal_file, metadata_file, FileSystem, Codec}
use moonlink.Event.{TableEvent}
use moonlink.Wal.Transaction.{WalTransactionState}
use moonlink.Wal.Recovery.{read_wal_file, recover_flushed_wals}
use moonlink.Wal.Replay.{recover_flushed_wals-Numbered}
use moonlink.Tests.Log.{Event, first_metadata}

pub data Bytes : Type 0 where
  events_bytes : List (WalEvent ℕ) → Bytes
  metadata_bytes : PersistentWalMetadata → Bytes

abbrev same_path : WalPath → WalPath → Bool
same_path (wal_file t n) (wal_file u k) = t == u && n == k
same_path (metadata_file t) (metadata_file u) = t == u
same_path (wal_file t n) (metadata_file u) = false
same_path (metadata_file t) (wal_file u k) = false

abbrev read_slot : Option Bytes → Result Bytes ℕ
read_slot none = err 404
read_slot (some b) = ok b

abbrev exists_slot : Option Bytes → Result Bool ℕ
exists_slot none = ok false
exists_slot (some b) = ok true

-- A disk on which the operations of some paths fail: a write leaves an object without events, and a
-- deletion leaves the object.
abbrev disk : (WalPath → Bool) → FileSystem Bytes ℕ
disk broken = record {
  Disk = WalPath → Option Bytes;
  read_object = λ d p. read_slot (d p);
  object_exists = λ d p. exists_slot (d p);
  write_object = λ d p b. (
    λ q. if same_path p q then (if broken p then some (events_bytes []) else some b) else d q,
    if broken p then err 500 else ok tt,
  );
  delete_object = λ d p. (
    λ q. if same_path p q && not (broken p) then none else d q,
    if broken p then err 500 else ok tt,
  );
}

abbrev decode_list : Bytes → Result (List (WalEvent ℕ)) ℕ
decode_list (events_bytes events) = ok events
decode_list (metadata_bytes m) = err 400

abbrev decode_meta : Bytes → Option PersistentWalMetadata
decode_meta (events_bytes events) = none
decode_meta (metadata_bytes m) = some m

abbrev json : Codec ℕ Bytes ℕ
json = record {
  encode_events = λ events. ok (events_bytes events);
  decode_events = decode_list;
  encode_metadata = metadata_bytes;
  decode_metadata = decode_meta;
}

abbrev healthy : WalPath → Bool
healthy _ = false

-- The metadata cannot be written.
abbrev no_metadata : WalPath → Bool
no_metadata (metadata_file _) = true
no_metadata (wal_file _ _) = false

-- The oldest file cannot be deleted.
abbrev no_deletion : WalPath → Bool
no_deletion (wal_file _ n) = n == 0
no_deletion (metadata_file _) = false

-- The disk after the first update, and the events in its files.
abbrev written : WalPath → Option Bytes
written (wal_file table number) = some (events_bytes (WalEvent.commit 5 none ∷ []))
written (metadata_file table) = some (metadata_bytes first_metadata)

abbrev contents : ℕ → List (WalEvent ℕ)
contents _ = WalEvent.commit 5 none ∷ []

recover_flushed_wals-Numbered_example :
    recover_flushed_wals (disk healthy) json written first_metadata
    ≡ done (read_wal_file (disk healthy) json written 1 0 ∷ [])
recover_flushed_wals-Numbered_example =
    recover_flushed_wals-Numbered (disk healthy) json written first_metadata 0 1 (refl, refl)
      (omega arith) (omega arith)

-- The metadata with a transaction that is still open.
abbrev interrupted : PersistentWalMetadata
interrupted = record first_metadata { active_transactions = (8, WalTransactionState.opened 0) ∷ [] }

abbrev recovered : List Event
recovered =
    TableEvent.commit 5 none true
    ∷ TableEvent.stream_abort 8 false true
    ∷ TableEvent.finish_recovery 5
    ∷ []
