-- ===== src/Wal/Store.antt =====
-- The background task that writes an update to the file system (storage/wal.rs, "Async persist /
-- truncate"). The file accessor and the JSON encoding are parameters: `FileSystem` and `Codec`.
use moonlink.Base.{ℕ, ◌≡◌, ◌≢◌, Bool, Option, none, some, List, [], ◌∷◌, Result, ok, err}
use moonlink.Wal.Manager.{WalEvent, WalFileInfo}
use moonlink.Wal.Persist.{PersistentWalMetadata, PreparePersistentUpdate}

-- The two kinds of object below `_wal/{mooncake_table_id}`. The source formats them as text,
-- `wal_{file_number}.json` and `metadata_wal.json`.
pub data WalPath : Type 0 where
  wal_file : (mooncake_table_id file_number : ℕ) → WalPath
  metadata_file : (mooncake_table_id : ℕ) → WalPath

-- `BaseFileSystemAccess`, on a state `Disk`: an operation returns the new state and its result.
pub record FileSystem (Bytes Error : Type 0) : Type 1 where
  pub Disk : Type 0
  pub read_object : Disk → WalPath → Result Bytes Error
  pub object_exists : Disk → WalPath → Result Bool Error
  pub write_object : Disk → WalPath → Bytes → Disk × Result (Unit {0}) Error
  pub delete_object : Disk → WalPath → Disk × Result (Unit {0}) Error

-- What the log relies on. An operation changes the object that it names and no other, and a write
-- that succeeds is read back. Of a write that fails nothing is known: the local file system is
-- configured without atomic writes (`default_storage_config_local`).
pub record FileSystemLaws {Bytes Error : Type 0} (fs : FileSystem Bytes Error) : Type 0 where
  pub write_self :
      (d : fs.Disk) (p : WalPath) (b : Bytes)
      → (fs.write_object d p b).1 ≡ ok tt
      → fs.read_object (fs.write_object d p b).0 p ≡ ok b
  pub write_other :
      (d : fs.Disk) (p q : WalPath) (b : Bytes)
      → p ≢ q
      → fs.read_object (fs.write_object d p b).0 q ≡ fs.read_object d q
  pub delete_other :
      (d : fs.Disk) (p q : WalPath)
      → p ≢ q
      → fs.read_object (fs.delete_object d p).0 q ≡ fs.read_object d q

-- `serde_json`, on the two kinds of object.
pub record Codec (Row Bytes Error : Type 0) : Type 0 where
  pub encode_events : List (WalEvent Row) → Result Bytes Error
  pub decode_events : Bytes → Result (List (WalEvent Row)) Error
  pub encode_metadata : PersistentWalMetadata → Bytes
  pub decode_metadata : Bytes → Option PersistentWalMetadata

-- What is encoded is decoded again.
pub record CodecLaws {Row Bytes Error : Type 0} (c : Codec Row Bytes Error) : Type 0 where
  pub events_lem :
      (events : List (WalEvent Row)) (b : Bytes)
      → c.encode_events events ≡ ok b
      → c.decode_events b ≡ ok events
  pub metadata_lem : (m : PersistentWalMetadata) → c.decode_metadata (c.encode_metadata m) ≡ some m

-- The disk after a step, and the step's result.
abbrev pub Io : (Disk Error : Type 0) → Type 0
Io Disk Error = Disk × Result (Unit {0}) Error

-- `.await?`: the next step runs only if this one succeeded.
infixl 5 ◌and_then◌
abbrev pub ◌and_then◌ :
    {Disk Error : Type 0} → Io Disk Error → (Disk → Io Disk Error) → Io Disk Error
(d, ok u) and_then f = f d
(d, err e) and_then f = (d, err e)

module _ {R B E : Type 0} (fs : FileSystem B E) (codec : Codec R B E) where
  unfoldable pub persist_new_wal_file :
      fs.Disk → List (WalEvent R) → WalFileInfo → (mooncake_table_id : ℕ) → Io fs.Disk E
  persist_new_wal_file d [] info table = (d, ok tt)
  persist_new_wal_file d (e ∷ es) info table = elim (codec.encode_events (e ∷ es)) [
    | err x ↦ (d, err x)
    | ok bytes ↦ fs.write_object d (wal_file table info.file_number) bytes
  ]

  unfoldable pub persist_metadata : fs.Disk → PersistentWalMetadata → Io fs.Disk E
  persist_metadata d m =
      fs.write_object d (metadata_file m.mooncake_table_id) (codec.encode_metadata m)

  unfoldable pub first_error : Result (Unit {0}) E → Result (Unit {0}) E → Result (Unit {0}) E
  first_error (ok _) r = r
  first_error (err e) r = err e

  -- All deletions run (`join_all`); the first error is returned.
  unfoldable pub delete_files : fs.Disk → List WalFileInfo → (mooncake_table_id : ℕ) → Io fs.Disk E
  unfolding first_error
  delete_files d [] table = (d, ok tt)
  delete_files d (file ∷ files) table =
      let (d', result) = fs.delete_object d (wal_file table file.file_number) in
      let (d'', results) = delete_files d' files table in (d'', first_error result results)

  unfoldable pub persist_if :
      fs.Disk → Option (List (WalEvent R) × WalFileInfo) → (mooncake_table_id : ℕ) → Io fs.Disk E
  unfolding persist_new_wal_file
  persist_if d none table = (d, ok tt)
  persist_if d (some (events, info)) table = persist_new_wal_file d events info table

  -- The order matters: the new file, then the metadata, then the deletions.
  unfoldable pub wal_persist_truncate : fs.Disk → PreparePersistentUpdate R → Io fs.Disk E
  unfolding persist_if
  wal_persist_truncate d u =
      let table = u.persistent_wal_metadata.mooncake_table_id in
      persist_if d u.files_to_persist table
      and_then (λ d₁. persist_metadata d₁ u.persistent_wal_metadata)
      and_then (λ d₂. delete_files d₂ u.files_to_delete table)
