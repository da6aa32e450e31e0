-- ===== src/Wal/Crash.antt =====
-- The writing of an update, with a failure at any step (storage/wal.rs, `wal_persist_truncate_async`).
use moonlink.Base.{ℕ, ◌≡◌, ◌≢◌, ◌⊎◌, Bool, List, ok, All, retain}
use moonlink.Wal.Manager.{WalEvent, WalFileInfo}
use moonlink.Wal.Persist.{PersistentWalMetadata, PreparePersistentUpdate, file_info, push_file}
use moonlink.Wal.Store.{FileSystem, Codec, persist_metadata, persist_if, Io}
use moonlink.Wal.Readable.{IsReadable, IsRecoverable}
use moonlink.Wal.Writes.{IsFresh, with_new}

-- What an update has to do with the metadata `m` that is on disk: it is for the same table, the
-- files that it makes live are some of `m`'s and the new one, the new file holds events and has a
-- number of its own, and no file is deleted that stays live.
pub record Follows {R : Type 0} (m : PersistentWalMetadata) (u : PreparePersistentUpdate R)
    : Type 0 where
  pub table : u.persistent_wal_metadata.mooncake_table_id ≡ m.mooncake_table_id
  pub keep : WalFileInfo → Bool
  pub live :
      u.persistent_wal_metadata.live_wal_files_tracker
      ≡ push_file (retain keep m.live_wal_files_tracker) (file_info u.files_to_persist)
  pub fresh : IsFresh u.files_to_persist m.live_wal_files_tracker
  pub apart :
      All
        (λ file.
          All
            (λ g. file.file_number ≢ g.file_number)
            u.persistent_wal_metadata.live_wal_files_tracker)
        u.files_to_delete

module _ {R B E : Type 0} (fs : FileSystem B E) (codec : Codec R B E)
    (contents : ℕ → List (WalEvent R)) where
  -- What a write of the update `u` leaves, if the metadata `m` was on disk. The log is recoverable
  -- with `m` and the old contents, or with the update's metadata and the contents that have the new
  -- file, or it was the write of the metadata that failed: then the files of both hold their events
  -- and only the object of the metadata is unknown. A success means the update's metadata.
  pub record Survives (d : fs.Disk) (m : PersistentWalMetadata) (u : PreparePersistentUpdate R)
      (io : Io fs.Disk E) : Type 0 where
    pub log :
        IsRecoverable fs codec contents io.0 m
        ⊎ (IsRecoverable fs codec
              (with_new u.files_to_persist contents)
              io.0
              u.persistent_wal_metadata
            ⊎ (((persist_metadata fs codec
                    (persist_if fs codec d u.files_to_persist
                      u.persistent_wal_metadata.mooncake_table_id).0
                    u.persistent_wal_metadata).1
                  ≢ ok tt)
                × All
                    (IsReadable fs codec contents io.0 m.mooncake_table_id)
                    m.live_wal_files_tracker
                × All
                    (IsReadable fs codec
                      (with_new u.files_to_persist contents)
                      io.0
                      m.mooncake_table_id)
                    u.persistent_wal_metadata.live_wal_files_tracker))
    pub success :
        io.1 ≡ ok tt
        → IsRecoverable fs codec
            (with_new u.files_to_persist contents)
            io.0
            u.persistent_wal_metadata
