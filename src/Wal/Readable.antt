-- ===== src/Wal/Readable.antt =====
-- What a step of the file system leaves readable of the log on disk (storage/wal.rs).
use moonlink.Base.{ℕ, ◌≡◌, ◌≢◌, refl, List, [], ◌∷◌, ok, All, ap, ◌∙◌}
use moonlink.Wal.Manager.{WalEvent, WalFileInfo}
use moonlink.Wal.Persist.{PersistentWalMetadata}
use moonlink.Wal.Store.{
  WalPath, wal_file, metadata_file, FileSystem, FileSystemLaws, Codec, CodecLaws, delete_files,
}
use moonlink.Wal.Recovery.{read_wal_file, decode_read}

pub wal_file-ne : (table : ℕ) (a b : ℕ) → a ≢ b → wal_file table a ≢ wal_file table b
wal_file-ne table a b h e = h (cc)

pub wal_file-ne-metadata : (t u n : ℕ) → wal_file t n ≢ metadata_file u
wal_file-ne-metadata t u n e = cc

module _ {R B E : Type 0} (fs : FileSystem B E) (codec : Codec R B E) where
  -- The file is there, and its events are those that `contents` has under its number.
  abbrev pub IsReadable :
      (contents : ℕ → List (WalEvent R)) → fs.Disk → (table : ℕ) → WalFileInfo → Type 0
  IsReadable contents d table file =
      read_wal_file fs codec d table file.file_number ≡ ok (contents file.file_number)

  -- The metadata on disk is `m`, and every file that it lists holds its events.
  pub record IsRecoverable (contents : ℕ → List (WalEvent R)) (d : fs.Disk)
      (m : PersistentWalMetadata) : Type 0 where
    pub metadata :
        fs.read_object d (metadata_file m.mooncake_table_id) ≡ ok (codec.encode_metadata m)
    pub files : All (IsReadable contents d m.mooncake_table_id) m.live_wal_files_tracker

  module _ (laws : FileSystemLaws fs) (coding : CodecLaws codec)
      (contents : ℕ → List (WalEvent R)) where
    -- What two states of the disk have in common.
    pub same-IsReadable :
        (d d' : fs.Disk) (table : ℕ) (file : WalFileInfo)
        → fs.read_object d' (wal_file table file.file_number)
          ≡ fs.read_object d (wal_file table file.file_number)
        → IsReadable contents d table file
        → IsReadable contents d' table file
    unfolding read_wal_file
    same-IsReadable d d' table file e r = ap (decode_read codec) e ∙ r

    -- A write of another file leaves a file readable; so does a write of metadata, and a deletion.
    pub write-IsReadable :
        (d : fs.Disk) (p : WalPath) (b : B) (table : ℕ) (file : WalFileInfo)
        → p ≢ wal_file table file.file_number
        → IsReadable contents d table file
        → IsReadable contents (fs.write_object d p b).0 table file
    write-IsReadable d p b table file h r =
        same-IsReadable d (fs.write_object d p b).0 table file (laws.write_other d p _ b h) r

    pub delete_files-read :
        (d : fs.Disk) (deleted : List WalFileInfo) (table : ℕ) (q : WalPath)
        → All (λ file. wal_file table file.file_number ≢ q) deleted
        → fs.read_object (delete_files fs codec d deleted table).0 q ≡ fs.read_object d q
    unfolding delete_files
    delete_files-read d [] table q h = refl
    delete_files-read d (file ∷ files) table q h =
        delete_files-read (fs.delete_object d (wal_file table file.file_number)).0 files table q h.1
        ∙ laws.delete_other d (wal_file table file.file_number) q h.0

    -- A file that was written is readable.
    pub write_self-read :
        (d : fs.Disk) (table : ℕ) (events : List (WalEvent R)) (file : WalFileInfo) (b : B)
        → codec.encode_events events ≡ ok b
        → (fs.write_object d (wal_file table file.file_number) b).1 ≡ ok tt
        → read_wal_file fs codec
            (fs.write_object d (wal_file table file.file_number) b).0
            table
            file.file_number
          ≡ ok events
    unfolding read_wal_file decode_read
    write_self-read d table events file b c w =
        ap (decode_read codec) (laws.write_self d (wal_file table file.file_number) b w)
        ∙ coding.events_lem events b c

    -- Writing a file with another number leaves files readable.
    pub write-files :
        (d : fs.Disk) (table : ℕ) (file : WalFileInfo) (b : B) (live : List WalFileInfo)
        → All (λ g. file.file_number ≢ g.file_number) live
        → All (IsReadable contents d table) live
        → All
            (IsReadable contents (fs.write_object d (wal_file table file.file_number) b).0 table)
            live
    write-files d table file b [] h r = tt
    write-files d table file b (g ∷ live) h r = (
      write-IsReadable d _ b table g (wal_file-ne table file.file_number g.file_number h.0) r.0,
      write-files d table file b live h.1 r.1,
    )
