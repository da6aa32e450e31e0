-- ===== src/Wal/Writes.antt =====
-- The single steps of writing an update (storage/wal.rs, `persist_new_wal_file`, `persist_metadata` and
-- `delete_files`).
use moonlink.Base.{
  ℕ, ◌≡◌, ◌≢◌, refl, Option, none, some, List, [], ◌∷◌, Result, ok, err, All, All-map, All-append,
  sym, ap, ◌∙◌, arith, true, false, ◌==◌, if◌then◌else◌,
}
use moonlink.Wal.Manager.{WalEvent, WalFileInfo}
use moonlink.Wal.Persist.{PersistentWalMetadata, file_info, push_file}
use moonlink.Wal.Store.{
  wal_file, metadata_file, FileSystem, FileSystemLaws, Codec, CodecLaws, persist_new_wal_file,
  persist_metadata, delete_files, persist_if, Io, ◌and_then◌,
}
use moonlink.Wal.Readable.{
  IsReadable, IsRecoverable, wal_file-ne, wal_file-ne-metadata, same-IsReadable, write-IsReadable,
  delete_files-read, write_self-read, write-files,
}

-- The new file, if there is one, holds events and has a number that no live file has.
abbrev pub IsFresh :
    {R : Type 0} → Option (List (WalEvent R) × WalFileInfo) → List WalFileInfo → Type 0
IsFresh none live = Unit
IsFresh (some ([], info)) live = ⊥
IsFresh (some (_ ∷ _, info)) live = All (λ g. info.file_number ≢ g.file_number) live

-- The contents of the files once the new file is written.
abbrev pub with_new :
    {R : Type 0}
    → Option (List (WalEvent R) × WalFileInfo)
    → (ℕ → List (WalEvent R))
    → ℕ
    → List (WalEvent R)
with_new none contents n = contents n
with_new (some (events, info)) contents n = if info.file_number == n then events else contents n

with_new_self :
    {R : Type 0} (events : List (WalEvent R)) (info : WalFileInfo)
    (contents : ℕ → List (WalEvent R))
    → with_new (some (events, info)) contents info.file_number ≡ events
with_new_self events info contents =
    let same : (info.file_number == info.file_number) ≡ true = ground arith in rw same refl

with_new_other :
    {R : Type 0} (events : List (WalEvent R)) (info : WalFileInfo)
    (contents : ℕ → List (WalEvent R)) (n : ℕ)
    → info.file_number ≢ n
    → with_new (some (events, info)) contents n ≡ contents n
with_new_other events info contents n h =
    let other : (info.file_number == n) ≡ false = ground (arith, h) in rw other refl

module _ {R B E : Type 0} (fs : FileSystem B E) (codec : Codec R B E) (laws : FileSystemLaws fs)
    (coding : CodecLaws codec) (contents : ℕ → List (WalEvent R)) where
  pub and_then-cases :
      (io : Io fs.Disk E) (f : fs.Disk → Io fs.Disk E) (Q : Io fs.Disk E → Type 0)
      → ((e : E) → Q (io.0, err e))
      → (io.1 ≡ ok tt → Q (f io.0))
      → Q (io and_then f)
  and_then-cases (d, ok tt) f Q failed went = went refl
  and_then-cases (d, err e) f Q failed went = failed e

  -- Writing the new file leaves what is on disk recoverable, and succeeds only if the file is
  -- readable.
  pub persist_if-IsRecoverable :
      (d : fs.Disk) (m : PersistentWalMetadata) (o : Option (List (WalEvent R) × WalFileInfo))
      → IsFresh o m.live_wal_files_tracker
      → IsRecoverable fs codec contents d m
      → IsRecoverable fs codec contents (persist_if fs codec d o m.mooncake_table_id).0 m
        × ((persist_if fs codec d o m.mooncake_table_id).1 ≡ ok tt
            → All
                (IsReadable fs codec
                  (with_new o contents)
                  (persist_if fs codec d o m.mooncake_table_id).0
                  m.mooncake_table_id)
                (push_file [] (file_info o)))
  unfolding persist_if persist_new_wal_file
  persist_if-IsRecoverable d m none f r = (r, λ _. tt)
  persist_if-IsRecoverable d m (some ([], info)) f r = absurd f
  persist_if-IsRecoverable d m (some (e ∷ es, info)) f r =
      encoded (codec.encode_events (e ∷ es)) refl
    where
      table : ℕ
      table = m.mooncake_table_id

      Kept : Io fs.Disk E → Type 0
      Kept io =
          IsRecoverable fs codec contents io.0 m
          × (io.1 ≡ ok tt
              → All (IsReadable fs codec (with_new (some (e ∷ es, info)) contents) io.0 table)
                  (info ∷ []))

      written :
          (b : B)
          → codec.encode_events (e ∷ es) ≡ ok b
          → Kept (fs.write_object d (wal_file table info.file_number) b)
      written b c = (
        record {
          metadata = laws.write_other d _ _ b (wal_file-ne-metadata _ _ _) ∙ r.metadata;
          files =
              write-files fs codec laws coding contents d table info b m.live_wal_files_tracker f
                r.files;
        },
        λ w. (
          write_self-read fs codec laws coding contents d table (e ∷ es) info b c w
              ∙ ap ok (sym (with_new_self (e ∷ es) info contents)),
          tt,
        ),
      )

      encoded :
          (c : Result B E)
          → codec.encode_events (e ∷ es) ≡ c
          → Kept (persist_if fs codec d (some (e ∷ es, info)) table)
      encoded (err x) c = rw (c, persist_new_wal_file) (r, λ w. absurd (cc))
      encoded (ok b) c = rw (c, persist_new_wal_file) (written b c)

  -- Writing the metadata leaves every file as it was.
  pub persist_metadata-files :
      (d : fs.Disk) (n : PersistentWalMetadata) (table : ℕ) (files : List WalFileInfo)
      → All (IsReadable fs codec contents d table) files
      → All (IsReadable fs codec contents (persist_metadata fs codec d n).0 table) files
  unfolding persist_metadata
  persist_metadata-files d n table files =
      All-map (IsReadable fs codec contents d table) _
        (λ file q.
          write-IsReadable fs codec laws coding contents d (metadata_file n.mooncake_table_id)
            (codec.encode_metadata n) table file
            (λ e. wal_file-ne-metadata table n.mooncake_table_id file.file_number (sym e)) q)
        files

  -- Metadata that was written can be recovered from.
  pub persist_metadata-IsRecoverable :
      (d : fs.Disk) (n : PersistentWalMetadata)
      → All (IsReadable fs codec contents d n.mooncake_table_id) n.live_wal_files_tracker
      → (persist_metadata fs codec d n).1 ≡ ok tt
      → IsRecoverable fs codec contents (persist_metadata fs codec d n).0 n
  unfolding persist_metadata
  persist_metadata-IsRecoverable d n live w = record {
    metadata = laws.write_self d (metadata_file n.mooncake_table_id) (codec.encode_metadata n) w;
    files = persist_metadata-files d n n.mooncake_table_id n.live_wal_files_tracker live;
  }

  -- Deleting files that are not live leaves what is on disk recoverable.
  pub delete_files-IsRecoverable :
      (d : fs.Disk) (n : PersistentWalMetadata) (deleted : List WalFileInfo)
      → All (λ file. All (λ g. file.file_number ≢ g.file_number) n.live_wal_files_tracker) deleted
      → IsRecoverable fs codec contents d n
      → IsRecoverable fs codec contents (delete_files fs codec d deleted n.mooncake_table_id).0 n
  delete_files-IsRecoverable d n deleted apart r = record {
    metadata =
        delete_files-read fs codec laws coding contents d deleted table (metadata_file table)
          (All-map _ _ (λ file _. wal_file-ne-metadata table table file.file_number) deleted apart)
        ∙ r.metadata;
    files = kept n.live_wal_files_tracker apart r.files;
  }
    where
      table : ℕ
      table = n.mooncake_table_id

      kept :
          (live : List WalFileInfo)
          → All (λ file. All (λ g. file.file_number ≢ g.file_number) live) deleted
          → All (IsReadable fs codec contents d table) live
          → All (IsReadable fs codec contents (delete_files fs codec d deleted table).0 table) live
      kept [] a q = tt
      kept (g ∷ live) a q = (
        same-IsReadable fs codec laws coding contents d _ table g
            (delete_files-read fs codec laws coding contents d deleted table _ (
              All-map _ _ (λ file h. wal_file-ne table file.file_number g.file_number h.0) deleted
                a))
            q.0,
        kept live (All-map _ _ (λ file h. h.1) deleted a) q.1,
      )

pub All-push_file :
    (P : WalFileInfo → Type 0) (live : List WalFileInfo) (o : Option WalFileInfo)
    → All P live
    → All P (push_file [] o)
    → All P (push_file live o)
All-push_file P live none h q = h
All-push_file P live (some file) h q = All-append P live (file ∷ []) h q

-- A new file changes the contents of no live one.
pub with_new-files :
    {R B E : Type 0} (fs : FileSystem B E) (codec : Codec R B E) (contents : ℕ → List (WalEvent R))
    (d : fs.Disk) (table : ℕ) (o : Option (List (WalEvent R) × WalFileInfo))
    (live : List WalFileInfo)
    → IsFresh o live
    → All (IsReadable fs codec contents d table) live
    → All (IsReadable fs codec (with_new o contents) d table) live
with_new-files fs codec contents d table none live f r = r
with_new-files fs codec contents d table (some ([], info)) live f r = absurd f
with_new-files fs codec contents d table (some (e ∷ es, info)) [] f r = tt
with_new-files fs codec contents d table (some (e ∷ es, info)) (g ∷ live) f r = (
  r.0 ∙ ap ok (sym (with_new_other (e ∷ es) info contents g.file_number f.0)),
  with_new-files fs codec contents d table (some (e ∷ es, info)) live f.1 r.1,
)
