-- ===== src/Wal/Valid/Prepare.antt =====
-- Preparing a persistence update on an idle manager.
use moonlink.Base.{
  ℕ, ◌≤◌, ◌<◌, ◌≡◌, refl, ◌⊎◌, Option, none, some, List, [], ◌∷◌, done, arith, All, values, sym, ap,
  subst, ◌∙◌,
}
use moonlink.Base.Words.{u64_max}
use moonlink.Wal.Transaction.{WalTransactionState}
use moonlink.Wal.Manager.{WalEvent, WalFileInfo, WalManager}
use moonlink.Wal.Truncate.{get_lowest_file_to_keep, get_files_to_truncate}
use moonlink.Wal.Persist.{
  PreparePersistentUpdate, file_info, lowest_file_kept, kept_files,
  compute_updated_live_wal_file_tracker, compute_cleanedup_xacts, extract_next_persistence_file,
  prepare_metadata, files_to_truncate_if, prepare_persistent_update,
}
use moonlink.Wal.Valid.{Numbered, IsBounded, IsTracked}
use moonlink.Wal.Valid.Truncate.{KeepsStart, lowest-bounds, lowest-le-uncaptured}
use moonlink.Wal.Valid.Files.{
  older, Numbered-split, lowest_file_kept-cases, kept_files-newer, keeps_first_live-Numbered,
}
use moonlink.Wal.Valid.Cleanup.{IsBounded-in_flight, compute_cleanedup_xacts-done}
use moonlink.Wal.Valid.Update.{
  IsIdle, IsInFlight, Extracted, extract_next_persistence_file-Extracted, extracted-IsTracked,
  extracted-next, extracted-live, extracted-table,
}

-- The file from which everything is kept: with no snapshot, the oldest live one.
unfoldable pub first_kept : {R : Type 0} → (k : ℕ) → WalManager R → Option ℕ → ℕ
first_kept k m none = k
first_kept k m (some lsn) = get_lowest_file_to_keep m lsn

module _ {R : Type 0} (k : ℕ) (m : WalManager R) (v : IsIdle k m) where
  open m use {curr_file_number, live_wal_files_tracker}

  first_kept-bounds :
      (lsn : Option ℕ) → (k ≤ first_kept k m lsn) × (first_kept k m lsn ≤ curr_file_number)
  unfolding first_kept
  first_kept-bounds none = omega (arith, v.tracked.current)
  first_kept-bounds (some lsn) = lowest-bounds k m lsn v.tracked

  first_kept-IsTracked : (lsn : Option ℕ) → IsTracked lsn (first_kept k m lsn) m
  unfolding first_kept
  first_kept-IsTracked none = v.tracked
  first_kept-IsTracked (some lsn) = record {
    current = (lowest-bounds k m lsn v.tracked).1;
    streaming = both (values m.active_transactions) v.tracked.streaming kept.0;
    main = both m.main_transaction_tracker v.tracked.main kept.1;
    shape = v.tracked.shape;
    ascending = v.tracked.ascending;
  }
    where
      keeps : WalTransactionState → Type 0
      keeps = KeepsStart m lsn

      kept : All keeps (values m.active_transactions) × All keeps m.main_transaction_tracker
      kept = lowest-le-uncaptured k m lsn v.tracked

      both :
          (xs : List WalTransactionState)
          → All (IsBounded none k curr_file_number) xs
          → All keeps xs
          → All (IsBounded (some lsn) (get_lowest_file_to_keep m lsn) curr_file_number) xs
      both [] b h = tt
      both (s ∷ xs) b h = (IsBounded-in_flight lsn k _ curr_file_number s b.0 h.0, both xs b.1 h.1)

  -- The files to delete are those from `k` up to the first kept one.
  files_to_truncate_if-older :
      (lsn : Option ℕ)
      → (deleted : List WalFileInfo) × (files_to_truncate_if m lsn ≡ done deleted)
        × Numbered k deleted (first_kept k m lsn)
  unfolding files_to_truncate_if first_kept get_files_to_truncate
  files_to_truncate_if-older none = ([], refl, refl)
  files_to_truncate_if-older (some lsn) =
      let (lower, upper) = lowest-bounds k m lsn v.tracked in
      (
        older (get_lowest_file_to_keep m lsn) live_wal_files_tracker,
        rw (keeps_first_live-Numbered k curr_file_number _ live_wal_files_tracker v.live lower)
            refl,
        (Numbered-split k curr_file_number _ live_wal_files_tracker v.live lower upper).0,
      )

-- With bounded trackers the clean-up for the metadata fails no assertion.
cleaned_up :
    {R : Type 0} (lsn : Option ℕ) (w : ℕ) (m : WalManager R) (deleted : List WalFileInfo)
    → IsTracked lsn w m
    → (lowest_file_kept deleted ≡ none) ⊎ (lowest_file_kept deleted ≡ some w)
    → (xacts : List (ℕ × WalTransactionState)) × (main_xacts : List WalTransactionState)
      × (compute_cleanedup_xacts m lsn deleted ≡ done (xacts, main_xacts))
unfolding compute_cleanedup_xacts
cleaned_up none w m deleted v c = (_, _, refl)
cleaned_up (some lsn) w m deleted v c = (_, _, compute_cleanedup_xacts-done lsn w m v deleted c)

abbrev pub update_of :
    {R : Type 0}
    → WalManager R
    → Option ℕ
    → (deleted : List WalFileInfo) → Option (List (WalEvent R) × WalFileInfo)
    → List (ℕ × WalTransactionState)
    → List WalTransactionState
    → PreparePersistentUpdate R
update_of m lsn deleted next xacts main_xacts = record {
  persistent_wal_metadata = record {
    curr_file_number = m.curr_file_number;
    highest_completion_lsn = m.highest_completion_lsn;
    live_wal_files_tracker =
        compute_updated_live_wal_file_tracker m.live_wal_files_tracker deleted (file_info next);
    active_transactions = xacts;
    main_transaction_tracker = main_xacts;
    persistence_snapshot_lsn = lsn;
    mooncake_table_id = m.mooncake_table_id;
  };
  files_to_delete = deleted;
  accompanying_persistence_snapshot_lsn = lsn;
  files_to_persist = next;
}

module _ {R : Type 0} (k : ℕ) (m : WalManager R) (lsn : Option ℕ) (v : IsIdle k m)
    (small : m.curr_file_number < u64_max) where
  abbrev first : ℕ
  first = first_kept k m lsn

  abbrev pub extracted : WalManager R
  extracted = (extract_next_persistence_file m).0

  abbrev pub next : Option (List (WalEvent R) × WalFileInfo)
  next = (extract_next_persistence_file m).1

  pub extraction : Extracted m m.in_mem_buf extracted next
  extraction = extract_next_persistence_file-Extracted m

  -- With bounded trackers the clean-up for the metadata fails no assertion.
  cleanup-done :
      (deleted : List WalFileInfo)
      → Numbered k deleted first
      → (xacts : List (ℕ × WalTransactionState)) × (main_xacts : List WalTransactionState)
        × (compute_cleanedup_xacts extracted lsn deleted ≡ done (xacts, main_xacts))
  cleanup-done deleted run =
      cleaned_up lsn first extracted deleted
        (extracted-IsTracked m extracted next small extraction lsn first
          (first_kept-IsTracked k m v lsn))
        (lowest_file_kept-cases k first deleted run
          (omega (arith, (first_kept-bounds k m v lsn).1)))

  update_of-IsInFlight :
      (deleted : List WalFileInfo) (xacts : List (ℕ × WalTransactionState))
      (main_xacts : List WalTransactionState)
      → Numbered k deleted first
      → IsInFlight k first extracted (update_of extracted lsn deleted next xacts main_xacts)
  unfolding compute_updated_live_wal_file_tracker
  update_of-IsInFlight deleted xacts main_xacts run =
      let (lower, upper) = first_kept-bounds k m v lsn in
      let live = m.live_wal_files_tracker in
      record {
        tracked =
            extracted-IsTracked m extracted next small extraction lsn first
              (first_kept-IsTracked k m v lsn);
        deleted = run;
        small = omega arith;
        next =
            extracted-next m extracted next small extraction first
              (kept_files (lowest_file_kept deleted) extracted.live_wal_files_tracker)
              (subst (λ t. Numbered first t m.curr_file_number)
                (sym (
                  ap (kept_files (lowest_file_kept deleted))
                    (extracted-live m extracted next small extraction)
                  ∙ kept_files-newer k m.curr_file_number first live deleted v.live run
                      (omega arith)))
                (Numbered-split k m.curr_file_number first live v.live lower upper).1);
        written = refl;
      }

  -- The update, with what its metadata tracks.
  pub prepare_persistent_update-update_of :
      (deleted : List WalFileInfo) × (xacts : List (ℕ × WalTransactionState)) × (main_xacts : List
        WalTransactionState)
      × (prepare_persistent_update m lsn
          ≡ done (extracted, update_of extracted lsn deleted next xacts main_xacts))
      × IsInFlight k first extracted (update_of extracted lsn deleted next xacts main_xacts)
      × (compute_cleanedup_xacts extracted lsn deleted ≡ done (xacts, main_xacts))
  unfolding prepare_persistent_update prepare_metadata
  prepare_persistent_update-update_of =
      let (deleted, truncated, run) = files_to_truncate_if-older k m v lsn in
      let (xacts, main_xacts, clean) = cleanup-done deleted run in
      (
        deleted,
        xacts,
        main_xacts,
        rw (truncated, clean) refl,
        update_of-IsInFlight deleted xacts main_xacts run,
        clean,
      )

  -- Preparing an update on an idle manager fails no assertion. All that was buffered is persisted,
  -- in a file with the current number, and the update is in flight: it deletes the files below the
  -- first kept one. Its metadata is for the manager's table.
  pub prepare_persistent_update-IsInFlight :
      (m' : WalManager R) × (u : PreparePersistentUpdate R) × (prepare_persistent_update m lsn
        ≡ done (m', u))
      × IsInFlight k first m' u
      × (u.accompanying_persistence_snapshot_lsn ≡ lsn)
      × (u.persistent_wal_metadata.mooncake_table_id ≡ m.mooncake_table_id)
      × Extracted m m.in_mem_buf m' u.files_to_persist
  prepare_persistent_update-IsInFlight =
      let (deleted, xacts, main_xacts, run, flight, _) = prepare_persistent_update-update_of in
      (
        extracted,
        update_of extracted lsn deleted next xacts main_xacts,
        run,
        flight,
        refl,
        extracted-table m extracted next small extraction,
        extraction,
      )
