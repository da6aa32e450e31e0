-- ===== src/Wal/Restored.antt =====
-- The manager that recovery restores (storage/wal.rs, `from_persistent_wal_metadata`).
use moonlink.Base.{
  false, ℕ, ◌<◌, ◌≡◌, refl, ◌⊎◌, inl, inr, Option, none, some, List, [], Outcome, done, panics,
  Panic, arith, ◌==◌, true, Unique, Unique-retain, sym, ap, ap₂, subst, ◌∙◌,
}
use moonlink.Base.Words.{u64_max}
use moonlink.Wal.Transaction.{WalTransactionState}
use moonlink.Wal.Manager.{WalEvent, WalFileInfo, WalManager}
use moonlink.Wal.Truncate.{is_uncaptured}
use moonlink.Wal.Persist.{
  PreparePersistentUpdate, file_info, compute_updated_live_wal_file_tracker,
  compute_cleanedup_xacts, prepare_persistent_update,
}
use moonlink.Wal.Complete.{handle_complete_wal_persistence_update, update_live_wal_file_tracker}
use moonlink.Wal.Recovery.{from_persistent_wal_metadata}
use moonlink.Wal.Valid.Effect.{done-injective}
use moonlink.Wal.Valid.Files.{lowest_file_kept-cases}
use moonlink.Wal.Valid.Cleanup.{compute_cleanedup_xacts-done}
use moonlink.Wal.Valid.Update.{IsIdle, IsInFlight, Extracted, extracted-xacts}
use moonlink.Wal.Valid.Prepare.{
  first_kept, update_of, extracted, next, extraction, prepare_persistent_update-update_of,
}
use moonlink.Wal.Valid.Complete.{
  completed, completed-IsIdle, covers_commits, handle_complete_wal_persistence_update-cases,
}

module _ {R : Type 0} where
  -- The metadata of an update restores the manager that completes it.
  restored-completed :
      (k w : ℕ) (m : WalManager R) (lsn : Option ℕ) (deleted : List WalFileInfo)
      (persisted : Option (List (WalEvent R) × WalFileInfo))
      (xacts : List (ℕ × WalTransactionState)) (main_xacts : List WalTransactionState)
      → IsInFlight k w m (update_of m lsn deleted persisted xacts main_xacts)
      → compute_cleanedup_xacts m lsn deleted ≡ done (xacts, main_xacts)
      → m.in_mem_buf ≡ []
      → from_persistent_wal_metadata
          (update_of m lsn deleted persisted xacts main_xacts).persistent_wal_metadata
          m.mooncake_table_id
        ≡ done (completed m (update_of m lsn deleted persisted xacts main_xacts))
  unfolding from_persistent_wal_metadata completed compute_cleanedup_xacts
      update_live_wal_file_tracker
  restored-completed k w m lsn deleted persisted xacts main_xacts v clean empty = go lsn v clean
    where
      same : (m.mooncake_table_id == m.mooncake_table_id) ≡ true
      same = ground arith

      restored :
          List (WalEvent R)
          → List (ℕ × WalTransactionState) × List WalTransactionState
          → Outcome (WalManager R)
      restored buffer tracked = done (record {
        in_mem_buf = buffer;
        highest_completion_lsn = m.highest_completion_lsn;
        live_wal_files_tracker =
            compute_updated_live_wal_file_tracker m.live_wal_files_tracker deleted
              (file_info persisted);
        curr_file_number = m.curr_file_number;
        active_transactions = tracked.0;
        main_transaction_tracker = tracked.1;
        mooncake_table_id = m.mooncake_table_id;
      })

      go :
          (lsn : Option ℕ)
          → IsInFlight k w m (update_of m lsn deleted persisted xacts main_xacts)
          → compute_cleanedup_xacts m lsn deleted ≡ done (xacts, main_xacts)
          → from_persistent_wal_metadata
              (update_of m lsn deleted persisted xacts main_xacts).persistent_wal_metadata
              m.mooncake_table_id
            ≡ done (completed m (update_of m lsn deleted persisted xacts main_xacts))
      go none v clean =
          rw (from_persistent_wal_metadata, same)
            (ap₂ restored (sym empty) (done-injective (xacts, main_xacts) _ (sym clean)))
      go (some lsn) v clean =
          rw (from_persistent_wal_metadata, same)
            (ap₂ restored (sym empty) (
              done-injective (xacts, main_xacts) _
                (sym clean
                  ∙ compute_cleanedup_xacts-done lsn w m v.tracked deleted
                      (lowest_file_kept-cases k w deleted v.deleted v.small))))

  Extracted-in_mem_buf :
      (m m' : WalManager R) (persisted : Option (List (WalEvent R) × WalFileInfo))
      → Extracted m m.in_mem_buf m' persisted
      → m'.in_mem_buf ≡ []
  Extracted-in_mem_buf m m' persisted (inl (_, e, _)) = ap (λ n. n.in_mem_buf) e
  Extracted-in_mem_buf m m' persisted (inr (_, e, _)) = ap (λ n. n.in_mem_buf) e

  completed-Unique :
      (m : WalManager R) (u : PreparePersistentUpdate R)
      → Unique m.active_transactions
      → Unique (completed m u).active_transactions
  unfolding completed
  completed-Unique m u q = go u.accompanying_persistence_snapshot_lsn refl
    where
      go :
          (lsn : Option ℕ)
          → u.accompanying_persistence_snapshot_lsn ≡ lsn
          → Unique (completed m u).active_transactions
      go none e = rw (e, completed) q
      go (some lsn) e =
          rw (e, completed) (Unique-retain (is_uncaptured lsn) m.active_transactions q)

-- What recovery restores from the metadata of an update, if a manager prepared it and became `m'`: an
-- idle manager whose live files start with `w` and whose transactions are tracked once. It is the
-- manager that `m'` becomes by completing the update, unless that fails an assertion.
pub record Restored {R : Type 0} (w : ℕ) (m' r : WalManager R) (u : PreparePersistentUpdate R)
    : Type 0 where
  pub restores :
      from_persistent_wal_metadata u.persistent_wal_metadata m'.mooncake_table_id ≡ done r
  pub idle : IsIdle w r
  pub unique : Unique r.active_transactions
  pub completes :
      ((covers_commits m' u ≡ false)
        × (handle_complete_wal_persistence_update m' u ≡ panics Panic.assertion_failed))
      ⊎ ((highest : Option ℕ) × (covers_commits m' u ≡ true)
          × (handle_complete_wal_persistence_update m' u ≡ done (r, highest)))

-- Let a manager be idle, with each transaction tracked once. The update that it prepares can be
-- restored from: the metadata gives an idle manager, with the files from the first kept one and each
-- transaction tracked once. It is the manager that completes the update, if no event comes in between
-- and the completion fails no assertion.
pub from_persistent_wal_metadata-Restored :
    {R : Type 0} (k : ℕ) (m : WalManager R) (lsn : Option ℕ)
    → IsIdle k m
    → Unique m.active_transactions
    → m.curr_file_number < u64_max
    → (m' : WalManager R) × (u : PreparePersistentUpdate R) × (r : WalManager R)
      × (prepare_persistent_update m lsn ≡ done (m', u))
      × Restored (first_kept k m lsn) m' r u
from_persistent_wal_metadata-Restored k m lsn v q small =
    let (deleted, xacts, main_xacts, run, flight, clean) =
      prepare_persistent_update-update_of k m lsn v small in
    let m' = extracted k m lsn v small in
    let persisted = next k m lsn v small in
    let x = extraction k m lsn v small in
    let u = update_of m' lsn deleted persisted xacts main_xacts in
    (
      m',
      u,
      completed m' u,
      run,
      record {
        restores =
            restored-completed k (first_kept k m lsn) m' lsn deleted persisted xacts main_xacts
              flight clean (Extracted-in_mem_buf m m' persisted x);
        idle = completed-IsIdle k (first_kept k m lsn) m' u flight;
        unique =
            completed-Unique m' u (subst Unique (sym (extracted-xacts m m' persisted small x)) q);
        completes = handle_complete_wal_persistence_update-cases k (first_kept k m lsn) m' u flight;
      },
    )
