-- ===== src/Wal/Valid/Complete.antt =====
-- Events that arrive while an update is in flight, and the update's completion.
use moonlink.Base.{
  ℕ, ◌≡◌, ◌⊎◌, inl, inr, refl, true, false, Bool, Option, none, some, done, panics, Panic,
  Bool-cases, ◌>>◌, assert, >>=-assoc, assert-done, sym, ap, subst, ◌∙◌,
}
use moonlink.Event.{TableEvent}
use moonlink.Wal.Manager.{WalManager, push}
use moonlink.Wal.Persist.{PreparePersistentUpdate, file_info, compute_updated_live_wal_file_tracker}
use moonlink.Wal.Complete.{
  xacts_are_consistent, highest_persisted, same_files, clean_up_xacts, update_live_wal_file_tracker,
  update_trackers_for_persistence_update_result, handle_complete_wal_persistence_update,
}
use moonlink.Wal.Valid.{IsTracked}
use moonlink.Wal.Valid.Push.{Accepts, Pushed, push-IsTracked}
use moonlink.Wal.Valid.Files.{lowest_file_kept-cases, same_files_refl}
use moonlink.Wal.Valid.Cleanup.{cleaned, compute_cleanedup_xacts-done, cleaned-IsTracked}
use moonlink.Wal.Valid.Update.{IsIdle, IsInFlight, next_live}

module _ {R P E : Type 0} (k w : ℕ) (m : WalManager R) (u : PreparePersistentUpdate R)
    (event : TableEvent R P E) where
  -- An accepted event that arrives while an update is in flight fails no assertion, and the update
  -- is in flight for the manager after it.
  pub push-IsInFlight :
      Accepts m event
      → IsInFlight k w m u
      → (m' : WalManager R) × (push m event ≡ done m') × IsInFlight k w m' u × Pushed m m' event
  push-IsInFlight a v =
      let (m', run, tracked, p) =
        push-IsTracked u.accompanying_persistence_snapshot_lsn w m event a v.tracked in
      let same : next_live m' u ≡ next_live m u =
        ap
          (λ files.
            compute_updated_live_wal_file_tracker files u.files_to_delete
              (file_info u.files_to_persist))
          p.live in
      (
        m',
        run,
        record {
          tracked = tracked;
          deleted = v.deleted;
          small = v.small;
          next = rw (same, p.current) v.next;
          written = v.written ∙ sym same;
        },
        p,
      )

-- The manager once the update is complete.
unfoldable pub completed : {R : Type 0} → WalManager R → PreparePersistentUpdate R → WalManager R
unfolding update_live_wal_file_tracker
completed m u = elim u.accompanying_persistence_snapshot_lsn [
  | none ↦ update_live_wal_file_tracker m u
  | some lsn ↦ cleaned lsn (update_live_wal_file_tracker m u)
]

module _ {R : Type 0} (k w : ℕ) (m : WalManager R) (u : PreparePersistentUpdate R)
    (v : IsInFlight k w m u) where
  relive-IsTracked :
      (in_flight : Option ℕ)
      → IsTracked in_flight w m
      → IsTracked in_flight w (update_live_wal_file_tracker m u)
  unfolding update_live_wal_file_tracker
  relive-IsTracked in_flight t = record {
    current = t.current;
    streaming = t.streaming;
    main = t.main;
    shape = t.shape;
    ascending = t.ascending;
  }

  -- Once the update is complete the manager is idle again, with `w` as the oldest live file.
  pub completed-IsIdle : IsIdle w (completed m u)
  unfolding completed
  completed-IsIdle = go u.accompanying_persistence_snapshot_lsn refl
    where
      go :
          (lsn : Option ℕ)
          → u.accompanying_persistence_snapshot_lsn ≡ lsn
          → IsIdle w (completed m u)
      go none e =
          rw (e, completed)
            (record {
              tracked = relive-IsTracked none (subst (λ o. IsTracked o w m) e v.tracked);
              live = v.next;
            })
      go (some lsn) e =
          rw (e, completed)
            (record {
              tracked =
                  cleaned-IsTracked lsn w (update_live_wal_file_tracker m u)
                    (relive-IsTracked (some lsn) (subst (λ o. IsTracked o w m) e v.tracked));
              live = v.next;
            })

  clean_up_xacts-done :
      clean_up_xacts
        (update_live_wal_file_tracker m u)
        u.accompanying_persistence_snapshot_lsn
        u.files_to_delete
      ≡ done (completed m u)
  unfolding clean_up_xacts completed
  clean_up_xacts-done = go u.accompanying_persistence_snapshot_lsn refl
    where
      relived : WalManager R
      relived = update_live_wal_file_tracker m u

      go :
          (lsn : Option ℕ)
          → u.accompanying_persistence_snapshot_lsn ≡ lsn
          → clean_up_xacts relived u.accompanying_persistence_snapshot_lsn u.files_to_delete
            ≡ done (completed m u)
      go none e = rw (e, completed) refl
      go (some lsn) e =
          rw
            (
              e,
              completed,
              compute_cleanedup_xacts-done lsn w relived
                  (relive-IsTracked (some lsn) (subst (λ o. IsTracked o w m) e v.tracked))
                  u.files_to_delete
                  (lowest_file_kept-cases k w u.files_to_delete v.deleted v.small),
            )
            refl

  completed-live : (completed m u).live_wal_files_tracker ≡ next_live m u
  unfolding completed
  completed-live = go u.accompanying_persistence_snapshot_lsn refl
    where
      go :
          (lsn : Option ℕ)
          → u.accompanying_persistence_snapshot_lsn ≡ lsn
          → (completed m u).live_wal_files_tracker ≡ next_live m u
      go none e = rw (e, completed) refl
      go (some lsn) e = rw (e, completed) refl

  live-same :
      same_files
        (completed m u).live_wal_files_tracker
        u.persistent_wal_metadata.live_wal_files_tracker
      ≡ true
  live-same = rw (completed-live, v.written) (same_files_refl (next_live m u))

  -- A completed update fails no assertion but, perhaps, the last: that what the written metadata
  -- tracks covers the commits up to its highest LSN.
  pub handle_complete_wal_persistence_update-done : handle_complete_wal_persistence_update m u ≡ (
      assert (
        xacts_are_consistent u.accompanying_persistence_snapshot_lsn
          u.persistent_wal_metadata.highest_completion_lsn
          u.persistent_wal_metadata.active_transactions
          (completed m u).active_transactions)
      >> done (completed m u, highest_persisted (file_info u.files_to_persist)))
  unfolding handle_complete_wal_persistence_update update_trackers_for_persistence_update_result
  handle_complete_wal_persistence_update-done =
      rw (clean_up_xacts-done, live-same)
        (>>=-assoc {B = WalManager R}
          (assert (
            xacts_are_consistent u.accompanying_persistence_snapshot_lsn
              u.persistent_wal_metadata.highest_completion_lsn
              u.persistent_wal_metadata.active_transactions (completed m u).active_transactions))
          (λ _. done (completed m u))
          (λ m'. done (m', highest_persisted (file_info u.files_to_persist))))

-- So the manager after a completed update is `completed m u`.
pub handle_complete_wal_persistence_update-completed :
    {R : Type 0} (k w : ℕ) (m m' : WalManager R) (u : PreparePersistentUpdate R)
    (highest : Option ℕ)
    → IsInFlight k w m u
    → handle_complete_wal_persistence_update m u ≡ done (m', highest)
    → completed m u ≡ m'
handle_complete_wal_persistence_update-completed {R} k w m m' u highest v run =
    ap (λ (r : WalManager R × Option ℕ). r.0)
      (assert-done
        (xacts_are_consistent u.accompanying_persistence_snapshot_lsn
          u.persistent_wal_metadata.highest_completion_lsn
          u.persistent_wal_metadata.active_transactions (completed m u).active_transactions)
        (completed m u, highest_persisted (file_info u.files_to_persist)) (m', highest)
        (sym (handle_complete_wal_persistence_update-done k w m u v) ∙ run))

-- The last assertion of a completion: each streaming commit that stays tracked is above the snapshot,
-- and in the written metadata if it is not above the metadata's highest LSN.
abbrev pub covers_commits : {R : Type 0} → WalManager R → PreparePersistentUpdate R → Bool
covers_commits m u =
    xacts_are_consistent u.accompanying_persistence_snapshot_lsn
      u.persistent_wal_metadata.highest_completion_lsn u.persistent_wal_metadata.active_transactions
      (completed m u).active_transactions

pub handle_complete_wal_persistence_update-cases :
    {R : Type 0} (k w : ℕ) (m : WalManager R) (u : PreparePersistentUpdate R)
    → IsInFlight k w m u
    → ((covers_commits m u ≡ false)
        × (handle_complete_wal_persistence_update m u ≡ panics Panic.assertion_failed))
      ⊎ ((highest : Option ℕ) × (covers_commits m u ≡ true)
          × (handle_complete_wal_persistence_update m u ≡ done (completed m u, highest)))
handle_complete_wal_persistence_update-cases k w m u v =
    let run = handle_complete_wal_persistence_update-done k w m u v in
    elim (Bool-cases (covers_commits m u)) [
      | inl e ↦ inr (_, e, rw e at run)
      | inr e ↦ inl (e, rw e at run)
    ]

-- Completing an update that is in flight fails an assertion exactly when the last one does, that each
-- streaming commit that stays tracked is above the snapshot, and in the written metadata if it is not
-- above the metadata's highest LSN. Otherwise it leaves an idle
-- manager: the live files run from `w`, the oldest that the update kept, to the current file, and
-- every transaction that is still tracked lies among them.
pub handle_complete_wal_persistence_update-IsIdle :
    {R : Type 0} (k w : ℕ) (m : WalManager R) (u : PreparePersistentUpdate R)
    → IsInFlight k w m u
    → ((covers_commits m u ≡ false)
        × (handle_complete_wal_persistence_update m u ≡ panics Panic.assertion_failed))
      ⊎ ((m' : WalManager R) × (highest : Option ℕ) × (covers_commits m u ≡ true)
          × (handle_complete_wal_persistence_update m u ≡ done (m', highest))
          × IsIdle w m')
handle_complete_wal_persistence_update-IsIdle k w m u v =
    elim (handle_complete_wal_persistence_update-cases k w m u v) [
      | inl stops ↦ inl stops
      | inr (highest, e, run) ↦ inr (completed m u, highest, e, run, completed-IsIdle k w m u v)
    ]
