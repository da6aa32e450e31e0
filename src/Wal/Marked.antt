-- ===== src/Wal/Marked.antt =====
-- The marks of the events that recovery sends (storage/wal.rs, `replay_recovery_from_wal`).
use moonlink.Base.{
  ◌≡◌, refl, ◌⊎◌, inl, inr, Bool, true, List, [], ◌∷◌, done, panics, Panic, ◌++◌, All,
}
use moonlink.Event.{TableEvent, is_recovery, set_is_recovery}
use moonlink.Wal.Manager.{WalManager, to_wal_event, push}
use moonlink.Wal.Persist.{PersistentWalMetadata}
use moonlink.Wal.Recovery.{close_open_xacts}

module _ {R P E : Type 0} where
  -- Either an event cannot be marked, and then it cannot be logged either; or the marked event has
  -- the mark and stands for the same event of the log.
  pub set_is_recovery-cases :
      (e : TableEvent R P E) (r : Bool)
      → ((set_is_recovery e r ≡ panics Panic.unimplemented)
          × (to_wal_event e ≡ panics Panic.unimplemented))
        ⊎ ((e' : TableEvent R P E) × (set_is_recovery e r ≡ done e')
            × (is_recovery e' ≡ done r)
            × (to_wal_event e' ≡ to_wal_event e))
  unfolding set_is_recovery is_recovery to_wal_event
  set_is_recovery-cases (TableEvent.append row x lsn _) r = inr (_, refl, refl, refl)
  set_is_recovery-cases (TableEvent.delete row lsn x d _) r = inr (_, refl, refl, refl)
  set_is_recovery-cases (TableEvent.commit lsn x _) r = inr (_, refl, refl, refl)
  set_is_recovery-cases (TableEvent.stream_abort x _ c) r = inr (_, refl, refl, refl)
  set_is_recovery-cases (TableEvent.commit_flush lsn x _) r = inr (_, refl, refl, refl)
  set_is_recovery-cases (TableEvent.stream_flush x _) r = inr (_, refl, refl, refl)
  set_is_recovery-cases _ r = inl (refl, refl)

  -- An event that is marked as recovered.
  abbrev IsMarked : TableEvent R P E → Type 0
  IsMarked e = is_recovery e ≡ done true

  -- An event that is marked as recovered, and that the log `w` refuses.
  abbrev pub IsRefused : WalManager R → TableEvent R P E → Type 0
  IsRefused w e = (is_recovery e ≡ done true) × (push w e ≡ panics Panic.assertion_failed)

-- What a recovery from metadata `m` sends: nothing if no file is live, and else the events that it
-- replays, then the aborts of the transactions that `m` has open, then the end of the recovery. The
-- log refuses what is replayed.
abbrev pub SendsRefused :
    {R P E : Type 0} → PersistentWalMetadata → WalManager R → List (TableEvent R P E) → Type 0
SendsRefused {R} {P} {E} m w sent =
    ((m.live_wal_files_tracker ≡ []) × (sent ≡ []))
    ⊎ ((replayed : List (TableEvent R P E)) × All (IsRefused w) replayed
        × (sent
            ≡ replayed
              ++ (close_open_xacts m.active_transactions
                  ++ (TableEvent.finish_recovery m.highest_completion_lsn ∷ []))))
