-- ===== src/Handler/Writes.antt =====
-- When the table handler writes the log.
use moonlink.Base.{
  ℕ, ◌+◌, ◌<◌, ◌≡◌, ◌≢◌, ◌⊎◌, List, [], ◌∷◌, subst, refl, inl, inr, Bool, true, false, Option, none,
  some, done, err, arith, if◌then◌else◌, sym, ◌∙◌, ap,
}
use moonlink.Base.Words.{u64_max}
use moonlink.Event.{is_some}
use moonlink.Wal.Manager.{WalFileInfo, WalManager}
use moonlink.Wal.Valid.{Numbered}
use moonlink.Wal.Valid.Files.{Numbered-le}
use moonlink.Wal.Persist.{PreparePersistentUpdate, should_do_persistence}
use moonlink.Wal.Valid.Update.{IsIdle, IsInFlight, Extracted}
use moonlink.Wal.Valid.Prepare.{first_kept, prepare_persistent_update-IsInFlight}
use moonlink.Handler.State.{TableHandlerState}
use moonlink.Handler.Blocking.{can_drop_table_now, has_background_task_ongoing}
use moonlink.Handler.Log.{
  do_wal_persistence_update, periodical_persistence_update_wal,
  periodical_wal_persistence_update_result,
}

-- Either an update is started: it is in flight, and it persists buffered events or deletes a file. Or
-- none is: the manager is as before, nothing is buffered and no live file is below the first kept one.
abbrev pub Started :
    {R : Type 0} → (k w : ℕ) (m m' : WalManager R) → Option (PreparePersistentUpdate R) → Type 0
Started k w m m' none = (m' ≡ m) × (m.in_mem_buf ≡ []) × (w ≡ k)
Started k w m m' (some u) = IsInFlight k w m' u × ((m.in_mem_buf ≢ []) ⊎ (k < w))

some-deletion :
    (k w : ℕ) (file : WalFileInfo) (files : List WalFileInfo) → Numbered k (file ∷ files) w → k < w
some-deletion k w file files h = omega (arith, Numbered-le (k + 1) w files h.1)

module _ {R : Type 0} where
  started :
      (k w : ℕ) (m m' : WalManager R) (u : PreparePersistentUpdate R)
      → IsInFlight k w m' u
      → Extracted m m.in_mem_buf m' u.files_to_persist
      → Started k w m m' (if should_do_persistence u then some u else none)
  unfolding should_do_persistence
  started k w m m' u flight (inr (nonempty, same, next)) =
      let does : should_do_persistence u ≡ true = rw (should_do_persistence, next) refl in
      rw does (flight, inl nonempty)
  started k w m m' u flight (inl (empty, same, next)) = deleting u.files_to_delete refl
    where
      deleting :
          (deleted : List WalFileInfo)
          → u.files_to_delete ≡ deleted
          → Started k w m m' (if should_do_persistence u then some u else none)
      deleting [] e =
          let first : k ≡ w = subst (λ t. Numbered k t w) e flight.deleted in
          let does : should_do_persistence u ≡ false = rw (should_do_persistence, next, e) refl in
          rw does (same ∙ ap (λ b. record m { in_mem_buf = b }) (sym empty), empty, sym first)
      deleting (file ∷ files) e =
          let does : should_do_persistence u ≡ true = rw (should_do_persistence, next, e) refl in
          rw does (
            flight,
            inr (some-deletion k w file files (subst (λ t. Numbered k t w) e flight.deleted)),
          )

  module _ {Q V : Type 0} where
    -- On a tick with no update of the log in progress, an idle manager is asked for one without a
    -- failed assertion. One is started exactly when events are buffered or live files lie below the
    -- first kept one; then it is in flight and the handler remembers it. Otherwise the handler and the
    -- manager are as before. Nothing else of the handler's state changes.
    pub periodical_persistence_update_wal-Started :
        (s : TableHandlerState Q V) (k : ℕ) (m : WalManager R) (lsn : Option ℕ)
        → IsIdle k m
        → m.curr_file_number < u64_max
        → s.wal_persist_ongoing ≡ false
        → (s' : TableHandlerState Q V) × (m' : WalManager R) × (o : Option
            (PreparePersistentUpdate R))
          × (periodical_persistence_update_wal s m lsn ≡ done (s', m', o))
          × (s' ≡ record s { wal_persist_ongoing = is_some o })
          × Started k (first_kept k m lsn) m m' o
    unfolding periodical_persistence_update_wal do_wal_persistence_update
    periodical_persistence_update_wal-Started s k m lsn v small free =
        let (m', u, run, flight, _, _, x) = prepare_persistent_update-IsInFlight k m lsn v small in
        let o = if should_do_persistence u then some u else none in
        (
          record s { wal_persist_ongoing = is_some o },
          m',
          o,
          simp (free, run),
          refl,
          started k (first_kept k m lsn) m m' u flight x,
        )

    -- When the writing of the log fails, the handler goes on believing that it is in progress: the
    -- state is as before, a tick in it starts no update, and the table cannot be dropped.
    pub failed_write-blocks :
        {E : Type 0} (s : TableHandlerState Q V) (m : WalManager R) (has_receiver flush : Bool)
        (e : E) (lsn : Option ℕ)
        → s.wal_persist_ongoing ≡ true
        → (periodical_wal_persistence_update_result s m has_receiver flush (err e)
            ≡ done (s, m, none, false))
          × (periodical_persistence_update_wal s m lsn ≡ done (s, m, none))
          × (can_drop_table_now s flush ≡ false)
    unfolding periodical_wal_persistence_update_result periodical_persistence_update_wal
        can_drop_table_now has_background_task_ongoing
    failed_write-blocks s m has_receiver flush e lsn busy = (refl, simp busy, ground arith)
