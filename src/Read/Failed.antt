-- ===== src/Read/Failed.antt =====
-- A read whose files are not found.
use moonlink.Base.{◌≤◌, ◌<◌, ◌≡◌, refl, true, false, some, [], done, ok, err, arith, ltb}
use moonlink.Read.Manager.{
  ReadStateManager, Lsns, no_read_lsn, no_snapshot_lsn, snapshot_is_clean, should_use_cache,
  is_satisfied, can_satisfy_read_from_snapshot, effective_lsn, SnapshotRead, store,
  read_from_snapshot_and_update_cache, read_round, read_loop, try_read, new,
}

module _ (e : Lsns) (ordered : e.snapshot_lsn ≤ e.replication_lsn)
    (clean : e.snapshot_lsn ≡ e.commit_lsn) (init : e.snapshot_lsn < no_snapshot_lsn) where
  satisfied : can_satisfy_read_from_snapshot (some e.snapshot_lsn) e ≡ done true
  unfolding can_satisfy_read_from_snapshot is_satisfied
  satisfied = ground (arith, ordered, clean, init)

  hit : should_use_cache (some e.snapshot_lsn) e.snapshot_lsn e.snapshot_lsn e.commit_lsn ≡ true
  unfolding should_use_cache snapshot_is_clean
  hit = ground (arith, clean, init)

  not_newer : ltb no_read_lsn e.snapshot_lsn ≡ false
  not_newer = ground (arith, init)

  -- The snapshot is clean and initialized, and not ahead of the replication. If the first read fails
  -- after the table was read, the manager has kept its LSN, and answers the next request for it with
  -- the empty state that it began with, whatever a read of the table would give.
  pub failed_read-stale :
      {D E : Type 0} (empty : D) (f : E) (read : SnapshotRead D E)
      → (m : ReadStateManager D) × (try_read (new empty) (some e.snapshot_lsn) e e [] (ok (err f))
          ≡ done (m, some (err f)))
        × (try_read m (some e.snapshot_lsn) e e [] read ≡ done (m, some (ok empty)))
  unfolding try_read read_loop read_round should_use_cache read_from_snapshot_and_update_cache store
      effective_lsn
  failed_read-stale empty f read = (
    record { last_read_lsn = e.snapshot_lsn; last_read_state = empty },
    rw (satisfied, read_round, not_newer) refl,
    rw (hit, try_read) refl,
  )
