-- ===== src/Handler/Serves.antt =====
-- What becomes of a request to the table handler.
use moonlink.Base.{
  ℕ, ◌≤◌, ◌≡◌, refl, inl, inr, Bool, true, ◌<◌, ap, false, Option, none, some, done, arith, leb,
  Bool-cases,
}
use moonlink.Handler.State.{TableHandlerState, MaintenanceRequestStatus, is_requested}
use moonlink.Handler.Maintenance.{can_start_new_maintenance}
use moonlink.Handler.Alter.{raised-bounds}
use moonlink.Handler.Persisted.{Reported, get_persisted_table_lsn-Reported}
use moonlink.Handler.Requests.{
  requested_lsn, settle_or_wait, force_snapshot, force_regular_index_merge,
  force_regular_data_compaction, force_full_maintenance,
}

-- What becomes of a request at an LSN, if the table is persisted up to another one: the answer is
-- the persisted LSN, which reaches the request, and nothing changes; or it does not reach it, and the
-- handler waits for an LSN that does, and changes nothing else.
abbrev pub Served :
    {Q V : Type 0} → (requested persisted : ℕ) (s s' : TableHandlerState Q V) → Option ℕ → Type 0
Served requested persisted s s' (some lsn) = (lsn ≡ persisted) × (requested ≤ persisted) × (s' ≡ s)
Served requested persisted s s' none =
    (persisted < requested)
    × ((largest : ℕ) × (s' ≡ record s { largest_force_snapshot_lsn = some largest })
        × (requested ≤ largest))

module _ {Q V : Type 0} where
  settle_or_wait-Served :
      (s : TableHandlerState Q V) (requested persisted : ℕ)
      → Served requested persisted s
          (settle_or_wait s requested persisted).0
          (settle_or_wait s requested persisted).1
  unfolding settle_or_wait
  settle_or_wait-Served s requested persisted = elim (Bool-cases (leb requested persisted)) [
    | inl e ↦ let reached : requested ≤ persisted = ground arith in rw e (refl, reached, refl)
    | inr e ↦
        let (largest, raises, above) = raised-bounds s.largest_force_snapshot_lsn requested in
        let short : persisted < requested = ground arith in
        rw e (short, (largest, ap (λ o. record s { largest_force_snapshot_lsn = o }) raises, above))
  ]

  -- A request for a snapshot, at an LSN or, if it names none, at the latest commit, is handled
  -- without a panic, whether or not somebody listens. Let the table be persisted up to `table_lsn`:
  -- that is the replication LSN if there is neither a snapshot nor activity, the larger of
  -- replication and snapshot LSN if the table has not moved since the snapshot, and otherwise the
  -- snapshot's LSN, or 0 if there is none. If this reaches the request, it is the answer; otherwise
  -- there is no answer yet, and a forced snapshot waits at an LSN that reaches the request.
  pub force_snapshot-Served :
      (s : TableHandlerState Q V) (has_receiver : Bool) (lsn persisted : Option ℕ)
      (replication requested : ℕ)
      → requested_lsn lsn s.latest_commit_lsn ≡ some requested
      → (s' : TableHandlerState Q V) × (answer : Option ℕ) × (table_lsn : ℕ) × (force_snapshot s
            has_receiver lsn persisted replication
          ≡ done (s', answer))
        × Reported persisted s.table_consistent_view_lsn replication table_lsn
        × Served requested table_lsn s s' answer
  unfolding force_snapshot
  force_snapshot-Served s has_receiver lsn persisted replication requested e =
      let (table_lsn, computed, reported) =
        get_persisted_table_lsn-Reported s persisted replication in
      (
        (settle_or_wait s requested table_lsn).0,
        (settle_or_wait s requested table_lsn).1,
        table_lsn,
        rw (e, force_snapshot, computed) refl,
        reported,
        settle_or_wait-Served s requested table_lsn,
      )

  can_start-unrequested :
      (s : TableHandlerState Q V)
      → can_start_new_maintenance s ≡ true
      → (is_requested s.index_merge_request_status ≡ false)
        × (is_requested s.data_compaction_request_status ≡ false)
  unfolding can_start_new_maintenance
  can_start-unrequested s h = ground arith

  requested_merge :
      (s : TableHandlerState Q V)
      → can_start_new_maintenance
          (record s { index_merge_request_status = MaintenanceRequestStatus.force_regular })
        ≡ false
  unfolding can_start_new_maintenance is_requested
  requested_merge s = ground arith

  requested_compaction :
      (s : TableHandlerState Q V) (status : MaintenanceRequestStatus)
      → is_requested status ≡ true
      → can_start_new_maintenance (record s { data_compaction_request_status = status }) ≡ false
  unfolding can_start_new_maintenance
  requested_compaction s status h = ground arith

  -- If maintenance can start, each kind of request is queued, without a failed assertion, and after
  -- it no further maintenance can start.
  maintenance_requests-queue :
      (s : TableHandlerState Q V)
      → can_start_new_maintenance s ≡ true
      → (a : TableHandlerState Q V) × (b : TableHandlerState Q V) × (c : TableHandlerState Q V)
        × (force_regular_index_merge s ≡ done (a, false))
        × (force_regular_data_compaction s ≡ done (b, false))
        × (force_full_maintenance s ≡ done (c, false))
        × (can_start_new_maintenance a ≡ false)
        × (can_start_new_maintenance b ≡ false)
        × (can_start_new_maintenance c ≡ false)
  unfolding force_regular_index_merge force_regular_data_compaction force_full_maintenance
      is_requested
  maintenance_requests-queue s h =
      let (merge, compaction) = can_start-unrequested s h in
      (
        record s { index_merge_request_status = MaintenanceRequestStatus.force_regular },
        record s { data_compaction_request_status = MaintenanceRequestStatus.force_regular },
        record s { data_compaction_request_status = MaintenanceRequestStatus.force_full },
        simp (h, merge),
        simp (h, compaction),
        simp (h, merge, compaction),
        requested_merge s,
        requested_compaction s MaintenanceRequestStatus.force_regular refl,
        requested_compaction s MaintenanceRequestStatus.force_full refl,
      )

  -- If maintenance cannot start, each kind of request is acknowledged at once and changes nothing.
  maintenance_requests-acknowledge :
      (s : TableHandlerState Q V)
      → can_start_new_maintenance s ≡ false
      → (force_regular_index_merge s ≡ done (s, true))
        × (force_regular_data_compaction s ≡ done (s, true))
        × (force_full_maintenance s ≡ done (s, true))
  unfolding force_regular_index_merge force_regular_data_compaction force_full_maintenance
  maintenance_requests-acknowledge s h = (simp h, simp h, simp h)
