-- ===== src/Handler/Valid.antt =====
-- The invariant of the table handler's state, and the changes of its methods.
use moonlink.Base.{
  ℕ, ◌≡◌, refl, inl, inr, Bool, true, false, not, ◌||◌, Option, none, some, done, ◌>>◌, assert,
  >>=-eq-done, Result, ok, err, Bool-cases, subst, ap, sym, ◌∙◌, if◌then◌else◌,
}
use moonlink.Event.{TableEvent, is_ingest_event, is_some}
use moonlink.Wal.Valid.Effect.{done-injective}
use moonlink.Handler.State.{TableHandlerState, is_normal, unwrap}
use moonlink.Handler.Lsns.{
  update_lsns_for, update_table_lsns, get_persisted_table_lsn, update_iceberg_persisted_lsn,
}
use moonlink.Handler.Blocking.{
  mark_drop_table, start_alter_table, finish_alter_table, start_initial_copy, finish_initial_copy,
}
use moonlink.Handler.Maintenance.{
  reset_iceberg_state_at_mooncake_snapshot, mark_index_merge_completed,
  mark_data_compaction_completed,
}
use moonlink.Handler.State.{new}

-- A consistent view, once a commit was seen, is at the latest commit.
abbrev pub Agrees : (view latest : Option ℕ) → Type 0
Agrees none latest = Unit
Agrees (some v) none = Unit
Agrees (some v) (some l) = v ≡ l

-- The view agrees with the latest commit, and a snapshot that is being persisted is not one whose
-- result waits to be consumed.
pub record IsValid {Q V : Type 0} (s : TableHandlerState Q V) : Type 0 where
  pub view : Agrees s.table_consistent_view_lsn s.latest_commit_lsn
  pub flags : (not s.persistence_snapshot_ongoing || s.persistence_snapshot_result_consumed) ≡ true

-- One call of a method that changes the state.
pub data Change {Q V : Type 0} (R P E A : Type 0) (s s' : TableHandlerState Q V) : Type 0 where
  takes_event : (event : TableEvent R P E) → update_table_lsns s event ≡ s' → Change R P E A s s'
  persisted :
      (persisted replication lsn : ℕ)
      → update_iceberg_persisted_lsn s persisted replication ≡ done (s', lsn)
      → Change R P E A s s'
  drops : mark_drop_table s ≡ done s' → Change R P E A s s'
  alters : (request : Q) → start_alter_table s request ≡ done s' → Change R P E A s s'
  altered : finish_alter_table s ≡ done s' → Change R P E A s s'
  copies : start_initial_copy s ≡ done s' → Change R P E A s s'
  copied : (lsn : ℕ) → finish_initial_copy s lsn ≡ done s' → Change R P E A s s'
  resets : reset_iceberg_state_at_mooncake_snapshot s ≡ done s' → Change R P E A s s'
  merged : mark_index_merge_completed s ≡ done s' → Change R P E A s s'
  compacted :
      (result : Result A E) (has_receiver : Bool) (sent : Option E)
      → mark_data_compaction_completed s result has_receiver ≡ done (s', sent)
      → Change R P E A s s'

module _ {Q V : Type 0} where
  pub new-IsValid : (initial persisted : Option ℕ) → IsValid (new {Q = Q} {V = V} initial persisted)
  unfolding new
  new-IsValid initial none = record { view = tt; flags = refl }
  new-IsValid initial (some p) = record { view = tt; flags = refl }

  update_table_lsns-IsValid :
      {R P E : Type 0} (s : TableHandlerState Q V) (event : TableEvent R P E)
      → IsValid s
      → IsValid (update_table_lsns s event)
  unfolding update_table_lsns update_lsns_for is_ingest_event
  update_table_lsns-IsValid s (TableEvent.append _ _ _ _) v = record { view = tt; flags = v.flags }
  update_table_lsns-IsValid s (TableEvent.delete _ _ _ _ _) v = record {
    view = tt;
    flags = v.flags;
  }
  update_table_lsns-IsValid s (TableEvent.stream_abort _ _ _) v = record {
    view = tt;
    flags = v.flags;
  }
  update_table_lsns-IsValid s (TableEvent.commit _ _ _) v = record { view = refl; flags = v.flags }
  update_table_lsns-IsValid s _ v = v

  -- An operation that passes one assertion and then returns a valid state.
  guarded :
      (b : Bool) (s s' : TableHandlerState Q V)
      → IsValid s
      → (assert b >> done s) ≡ done s'
      → IsValid s'
  guarded b s s' v h =
      let (_, _, e) = >>=-eq-done (assert b) _ h in subst IsValid (done-injective s s' e) v

  update_iceberg_persisted_lsn-IsValid :
      (s s' : TableHandlerState Q V) (p replication lsn : ℕ)
      → IsValid s
      → update_iceberg_persisted_lsn s p replication ≡ done (s', lsn)
      → IsValid s'
  unfolding update_iceberg_persisted_lsn
  update_iceberg_persisted_lsn-IsValid s s' p replication lsn v h =
      let (l, _, e) = >>=-eq-done (get_persisted_table_lsn s (some p) replication) _ h in
      subst IsValid (ap (λ (r : TableHandlerState Q V × ℕ). r.0) (done-injective _ _ e))
        (record { view = v.view; flags = v.flags })

  start_alter_table-IsValid :
      (s s' : TableHandlerState Q V) (request : Q)
      → IsValid s
      → start_alter_table s request ≡ done s'
      → IsValid s'
  unfolding start_alter_table
  start_alter_table-IsValid s s' request v h =
      let (_, _, e) = >>=-eq-done (assert (is_some s.table_consistent_view_lsn)) _ h in
      let (_, _, e₁) = >>=-eq-done (assert (is_normal s.special_table_state)) _ e in
      let (l, _, e₂) = >>=-eq-done (unwrap s.table_consistent_view_lsn) _ e₁ in
      subst IsValid (done-injective _ s' e₂) (record { view = v.view; flags = v.flags })

  reset-IsValid :
      (s s' : TableHandlerState Q V)
      → IsValid s
      → reset_iceberg_state_at_mooncake_snapshot s ≡ done s'
      → IsValid s'
  unfolding reset_iceberg_state_at_mooncake_snapshot
  reset-IsValid s s' v h =
      let (_, _, e) =
        >>=-eq-done
          (assert (not s.persistence_snapshot_ongoing || s.persistence_snapshot_result_consumed)) _
          h in
      subst IsValid (done-injective _ s' e) (either s.persistence_snapshot_result_consumed)
    where
      either :
          (b : Bool)
          → IsValid (
              if b then s else record s {
                persistence_snapshot_result_consumed = true;
                persistence_snapshot_ongoing = false;
              })
      either true = v
      either false = record { view = v.view; flags = refl }

  compacted-IsValid :
      {A E : Type 0} (s s' : TableHandlerState Q V) (result : Result A E) (b : Bool)
      (sent : Option E)
      → IsValid s
      → mark_data_compaction_completed s result b ≡ done (s', sent)
      → IsValid s'
  unfolding mark_data_compaction_completed
  compacted-IsValid {A} {E} s s' (ok a) b sent v h =
      subst IsValid (ap (λ (r : TableHandlerState Q V × Option E). r.0) (done-injective _ _ h))
        (record { view = v.view; flags = v.flags })
  compacted-IsValid {A} {E} s s' (err e) true sent v h =
      subst IsValid (ap (λ (r : TableHandlerState Q V × Option E). r.0) (done-injective _ _ h))
        (record { view = v.view; flags = v.flags })
  compacted-IsValid s s' (err e) false sent v h = absurd (cc)

  -- Every call of a method that changes the state, and does not panic, takes a valid state to a
  -- valid one.
  pub Change-IsValid :
      {R P E A : Type 0} (s s' : TableHandlerState Q V)
      → Change R P E A s s'
      → IsValid s
      → IsValid s'
  unfolding mark_drop_table finish_alter_table start_initial_copy finish_initial_copy
      mark_index_merge_completed
  Change-IsValid s s' (takes_event event e) v =
      subst IsValid e (update_table_lsns-IsValid s event v)
  Change-IsValid s s' (persisted p r lsn e) v =
      update_iceberg_persisted_lsn-IsValid s s' p r lsn v e
  Change-IsValid s s' (drops e) v = guarded _ _ s' (record { view = v.view; flags = v.flags }) e
  Change-IsValid s s' (alters request e) v = start_alter_table-IsValid s s' request v e
  Change-IsValid s s' (altered e) v = guarded _ _ s' (record { view = v.view; flags = v.flags }) e
  Change-IsValid s s' (copies e) v = guarded _ _ s' (record { view = v.view; flags = v.flags }) e
  Change-IsValid s s' (copied lsn e) v = guarded _ _ s' (record { view = refl; flags = v.flags }) e
  Change-IsValid s s' (resets e) v = reset-IsValid s s' v e
  Change-IsValid s s' (merged e) v = guarded _ _ s' (record { view = v.view; flags = v.flags }) e
  Change-IsValid s s' (compacted result b sent e) v = compacted-IsValid s s' result b sent v e

  -- In a valid state the preparation for a mooncake snapshot fails no assertion; after it the result
  -- of the last persistence is consumed, and a persistence that was in progress still is.
  pub reset_iceberg_state_at_mooncake_snapshot-done :
      (s : TableHandlerState Q V)
      → IsValid s
      → (s' : TableHandlerState Q V) × (reset_iceberg_state_at_mooncake_snapshot s ≡ done s')
        × (s'.persistence_snapshot_result_consumed ≡ true)
        × (s'.persistence_snapshot_ongoing ≡ s.persistence_snapshot_ongoing)
        × IsValid s'
  unfolding reset_iceberg_state_at_mooncake_snapshot
  reset_iceberg_state_at_mooncake_snapshot-done s v =
      elim (Bool-cases s.persistence_snapshot_result_consumed) [
        | inl e ↦ (s, passed ∙ ap (λ b. done (if b then s else consumed)) e, e, refl, v)
        | inr e ↦ (
          consumed,
          passed ∙ ap (λ b. done (if b then s else consumed)) e,
          refl,
          sym (
              idle s.persistence_snapshot_ongoing s.persistence_snapshot_result_consumed v.flags e),
          record { view = v.view; flags = refl },
        )
      ]
    where
      consumed : TableHandlerState Q V
      consumed = record s {
        persistence_snapshot_result_consumed = true;
        persistence_snapshot_ongoing = false;
      }

      passed :
          reset_iceberg_state_at_mooncake_snapshot s
          ≡ done (if s.persistence_snapshot_result_consumed then s else consumed)
      passed =
          ap
            (λ b. assert b >> done (if s.persistence_snapshot_result_consumed then s else consumed))
            v.flags

      idle : (ongoing b : Bool) → (not ongoing || b) ≡ true → b ≡ false → ongoing ≡ false
      idle false b f e = refl
      idle true b f e = absurd (cc)
