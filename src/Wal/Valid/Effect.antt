-- ===== src/Wal/Valid/Effect.antt =====
-- What a push does to the map of the streaming transactions.
use moonlink.Base.{
  ℕ, ◌≡◌, refl, not, Option, none, some, done, assert, >>=-eq-done, arith, lookup, insert, sym, ap,
  ap₂, ◌∙◌,
}
use moonlink.Event.{TableEvent, is_recovery}
use moonlink.Wal.Transaction.{WalTransactionState, get_start_file}
use moonlink.Wal.Manager.{
  WalManager, to_wal_event, get_updated_xact_state, tracked_xact_id, state_or_open,
  raise_highest_lsn, update_highest_lsn, merge_with_last, track_streaming, track_main,
  update_transaction_tracking, push,
}

pub done-injective : {A : Type 0} (a b : A) → done a ≡ done b → a ≡ b
done-injective a b e = cc

-- No event moves a transaction's first file.
get_updated_xact_state-start :
    {R P E : Type 0} (event : TableEvent R P E) (s s' : WalTransactionState) (highest curr : ℕ)
    → get_updated_xact_state event s highest curr ≡ done s'
    → get_start_file s' ≡ get_start_file s
unfolding get_updated_xact_state get_start_file
get_updated_xact_state-start (TableEvent.append _ _ _ _) s s' h c e =
    ap get_start_file (sym (done-injective _ _ e))
get_updated_xact_state-start event s s' h c e = ground arith

abbrev SameXacts : {R : Type 0} → WalManager R → WalManager R → Type 0
SameXacts m m' =
    (m'.active_transactions ≡ m.active_transactions) × (m'.curr_file_number ≡ m.curr_file_number)

raise_highest_lsn-SameXacts :
    {R : Type 0} (m m' : WalManager R) (lsn : ℕ)
    → raise_highest_lsn m lsn ≡ done m'
    → SameXacts m m'
unfolding raise_highest_lsn
raise_highest_lsn-SameXacts m m' lsn e = ground arith

update_highest_lsn-SameXacts :
    {R P E : Type 0} (m m' : WalManager R) (event : TableEvent R P E)
    → update_highest_lsn m event ≡ done m'
    → SameXacts m m'
unfolding update_highest_lsn
update_highest_lsn-SameXacts m m' (TableEvent.commit lsn _ _) e =
    raise_highest_lsn-SameXacts m m' lsn e
update_highest_lsn-SameXacts m m' (TableEvent.commit_flush lsn _ _) e =
    raise_highest_lsn-SameXacts m m' lsn e
update_highest_lsn-SameXacts m m' event e = ground arith

-- The event's transaction, if it is a streaming one, is tracked from its old first file or, if it
-- is new, from the current file. No other transaction's state changes.
abbrev pub Retracked : {R : Type 0} → (xact_id : Option ℕ) → WalManager R → WalManager R → Type 0
Retracked none m m' = m'.active_transactions ≡ m.active_transactions
Retracked (some x) m m' =
    (s : WalTransactionState) × (m'.active_transactions ≡ insert x s m.active_transactions)
    × (get_start_file s
        ≡ get_start_file (state_or_open (lookup x m.active_transactions) m.curr_file_number))

Retracked-SameXacts :
    {R : Type 0} (o : Option ℕ) (m b m' : WalManager R)
    → SameXacts m b
    → Retracked o b m'
    → Retracked o m m'
Retracked-SameXacts none m b m' (xacts, curr) r = r ∙ xacts
Retracked-SameXacts (some x) m b m' (xacts, curr) (s, inserted, start) = (
  s,
  inserted ∙ ap (insert x s) xacts,
  start ∙ ap₂ (λ l c. get_start_file (state_or_open (lookup x l) c)) xacts curr,
)

module _ {R P E : Type 0} where
  track_main-Retracked :
      (m m' : WalManager R) (event : TableEvent R P E)
      → track_main m event ≡ done m'
      → m'.active_transactions ≡ m.active_transactions
  unfolding track_main
  track_main-Retracked m m' event e =
      let (s, _, e₁) = >>=-eq-done (get_updated_xact_state event _ _ _) _ e in
      let (merged, _, e₂) = >>=-eq-done (merge_with_last s _) _ e₁ in
      ap (λ n. n.active_transactions) (sym (done-injective _ _ e₂))

  track_streaming-Retracked :
      (m m' : WalManager R) (event : TableEvent R P E) (x : ℕ)
      → track_streaming m event x ≡ done m'
      → Retracked (some x) m m'
  unfolding track_streaming
  track_streaming-Retracked m m' event x e =
      let (s, computed, e₁) = >>=-eq-done (get_updated_xact_state event _ _ _) _ e in
      (
        s,
        ap (λ n. n.active_transactions) (sym (done-injective _ _ e₁)),
        get_updated_xact_state-start event _ s _ _ computed,
      )

  update_transaction_tracking-Retracked :
      (m m' : WalManager R) (event : TableEvent R P E)
      → update_transaction_tracking m event ≡ done m'
      → Retracked (tracked_xact_id event) m m'
  unfolding update_transaction_tracking
  update_transaction_tracking-Retracked m m' event e = go (tracked_xact_id event) refl
    where
      go : (o : Option ℕ) → tracked_xact_id event ≡ o → Retracked o m m'
      go none t = track_main-Retracked m m' event (rw (t, update_transaction_tracking) at e)
      go (some x) t =
          track_streaming-Retracked m m' event x (rw (t, update_transaction_tracking) at e)

  pub push-Retracked :
      (m m' : WalManager R) (event : TableEvent R P E)
      → push m event ≡ done m'
      → Retracked (tracked_xact_id event) m m'
  unfolding push
  push-Retracked m m' event e =
      let (r, _, e₁) = >>=-eq-done (is_recovery event) _ e in
      let (_, _, e₂) = >>=-eq-done (assert (not r)) _ e₁ in
      let (w, _, e₃) = >>=-eq-done (to_wal_event event) _ e₂ in
      let (b, raised, e₄) = >>=-eq-done (update_highest_lsn _ event) _ e₃ in
      let (xacts, curr) = update_highest_lsn-SameXacts _ b event raised in
      Retracked-SameXacts (tracked_xact_id event) m b m' (xacts, curr)
        (update_transaction_tracking-Retracked b m' event e₄)
