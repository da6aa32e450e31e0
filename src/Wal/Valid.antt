-- ===== src/Wal/Valid.antt =====
-- The invariant of the manager, with at most one persistence update in flight, and what tracking an
-- event does to one transaction's state.
pub mod Main
pub mod Tracking
pub mod Push
pub mod Truncate
pub mod Files
pub mod Cleanup
pub mod Update
pub mod Prepare
pub mod Complete
pub mod Effect
use moonlink.Base.{
  ℕ, suc, ◌+◌, ◌≤◌, ◌<◌, ◌≡◌, refl, Bool, true, false, Option, none, some, List, [], ◌∷◌, Outcome,
  done, arith, All, values, lookup, insert, Option-cases,
}
use moonlink.Event.{TableEvent}
use moonlink.Wal.Transaction.{WalTransactionState, get_start_file, is_closed}
use moonlink.Wal.Manager.{
  WalFileInfo, WalManager, get_updated_xact_state, tracked_xact_id, state_or_open,
}
use moonlink.Wal.Truncate.{is_uncaptured}

-- The files numbered from `k` up to, and without, `n`.
abbrev pub Numbered : (k : ℕ) → List WalFileInfo → (n : ℕ) → Type 0
Numbered k [] n = k ≡ n
Numbered k (file ∷ files) n = (file.file_number ≡ k) × Numbered (k + 1) files n

-- Whether a transaction still needs its files: each one does while no update is in flight, and only
-- those that the snapshot has not captured while an update with that snapshot is.
abbrev pub needs_files : (in_flight : Option ℕ) → WalTransactionState → Bool
needs_files none s = true
needs_files (some lsn) s = is_uncaptured lsn s

abbrev pub EndsAfterStart : WalTransactionState → (curr : ℕ) → Type 0
EndsAfterStart (WalTransactionState.commit start _ file_end) curr =
    (start ≤ file_end) × (file_end ≤ curr)
EndsAfterStart (WalTransactionState.abort start _ file_end) curr =
    (start ≤ file_end) × (file_end ≤ curr)
EndsAfterStart (WalTransactionState.opened start) curr = Unit

-- A tracked state lies between the oldest kept file `k` and the current file.
pub record IsBounded (in_flight : Option ℕ) (k curr : ℕ) (s : WalTransactionState) : Type 0 where
  pub kept : needs_files in_flight s ≡ true → k ≤ get_start_file s
  pub begun : get_start_file s ≤ curr
  pub ends : EndsAfterStart s curr

abbrev pub IsCommit : WalTransactionState → Type 0
IsCommit (WalTransactionState.commit _ _ _) = Unit
IsCommit (WalTransactionState.abort _ _ _) = ⊥
IsCommit (WalTransactionState.opened _) = ⊥

abbrev pub NotAbort : WalTransactionState → Type 0
NotAbort (WalTransactionState.commit _ _ _) = Unit
NotAbort (WalTransactionState.abort _ _ _) = ⊥
NotAbort (WalTransactionState.opened _) = Unit

-- The main transaction's tracker: commits, and at its end perhaps an open transaction.
abbrev pub MainShape : List WalTransactionState → Type 0
MainShape [] = Unit
MainShape (s ∷ []) = NotAbort s
MainShape (s ∷ t ∷ states) = IsCommit s × MainShape (t ∷ states)

-- Each entry began no later than those after it.
abbrev pub Ascending : List WalTransactionState → Type 0
Ascending [] = Unit
Ascending (s ∷ states) = All (λ t. get_start_file s ≤ get_start_file t) states × Ascending states

pub record IsTracked {R : Type 0} (in_flight : Option ℕ) (k : ℕ) (m : WalManager R) : Type 0 where
  pub current : k ≤ m.curr_file_number
  pub streaming : All (IsBounded in_flight k m.curr_file_number) (values m.active_transactions)
  pub main : All (IsBounded in_flight k m.curr_file_number) m.main_transaction_tracker
  pub shape : MainShape m.main_transaction_tracker
  pub ascending : Ascending m.main_transaction_tracker

-- The events that the log takes.
abbrev pub IsLogged : {R P E : Type 0} → TableEvent R P E → Type 0
IsLogged (TableEvent.append _ _ _ _) = Unit
IsLogged (TableEvent.delete _ _ _ _ _) = Unit
IsLogged (TableEvent.commit _ _ _) = Unit
IsLogged (TableEvent.stream_abort _ _ _) = Unit
IsLogged (TableEvent.commit_flush _ _ _) = Unit
IsLogged (TableEvent.stream_flush _ _) = Unit
IsLogged _ = ⊥

-- A transaction that has ended gets no further event.
abbrev pub IsOpenOrNew : Option WalTransactionState → Type 0
IsOpenOrNew none = Unit
IsOpenOrNew (some (WalTransactionState.opened _)) = Unit
IsOpenOrNew (some (WalTransactionState.commit _ _ _)) = ⊥
IsOpenOrNew (some (WalTransactionState.abort _ _ _)) = ⊥

module _ {R P E : Type 0} (in_flight : Option ℕ) (k highest curr : ℕ) where
  -- A logged event takes a bounded open state to a bounded state; only an abort of a streaming
  -- transaction makes it an aborted one.
  pub get_updated_xact_state-IsBounded :
      (event : TableEvent R P E) (start : ℕ)
      → IsLogged event
      → k ≤ start
      → start ≤ curr
      → (s : WalTransactionState) × (get_updated_xact_state event
            (WalTransactionState.opened start)
            highest
            curr
          ≡ done s)
        × IsBounded in_flight k curr s
        × (tracked_xact_id event ≡ none → NotAbort s)
        × (get_start_file s ≡ start)
  unfolding get_updated_xact_state get_start_file tracked_xact_id
  get_updated_xact_state-IsBounded (TableEvent.append _ _ _ _) start l h c =
      (WalTransactionState.opened start, refl, ground arith, λ _. tt, refl)
  get_updated_xact_state-IsBounded (TableEvent.delete _ _ _ _ _) start l h c =
      (WalTransactionState.opened start, refl, ground arith, λ _. tt, refl)
  get_updated_xact_state-IsBounded (TableEvent.stream_flush _ _) start l h c =
      (WalTransactionState.opened start, refl, ground arith, λ _. tt, refl)
  get_updated_xact_state-IsBounded (TableEvent.commit lsn _ _) start l h c =
      (WalTransactionState.commit start lsn curr, refl, ground arith, λ _. tt, refl)
  get_updated_xact_state-IsBounded (TableEvent.commit_flush lsn _ _) start l h c =
      (WalTransactionState.commit start lsn curr, refl, ground arith, λ _. tt, refl)
  get_updated_xact_state-IsBounded (TableEvent.stream_abort _ _ _) start l h c =
      (WalTransactionState.abort start highest curr, refl, ground arith, λ e. cc, refl)
  get_updated_xact_state-IsBounded _ start l h c = absurd l
