-- ===== src/Wal/History/Covered.antt =====
-- The invariant of a history, and what keeps the remembered events covered.
use moonlink.Base.{
  ℕ, ◌≤◌, ◌≡◌, refl, inl, inr, Bool, Option, none, some, List, [], ◌∷◌, ==_iff, arith, ◌==◌, All,
  All-map, lookup, insert, values, lookup-insert, All-lookup, retain, Bool-cases, Unique,
  lookup-retain, sym, ap, subst, ◌∙◌,
}
use mathlib.Core.Option.{some-injective}
use moonlink.Wal.Transaction.{WalTransactionState, get_start_file}
use moonlink.Wal.Manager.{WalManager, state_or_open}
use moonlink.Wal.Persist.{PreparePersistentUpdate}
use moonlink.Wal.Valid.{IsBounded, IsTracked}
use moonlink.Wal.Valid.Effect.{Retracked}
use moonlink.Wal.Valid.Update.{IsIdle, IsInFlight}
use moonlink.Wal.History.{Entry, note, still_tracked}

-- The invariant of the manager with an update in flight, or with none.
abbrev pub Phase : {R : Type 0} → WalManager R → Option (PreparePersistentUpdate R) → Type 0
Phase m none = (k : ℕ) × IsIdle k m
Phase m (some u) = (k : ℕ) × (w : ℕ) × IsInFlight k w m u

-- The entry's transaction is tracked, and began no later than the entry's file.
abbrev pub Covered : List (ℕ × WalTransactionState) → Entry → Type 0
Covered xacts e =
    (s : WalTransactionState) × (lookup e.xact_id xacts ≡ some s) × (get_start_file s ≤ e.file)

abbrev pub BegunBy : (curr : ℕ) → WalTransactionState → Type 0
BegunBy curr s = get_start_file s ≤ curr

pub IsTracked-BegunBy :
    {R : Type 0} (in_flight : Option ℕ) (k : ℕ) (m : WalManager R)
    → IsTracked in_flight k m
    → All (BegunBy m.curr_file_number) (values m.active_transactions)
IsTracked-BegunBy in_flight k m v =
    All-map (IsBounded in_flight k m.curr_file_number) (BegunBy m.curr_file_number) (λ s b. b.begun)
      (values m.active_transactions) v.streaming

pub Phase-BegunBy :
    {R : Type 0} (m : WalManager R) (u : Option (PreparePersistentUpdate R))
    → Phase m u
    → All (BegunBy m.curr_file_number) (values m.active_transactions)
Phase-BegunBy m none (k, v) = IsTracked-BegunBy none k m v.tracked
Phase-BegunBy m (some u) (k, w, v) =
    IsTracked-BegunBy u.accompanying_persistence_snapshot_lsn w m v.tracked

-- The state that an event extends began no later than the current file.
pub begun-state :
    {R : Type 0} (m : WalManager R) (x : ℕ) (o : Option WalTransactionState)
    → lookup x m.active_transactions ≡ o
    → All (BegunBy m.curr_file_number) (values m.active_transactions)
    → get_start_file (state_or_open o m.curr_file_number) ≤ m.curr_file_number
unfolding get_start_file
begun-state m x none e b = omega arith
begun-state m x (some s) e b = All-lookup (BegunBy m.curr_file_number) x m.active_transactions b e

-- A push covers the event that it adds, and uncovers none.
pub Covered-Retracked :
    {R : Type 0} (o : Option ℕ) (m m' : WalManager R) (entries : List Entry)
    → Retracked o m m'
    → All (BegunBy m.curr_file_number) (values m.active_transactions)
    → All (Covered m.active_transactions) entries
    → All (Covered m'.active_transactions) (note o m.curr_file_number entries)
Covered-Retracked none m m' entries r b c = subst (λ xacts. All (Covered xacts) entries) (sym r) c
Covered-Retracked (some x) m m' entries (s, inserted, starts) b c =
    subst (λ xacts. All (Covered xacts) (note (some x) m.curr_file_number entries)) (sym inserted)
      (
        (
          s,
          lookup-insert x x s m.active_transactions ∙ ground arith,
          omega (arith, starts, begun-state m x (lookup x m.active_transactions) refl b),
        ),
        All-map (Covered m.active_transactions) (Covered (insert x s m.active_transactions)) kept
            entries c,
      )
  where
    kept :
        (e : Entry) → Covered m.active_transactions e → Covered (insert x s m.active_transactions) e
    kept e (t, found, l) = elim (Bool-cases (x == e.xact_id)) [
      | inl same ↦
          let found' : lookup x m.active_transactions ≡ some t =
            subst (λ y. lookup y m.active_transactions ≡ some t) (sym ((==_iff x e.xact_id).0 same))
              found in
          let begins : get_start_file s ≡ get_start_file t =
            starts ∙ ap (λ o. get_start_file (state_or_open o m.curr_file_number)) found' in
          (s, lookup-insert x e.xact_id s m.active_transactions ∙ rw same refl, omega arith)
      | inr other ↦ (t, lookup-insert x e.xact_id s m.active_transactions ∙ rw other found, l)
    ]

-- An entry whose transaction is still tracked after a clean-up was covered before it.
pub Covered-retain :
    (p : WalTransactionState → Bool) (xacts : List (ℕ × WalTransactionState)) (entries : List Entry)
    → Unique xacts
    → All (Covered xacts) entries
    → All (Covered (retain (λ e. p e.1) xacts)) (still_tracked (retain (λ e. p e.1) xacts) entries)
Covered-retain p xacts [] u c = tt
Covered-retain p xacts (e ∷ entries) u c =
    go (lookup e.xact_id after) refl (Covered-retain p xacts entries u c.1)
  where
    after : List (ℕ × WalTransactionState)
    after = retain (λ e. p e.1) xacts

    go :
        (o : Option WalTransactionState)
        → lookup e.xact_id after ≡ o
        → All (Covered after) (still_tracked after entries)
        → All (Covered after) (still_tracked after (e ∷ entries))
    go none f rest = rw f rest
    go (some s) f rest =
        let (t, found, l) = c.0 in
        let same : t ≡ s = some-injective t s (sym found ∙ lookup-retain p e.xact_id xacts s u f) in
        rw f ((s, f, subst (λ z. get_start_file z ≤ e.file) same l), rest)
