-- ===== src/Wal/Valid/Cleanup.antt =====
-- What is dropped from the trackers with a snapshot (storage/wal.rs, `compute_cleanedup_xacts`).
use moonlink.Base.{
  ℕ, ◌≤◌, ◌≡◌, refl, ◌⊎◌, inl, inr, Bool, true, false, Option, none, some, List, [], ◌∷◌, done,
  arith, retain, All, All-retain, values, Bool-cases, sym, ap, subst,
}
use moonlink.Wal.Transaction.{
  WalTransactionState, get_start_file, passes_check, is_captured_in_iceberg_snapshot,
}
use moonlink.Wal.Manager.{WalFileInfo, WalManager}
use moonlink.Wal.Truncate.{is_uncaptured}
use moonlink.Wal.Persist.{all_pass, compute_cleanedup_xacts, lowest_file_kept}
use moonlink.Wal.Valid.{IsBounded, EndsAfterStart, IsCommit, MainShape, Ascending, IsTracked}

-- A later current file keeps every bound.
EndsAfterStart-mono :
    (s : WalTransactionState) (c d : ℕ) → c ≤ d → EndsAfterStart s c → EndsAfterStart s d
EndsAfterStart-mono (WalTransactionState.commit _ _ _) c d l h = omega arith
EndsAfterStart-mono (WalTransactionState.abort _ _ _) c d l h = omega arith
EndsAfterStart-mono (WalTransactionState.opened _) c d l h = tt

pub IsBounded-mono :
    (in_flight : Option ℕ) (k c d : ℕ)
    → c ≤ d
    → (s : WalTransactionState) → IsBounded in_flight k c s
    → IsBounded in_flight k d s
IsBounded-mono in_flight k c d l s b = record {
  kept = b.kept;
  begun = omega (arith, b.begun);
  ends = EndsAfterStart-mono s c d l b.ends;
}

-- What the files of a captured transaction are no longer needed for.
pub IsBounded-in_flight :
    (lsn k w curr : ℕ) (s : WalTransactionState)
    → IsBounded none k curr s
    → (is_uncaptured lsn s ≡ true → w ≤ get_start_file s)
    → IsBounded (some lsn) w curr s
IsBounded-in_flight lsn k w curr s b h = record { kept = h; begun = b.begun; ends = b.ends }

passes_check-IsBounded :
    (lsn w curr : ℕ) (s : WalTransactionState)
    → IsBounded (some lsn) w curr s
    → passes_check s lsn (some w) ≡ true
unfolding passes_check is_captured_in_iceberg_snapshot get_start_file
passes_check-IsBounded lsn w curr (WalTransactionState.commit start c e) b =
    let k = b.kept in let f = b.ends in ground (arith)
passes_check-IsBounded lsn w curr (WalTransactionState.abort start c e) b =
    let k = b.kept in let f = b.ends in ground (arith)
passes_check-IsBounded lsn w curr (WalTransactionState.opened start) b = refl

passes_check-none : (lsn : ℕ) (s : WalTransactionState) → passes_check s lsn none ≡ true
unfolding passes_check
passes_check-none lsn (WalTransactionState.commit _ _ _) = refl
passes_check-none lsn (WalTransactionState.abort _ _ _) = refl
passes_check-none lsn (WalTransactionState.opened _) = refl

all_pass-IsBounded :
    (lsn w curr : ℕ) (kept : Option ℕ) (xs : List WalTransactionState)
    → (kept ≡ none) ⊎ (kept ≡ some w)
    → All (IsBounded (some lsn) w curr) xs
    → all_pass lsn kept xs ≡ true
unfolding all_pass
all_pass-IsBounded lsn w curr kept [] c h = refl
all_pass-IsBounded lsn w curr kept (s ∷ xs) (inl e) h =
    rw (e, passes_check-none lsn s) (all_pass-IsBounded lsn w curr kept xs (inl e) h.1)
all_pass-IsBounded lsn w curr kept (s ∷ xs) (inr e) h =
    rw (e, passes_check-IsBounded lsn w curr s h.0)
      (all_pass-IsBounded lsn w curr kept xs (inr e) h.1)

values-retain :
    (p : WalTransactionState → Bool) (m : List (ℕ × WalTransactionState))
    → values (retain (λ e. p e.1) m) ≡ retain p (values m)
values-retain p [] = refl
values-retain p ((x, s) ∷ m) = elim (Bool-cases (p s)) [
  | inl e ↦ rw e (ap (◌∷◌ s) (values-retain p m))
  | inr e ↦ rw e (values-retain p m)
]

cons-MainShape :
    (s : WalTransactionState) (xs : List WalTransactionState)
    → IsCommit s
    → MainShape xs
    → MainShape (s ∷ xs)
cons-MainShape (WalTransactionState.commit _ _ _) [] c h = tt
cons-MainShape (WalTransactionState.abort _ _ _) [] c h = c
cons-MainShape (WalTransactionState.opened _) [] c h = tt
cons-MainShape s (t ∷ xs) c h = (c, h)

MainShape-retain :
    (p : WalTransactionState → Bool) (xs : List WalTransactionState)
    → MainShape xs
    → MainShape (retain p xs)
MainShape-retain p [] h = tt
MainShape-retain p (s ∷ []) h = elim (Bool-cases (p s)) [ inl e ↦ rw e h | inr e ↦ rw e tt ]
MainShape-retain p (s ∷ t ∷ xs) h = elim (Bool-cases (p s)) [
  | inl e ↦
      subst MainShape (sym (kept-head s (t ∷ xs) e))
        (cons-MainShape s (retain p (t ∷ xs)) h.0 (MainShape-retain p (t ∷ xs) h.1))
  | inr e ↦ subst MainShape (sym (dropped-head s (t ∷ xs) e)) (MainShape-retain p (t ∷ xs) h.1)
]
  where
    kept-head :
        (s : WalTransactionState) (xs : List WalTransactionState)
        → p s ≡ true
        → retain p (s ∷ xs) ≡ s ∷ retain p xs
    kept-head s xs e = rw e refl

    dropped-head :
        (s : WalTransactionState) (xs : List WalTransactionState)
        → p s ≡ false
        → retain p (s ∷ xs) ≡ retain p xs
    dropped-head s xs e = rw e refl

Ascending-retain :
    (p : WalTransactionState → Bool) (xs : List WalTransactionState)
    → Ascending xs
    → Ascending (retain p xs)
Ascending-retain p [] h = tt
Ascending-retain p (s ∷ xs) h = elim (Bool-cases (p s)) [
  | inl e ↦
      rw e
        (All-retain (λ t. get_start_file s ≤ get_start_file t) p xs h.0, Ascending-retain p xs h.1)
  | inr e ↦ rw e (Ascending-retain p xs h.1)
]

-- What the snapshot has not captured needs its files.
retain-IsBounded :
    (lsn w curr : ℕ) (xs : List WalTransactionState)
    → All (IsBounded (some lsn) w curr) xs
    → All (IsBounded none w curr) (retain (is_uncaptured lsn) xs)
retain-IsBounded lsn w curr [] h = tt
retain-IsBounded lsn w curr (s ∷ xs) h = elim (Bool-cases (is_uncaptured lsn s)) [
  | inl e ↦ rw e (
    record { kept = λ _. h.0.kept e; begun = h.0.begun; ends = h.0.ends },
    retain-IsBounded lsn w curr xs h.1,
  )
  | inr e ↦ rw e (retain-IsBounded lsn w curr xs h.1)
]

-- The manager without the transactions that the snapshot has captured.
abbrev pub cleaned : {R : Type 0} → (persistence_snapshot_lsn : ℕ) → WalManager R → WalManager R
cleaned lsn m = record m {
  active_transactions = retain (λ e. is_uncaptured lsn e.1) m.active_transactions;
  main_transaction_tracker = retain (is_uncaptured lsn) m.main_transaction_tracker;
}

module _ {R : Type 0} (lsn w : ℕ) (m : WalManager R) (v : IsTracked (some lsn) w m) where
  open m use {curr_file_number, active_transactions, main_transaction_tracker}

  -- The clean-up fails no assertion, and keeps what the snapshot has not captured.
  pub compute_cleanedup_xacts-done :
      (deleted : List WalFileInfo)
      → (lowest_file_kept deleted ≡ none) ⊎ (lowest_file_kept deleted ≡ some w)
      → compute_cleanedup_xacts m (some lsn) deleted
        ≡ done ((cleaned lsn m).active_transactions, (cleaned lsn m).main_transaction_tracker)
  unfolding compute_cleanedup_xacts
  compute_cleanedup_xacts-done deleted c =
      rw
        (
          all_pass-IsBounded lsn w curr_file_number (lowest_file_kept deleted)
              (values active_transactions) c v.streaming,
          all_pass-IsBounded lsn w curr_file_number (lowest_file_kept deleted)
              main_transaction_tracker c v.main,
        )
        refl

  -- After the clean-up every tracked transaction needs its files.
  pub cleaned-IsTracked : IsTracked none w (cleaned lsn m)
  cleaned-IsTracked = record {
    current = v.current;
    streaming =
        subst (All (IsBounded none w curr_file_number))
          (sym (values-retain (is_uncaptured lsn) active_transactions))
          (retain-IsBounded lsn w curr_file_number (values active_transactions) v.streaming);
    main = retain-IsBounded lsn w curr_file_number main_transaction_tracker v.main;
    shape = MainShape-retain (is_uncaptured lsn) main_transaction_tracker v.shape;
    ascending = Ascending-retain (is_uncaptured lsn) main_transaction_tracker v.ascending;
  }
