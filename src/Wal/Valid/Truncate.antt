-- ===== src/Wal/Valid/Truncate.antt =====
-- What truncation keeps and deletes (storage/wal.rs, `get_files_to_truncate`).
use moonlink.Base.{
  ℕ, ◌≤◌, ◌≡◌, refl, inl, inr, Bool, true, none, some, List, [], ◌∷◌, ◌++◌, map, arith, min, retain,
  find?, All, All-append, All-map, values, Option-cases, Bool-cases, sym, subst, ◌∙◌,
}
use mathlib.Core.Bool.{false≢true}
use moonlink.Wal.Transaction.{WalTransactionState, get_start_file}
use moonlink.Wal.Manager.{WalManager}
use moonlink.Wal.Truncate.{
  minimum?, or_else, start_of, is_uncaptured, files_to_keep, get_lowest_file_to_keep,
}
use moonlink.Wal.Valid.{IsBounded, Ascending, IsTracked}

minimum?-cons : (x : ℕ) (xs : List ℕ) → (y : ℕ) × (minimum? (x ∷ xs) ≡ some y)
minimum?-cons x xs = elim (Option-cases (minimum? xs)) [
  | inl e ↦ (x, rw e refl)
  | inr (z, e) ↦ (min x z, rw e refl)
]

-- The least entry, or a default if there is none, is below every entry.
minimum?-le : (d : ℕ) (xs : List ℕ) → All (λ x. or_else (minimum? xs) d ≤ x) xs
minimum?-le d [] = tt
minimum?-le d (x ∷ []) = (omega arith, tt)
minimum?-le d (x ∷ y ∷ xs) =
    let (z, e) = minimum?-cons y xs in
    let least : All (λ w. z ≤ w) (y ∷ xs) =
      subst (λ o. All (λ w. or_else o d ≤ w) (y ∷ xs)) e (minimum?-le d (y ∷ xs)) in
    subst
      (λ o.
        All (λ w. or_else (elim o [ none ↦ some x | some u ↦ some (min x u) ]) d ≤ w) (x ∷ y ∷ xs))
      (sym e)
      (omega arith, All-map (λ w. z ≤ w) (λ w. min x z ≤ w) (λ w h. omega arith) (y ∷ xs) least)

minimum?-bounds :
    (a b : ℕ) (xs : List ℕ)
    → a ≤ b
    → All (λ x. (a ≤ x) × (x ≤ b)) xs
    → (a ≤ or_else (minimum? xs) b) × (or_else (minimum? xs) b ≤ b)
minimum?-bounds a b [] h p = omega arith
minimum?-bounds a b (x ∷ xs) h p = ground (arith, minimum?-bounds a b xs h p.1)

-- The first entry found begins no later than any other that passes the test.
find?-Ascending :
    (p : WalTransactionState → Bool) (xs : List WalTransactionState)
    → Ascending xs
    → (y : ℕ) → All (λ x. y ≤ x) (start_of (find? p xs))
    → All (λ s. p s ≡ true → y ≤ get_start_file s) xs
find?-Ascending p [] h y b = tt
find?-Ascending p (x ∷ xs) h y b = elim (Bool-cases (p x)) [
  | inl e ↦
      let first : y ≤ get_start_file x = (rw e at b).0 in
      (
        λ _. first,
        All-map (λ s. get_start_file x ≤ get_start_file s) (λ s. p s ≡ true → y ≤ get_start_file s)
            (λ s l _. omega arith) xs h.0,
      )
  | inr e ↦ (λ t. absurd (false≢true (sym e ∙ t)), find?-Ascending p xs h.1 y (rw e at b))
]

-- The starts of those entries that pass a test.
starts-retain :
    (p : WalTransactionState → Bool) (xs : List WalTransactionState) (y : ℕ)
    → All (λ x. y ≤ x) (map get_start_file (retain p xs))
    → All (λ s. p s ≡ true → y ≤ get_start_file s) xs
starts-retain p [] y h = tt
starts-retain p (x ∷ xs) y h = elim (Bool-cases (p x)) [
  | inl e ↦
      let h' : All (λ z. y ≤ z) (get_start_file x ∷ map get_start_file (retain p xs)) = rw e at h in
      (λ _. h'.0, starts-retain p xs y h'.1)
  | inr e ↦ (λ t. absurd (false≢true (sym e ∙ t)), starts-retain p xs y (rw e at h))
]

module _ (k curr : ℕ) where
  abbrev Between : ℕ → Type 0
  Between x = (k ≤ x) × (x ≤ curr)

  starts-bounds :
      (p : WalTransactionState → Bool) (xs : List WalTransactionState)
      → All (IsBounded none k curr) xs
      → All Between (map get_start_file (retain p xs))
  starts-bounds p [] h = tt
  starts-bounds p (x ∷ xs) h = elim (Bool-cases (p x)) [
    | inl e ↦ rw e ((h.0.kept refl, h.0.begun), starts-bounds p xs h.1)
    | inr e ↦ rw e (starts-bounds p xs h.1)
  ]

  found-bounds :
      (p : WalTransactionState → Bool) (xs : List WalTransactionState)
      → All (IsBounded none k curr) xs
      → All Between (start_of (find? p xs))
  found-bounds p [] h = tt
  found-bounds p (x ∷ xs) h = elim (Bool-cases (p x)) [
    | inl e ↦ rw e ((h.0.kept refl, h.0.begun), tt)
    | inr e ↦ rw e (found-bounds p xs h.1)
  ]

All-split : (P : ℕ → Type 0) (xs ys : List ℕ) → All P (xs ++ ys) → All P xs × All P ys
All-split P [] ys h = (tt, h)
All-split P (x ∷ xs) ys h = let (l, r) = All-split P xs ys h.1 in ((h.0, l), r)

-- If the snapshot has not captured the transaction, its first file is kept.
abbrev pub KeepsStart : {R : Type 0} → WalManager R → (lsn : ℕ) → WalTransactionState → Type 0
KeepsStart m lsn s = is_uncaptured lsn s ≡ true → get_lowest_file_to_keep m lsn ≤ get_start_file s

-- Every streaming transaction that the snapshot has not captured began in the lowest file to keep or
-- in a later one, and so did the main transactions that truncation finds.
pub lowest-le-starts :
    {R : Type 0} (m : WalManager R) (lsn : ℕ)
    → All (KeepsStart m lsn) (values m.active_transactions)
      × All
          (λ x. get_lowest_file_to_keep m lsn ≤ x)
          (start_of (find? (is_uncaptured lsn) m.main_transaction_tracker))
unfolding get_lowest_file_to_keep
lowest-le-starts m lsn =
    let (streaming, main) =
      All-split (λ x. get_lowest_file_to_keep m lsn ≤ x)
        (map get_start_file (retain (is_uncaptured lsn) (values m.active_transactions)))
        (start_of (find? (is_uncaptured lsn) m.main_transaction_tracker))
        (minimum?-le m.curr_file_number (files_to_keep m lsn)) in
    (starts-retain (is_uncaptured lsn) (values m.active_transactions) _ streaming, main)

module _ {R : Type 0} (k : ℕ) (m : WalManager R) (lsn : ℕ) (v : IsTracked none k m) where
  open m use {curr_file_number, active_transactions, main_transaction_tracker}

  -- The lowest file to keep is no older than the oldest kept file, nor newer than the current one.
  pub lowest-bounds :
      (k ≤ get_lowest_file_to_keep m lsn) × (get_lowest_file_to_keep m lsn ≤ curr_file_number)
  unfolding get_lowest_file_to_keep
  lowest-bounds = minimum?-bounds k curr_file_number (files_to_keep m lsn) v.current (
      All-append (Between k curr_file_number)
        (map get_start_file (retain (is_uncaptured lsn) (values active_transactions)))
        (start_of (find? (is_uncaptured lsn) main_transaction_tracker))
        (starts-bounds k curr_file_number _ (values active_transactions) v.streaming)
        (found-bounds k curr_file_number _ main_transaction_tracker v.main))

  -- Every transaction that the snapshot has not captured, streaming or main, began in the lowest
  -- file to keep or in a later one.
  pub lowest-le-uncaptured :
      All (KeepsStart m lsn) (values active_transactions)
      × All (KeepsStart m lsn) main_transaction_tracker
  lowest-le-uncaptured =
      let (streaming, main) = lowest-le-starts m lsn in
      (streaming, find?-Ascending (is_uncaptured lsn) main_transaction_tracker v.ascending _ main)
