-- ===== src/Wal/Valid/Main.antt =====
-- The shape of the main transaction's tracker.
use moonlink.Base.{
  ℕ, ◌≤◌, ◌≡◌, refl, ◌⊎◌, inl, inr, true, false, none, some, List, [], ◌∷◌, ◌++◌, done, arith,
  last?, drop_last, All, All-last, All-drop_last, All-append, Option-cases, Bool-cases, ◌==◌, ◌≢◌,
  ap, ◌∙◌,
}
use moonlink.Wal.Transaction.{WalTransactionState, get_start_file, is_closed}
use moonlink.Wal.Manager.{take_open_state, merge_with_last}
use moonlink.Wal.Valid.{IsCommit, NotAbort, MainShape, Ascending}

MainShape-drop_last : (xs : List WalTransactionState) → MainShape xs → All IsCommit (drop_last xs)
MainShape-drop_last [] h = tt
MainShape-drop_last (s ∷ []) h = tt
MainShape-drop_last (s ∷ t ∷ xs) h = (h.0, MainShape-drop_last (t ∷ xs) h.1)

closed-IsCommit : (s : WalTransactionState) → NotAbort s → is_closed s ≡ true → IsCommit s
unfolding is_closed
closed-IsCommit (WalTransactionState.commit _ _ _) h e = tt
closed-IsCommit (WalTransactionState.abort _ _ _) h e = h
closed-IsCommit (WalTransactionState.opened _) h e = absurd (cc)

MainShape-closed :
    (xs : List WalTransactionState) (s : WalTransactionState)
    → MainShape xs
    → last? xs ≡ some s
    → is_closed s ≡ true
    → All IsCommit xs
MainShape-closed [] s h e c = tt
MainShape-closed (x ∷ []) s h e c = (closed-IsCommit x h (ground arith), tt)
MainShape-closed (x ∷ y ∷ xs) s h e c = (h.0, MainShape-closed (y ∷ xs) s h.1 e c)

MainShape-none : (xs : List WalTransactionState) → last? xs ≡ none → All IsCommit xs
MainShape-none [] e = tt
MainShape-none (x ∷ []) e = absurd (cc)
MainShape-none (x ∷ y ∷ xs) e = absurd (last-cons y xs e)
  where
    last-cons : (y : WalTransactionState) (xs : List WalTransactionState) → last? (y ∷ xs) ≢ none
    last-cons y [] e = cc
    last-cons y (z ∷ xs) e = last-cons z xs e

open_state :
    (s : WalTransactionState)
    → is_closed s ≡ false
    → (start : ℕ) × (s ≡ WalTransactionState.opened start) × (get_start_file s ≡ start)
unfolding is_closed get_start_file
open_state (WalTransactionState.commit _ _ _) e = absurd (cc)
open_state (WalTransactionState.abort _ _ _) e = absurd (cc)
open_state (WalTransactionState.opened start) e = (start, refl, refl)

pub append-MainShape :
    (xs : List WalTransactionState) (s : WalTransactionState)
    → All IsCommit xs
    → NotAbort s
    → MainShape (xs ++ (s ∷ []))
append-MainShape [] s c h = h
append-MainShape (x ∷ []) s c h = (c.0, h)
append-MainShape (x ∷ y ∷ xs) s c h = (c.0, append-MainShape (y ∷ xs) s c.1 h)

-- What is left of the tracker, and the open entry that an event extends: a new one in the current
-- file, or the last one.
abbrev pub Taken : List WalTransactionState → (curr start : ℕ) → List WalTransactionState → Type 0
Taken tracker curr start rest =
    ((start ≡ curr) × (rest ≡ tracker))
    ⊎ ((last? tracker ≡ some (WalTransactionState.opened start)) × (rest ≡ drop_last tracker))

-- The entry that an event of the main transaction extends is open, and only commits stay behind.
pub take_open_state-cases :
    (tracker : List WalTransactionState) (curr : ℕ)
    → MainShape tracker
    → (start : ℕ) × (rest : List WalTransactionState) × (take_open_state tracker curr
        ≡ (WalTransactionState.opened start, rest))
      × Taken tracker curr start rest
      × All IsCommit rest
unfolding take_open_state
take_open_state-cases tracker curr shape = elim (Option-cases (last? tracker)) [
  | inl e ↦
      (curr, tracker, rw (e, take_open_state) refl, inl (refl, refl), MainShape-none tracker e)
  | inr (s, e) ↦ elim (Bool-cases (is_closed s)) [
    | inl c ↦ (
      curr,
      tracker,
      rw (e, take_open_state, c) refl,
      inl (refl, refl),
      MainShape-closed tracker s shape e c,
    )
    | inr c ↦
        let (start, o, _) = open_state s c in
        (
          start,
          drop_last tracker,
          rw (e, take_open_state, c) (ap (λ t. (t, drop_last tracker)) o),
          inr (e ∙ ap some o, refl),
          MainShape-drop_last tracker shape,
        )
  ]
]

-- Merging never meets an entry that is no commit, and removes at most the last one.
pub merge_with_last-cases :
    (s : WalTransactionState) (rest : List WalTransactionState)
    → All IsCommit rest
    → (merged : List WalTransactionState) × (merge_with_last s rest ≡ done merged)
      × ((merged ≡ rest) ⊎ (merged ≡ drop_last rest))
unfolding merge_with_last
merge_with_last-cases (WalTransactionState.abort _ _ _) rest c = (rest, refl, inl refl)
merge_with_last-cases (WalTransactionState.opened _) rest c = (rest, refl, inl refl)
merge_with_last-cases (WalTransactionState.commit begun lsn file_end) rest c =
    elim (Option-cases (last? rest)) [
      | inl e ↦ (rest, rw (e, merge_with_last) refl, inl refl)
      | inr (s, e) ↦ merge_at s e (All-last IsCommit rest c e)
    ]
  where
    merge_at :
        (s : WalTransactionState)
        → last? rest ≡ some s
        → IsCommit s
        → (merged : List WalTransactionState) × (merge_with_last
              (WalTransactionState.commit begun lsn file_end)
              rest
            ≡ done merged)
          × ((merged ≡ rest) ⊎ (merged ≡ drop_last rest))
    merge_at (WalTransactionState.commit start _ _) e i = elim (Bool-cases (start == file_end)) [
      | inl same ↦ (drop_last rest, rw (e, merge_with_last, same) refl, inr refl)
      | inr other ↦ (rest, rw (e, merge_with_last, other) refl, inl refl)
    ]
    merge_at (WalTransactionState.abort _ _ _) e i = absurd i
    merge_at (WalTransactionState.opened _) e i = absurd i

-- Dropping a list's last entry, or nothing.
pub All-shortened {κ} :
    (P : WalTransactionState → Type κ) (xs ys : List WalTransactionState)
    → (ys ≡ xs) ⊎ (ys ≡ drop_last xs)
    → All P xs
    → All P ys
All-shortened P xs ys (inl e) h = rw e h
All-shortened P xs ys (inr e) h = rw e (All-drop_last P xs h)

pub Ascending-drop_last : (xs : List WalTransactionState) → Ascending xs → Ascending (drop_last xs)
Ascending-drop_last [] h = tt
Ascending-drop_last (x ∷ []) h = tt
Ascending-drop_last (x ∷ y ∷ xs) h = (
  All-drop_last (λ t. get_start_file x ≤ get_start_file t) (y ∷ xs) h.0,
  Ascending-drop_last (y ∷ xs) h.1,
)

pub Ascending-shortened :
    (xs ys : List WalTransactionState)
    → (ys ≡ xs) ⊎ (ys ≡ drop_last xs)
    → Ascending xs
    → Ascending ys
Ascending-shortened xs ys (inl e) h = rw e h
Ascending-shortened xs ys (inr e) h = rw e (Ascending-drop_last xs h)

-- Every entry before the last began no later than it.
pub Ascending-last :
    (xs : List WalTransactionState) {s : WalTransactionState}
    → Ascending xs
    → last? xs ≡ some s
    → All (λ t. get_start_file t ≤ get_start_file s) (drop_last xs)
Ascending-last [] h e = tt
Ascending-last (x ∷ []) h e = tt
Ascending-last (x ∷ y ∷ xs) h e = (
  All-last (λ t. get_start_file x ≤ get_start_file t) (y ∷ xs) h.0 e,
  Ascending-last (y ∷ xs) h.1 e,
)

pub append-Ascending :
    (xs : List WalTransactionState) (s : WalTransactionState)
    → Ascending xs
    → All (λ t. get_start_file t ≤ get_start_file s) xs
    → Ascending (xs ++ (s ∷ []))
append-Ascending [] s h b = (tt, tt)
append-Ascending (x ∷ xs) s h b = (
  All-append (λ t. get_start_file x ≤ get_start_file t) xs (s ∷ []) h.0 (b.0, tt),
  append-Ascending xs s h.1 b.1,
)
