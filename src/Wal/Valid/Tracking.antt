-- ===== src/Wal/Valid/Tracking.antt =====
-- An event enters the trackers of the manager (storage/wal.rs, `update_transaction_tracking`).
use moonlink.Base.{
  ℕ, ◌≤◌, ◌≡◌, refl, inl, inr, true, Option, none, some, List, [], ◌∷◌, ◌++◌, done, arith, All,
  lookup, insert, All-insert, All-lookup, All-append, All-map, All-last, All-drop_last, drop_last,
  ap,
}
use moonlink.Event.{TableEvent}
use moonlink.Wal.Transaction.{WalTransactionState, get_start_file, is_captured_in_iceberg_snapshot}
use moonlink.Wal.Manager.{
  WalManager, tracked_xact_id, state_or_open, track_streaming, track_main,
  update_transaction_tracking,
}
use moonlink.Wal.Valid.{
  IsBounded, IsTracked, IsLogged, IsOpenOrNew, IsCommit, Ascending, needs_files,
  get_updated_xact_state-IsBounded,
}
use moonlink.Wal.Valid.Main.{
  Taken, take_open_state-cases, merge_with_last-cases, append-MainShape, append-Ascending,
  All-shortened, Ascending-shortened, Ascending-drop_last, Ascending-last,
}

abbrev pub IsFresh : Option ℕ → List (ℕ × WalTransactionState) → Type 0
IsFresh none xacts = Unit
IsFresh (some x) xacts = IsOpenOrNew (lookup x xacts)

-- What no event changes.
pub record SameFiles {R : Type 0} (m m' : WalManager R) : Type 0 where
  pub live : m'.live_wal_files_tracker ≡ m.live_wal_files_tracker
  pub current : m'.curr_file_number ≡ m.curr_file_number
  pub table : m'.mooncake_table_id ≡ m.mooncake_table_id
  pub buffer : m'.in_mem_buf ≡ m.in_mem_buf
  pub highest : m'.highest_completion_lsn ≡ m.highest_completion_lsn

open-needs_files :
    (in_flight : Option ℕ) (start : ℕ)
    → needs_files in_flight (WalTransactionState.opened start) ≡ true
unfolding is_captured_in_iceberg_snapshot
open-needs_files none start = refl
open-needs_files (some lsn) start = refl

opened-bounds :
    (in_flight : Option ℕ) (k curr start : ℕ)
    → IsBounded in_flight k curr (WalTransactionState.opened start)
    → (k ≤ start) × (start ≤ curr)
unfolding get_start_file
opened-bounds in_flight k curr start b = (b.kept (open-needs_files in_flight start), b.begun)

module _ {R P E : Type 0} (in_flight : Option ℕ) (k : ℕ) (m : WalManager R)
    (event : TableEvent R P E) (logged : IsLogged event) (v : IsTracked in_flight k m) where
  open m use {curr_file_number, highest_completion_lsn, active_transactions}

  track_streaming-IsTracked :
      (x : ℕ)
      → IsOpenOrNew (lookup x active_transactions)
      → (m' : WalManager R) × (track_streaming m event x ≡ done m')
        × IsTracked in_flight k m'
        × SameFiles m m'
  unfolding track_streaming
  track_streaming-IsTracked x fresh = go (lookup x active_transactions) refl fresh
    where
      from :
          (start : ℕ)
          → k ≤ start
          → start ≤ curr_file_number
          → state_or_open (lookup x active_transactions) curr_file_number
            ≡ WalTransactionState.opened start
          → (m' : WalManager R) × (track_streaming m event x ≡ done m')
            × IsTracked in_flight k m'
            × SameFiles m m'
      from start h c e =
          let (s, computed, bounded, _, _) =
            get_updated_xact_state-IsBounded in_flight k highest_completion_lsn curr_file_number
              event start logged h c in
          (
            record m { active_transactions = insert x s active_transactions },
            rw (e, computed) refl,
            record {
              current = v.current;
              streaming = All-insert _ x s active_transactions bounded v.streaming;
              main = v.main;
              shape = v.shape;
              ascending = v.ascending;
            },
            record { live = refl; current = refl; table = refl; buffer = refl; highest = refl },
          )

      go :
          (o : Option WalTransactionState)
          → lookup x active_transactions ≡ o
          → IsOpenOrNew o
          → (m' : WalManager R) × (track_streaming m event x ≡ done m')
            × IsTracked in_flight k m'
            × SameFiles m m'
      go none e f =
          from curr_file_number v.current (omega arith)
            (ap (λ o. state_or_open o curr_file_number) e)
      go (some (WalTransactionState.opened start)) e f =
          let b =
            opened-bounds in_flight k curr_file_number start
              (All-lookup _ x active_transactions v.streaming e) in
          from start b.0 b.1 (ap (λ o. state_or_open o curr_file_number) e)
      go (some (WalTransactionState.commit _ _ _)) e f = absurd f
      go (some (WalTransactionState.abort _ _ _)) e f = absurd f

  track_main-IsTracked :
      tracked_xact_id event ≡ none
      → (m' : WalManager R) × (track_main m event ≡ done m')
        × IsTracked in_flight k m'
        × SameFiles m m'
  unfolding track_main
  track_main-IsTracked e =
      let (start, rest, taken, left, commits) =
        take_open_state-cases m.main_transaction_tracker curr_file_number v.shape in
      let (l, c, fit, before, sorted) = left_over start rest left in
      let (s, computed, fits, shape, begins) =
        get_updated_xact_state-IsBounded in_flight k highest_completion_lsn curr_file_number event
          start logged l c in
      let (merged, joined, shorter) = merge_with_last-cases s rest commits in
      (
        record m { main_transaction_tracker = merged ++ (s ∷ []) },
        rw (taken, computed, joined) refl,
        record {
          current = v.current;
          streaming = v.streaming;
          main =
              All-append bounded merged (s ∷ []) (All-shortened bounded rest merged shorter fit)
                (fits, tt);
          shape =
              append-MainShape merged s (All-shortened IsCommit rest merged shorter commits)
                (shape e);
          ascending =
              append-Ascending merged s (Ascending-shortened rest merged shorter sorted)
                (rw begins (All-shortened (begins_by start) rest merged shorter before));
        },
        record { live = refl; current = refl; table = refl; buffer = refl; highest = refl },
      )
    where
      bounded : WalTransactionState → Type 0
      bounded = IsBounded in_flight k curr_file_number

      begins_by : ℕ → WalTransactionState → Type 0
      begins_by start t = get_start_file t ≤ start

      left_over :
          (start : ℕ) (rest : List WalTransactionState)
          → Taken m.main_transaction_tracker curr_file_number start rest
          → (k ≤ start)
            × (start ≤ curr_file_number)
            × All bounded rest
            × All (begins_by start) rest
            × Ascending rest
      left_over start rest (inl (n, e)) = (
        omega (arith, v.current),
        omega arith,
        rw e v.main,
        rw (e, n)
            (All-map bounded (begins_by curr_file_number) (λ t b. b.begun)
              m.main_transaction_tracker v.main),
        rw e v.ascending,
      )
      left_over start rest (inr (last, e)) =
          let b =
            opened-bounds in_flight k curr_file_number start
              (All-last bounded m.main_transaction_tracker v.main last) in
          (
            b.0,
            b.1,
            rw e (All-drop_last bounded m.main_transaction_tracker v.main),
            rw e (start_is (Ascending-last m.main_transaction_tracker v.ascending last)),
            rw e (Ascending-drop_last m.main_transaction_tracker v.ascending),
          )
        where
          start_is :
              All
                (λ t. get_start_file t ≤ get_start_file (WalTransactionState.opened start))
                (drop_last m.main_transaction_tracker)
              → All (begins_by start) (drop_last m.main_transaction_tracker)
          start_is h = unfold get_start_file in h

  pub update_transaction_tracking-IsTracked :
      IsFresh (tracked_xact_id event) active_transactions
      → (m' : WalManager R) × (update_transaction_tracking m event ≡ done m')
        × IsTracked in_flight k m'
        × SameFiles m m'
  unfolding update_transaction_tracking
  update_transaction_tracking-IsTracked fresh = go (tracked_xact_id event) refl fresh
    where
      go :
          (o : Option ℕ)
          → tracked_xact_id event ≡ o
          → IsFresh o active_transactions
          → (m' : WalManager R) × (update_transaction_tracking m event ≡ done m')
            × IsTracked in_flight k m'
            × SameFiles m m'
      go none e f = rw (e, update_transaction_tracking) (track_main-IsTracked e)
      go (some x) e f = rw (e, update_transaction_tracking) (track_streaming-IsTracked x f)
