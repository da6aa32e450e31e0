-- ===== src/Handler/Alter.antt =====
-- The life of a blocking operation.
use moonlink.Base.{
  ℕ, max, ◌≤◌, ◌<◌, ◌≡◌, refl, true, false, Option, none, some, done, panics, Panic, arith, ◌>>◌,
  assert, leb, ◌==◌,
}
use moonlink.Handler.State.{TableHandlerState, SpecialTableState}
use moonlink.Handler.Blocking.{
  raised, is_in_blocking_state, mark_drop_table, start_alter_table, should_complete_alter_table,
  finish_alter_table, start_initial_copy, finish_initial_copy,
}

pub raised-bounds : (old : Option ℕ) (lsn : ℕ) → (l : ℕ) × (raised old lsn ≡ some l) × (lsn ≤ l)
raised-bounds none lsn = (lsn, refl, omega arith)
raised-bounds (some old) lsn = (max old lsn, refl, omega arith)

assert-at : (view : ℕ) → (assert (leb view view) >> done (view == view)) ≡ done true
assert-at view =
    let within : leb view view ≡ true = ground arith in
    let same : (view == view) ≡ true = ground arith in rw (within, same) refl

assert-before : (view p : ℕ) → p < view → (assert (leb p view) >> done (p == view)) ≡ done false
assert-before view p l =
    let within : leb p view ≡ true = ground arith in
    let other : (p == view) ≡ false = ground arith in rw (within, other) refl

module _ {Q V : Type 0} where
  -- While one blocking operation is in progress, the methods that mark the start of one, to drop the
  -- table, to alter it or to copy it, fail an assertion.
  pub blocking-exclusive :
      (s : TableHandlerState Q V) (request : Q)
      → is_in_blocking_state s ≡ true
      → (mark_drop_table s ≡ panics Panic.assertion_failed)
        × (start_alter_table s request ≡ panics Panic.assertion_failed)
        × (start_initial_copy s ≡ panics Panic.assertion_failed)
  unfolding is_in_blocking_state mark_drop_table start_alter_table start_initial_copy
  blocking-exclusive s request h = ground arith

  -- In a normal state with a consistent view at `view`, an alteration starts: it blocks the table,
  -- asks for a snapshot at `view` or later, completes with a snapshot at `view` and with none before
  -- it, and its end leaves a state that no operation blocks.
  pub start_alter_table-completes :
      (s : TableHandlerState Q V) (request : Q) (view : ℕ)
      → s.special_table_state ≡ SpecialTableState.normal
      → s.table_consistent_view_lsn ≡ some view
      → (s' : TableHandlerState Q V) × (s'' : TableHandlerState Q V) × (largest : ℕ)
        × (start_alter_table s request ≡ done s')
        × (is_in_blocking_state s' ≡ true)
        × (s'.largest_force_snapshot_lsn ≡ some largest)
        × (view ≤ largest)
        × (should_complete_alter_table s' view ≡ done true)
        × ((p : ℕ) → p < view → should_complete_alter_table s' p ≡ done false)
        × (finish_alter_table s' ≡ done s'')
        × (is_in_blocking_state s'' ≡ false)
  unfolding start_alter_table is_in_blocking_state should_complete_alter_table finish_alter_table
  start_alter_table-completes s request view normal at_view =
      let (largest, raises, above) = raised-bounds s.largest_force_snapshot_lsn view in
      (
        record s {
          largest_force_snapshot_lsn = raised s.largest_force_snapshot_lsn view;
          special_table_state = SpecialTableState.alter_table view (some request);
        },
        record s {
          largest_force_snapshot_lsn = raised s.largest_force_snapshot_lsn view;
          special_table_state = SpecialTableState.normal;
        },
        largest,
        rw (at_view, normal) refl,
        refl,
        raises,
        above,
        assert-at view,
        assert-before view,
        refl,
        refl,
      )

  -- In a normal state an initial copy starts: it blocks the table, and its end at `lsn` leaves a
  -- state that no operation blocks, with a consistent view and a latest commit at `lsn`.
  start_initial_copy-finishes :
      (s : TableHandlerState Q V) (lsn : ℕ)
      → s.special_table_state ≡ SpecialTableState.normal
      → (s' : TableHandlerState Q V) × (s'' : TableHandlerState Q V) × (start_initial_copy s
          ≡ done s')
        × (is_in_blocking_state s' ≡ true)
        × (finish_initial_copy s' lsn ≡ done s'')
        × (is_in_blocking_state s'' ≡ false)
        × (s''.table_consistent_view_lsn ≡ some lsn)
        × (s''.latest_commit_lsn ≡ some lsn)
  unfolding start_initial_copy finish_initial_copy is_in_blocking_state
  start_initial_copy-finishes s lsn normal = (
    record s { special_table_state = SpecialTableState.initial_copy },
    record s {
      special_table_state = SpecialTableState.normal;
      latest_commit_lsn = some lsn;
      table_consistent_view_lsn = some lsn;
    },
    rw normal refl,
    refl,
    refl,
    refl,
    refl,
    refl,
  )
