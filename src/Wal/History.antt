-- ===== src/Wal/History.antt =====
-- The log over time: events arrive, an update is prepared, and its result comes back, in any order
-- that the table handler allows (at most one update is in flight). The history remembers in which
-- file each streaming event lies, until its transaction is no longer tracked.
pub mod Covered
pub mod Sound
pub mod Safety
use moonlink.Base.{
  ℕ, ◌≤◌, ◌<◌, ◌≡◌, ◌≢◌, refl, ◌⊎◌, inl, inr, Bool, true, false, Option, none, some, List, [], ◌∷◌,
  Outcome, done, ◌>>=◌, ◌>>◌, assert, >>=-eq-done, arith, ◌==◌, if◌then◌else◌, All, All-map, lookup,
  insert, values, lookup-insert, All-lookup, retain, Bool-cases, Option-cases, sym, ap, subst, ◌∙◌,
}
use moonlink.Base.Words.{u64_max}
use moonlink.Event.{TableEvent, is_some}
use moonlink.Wal.Transaction.{WalTransactionState, get_start_file}
use moonlink.Wal.Manager.{WalFileInfo, WalManager, new, tracked_xact_id, push}
use moonlink.Wal.Persist.{PreparePersistentUpdate, prepare_persistent_update}
use moonlink.Wal.Complete.{handle_complete_wal_persistence_update}
use moonlink.Wal.Valid.{Numbered, IsBounded, IsTracked, needs_files}
use moonlink.Wal.Valid.Push.{Accepts}

-- A streaming event: the file that holds it or will hold it, and its transaction.
pub record Entry : Type 0 where
  pub file : ℕ
  pub xact_id : ℕ

pub record History (R : Type 0) : Type 0 where
  pub manager : WalManager R
  pub in_flight : Option (PreparePersistentUpdate R)
  pub entries : List Entry

abbrev pub note : Option ℕ → (file : ℕ) → List Entry → List Entry
note none file entries = entries
note (some x) file entries = record { file = file; xact_id = x } ∷ entries

abbrev pub still_tracked : List (ℕ × WalTransactionState) → List Entry → List Entry
still_tracked xacts = retain (λ e. is_some (lookup e.xact_id xacts))

pub data Step (R P E : Type 0) (h h' : History R) : Type 0 where
  pushes :
      (event : TableEvent R P E) (m : WalManager R)
      → Accepts h.manager event
      → push h.manager event ≡ done m
      → h' ≡ record {
        manager = m;
        in_flight = h.in_flight;
        entries = note (tracked_xact_id event) h.manager.curr_file_number h.entries;
      }
      → Step R P E h h'
  prepares :
      (lsn : Option ℕ) (m : WalManager R) (u : PreparePersistentUpdate R)
      → h.in_flight ≡ none
      → h.manager.curr_file_number < u64_max
      → prepare_persistent_update h.manager lsn ≡ done (m, u)
      → h' ≡ record { manager = m; in_flight = some u; entries = h.entries }
      → Step R P E h h'
  completes :
      (u : PreparePersistentUpdate R) (m : WalManager R) (highest : Option ℕ)
      → h.in_flight ≡ some u
      → handle_complete_wal_persistence_update h.manager u ≡ done (m, highest)
      → h' ≡ record {
        manager = m;
        in_flight = none;
        entries = still_tracked m.active_transactions h.entries;
      }
      → Step R P E h h'

-- What is reached from a manager of which no event is remembered.
pub data Reach (R P E : Type 0) (first : WalManager R) : History R → Type 0 where
  start : Reach R P E first (record { manager = first; in_flight = none; entries = [] })
  next : {h h' : History R} → Reach R P E first h → Step R P E h h' → Reach R P E first h'
