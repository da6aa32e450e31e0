-- ===== src/Wal/History/Safety.antt =====
-- Truncation and the files of tracked streaming transactions, in histories of the log.
use moonlink.Base.{
  ℕ, ◌+◌, ◌≤◌, ◌≡◌, ◌≢◌, refl, true, none, some, List, [], ◌∷◌, arith, All, Any, All-Any,
  All-lookup, Unique, lookup, sym, subst, ◌∙◌,
}
use mathlib.Core.Option.{some-injective}
use moonlink.Wal.Transaction.{WalTransactionState, get_start_file}
use moonlink.Wal.Manager.{WalFileInfo, WalManager, new}
use moonlink.Wal.Persist.{PreparePersistentUpdate}
use moonlink.Wal.Valid.{Numbered, IsBounded, needs_files}
use moonlink.Wal.Valid.Files.{Numbered-le}
use moonlink.Wal.Valid.Update.{IsIdle}
use moonlink.Wal.History.{Entry, History, Reach, start, next}
use moonlink.Wal.History.Covered.{Phase, Covered}
use moonlink.Wal.History.Sound.{IsSound, Step-IsSound}

-- A new log's manager is idle.
pub new-IsIdle : {R : Type 0} (table : ℕ) → IsIdle {R = R} 0 (new table)
unfolding new
new-IsIdle table = record {
  tracked = record { current = omega arith; streaming = tt; main = tt; shape = tt; ascending = tt };
  live = refl;
}

start-IsSound :
    {R : Type 0} (k : ℕ) (first : WalManager R)
    → IsIdle k first
    → Unique first.active_transactions
    → IsSound (record { manager = first; in_flight = none; entries = [] })
start-IsSound k first v q = record { phase = (k, v); unique = q; covered = tt }

Numbered-below :
    (k w f : ℕ) (files : List WalFileInfo)
    → Numbered k files w
    → w ≤ f
    → All (λ file. file.file_number ≢ f) files
Numbered-below k w f [] h l = tt
Numbered-below k w f (file ∷ files) h l = (
  λ e. absurd (omega (arith, Numbered-le (k + 1) w files h.1)),
  Numbered-below (k + 1) w f files h.1 l,
)

module _ {R P E : Type 0} (k₀ : ℕ) (first : WalManager R) where
  -- Let a history start from an idle manager with each transaction tracked once, as a new log's is and
  -- one that was restored from the metadata of an update, and let the manager accept each event that is
  -- pushed: it is of a kind that the log takes, it is not marked as recovered, commits come in order,
  -- and no event comes of a streaming transaction that is tracked as ended. Then the manager is idle,
  -- with consecutive live files that start no later than any tracked transaction, or an update is in
  -- flight that deletes only files older than each transaction that needs its files; each transaction
  -- is tracked once; and every remembered event's transaction is tracked and began no later than the
  -- event's file.
  pub Reach-IsSound :
      {h : History R}
      → IsIdle k₀ first
      → Unique first.active_transactions
      → Reach R P E first h
      → IsSound h
  Reach-IsSound v q start = start-IsSound k₀ first v q
  Reach-IsSound v q (next r s) = Step-IsSound s (Reach-IsSound v q r)

  -- Let a history start from an idle manager with each transaction tracked once, as a new log's is and
  -- one that was restored from the metadata of an update, and let the manager accept each event that is
  -- pushed: it is of a kind that the log takes, it is not marked as recovered, commits come in order,
  -- and no event comes of a streaming transaction that is tracked as ended. Then, in whatever order
  -- events, updates and their results come: while an update is in flight, a streaming event that was
  -- pushed since the start and whose transaction is tracked and needs its files (its state is not
  -- captured by the update's snapshot, or the update has no snapshot) lies in none of the files that
  -- the update deletes.
  pub truncation_keeps_events :
      {h : History R} (u : PreparePersistentUpdate R) (e : Entry) (s : WalTransactionState)
      → IsIdle k₀ first
      → Unique first.active_transactions
      → Reach R P E first h
      → h.in_flight ≡ some u
      → Any (λ f. f ≡ e) h.entries
      → lookup e.xact_id h.manager.active_transactions ≡ some s
      → needs_files u.accompanying_persistence_snapshot_lsn s ≡ true
      → All (λ file. file.file_number ≢ e.file) u.files_to_delete
  truncation_keeps_events {h} u e s idle unique r busy mem found needs =
      let v = Reach-IsSound idle unique r in
      let (k, w, flight) = subst (Phase h.manager) busy v.phase in
      let (t, found', l) =
        All-Any (Covered h.manager.active_transactions) e h.entries v.covered mem in
      let bounded =
        All-lookup (IsBounded u.accompanying_persistence_snapshot_lsn w h.manager.curr_file_number)
          e.xact_id h.manager.active_transactions flight.tracked.streaming found in
      let same : t ≡ s = some-injective t s (sym found' ∙ found) in
      Numbered-below k w e.file u.files_to_delete flight.deleted
        (omega (arith, bounded.kept needs, subst (λ z. get_start_file z ≤ e.file) same l))
