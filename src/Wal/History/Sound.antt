-- ===== src/Wal/History/Sound.antt =====
-- The invariant of a history, step by step.
use moonlink.Base.{
  ℕ, ◌<◌, ◌≡◌, refl, Option, none, some, List, done, All, Unique, Unique-insert, Unique-retain,
  All-retain, sym, subst, ◌∙◌,
}
use moonlink.Base.Words.{u64_max}
use moonlink.Event.{TableEvent}
use moonlink.Wal.Transaction.{WalTransactionState}
use moonlink.Wal.Manager.{WalManager, tracked_xact_id, push}
use moonlink.Wal.Truncate.{is_uncaptured}
use moonlink.Wal.Persist.{PreparePersistentUpdate, prepare_persistent_update}
use moonlink.Wal.Valid.Push.{Accepts, push-IsTracked}
use moonlink.Wal.Valid.Effect.{done-injective, Retracked, push-Retracked}
use moonlink.Wal.Valid.Update.{IsIdle, IsInFlight, extracted-xacts}
use moonlink.Wal.Valid.Prepare.{first_kept, prepare_persistent_update-IsInFlight}
use moonlink.Wal.Valid.Complete.{
  push-IsInFlight, completed, completed-IsIdle, handle_complete_wal_persistence_update-completed,
}
use moonlink.Wal.History.{Entry, History, still_tracked, Step, pushes, prepares, completes}
use moonlink.Wal.History.Covered.{Phase, Covered, Phase-BegunBy, Covered-Retracked, Covered-retain}

pub record IsSound {R : Type 0} (h : History R) : Type 0 where
  pub phase : Phase h.manager h.in_flight
  pub unique : Unique h.manager.active_transactions
  pub covered : All (Covered h.manager.active_transactions) h.entries

-- What a completed update leaves of the map and of the history's entries.
completed_sound :
    {R : Type 0} (m : WalManager R) (u : PreparePersistentUpdate R) (entries : List Entry)
    → Unique m.active_transactions
    → All (Covered m.active_transactions) entries
    → Unique (completed m u).active_transactions
      × All
          (Covered (completed m u).active_transactions)
          (still_tracked (completed m u).active_transactions entries)
unfolding completed
completed_sound m u entries q c = go u.accompanying_persistence_snapshot_lsn refl
  where
    Sound : List (ℕ × WalTransactionState) → Type 0
    Sound xacts = Unique xacts × All (Covered xacts) (still_tracked xacts entries)

    go :
        (lsn : Option ℕ)
        → u.accompanying_persistence_snapshot_lsn ≡ lsn
        → Sound (completed m u).active_transactions
    go none e = rw (e, completed) (q, All-retain (Covered m.active_transactions) _ entries c)
    go (some lsn) e =
        rw (e, completed)
          (
            Unique-retain (is_uncaptured lsn) m.active_transactions q,
            Covered-retain (is_uncaptured lsn) m.active_transactions entries q c,
          )

module _ {R P E : Type 0} where
  push-Phase :
      (m m' : WalManager R) (u : Option (PreparePersistentUpdate R)) (event : TableEvent R P E)
      → Accepts m event
      → push m event ≡ done m'
      → Phase m u
      → Phase m' u
  push-Phase m m' none event a run (k, v) =
      let (n, run', v', p) = push-IsTracked none k m event a v.tracked in
      (
        k,
        subst (IsIdle k) (done-injective n m' (sym run' ∙ run))
            (record { tracked = v'; live = rw (p.live, p.current) v.live }),
      )
  push-Phase m m' (some u) event a run (k, w, v) =
      let (n, run', v', _) = push-IsInFlight k w m u event a v in
      (k, w, subst (λ n. IsInFlight k w n u) (done-injective n m' (sym run' ∙ run)) v')

Unique-Retracked :
    {R : Type 0} (o : Option ℕ) (m m' : WalManager R)
    → Retracked o m m'
    → Unique m.active_transactions
    → Unique m'.active_transactions
Unique-Retracked none m m' r q = subst Unique (sym r) q
Unique-Retracked (some x) m m' (s, inserted, _) q =
    subst Unique (sym inserted) (Unique-insert x s m.active_transactions q)

-- An idle manager's update is in flight, and the map is as it was.
Prepared : {R : Type 0} → (m : WalManager R) → WalManager R × PreparePersistentUpdate R → Type 0
Prepared m (n, u) =
    (k : ℕ) × (w : ℕ) × IsInFlight k w n u × (n.active_transactions ≡ m.active_transactions)

prepare-Prepared :
    {R : Type 0} (m m' : WalManager R) (u : PreparePersistentUpdate R) (lsn : Option ℕ)
    → Phase m none
    → m.curr_file_number < u64_max
    → prepare_persistent_update m lsn ≡ done (m', u)
    → Prepared m (m', u)
unfolding Prepared
prepare-Prepared m m' u lsn (k, v) small run =
    let (n, t, run', flight, _, _, x) = prepare_persistent_update-IsInFlight k m lsn v small in
    subst (Prepared m) (done-injective (n, t) (m', u) (sym run' ∙ run))
      (k, first_kept k m lsn, flight, extracted-xacts m n t.files_to_persist small x)

module _ {R P E : Type 0} where
  pub Step-IsSound : {h h' : History R} → Step R P E h h' → IsSound h → IsSound h'
  unfolding Prepared
  Step-IsSound {h} {h'} (pushes event m a run e) v =
      let r = push-Retracked h.manager m event run in
      subst IsSound (sym e) (record {
        phase = push-Phase h.manager m h.in_flight event a run v.phase;
        unique = Unique-Retracked (tracked_xact_id event) h.manager m r v.unique;
        covered =
            Covered-Retracked (tracked_xact_id event) h.manager m h.entries r
              (Phase-BegunBy h.manager h.in_flight v.phase) v.covered;
      })
  Step-IsSound {h} {h'} (prepares lsn m u free small run e) v =
      let (k, w, flight, same) =
        prepare-Prepared h.manager m u lsn (subst (Phase h.manager) free v.phase) small run in
      subst IsSound (sym e) (record {
        phase = (k, w, flight);
        unique = subst Unique (sym same) v.unique;
        covered = subst (λ xacts. All (Covered xacts) h.entries) (sym same) v.covered;
      })
  Step-IsSound {h} {h'} (completes u m highest busy run e) v =
      let (k, w, flight) = subst (Phase h.manager) busy v.phase in
      let same =
        handle_complete_wal_persistence_update-completed k w h.manager m u highest flight run in
      let (unique, covered) = completed_sound h.manager u h.entries v.unique v.covered in
      subst IsSound (sym e) (record {
        phase = (w, subst (IsIdle w) same (completed-IsIdle k w h.manager u flight));
        unique = subst (λ n. Unique n.active_transactions) same unique;
        covered =
            subst
              (λ n.
                All (Covered n.active_transactions) (still_tracked n.active_transactions h.entries))
              same covered;
      })
