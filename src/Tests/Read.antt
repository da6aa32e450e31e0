-- ===== src/Tests/Read.antt =====
-- Reads of a table that counts to one at LSN 5.
use moonlink.Base.{
  ℕ, ◌≡◌, refl, inl, inr, false, some, [], ◌∷◌, done, ok, err, arith, leb, if◌then◌else◌,
}
use moonlink.Read.Manager.{
  ReadStateManager, Lsns, SnapshotRead, new, try_read, is_satisfied, snapshot_is_clean,
  wait_for_relevant_lsn_change,
}
use moonlink.Read.Fresh.{Observed}
use moonlink.Read.Answers.{Answered, try_read-Answered}
use moonlink.Read.Waits.{unsatisfied-Unchanged}
use moonlink.Read.Failed.{failed_read-stale}

abbrev counted : ℕ → ℕ
counted l = if leb 5 l then 1 else 0

-- The replication has come to 8; the snapshot does not have the commit of 5, and then it does.
abbrev behind : Lsns
behind = record { snapshot_lsn = 3; commit_lsn = 5; replication_lsn = 8 }

abbrev reached : Lsns
reached = record { snapshot_lsn = 5; commit_lsn = 5; replication_lsn = 8 }

abbrev read : SnapshotRead ℕ ℕ
read = ok (ok 1)

behind-Observed : Observed counted behind
behind-Observed = record {
  replicated = omega arith;
  committed = inr (inr (omega arith));
  bounded = omega arith;
  quiet = λ l h r. ground (arith, h);
}

reached-Observed : Observed counted reached
reached-Observed = record {
  replicated = omega arith;
  committed = inr (inr (omega arith));
  bounded = omega arith;
  quiet = λ l h r. ground (arith, h);
}

-- A request for 7, where nothing was committed since 5.
try_read-Answered_example :
    Answered counted (some 7) read (try_read (new 0) (some 7) behind behind (ok reached ∷ []) read)
try_read-Answered_example =
    try_read-Answered counted (new 0) (some 7) behind behind (ok reached ∷ []) read (inl refl)
      behind-Observed (5, inr (omega arith), refl)
      (reached-Observed, (5, inr (omega arith), refl), tt)

unsatisfied-Unchanged_example :
    is_satisfied (some 7) (record { snapshot_lsn = 3; commit_lsn = 6; replication_lsn = 9 }) ≡ false
unfolding is_satisfied snapshot_is_clean wait_for_relevant_lsn_change
unsatisfied-Unchanged_example =
    unsatisfied-Unchanged 7 behind
      (record { snapshot_lsn = 3; commit_lsn = 6; replication_lsn = 9 })
      (record { replicated = omega arith; committed = inr (omega arith, omega arith) })
      (record { replicated = omega arith; committed = inr (omega arith, omega arith) })
      (omega arith) refl refl

failed_read-stale_example :
    (m : ReadStateManager ℕ) × (try_read {E = ℕ} (new 0) (some 5) reached reached [] (ok (err 9))
      ≡ done (m, some (err 9)))
    × (try_read m (some 5) reached reached [] read ≡ done (m, some (ok 0)))
failed_read-stale_example = failed_read-stale reached (omega arith) refl (omega arith) 0 9 read
