-- ===== src/Read/Waits.antt =====
-- What a request waits for (read_state_manager.rs, `wait_for_relevant_lsn_change`).
use moonlink.Base.{ℕ, ◌≤◌, ◌≡◌, ◌⊎◌, inl, inr, false, some, arith, ltb, Bool-cases}
use moonlink.Read.Manager.{
  Lsns, Receiver, replication_lsn_rx, table_snapshot_rx, no_snapshot_lsn, snapshot_is_clean,
  is_satisfied, wait_for_relevant_lsn_change,
}

-- The order of the LSNs. A table that has a snapshot has marked a commit.
pub record Ordered (e : Lsns) : Type 0 where
  pub replicated : e.commit_lsn ≤ e.replication_lsn
  pub committed :
      (e.snapshot_lsn ≡ no_snapshot_lsn) ⊎ ((1 ≤ e.commit_lsn) × (e.snapshot_lsn ≤ e.commit_lsn))

abbrev pub Unchanged : Receiver → Lsns → Lsns → Type 0
Unchanged replication_lsn_rx e e' = e.replication_lsn ≡ e'.replication_lsn
Unchanged table_snapshot_rx e e' = e.snapshot_lsn ≡ e'.snapshot_lsn

-- For ordered LSNs, and a commit LSN that does not fall, a request that is not satisfied stays so,
-- whatever the other receivers do, until the receiver that it waits on changes: no wake-up is missed.
pub unsatisfied-Unchanged :
    (n : ℕ) (e e' : Lsns)
    → Ordered e
    → Ordered e'
    → e.commit_lsn ≤ e'.commit_lsn
    → is_satisfied (some n) e ≡ false
    → Unchanged (wait_for_relevant_lsn_change n e.replication_lsn) e e'
    → is_satisfied (some n) e' ≡ false
unfolding is_satisfied wait_for_relevant_lsn_change snapshot_is_clean
unsatisfied-Unchanged n e e' o o' later f same = elim (Bool-cases (ltb e.replication_lsn n)) [
  | inl t ↦
      let kept : e.replication_lsn ≡ e'.replication_lsn = rw t at same in
      ground (arith, t, kept, o'.replicated, o'.committed)
  | inr u ↦
      let kept : e.snapshot_lsn ≡ e'.snapshot_lsn = rw u at same in
      ground (arith, u, f, kept, later, o.committed, o'.committed)
]
