-- ===== src/Read/Fresh.antt =====
-- What a read returns, and the LSN that was asked for (read_state_manager.rs).
use moonlink.Base.{
  ℕ, ◌≤◌, ◌<◌, ◌≡◌, ◌≢◌, ◌⊎◌, inl, inr, true, Option, some, done, ok, err, arith, leb, Bool-cases,
  sym, subst, ◌∙◌,
}
use moonlink.Base.Words.{u64_max}
use moonlink.Read.Manager.{
  ReadStateManager, Lsns, no_read_lsn, no_snapshot_lsn, no_commit_lsn, snapshot_is_clean,
  is_satisfied, can_satisfy_read_from_snapshot, effective_lsn, SnapshotRead,
}

-- `contents l` is the source's table after its commits up to LSN `l`.
module _ {D : Type 0} (contents : ℕ → D) where
  -- The table as it was at LSN `n` or later.
  abbrev pub AtLeast : ℕ → D → Type 0
  AtLeast n d = (l : ℕ) × (n ≤ l) × (d ≡ contents l)

  -- The cached state is as new as its LSN.
  abbrev pub Fresh : ReadStateManager D → Type 0
  Fresh m = (m.last_read_lsn ≡ no_read_lsn) ⊎ AtLeast m.last_read_lsn m.last_read_state

  -- What the receivers hold at a time: the order of the LSNs that the code asserts, and that
  -- nothing was committed after the last commit up to the LSN of the replication.
  pub record Observed (e : Lsns) : Type 0 where
    pub replicated : e.commit_lsn ≤ e.replication_lsn
    pub committed :
        (e.snapshot_lsn ≡ no_snapshot_lsn)
        ⊎ (e.commit_lsn ≡ no_commit_lsn)
        ⊎ (e.snapshot_lsn ≤ e.commit_lsn)
    pub bounded : e.replication_lsn ≤ u64_max
    pub quiet :
        (l : ℕ) → e.commit_lsn ≤ l → l ≤ e.replication_lsn → contents l ≡ contents e.commit_lsn

  -- A read of the table gives its contents at the snapshot or later.
  abbrev pub Reads : {E : Type 0} → Lsns → SnapshotRead D E → Type 0
  Reads e (ok (ok d)) =
      (l : ℕ) × ((e.snapshot_lsn ≡ no_snapshot_lsn) ⊎ (e.snapshot_lsn ≤ l)) × (d ≡ contents l)
  Reads e (ok (err f)) = Unit
  Reads e (err f) = Unit

  -- The files of the table that is read are found.
  abbrev pub Resolves : {E : Type 0} → SnapshotRead D E → Type 0
  Resolves (ok (err f)) = ⊥
  Resolves (ok (ok d)) = Unit
  Resolves (err f) = Unit

  -- Contents that are older than `n` are those at `n`, if nothing was committed in between.
  quiet-AtLeast :
      (e : Lsns) (n l : ℕ) (d : D)
      → Observed e
      → e.commit_lsn ≤ l
      → n ≤ e.replication_lsn
      → d ≡ contents l
      → AtLeast n d
  quiet-AtLeast e n l d o h r same = elim (Bool-cases (leb n l)) [
    | inl t ↦ (l, ground (arith, t), same)
    | inr f ↦
        let before : l < n = ground (arith, f) in
        (n, omega arith, same ∙ o.quiet l h (omega arith) ∙ sym (o.quiet n (omega arith) r))
  ]

  -- Why a request for LSN `n` is satisfied.
  abbrev pub Covered : ℕ → Lsns → Type 0
  Covered n e =
      ((e.snapshot_lsn ≢ no_snapshot_lsn) × (n ≤ e.snapshot_lsn))
      ⊎ ((n ≤ e.replication_lsn) × (snapshot_is_clean e.snapshot_lsn e.commit_lsn ≡ true))

  pub is_satisfied-Covered : (n : ℕ) (e : Lsns) → is_satisfied (some n) e ≡ true → Covered n e
  unfolding is_satisfied
  is_satisfied-Covered n e h = ground (arith, h)

  -- A clean snapshot holds all commits, or there was none.
  clean-commit :
      (s c : ℕ)
      → snapshot_is_clean s c ≡ true
      → ((s ≡ no_snapshot_lsn) × (c ≡ 0)) ⊎ ((s ≢ no_snapshot_lsn) × (s ≡ c))
  unfolding snapshot_is_clean
  clean-commit s c h = ground (arith, h)

  -- Contents from the snapshot or later satisfy the request.
  pub Covered-AtLeast :
      (n : ℕ) (e : Lsns) (l : ℕ) (d : D)
      → Covered n e
      → Observed e
      → (e.snapshot_lsn ≡ no_snapshot_lsn) ⊎ (e.snapshot_lsn ≤ l)
      → d ≡ contents l
      → AtLeast n d
  Covered-AtLeast n e l d (inl (init, h)) o (inl none_yet) same = absurd (init none_yet)
  Covered-AtLeast n e l d (inl (init, h)) o (inr later) same = (l, omega arith, same)
  Covered-AtLeast n e l d (inr (r, clean)) o later same =
      elim (clean-commit e.snapshot_lsn e.commit_lsn clean) [
        | inl z ↦ quiet-AtLeast e n l d o (omega (arith, z.1)) r same
        | inr i ↦ quiet-AtLeast e n l d o (ground (arith, i.0, i.1, later)) r same
      ]

  effective_lsn-cases :
      (last : ℕ) (e : Lsns)
      → (effective_lsn last e ≡ e.snapshot_lsn)
        ⊎ ((effective_lsn last e ≡ e.replication_lsn)
            × (e.snapshot_lsn ≡ e.commit_lsn)
            × (e.snapshot_lsn < e.replication_lsn))
  unfolding effective_lsn
  effective_lsn-cases last e = ground arith

  -- The LSN that is kept with newly read contents.
  pub effective_lsn-Fresh :
      (last : ℕ) (e : Lsns) (l : ℕ) (d : D)
      → Observed e
      → (e.snapshot_lsn ≡ no_snapshot_lsn) ⊎ (e.snapshot_lsn ≤ l)
      → d ≡ contents l
      → Fresh (record { last_read_lsn = effective_lsn last e; last_read_state = d })
  effective_lsn-Fresh last e l d o later same = elim (effective_lsn-cases last e) [
    | inl s ↦ elim later [
      | inl none_yet ↦ inl (s ∙ none_yet)
      | inr h ↦ inr (l, omega (arith, s, h), same)
    ]
    | inr h ↦ elim later [
      | inl none_yet ↦ absurd (omega (arith, h.2, none_yet, o.bounded))
      | inr le ↦ inr (
          subst (λ n. AtLeast n d) (sym h.0)
            (quiet-AtLeast e e.replication_lsn l d o (omega (arith, h.1, le)) (omega arith) same))
    ]
  ]

  -- The assertions on the LSNs hold.
  pub can_satisfy-done :
      (requested : Option ℕ) (e : Lsns)
      → Observed e
      → can_satisfy_read_from_snapshot requested e ≡ done (is_satisfied requested e)
  unfolding can_satisfy_read_from_snapshot
  can_satisfy-done requested e o = ground (arith, o.replicated, o.committed)
