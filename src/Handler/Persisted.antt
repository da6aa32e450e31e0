-- ===== src/Handler/Persisted.antt =====
-- What the table handler reports as persisted.
use moonlink.Base.{
  ℕ, max, ◌≤◌, ◌<◌, ◌≡◌, ◌≢◌, refl, ◌⊎◌, inl, inr, Option, none, some, done, arith, Option-cases,
  Bool-cases, leb, ◌==◌,
}
use moonlink.Handler.State.{TableHandlerState}
use moonlink.Handler.Lsns.{get_persisted_table_lsn, update_iceberg_persisted_lsn, unset_if_reached}

-- The reported LSN, case by case: the replication LSN counts only if the snapshot and the table's
-- consistent view agree.
abbrev pub Reported : (persisted view : Option ℕ) (replication lsn : ℕ) → Type 0
Reported none none replication lsn = lsn ≡ replication
Reported none (some v) replication lsn = lsn ≡ 0
Reported (some p) none replication lsn = lsn ≡ p
Reported (some p) (some v) replication lsn =
    ((p ≡ v) × (p ≤ lsn) × (replication ≤ lsn) × ((lsn ≡ p) ⊎ (lsn ≡ replication)))
    ⊎ ((p ≢ v) × (lsn ≡ p))

max-cases : (a b : ℕ) → (max a b ≡ b) ⊎ (max a b ≡ a)
max-cases a b = elim (Bool-cases (leb a b)) [
  | inl e ↦ let l : a ≤ b = ground arith in inl (omega arith)
  | inr e ↦ let l : b < a = ground arith in inr (omega arith)
]

Reported-le :
    (p : ℕ) (view : Option ℕ) (replication lsn : ℕ)
    → Reported (some p) view replication lsn
    → p ≤ lsn
Reported-le p none replication lsn h = omega arith
Reported-le p (some v) replication lsn (inl h) = h.1
Reported-le p (some v) replication lsn (inr h) = omega (arith, h.1)

unset_if_reached-cases :
    (lsn waiting : ℕ) (old : Option ℕ)
    → old ≡ some waiting
    → ((waiting ≤ lsn) × (unset_if_reached lsn old ≡ none))
      ⊎ ((lsn < waiting) × (unset_if_reached lsn old ≡ some waiting))
unset_if_reached-cases lsn waiting old same = elim (Bool-cases (leb waiting lsn)) [
  | inl e ↦ inl (ground arith, rw (same, e) refl)
  | inr e ↦ inr (ground arith, rw (same, e) refl)
]

module _ {Q V : Type 0} where
  -- The persisted LSN of a table is always computed, without a panic: it is the replication LSN if
  -- there is neither a snapshot nor activity, the larger of replication and snapshot LSN if the
  -- table has not moved since the snapshot, and otherwise the snapshot's LSN, or 0 if there is none.
  pub get_persisted_table_lsn-Reported :
      (s : TableHandlerState Q V) (persisted : Option ℕ) (replication : ℕ)
      → (lsn : ℕ) × (get_persisted_table_lsn s persisted replication ≡ done lsn)
        × Reported persisted s.table_consistent_view_lsn replication lsn
  unfolding get_persisted_table_lsn
  get_persisted_table_lsn-Reported s none replication =
      elim (Option-cases s.table_consistent_view_lsn) [
        | inl e ↦ (replication, rw e refl, rw e refl)
        | inr (v, e) ↦ (0, rw e refl, rw e refl)
      ]
  get_persisted_table_lsn-Reported s (some p) replication =
      elim (Option-cases s.table_consistent_view_lsn) [
        | inl e ↦ (p, rw e refl, rw e refl)
        | inr (v, e) ↦ elim (Bool-cases (p == v)) [
          | inl q ↦
              let same : p ≡ v = ground arith in
              (
                max replication p,
                rw (e, q) refl,
                rw e (inl (same, omega arith, omega arith, max-cases replication p)),
              )
          | inr q ↦
              let other : p ≢ v = λ same. absurd (ground arith) in
              (p, rw (e, q) refl, rw e (inr (other, refl)))
        ]
      ]

  -- When a snapshot at `persisted` has been written, an LSN is reported that is at least the
  -- snapshot's; a forced snapshot that was waiting is done if its LSN is not above the reported one,
  -- and keeps waiting otherwise.
  pub update_iceberg_persisted_lsn-reports :
      (s : TableHandlerState Q V) (persisted replication : ℕ)
      → (s' : TableHandlerState Q V) × (lsn : ℕ) × (update_iceberg_persisted_lsn s persisted
            replication
          ≡ done (s', lsn))
        × (persisted ≤ lsn)
        × ((waiting : ℕ)
            → s.largest_force_snapshot_lsn ≡ some waiting
            → ((waiting ≤ lsn) × (s'.largest_force_snapshot_lsn ≡ none))
              ⊎ ((lsn < waiting) × (s'.largest_force_snapshot_lsn ≡ some waiting)))
  unfolding update_iceberg_persisted_lsn
  update_iceberg_persisted_lsn-reports s persisted replication =
      let (lsn, computed, reported) =
        get_persisted_table_lsn-Reported s (some persisted) replication in
      (
        record s { largest_force_snapshot_lsn = unset_if_reached lsn s.largest_force_snapshot_lsn },
        lsn,
        rw computed refl,
        Reported-le persisted s.table_consistent_view_lsn replication lsn reported,
        λ waiting. unset_if_reached-cases lsn waiting s.largest_force_snapshot_lsn,
      )
