-- ===== src/Deletion/Active.antt =====
-- Single rows, and the rows that are left.
use moonlink.Base.{
  ℕ, zero, suc, ◌+◌, ◌*◌, ◌≤◌, ◌<◌, ◌≡◌, refl, Bool, true, false, not, List, ◌∷◌, done, arith,
  length, retain, inl, inr, sym, ap, Option-cases,
}
use moonlink.Deletion.Vector.{
  BatchDeletionVector, BitUtil, BitLaws, row_bit, range, filter_active, collect_active_rows,
  is_deleted, new,
}
use moonlink.Deletion.Valid.{IsValid, is_gone}

pub new-IsValid : (max_rows : ℕ) → IsValid (new max_rows)
unfolding new
new-IsValid max_rows bytes e = absurd (cc)

not-not : (b : Bool) → not (not b) ≡ b
not-not true = refl
not-not false = refl

retain-true : (a n : ℕ) → range a n ≡ retain (λ r. true) (range a n)
retain-true a zero = refl
retain-true a (suc n) = ap (λ rows. a ∷ rows) (retain-true (suc a) n)

module _ (util : BitUtil) (laws : BitLaws util) where
  filter_active-done :
      (bytes : List ℕ) (p : ℕ → Bool) (a n : ℕ)
      → a + n ≤ 8 * length bytes
      → ((r : ℕ) → row_bit bytes r ≡ p r)
      → filter_active util bytes (range a n) ≡ done (retain p (range a n))
  unfolding filter_active
  filter_active-done bytes p a zero h e = refl
  filter_active-done bytes p a (suc n) h e =
      rw
        (
          laws.get_bit_lem bytes a (omega arith),
          filter_active,
          filter_active-done bytes p (suc a) n (omega arith) e,
          e a,
        )
        refl

  -- For a valid vector and rows within it, `is_deleted` says whether the row is deleted, and the
  -- active rows are those that are not, in ascending order.
  pub collect_active_rows-retain :
      (d : BatchDeletionVector)
      → IsValid d
      → ((row : ℕ)
          → row < d.max_rows
          → is_deleted util d row ≡ done (is_gone d.deletion_vector row))
        × ((total : ℕ)
            → total ≤ d.max_rows
            → collect_active_rows util d total
              ≡ done (retain (λ r. not (is_gone d.deletion_vector r)) (range 0 total)))
  unfolding is_deleted collect_active_rows
  collect_active_rows-retain d v = elim (Option-cases d.deletion_vector) [
    | inl e ↦ (λ row h. rw e refl, λ total h. rw e (ap done (retain-true 0 total)))
    | inr (bytes, e) ↦
        let b = v bytes e in
        (
          λ row h.
              let found = laws.get_bit_lem bytes row (omega (arith, b.size, h)) in
              rw (e, found) refl,
          λ total h. rw e (
              filter_active-done bytes (λ r. not (not (row_bit bytes r))) 0 total
                (omega (arith, b.size, h)) (λ r. sym (not-not (row_bit bytes r)))),
        )
  ]
