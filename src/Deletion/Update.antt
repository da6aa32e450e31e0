-- ===== src/Deletion/Update.antt =====
-- Deleting a row, and merging the deletions of two vectors.
use Prim.Native.Nat.{bit_and}
use moonlink.Base.{
  ℕ, suc, ◌-◌, ◌*◌, ◌<◌, ◌≡◌, refl, Bool, true, not, ◌&&◌, ◌||◌, some, List, [], ◌∷◌, done, arith,
  ltb, ◌==◌, length, Bool-cases, inl, inr, sym, ap, subst, ◌∙◌, Option-cases,
}
use mathlib.Core.Option.{some-injective}
use moonlink.Deletion.Bits.{bit-bit_and}
use moonlink.Deletion.Vector.{
  BatchDeletionVector, BitUtil, BitLaws, row_bit, delete_row, unset_if, merge_with, merge_bytes,
}
use moonlink.Deletion.Valid.{IsBitmap, IsValid, is_gone, initialize-IsBitmap}

-- What an update gives: a valid vector for as many rows, with these rows deleted.
pub record Updates (d d' : BatchDeletionVector) (gone : ℕ → Bool) : Type 0 where
  pub valid : IsValid d'
  pub rows : d'.max_rows ≡ d.max_rows
  pub deleted : (row : ℕ) → row < d.max_rows → is_gone d'.deletion_vector row ≡ gone row

bitmap-IsValid :
    (max : ℕ) (bytes : List ℕ)
    → IsBitmap max bytes
    → IsValid (record { deletion_vector = some bytes; max_rows = max })
bitmap-IsValid max bytes b bytes' e = subst (IsBitmap max) (some-injective bytes bytes' e) b

merge_bytes-done :
    (bytes rhs : List ℕ)
    → length bytes ≡ length rhs
    → (merged : List ℕ) × (merge_bytes bytes rhs ≡ done merged)
      × (length merged ≡ length bytes)
      × ((row : ℕ) → row_bit merged row ≡ (row_bit bytes row && row_bit rhs row))
unfolding merge_bytes
merge_bytes-done [] rhs h = ([], refl, refl, λ row. refl)
merge_bytes-done (b ∷ bytes) [] h = absurd (omega (arith, h))
merge_bytes-done (b ∷ bytes) (r ∷ rhs) h =
    let (merged, run, same, bits) = merge_bytes-done bytes rhs (omega (arith, h)) in
    (
      bit_and b r ∷ merged,
      rw (run, merge_bytes) refl,
      ap suc same,
      λ row. elim (Bool-cases (ltb row 8)) [
        | inl t ↦ rw t (bit-bit_and row b r)
        | inr f ↦ rw f (bits (row - 8))
      ],
    )

module _ (util : BitUtil) (laws : BitLaws util) (d : BatchDeletionVector) (v : IsValid d) where
  -- The deletion of a row within a valid vector's rows panics nowhere and keeps the vector valid. The
  -- row is deleted, and the others stay as they are. The answer is whether it was active.
  pub delete_row-Updates :
      (row : ℕ)
      → row < d.max_rows
      → (d' : BatchDeletionVector) × (delete_row util d row
          ≡ done (d', not (is_gone d.deletion_vector row)))
        × Updates d d' (λ j. (row == j) || is_gone d.deletion_vector j)
  unfolding delete_row unset_if
  delete_row-Updates row h =
      let (bytes, run, b, bits) = initialize-IsBitmap util laws d v in
      let within : row < 8 * length bytes = omega (arith, b.size) in
      let found : util.get_bit bytes row ≡ done (row_bit bytes row) =
        laws.get_bit_lem bytes row within in
      let some_row : ltb 0 d.max_rows ≡ true = ground (arith, h) in
      let in_rows : ltb row d.max_rows ≡ true = ground (arith, h) in
      let (bytes', unset, same, bits') = laws.unset_bit_lem bytes row within in
      elim (Bool-cases (row_bit bytes row)) [
        | inl t ↦ (
          record d { deletion_vector = some bytes' },
          rw (some_row, in_rows, run, found, sym (bits row h), t, unset) refl,
          record {
            valid = bitmap-IsValid d.max_rows bytes' (record {
              size = same ∙ b.size;
              unset = λ j le. bits' j ∙ ground (arith, b.unset j le);
            });
            rows = refl;
            deleted = λ j le. ground (arith, bits' j, bits j le);
          },
        )
        | inr f ↦ (
          record d { deletion_vector = some bytes },
          rw (some_row, in_rows, run, found, sym (bits row h), f) refl,
          record {
            valid = bitmap-IsValid d.max_rows bytes b;
            rows = refl;
            deleted = λ j le. elim (Bool-cases (row == j)) [
              | inl e ↦
                  let same : row ≡ j = ground arith in
                  rw e (ap (λ i. not (row_bit bytes i)) (sym same) ∙ ap not f)
              | inr e ↦ rw e (ground (arith, bits j le))
            ];
          },
        )
      ]

  -- A merge of two valid vectors for as many rows panics nowhere and gives a valid one, in which a
  -- row is deleted if and only if it was in one of the two.
  pub merge_with-Updates :
      (rhs : BatchDeletionVector)
      → IsValid rhs
      → d.max_rows ≡ rhs.max_rows
      → (d' : BatchDeletionVector) × (merge_with util d rhs ≡ done d')
        × Updates d d' (λ j. is_gone d.deletion_vector j || is_gone rhs.deletion_vector j)
  unfolding merge_with
  merge_with-Updates rhs vr same_rows =
      let test : (d.max_rows == rhs.max_rows) ≡ true = ground (arith, same_rows) in
      elim (Option-cases rhs.deletion_vector) [
        | inl e ↦ (
          d,
          rw (test, e) refl,
          record { valid = v; rows = refl; deleted = λ j le. rw e (ground arith) },
        )
        | inr (theirs, e) ↦
            let (bytes, run, b, bits) = initialize-IsBitmap util laws d v in
            let br = vr theirs e in
            let (merged, merge, size, all) =
              merge_bytes-done bytes theirs (omega (arith, b.size, br.size, same_rows)) in
            (
              record d { deletion_vector = some merged },
              rw (test, e, run, merge) refl,
              record {
                valid = bitmap-IsValid d.max_rows merged (record {
                  size = size ∙ b.size;
                  unset = λ j le. all j ∙ ground (arith, b.unset j le);
                });
                rows = refl;
                deleted = λ j le. rw e (ground (arith, all j, bits j le));
              },
            )
      ]
