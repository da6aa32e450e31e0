-- ===== src/Tests/Deletion.antt =====
-- A batch of ten rows, with bits set and unset one by one.
use moonlink.Base.{
  ℕ, zero, suc, ◌+◌, ◌-◌, ◌*◌, ◌/◌, ◌%◌, ◌≤◌, ◌<◌, ◌≡◌, refl, inl, inr, true, false, not, ◌||◌,
  some, List, [], ◌∷◌, done, panics, Panic, arith, ltb, ◌==◌, if◌then◌else◌, length, retain,
  Bool-cases, ap, ◌∙◌, subst,
}
use mathlib.Core.Option.{some-injective}
use moonlink.Deletion.Bits.{bit}
use moonlink.Deletion.Vector.{
  BatchDeletionVector, BitUtil, BitLaws, row_bit, range, delete_row, merge_with,
  collect_deleted_rows, collect_active_rows, is_deleted, new,
}
use moonlink.Deletion.Valid.{IsBitmap, IsValid, is_gone}
use moonlink.Deletion.Update.{Updates, delete_row-Updates, merge_with-Updates}
use moonlink.Deletion.Rows.{collect_deleted_rows-retain}
use moonlink.Deletion.Active.{collect_active_rows-retain, new-IsValid}

-- A number without its bit `i`.
abbrev clear : ℕ → ℕ → ℕ
clear b zero = b / 2 * 2
clear b (suc i) = clear (b / 2) i * 2 + b % 2

abbrev clear_row : List ℕ → ℕ → List ℕ
clear_row [] i = []
clear_row (b ∷ bytes) i = if ltb i 8 then clear b i ∷ bytes else b ∷ clear_row bytes (i - 8)

abbrev util : BitUtil
util = record {
  get_bit = λ bytes i.
      if ltb i (8 * length bytes) then done (row_bit bytes i) else panics Panic.index_out_of_bounds;
  unset_bit = λ bytes i.
      if ltb i (8 * length bytes)
      then done (clear_row bytes i)
      else panics Panic.index_out_of_bounds;
}

bit-clear : (b i j : ℕ) → bit (clear b i) j ≡ (if i == j then false else bit b j)
bit-clear b zero zero = ground arith
bit-clear b zero (suc j) = let half : b / 2 * 2 / 2 ≡ b / 2 = omega arith in rw half (ground arith)
bit-clear b (suc i) zero =
    let low : (clear (b / 2) i * 2 + b % 2) % 2 ≡ b % 2 = omega arith in rw low (ground arith)
bit-clear b (suc i) (suc j) =
    let half : (clear (b / 2) i * 2 + b % 2) / 2 ≡ clear (b / 2) i = omega arith in
    rw half (bit-clear (b / 2) i j ∙ ground arith)

length-clear_row : (bytes : List ℕ) (i : ℕ) → length (clear_row bytes i) ≡ length bytes
length-clear_row [] i = refl
length-clear_row (b ∷ bytes) i = elim (Bool-cases (ltb i 8)) [
  | inl t ↦ rw t refl
  | inr f ↦ rw f (ap suc (length-clear_row bytes (i - 8)))
]

row_bit-clear_row :
    (bytes : List ℕ) (i j : ℕ)
    → row_bit (clear_row bytes i) j ≡ (if i == j then false else row_bit bytes j)
row_bit-clear_row [] i j = ground arith
row_bit-clear_row (b ∷ bytes) i j = elim (Bool-cases (ltb i 8)) [
  | inl t ↦ rw t (ground (arith, t, bit-clear b i j))
  | inr f ↦ rw f (ground (arith, f, row_bit-clear_row bytes (i - 8) (j - 8)))
]

util_laws : BitLaws util
util_laws = record {
  get_bit_lem =
      λ bytes i h. let t : ltb i (8 * length bytes) ≡ true = ground (arith, h) in rw t refl;
  unset_bit_lem = λ bytes i h.
      let t : ltb i (8 * length bytes) ≡ true = ground (arith, h) in
      (clear_row bytes i, rw t refl, length-clear_row bytes i, row_bit-clear_row bytes i);
}

-- Ten rows, of which the third and the tenth are deleted.
abbrev ten : BatchDeletionVector
ten = record { deletion_vector = some (251 ∷ 1 ∷ []); max_rows = 10 }

bit-zero : (i : ℕ) → bit 0 i ≡ false
bit-zero zero = refl
bit-zero (suc i) = bit-zero i

second_byte : (i : ℕ) → row_bit (1 ∷ []) (suc (suc i)) ≡ false
second_byte i = elim (Bool-cases (ltb (suc (suc i)) 8)) [
  | inl t ↦ rw t (bit-zero i)
  | inr f ↦ rw f refl
]

ten-IsBitmap : IsBitmap 10 (251 ∷ 1 ∷ [])
ten-IsBitmap = record {
  size = refl;
  unset = λ row h.
      let far : ltb row 8 ≡ false = ground (arith, h) in
      let rest : row - 8 ≡ suc (suc (row - 10)) = omega arith in
      rw (far, rest) (second_byte (row - 10));
}

ten-IsValid : IsValid ten
ten-IsValid bytes e = subst (IsBitmap 10) (some-injective (251 ∷ 1 ∷ []) bytes e) ten-IsBitmap

delete_row-Updates_example :
    (d' : BatchDeletionVector) × (delete_row util ten 3 ≡ done (d', true))
    × Updates ten d' (λ j. (3 == j) || is_gone ten.deletion_vector j)
delete_row-Updates_example = delete_row-Updates util util_laws ten ten-IsValid 3 (omega arith)

merge_with-Updates_example :
    (d' : BatchDeletionVector) × (merge_with util (new 10) ten ≡ done d')
    × Updates (new 10) d' (λ j. is_gone (new 10).deletion_vector j || is_gone ten.deletion_vector j)
unfolding new
merge_with-Updates_example =
    merge_with-Updates util util_laws (new 10) (new-IsValid 10) ten ten-IsValid refl

collect_deleted_rows-retain_example :
    collect_deleted_rows ten ≡ retain (is_gone ten.deletion_vector) (range 0 10)
collect_deleted_rows-retain_example = collect_deleted_rows-retain ten ten-IsValid

collect_active_rows-retain_example :
    ((row : ℕ) → row < 10 → is_deleted util ten row ≡ done (is_gone ten.deletion_vector row))
    × ((total : ℕ)
        → total ≤ 10
        → collect_active_rows util ten total
          ≡ done (retain (λ r. not (is_gone ten.deletion_vector r)) (range 0 total)))
collect_active_rows-retain_example = collect_active_rows-retain util util_laws ten ten-IsValid
