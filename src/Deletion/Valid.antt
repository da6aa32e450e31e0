-- ===== src/Deletion/Valid.antt =====
-- The deletion vector as a set of rows, and its invariant.
use moonlink.Base.{
  ℕ, zero, suc, ◌+◌, ◌-◌, ◌*◌, ◌/◌, ◌≤◌, ◌<◌, ◌≡◌, refl, Bool, true, false, not, ◌&&◌, Option, none,
  some, List, [], ◌∷◌, done, arith, leb, ltb, if◌then◌else◌, length, Bool-cases, inl, inr, ap, ◌∙◌,
}
use moonlink.Deletion.Bits.{bit-full}
use moonlink.Deletion.Vector.{
  BatchDeletionVector, BitUtil, BitLaws, row_bit, repeated, unset_bits, initialize_vector_for_once,
}

-- The rows that are deleted.
abbrev pub is_gone : Option (List ℕ) → ℕ → Bool
is_gone none row = false
is_gone (some bytes) row = not (row_bit bytes row)

-- There is a byte more than the rows fill, and no bit beyond the last row is set.
pub record IsBitmap (max_rows : ℕ) (bytes : List ℕ) : Type 0 where
  pub size : length bytes ≡ max_rows / 8 + 1
  pub unset : (row : ℕ) → max_rows ≤ row → row_bit bytes row ≡ false

abbrev pub IsValid : BatchDeletionVector → Type 0
IsValid d = (bytes : List ℕ) → d.deletion_vector ≡ some bytes → IsBitmap d.max_rows bytes

length-repeated : (b n : ℕ) → length (repeated b n) ≡ n
length-repeated b zero = refl
length-repeated b (suc n) = ap suc (length-repeated b n)

row_bit-repeated : (n row : ℕ) → row < 8 * n → row_bit (repeated 0xFF n) row ≡ true
row_bit-repeated zero row h = absurd (omega arith)
row_bit-repeated (suc n) row h = elim (Bool-cases (ltb row 8)) [
  | inl t ↦ rw t (bit-full row (ground (arith, t)))
  | inr f ↦
      let beyond : 8 ≤ row = ground (arith, f) in rw f (row_bit-repeated n (row - 8) (omega arith))
]

row_bit-beyond : (bytes : List ℕ) (row : ℕ) → 8 * length bytes ≤ row → row_bit bytes row ≡ false
row_bit-beyond [] row h = refl
row_bit-beyond (b ∷ bytes) row h =
    let out : ltb row 8 ≡ false = ground (arith, h) in
    rw out (row_bit-beyond bytes (row - 8) (omega arith))

module _ (util : BitUtil) (laws : BitLaws util) where
  -- The loop unsets its bits and no other.
  unset_bits-done :
      (n : ℕ) (bytes : List ℕ) (i : ℕ)
      → i + n ≤ 8 * length bytes
      → (bytes' : List ℕ) × (unset_bits util bytes i n ≡ done bytes')
        × (length bytes' ≡ length bytes)
        × ((j : ℕ)
            → row_bit bytes' j ≡ (if leb i j && ltb j (i + n) then false else row_bit bytes j))
  unfolding unset_bits
  unset_bits-done zero bytes i h = (bytes, refl, refl, λ j. ground arith)
  unset_bits-done (suc n) bytes i h =
      let (b₁, run₁, size₁, bits₁) = laws.unset_bit_lem bytes i (omega arith) in
      let (b₂, run₂, size₂, bits₂) = unset_bits-done n b₁ (suc i) (omega arith) in
      (b₂, rw (run₁, unset_bits, run₂) refl, size₂ ∙ size₁, λ j. ground (arith, bits₁ j, bits₂ j))

  -- The bytes are made once. The deleted rows stay the same.
  pub initialize-IsBitmap :
      (d : BatchDeletionVector)
      → IsValid d
      → (bytes : List ℕ) × (initialize_vector_for_once util d ≡ done bytes)
        × IsBitmap d.max_rows bytes
        × ((row : ℕ) → row < d.max_rows → row_bit bytes row ≡ not (is_gone d.deletion_vector row))
  unfolding initialize_vector_for_once
  initialize-IsBitmap d v = go d.deletion_vector refl
    where
      go :
          (o : Option (List ℕ))
          → d.deletion_vector ≡ o
          → (bytes : List ℕ) × (initialize_vector_for_once util d ≡ done bytes)
            × IsBitmap d.max_rows bytes
            × ((row : ℕ) → row < d.max_rows → row_bit bytes row ≡ not (is_gone o row))
      go (some bytes) e =
          (bytes, rw (e, initialize_vector_for_once) refl, v bytes e, λ row h. ground arith)
      go none e =
          let n = d.max_rows / 8 + 1 in
          let size = length-repeated 0xFF n in
          let (bytes, run, same, bits) =
            unset_bits-done (n * 8 - d.max_rows) (repeated 0xFF n) d.max_rows
              (omega (arith, size)) in
          (
            bytes,
            rw (e, initialize_vector_for_once, run) refl,
            record {
              size = same ∙ size;
              unset = λ row h. elim (Bool-cases (leb (8 * length bytes) row)) [
                | inl t ↦ row_bit-beyond bytes row (ground (arith, t))
                | inr f ↦ bits row ∙ ground (arith, h, f, same, size)
              ];
            },
            λ row h. bits row ∙ ground (arith, h, row_bit-repeated n row (omega arith)),
          )
