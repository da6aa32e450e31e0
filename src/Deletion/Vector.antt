-- ===== src/Deletion/Vector.antt =====
-- `BatchDeletionVector`. A byte is a number below 256.
use Prim.Native.Nat.{bit_and}
use moonlink.Base.{
  ℕ, zero, suc, ◌+◌, ◌-◌, ◌*◌, ◌/◌, ◌^◌, ◌<◌, ◌≡◌, Bool, true, false, not, Option, none, some, List,
  [], ◌∷◌, ◌++◌, Outcome, done, panics, Panic, ◌>>=◌, ◌>>◌, assert, leb, ltb, ◌==◌, if◌then◌else◌,
  length,
}
use moonlink.Deletion.Bits.{bit}

pub record BatchDeletionVector : Type 0 where
  -- A set bit is an active row.
  pub deletion_vector : Option (List ℕ)
  pub max_rows : ℕ

-- `arrow::util::bit_util`, which the vector calls on its bytes.
pub record BitUtil : Type 0 where
  pub get_bit : List ℕ → ℕ → Outcome Bool
  pub unset_bit : List ℕ → ℕ → Outcome (List ℕ)

-- A row's bit, where there is one.
abbrev pub row_bit : List ℕ → ℕ → Bool
row_bit [] i = false
row_bit (b ∷ bytes) i = if ltb i 8 then bit b i else row_bit bytes (i - 8)

-- What the calls do within the bytes.
pub record BitLaws (util : BitUtil) : Type 0 where
  pub get_bit_lem :
      (bytes : List ℕ) (i : ℕ)
      → i < 8 * length bytes
      → util.get_bit bytes i ≡ done (row_bit bytes i)
  pub unset_bit_lem :
      (bytes : List ℕ) (i : ℕ)
      → i < 8 * length bytes
      → (bytes' : List ℕ) × (util.unset_bit bytes i ≡ done bytes')
        × (length bytes' ≡ length bytes)
        × ((j : ℕ) → row_bit bytes' j ≡ (if i == j then false else row_bit bytes j))

-- `(start..start + n)`.
abbrev pub range : (start n : ℕ) → List ℕ
range start zero = []
range start (suc n) = start ∷ range (suc start) n

abbrev pub repeated : (byte n : ℕ) → List ℕ
repeated byte zero = []
repeated byte (suc n) = byte ∷ repeated byte n

unfoldable pub new : (max_rows : ℕ) → BatchDeletionVector
new max_rows = record { deletion_vector = none; max_rows = max_rows }

-- The bytes of one batch within those of the other.
unfoldable pub merge_bytes : (bytes rhs : List ℕ) → Outcome (List ℕ)
merge_bytes [] rhs = done []
merge_bytes (b ∷ bytes) [] = panics Panic.index_out_of_bounds
merge_bytes (b ∷ bytes) (r ∷ rhs) = do rest ← merge_bytes bytes rhs; done (bit_and b r ∷ rest)

-- The loop over a byte's bits, which ends at the last row.
unfoldable pub collect_bits : (max_rows byte byte_idx bit_idx fuel : ℕ) → List ℕ
collect_bits max byte idx i zero = []
collect_bits max byte idx i (suc n) =
    let rest = collect_bits max byte idx (suc i) n in
    if leb max (idx * 8 + i)
    then []
    else if bit_and byte (2 ^ i) == 0
    then (idx * 8 + i) ∷ rest
    else rest

unfoldable pub collect_bytes : (max_rows byte_idx : ℕ) (bytes : List ℕ) → List ℕ
collect_bytes max idx [] = []
collect_bytes max idx (byte ∷ bytes) =
    (if byte == 0xFF then [] else collect_bits max byte idx 0 8)
    ++ collect_bytes max (suc idx) bytes

unfoldable pub collect_deleted_rows : BatchDeletionVector → List ℕ
collect_deleted_rows d = elim d.deletion_vector [
  | none ↦ []
  | some bytes ↦ collect_bytes d.max_rows 0 bytes
]

unfoldable pub count_bits : (max_rows byte byte_idx bit_idx fuel deleted : ℕ) → ℕ
count_bits max byte idx i zero deleted = deleted
count_bits max byte idx i (suc n) deleted =
    let rest =
      count_bits max byte idx (suc i) n
        (if bit_and byte (2 ^ i) == 0 then deleted + 1 else deleted) in
    if leb max (idx * 8 + i) then deleted else rest

unfoldable pub count_bytes : (max_rows byte_idx : ℕ) (bytes : List ℕ) (deleted : ℕ) → ℕ
count_bytes max idx [] deleted = deleted
count_bytes max idx (byte ∷ bytes) deleted =
    count_bytes max (suc idx) bytes
      (if byte == 0xFF then deleted else count_bits max byte idx 0 8 deleted)

unfoldable pub get_num_rows_deleted : BatchDeletionVector → ℕ
get_num_rows_deleted d = elim d.deletion_vector [
  | none ↦ 0
  | some bytes ↦ count_bytes d.max_rows 0 bytes 0
]

unfoldable pub is_empty : BatchDeletionVector → Bool
is_empty d = elim d.deletion_vector [
  | none ↦ true
  | some _ ↦ elim (collect_deleted_rows d) [ [] ↦ true | _ ∷ _ ↦ false ]
]

module _ (util : BitUtil) where
  -- The loop that unsets the bits beyond the last row.
  unfoldable pub unset_bits : List ℕ → (i n : ℕ) → Outcome (List ℕ)
  unset_bits bytes i zero = done bytes
  unset_bits bytes i (suc n) = util.unset_bit bytes i >>= λ bytes'. unset_bits bytes' (suc i) n

  -- The bytes, which are made when they are first needed.
  unfoldable pub initialize_vector_for_once : BatchDeletionVector → Outcome (List ℕ)
  initialize_vector_for_once d = elim d.deletion_vector [
    | some bytes ↦ done bytes
    | none ↦
        unset_bits (repeated 0xFF (d.max_rows / 8 + 1)) d.max_rows
          ((d.max_rows / 8 + 1) * 8 - d.max_rows)
  ]

  unfoldable pub unset_if : Bool → List ℕ → (row_idx : ℕ) → Outcome (List ℕ)
  unset_if true bytes row = util.unset_bit bytes row
  unset_if false bytes row = done bytes

  unfoldable pub delete_row :
      BatchDeletionVector → (row_idx : ℕ) → Outcome (BatchDeletionVector × Bool)
  unfolding unset_if
  delete_row d row = do
    assert (ltb 0 d.max_rows)
    assert (ltb row d.max_rows)
    bytes ← initialize_vector_for_once d
    exist ← util.get_bit bytes row
    bytes' ← unset_if exist bytes row
    done (record d { deletion_vector = some bytes' }, exist)

  unfoldable pub merge_with :
      BatchDeletionVector → (rhs : BatchDeletionVector) → Outcome BatchDeletionVector
  merge_with d rhs = assert (d.max_rows == rhs.max_rows) >> elim rhs.deletion_vector [
    | none ↦ done d
    | some theirs ↦ initialize_vector_for_once d >>= λ bytes.
        merge_bytes bytes theirs >>= λ bytes'. done (record d { deletion_vector = some bytes' })
  ]

  unfoldable pub is_deleted : BatchDeletionVector → (row_idx : ℕ) → Outcome Bool
  is_deleted d row = elim d.deletion_vector [
    | none ↦ done false
    | some bytes ↦ util.get_bit bytes row >>= λ active. done (not active)
  ]

  unfoldable pub filter_active : List ℕ → (rows : List ℕ) → Outcome (List ℕ)
  filter_active bytes [] = done []
  filter_active bytes (row ∷ rows) = do
    active ← util.get_bit bytes row
    rest ← filter_active bytes rows
    done (if active then row ∷ rest else rest)

  unfoldable pub collect_active_rows : BatchDeletionVector → (total_rows : ℕ) → Outcome (List ℕ)
  collect_active_rows d total = elim d.deletion_vector [
    | none ↦ done (range 0 total)
    | some bytes ↦ filter_active bytes (range 0 total)
  ]
