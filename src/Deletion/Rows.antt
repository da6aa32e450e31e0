-- ===== src/Deletion/Rows.antt =====
-- The lists of rows that the loops over bytes and bits collect.
use Prim.Native.Nat.{bit_and}
use moonlink.Base.{
  ℕ, zero, suc, ◌+◌, ◌-◌, ◌*◌, ◌^◌, ◌≤◌, ◌<◌, ◌≡◌, refl, Bool, true, false, not, ◌&&◌, some, List,
  [], ◌∷◌, ◌++◌, arith, leb, ltb, ◌==◌, if◌then◌else◌, length, retain, Bool-cases, inl, inr, sym,
  ap, ◌∙◌, Option-cases, ap₂, append-nil,
}
use moonlink.Deletion.Bits.{bit, bit-mask, bit-full}
use moonlink.Deletion.Vector.{
  BatchDeletionVector, row_bit, range, collect_bits, collect_bytes, collect_deleted_rows,
  count_bits, count_bytes, get_num_rows_deleted,
}
use moonlink.Deletion.Valid.{IsValid, is_gone}

-- The rows from `a` on, `n` of them, that satisfy `p`.
abbrev Selected : (ℕ → Bool) → (a n : ℕ) → List ℕ → Type 0
Selected p a n rows = rows ≡ retain p (range a n)

retain-range_none :
    (p : ℕ → Bool) (a n : ℕ)
    → ((r : ℕ) → a ≤ r → r < a + n → p r ≡ false)
    → retain p (range a n) ≡ []
retain-range_none p a zero h = refl
retain-range_none p a (suc n) h =
    rw (h a (omega arith) (omega arith))
      (retain-range_none p (suc a) n (λ r l u. h r (omega arith) (omega arith)))

retain-range_cong :
    (p q : ℕ → Bool) (a n : ℕ)
    → ((r : ℕ) → a ≤ r → r < a + n → p r ≡ q r)
    → retain p (range a n) ≡ retain q (range a n)
retain-range_cong p q a zero h = refl
retain-range_cong p q a (suc n) h =
    rw
      (
        h a (omega arith) (omega arith),
        retain-range_cong p q (suc a) n (λ r l u. h r (omega arith) (omega arith)),
      )
      refl

retain-range_add :
    (p : ℕ → Bool) (a b n k m : ℕ)
    → m ≡ n + k
    → b ≡ a + n
    → retain p (range a m) ≡ retain p (range a n) ++ retain p (range b k)
retain-range_add p a b zero k m e f =
    let same : m ≡ k = omega arith in
    let start : a ≡ b = omega arith in ap₂ (λ x y. retain p (range x y)) start same
retain-range_add p a b (suc n) k zero e f = absurd (omega arith)
retain-range_add p a b (suc n) k (suc m) e f =
    let ih = retain-range_add p (suc a) b n k m (omega arith) (omega arith) in
    elim (Bool-cases (p a)) [ inl t ↦ rw t (ap (λ x. a ∷ x) ih) | inr u ↦ rw u ih ]

-- The loop over a byte, from row `s`.
collect_bits-Selected :
    (p : ℕ → Bool) (max byte idx n i s : ℕ)
    → s ≡ idx * 8 + i
    → ((r : ℕ) → s ≤ r → r < s + n → p r ≡ (ltb r max && not (bit byte (r - idx * 8))))
    → Selected p s n (collect_bits max byte idx i n)
unfolding collect_bits
collect_bits-Selected p max byte idx zero i s e h = refl
collect_bits-Selected p max byte idx (suc n) i s e h = elim (Bool-cases (leb max (idx * 8 + i))) [
  | inl t ↦ rw t (sym (retain-range_none p s (suc n) (λ r l u. h r l u ∙ ground (arith, t))))
  | inr f ↦
      let bit_idx : s - idx * 8 ≡ i = omega arith in
      let test : p s ≡ (bit_and byte (2 ^ i) == 0) =
        h s (omega arith) (omega arith) ∙ rw (bit_idx, bit-mask i byte) (ground (arith, f, e)) in
      let rest =
        collect_bits-Selected p max byte idx n (suc i) (suc s) (omega arith)
          (λ r l u. h r (omega arith) (omega arith)) in
      rw (f, sym e, test, rest) refl
]

-- The loop over the bytes. A byte of 0xFF has no row to collect.
collect_bytes-Selected :
    (p : ℕ → Bool) (max : ℕ) (bytes : List ℕ) (idx s n : ℕ)
    → s ≡ idx * 8
    → n ≡ 8 * length bytes
    → ((r : ℕ) → s ≤ r → p r ≡ (ltb r max && not (row_bit bytes (r - s))))
    → Selected p s n (collect_bytes max idx bytes)
unfolding collect_bytes
collect_bytes-Selected p max [] idx s zero e size h = refl
collect_bytes-Selected p max [] idx s (suc n) e size h = absurd (omega arith)
collect_bytes-Selected p max (byte ∷ bytes) idx s n e size h =
    ap₂ (λ x y. x ++ y) block
      (collect_bytes-Selected p max bytes (suc idx) (s + 8) (8 * length bytes) (omega arith) refl
        outside)
    ∙ sym (retain-range_add p s (s + 8) 8 (8 * length bytes) n (omega arith) refl)
  where
    inside : (r : ℕ) → s ≤ r → r < s + 8 → p r ≡ (ltb r max && not (bit byte (r - idx * 8)))
    inside r l u =
        let near : ltb (r - s) 8 ≡ true = ground arith in
        let same : r - s ≡ r - idx * 8 = omega arith in h r l ∙ rw (near, same) refl

    block : (if byte == 0xFF then [] else collect_bits max byte idx 0 8) ≡ retain p (range s 8)
    block = elim (Bool-cases (byte == 0xFF)) [
      | inl t ↦
          let full : byte ≡ 0xFF = ground arith in
          rw t (
            sym (
              retain-range_none p s 8 (λ r l u.
                inside r l u
                ∙ ground (
                  arith,
                  ap (λ b. bit b (r - idx * 8)) full,
                  bit-full (r - idx * 8) (omega arith),
                ))))
      | inr f ↦ rw f (collect_bits-Selected p max byte idx 8 0 s (omega arith) inside)
    ]

    outside : (r : ℕ) → s + 8 ≤ r → p r ≡ (ltb r max && not (row_bit bytes (r - (s + 8))))
    outside r l =
        let far : ltb (r - s) 8 ≡ false = ground arith in
        let same : r - s - 8 ≡ r - (s + 8) = omega arith in h r (omega arith) ∙ rw (far, same) refl

-- The loops over bytes and bits of a valid vector collect the deleted rows, in ascending order and
-- each once.
pub collect_deleted_rows-retain :
    (d : BatchDeletionVector)
    → IsValid d
    → collect_deleted_rows d ≡ retain (is_gone d.deletion_vector) (range 0 d.max_rows)
unfolding collect_deleted_rows
collect_deleted_rows-retain d v = elim (Option-cases d.deletion_vector) [
  | inl e ↦ rw e (sym (retain-range_none (λ r. false) 0 d.max_rows (λ r l u. refl)))
  | inr (bytes, e) ↦
      let b = v bytes e in
      let n = 8 * length bytes in
      let p : ℕ → Bool = λ r. ltb r d.max_rows && not (row_bit bytes r) in
      let all : collect_bytes d.max_rows 0 bytes ≡ retain p (range 0 n) =
        collect_bytes-Selected p d.max_rows bytes 0 0 n refl refl
          (λ r l. let same : r - 0 ≡ r = omega arith in rw same refl) in
      rw e (
        all
        ∙ retain-range_add p 0 d.max_rows d.max_rows (n - d.max_rows) n (omega (arith, b.size))
            (omega arith)
        ∙ ap₂ (λ x y. x ++ y)
            (retain-range_cong p (is_gone (some bytes)) 0 d.max_rows (λ r l u. ground (arith, u)))
            (retain-range_none p d.max_rows (n - d.max_rows) (λ r l u. ground (arith, l)))
        ∙ append-nil (retain (is_gone (some bytes)) (range 0 d.max_rows)))
]

-- The loops that count go the same way.
count_bits-length :
    (max byte idx i n deleted : ℕ)
    → count_bits max byte idx i n deleted ≡ deleted + length (collect_bits max byte idx i n)
unfolding count_bits collect_bits
count_bits-length max byte idx i zero deleted = omega arith
count_bits-length max byte idx i (suc n) deleted = elim (Bool-cases (leb max (idx * 8 + i))) [
  | inl t ↦ rw t (omega arith)
  | inr f ↦ elim (Bool-cases (bit_and byte (2 ^ i) == 0)) [
    | inl u ↦ rw (f, u, count_bits-length max byte idx (suc i) n (deleted + 1)) (omega arith)
    | inr w ↦ rw (f, w) (count_bits-length max byte idx (suc i) n deleted)
  ]
]

length-append : (xs ys : List ℕ) → length (xs ++ ys) ≡ length xs + length ys
length-append [] ys = omega arith
length-append (x ∷ xs) ys = omega (arith, length-append xs ys)

count_bytes-length :
    (max : ℕ) (bytes : List ℕ) (idx deleted : ℕ)
    → count_bytes max idx bytes deleted ≡ deleted + length (collect_bytes max idx bytes)
unfolding count_bytes collect_bytes
count_bytes-length max [] idx deleted = omega arith
count_bytes-length max (byte ∷ bytes) idx deleted = elim (Bool-cases (byte == 0xFF)) [
  | inl t ↦ rw t (count_bytes-length max bytes (suc idx) deleted)
  | inr f ↦ rw f (
      omega (
        arith,
        count_bytes-length max bytes (suc idx) (count_bits max byte idx 0 8 deleted),
        count_bits-length max byte idx 0 8 deleted,
        length-append (collect_bits max byte idx 0 8) (collect_bytes max (suc idx) bytes),
      ))
]

-- The number of deleted rows is that of the rows collected, for any bytes.
pub get_num_rows_deleted-length :
    (d : BatchDeletionVector) → get_num_rows_deleted d ≡ length (collect_deleted_rows d)
unfolding get_num_rows_deleted collect_deleted_rows
get_num_rows_deleted-length d = elim (Option-cases d.deletion_vector) [
  | inl e ↦ rw e refl
  | inr (bytes, e) ↦ rw e (count_bytes-length d.max_rows bytes 0 0 ∙ omega arith)
]
