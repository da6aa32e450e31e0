-- ===== src/Deletion/Bits.antt =====
-- The bits of a byte.
use Prim.Native.Nat.{digits, bit_and, bit_and-bitwise}
use moonlink.Base.{
  ℕ, zero, suc, ◌+◌, ◌*◌, ◌/◌, ◌%◌, ◌^◌, ◌≤◌, ◌<◌, ◌≡◌, refl, Bool, true, not, ◌&&◌, arith, ◌==◌,
  leb, min, inl, inr, Bool-cases, ◌∙◌, ap, sym,
}
use native.Mathlib.Nat.{pow-suc}

-- Bit `i` of a number, the lowest first.
abbrev pub bit : ℕ → ℕ → Bool
bit b zero = b % 2 == 1
bit b (suc i) = bit (b / 2) i

-- `bit_and` with so many digits to go.
abbrev conjoin : ℕ → ℕ → ℕ → ℕ
conjoin n x y = digits (λ rest. zero) min n x y

conjoin_more : (n x y : ℕ) → x ≤ n → conjoin (suc n) x y ≡ conjoin n x y
conjoin_more zero zero y h = refl
conjoin_more (suc n) zero y h = refl
conjoin_more zero (suc x) y h = absurd (omega arith)
conjoin_more (suc n) (suc x) y h =
    ap (λ t. t * 2 + min (suc x % 2) (y % 2)) (conjoin_more n (suc x / 2) (y / 2) (omega arith))

conjoin_enough : (n x y : ℕ) → x ≤ n → conjoin n x y ≡ conjoin x x y
conjoin_enough zero zero y h = refl
conjoin_enough zero (suc x) y h = absurd (omega arith)
conjoin_enough (suc n) x y h = elim (Bool-cases (leb x n)) [
  | inl t ↦
      let within : x ≤ n = ground (arith, t) in
      conjoin_more n x y within ∙ conjoin_enough n x y within
  | inr f ↦ let same : suc n ≡ x = ground (arith, f) in ap (λ m. conjoin m x y) same
]

as_digits : (x y : ℕ) → bit_and x y ≡ conjoin x x y
as_digits x y = simp bit_and-bitwise refl

-- `&` on the lowest digit.
bit_and-low : (x y : ℕ) → bit_and x y % 2 ≡ min (x % 2) (y % 2)
bit_and-low (suc x) y =
    let split : bit_and (suc x) y ≡ conjoin x (suc x / 2) (y / 2) * 2 + min (suc x % 2) (y % 2) =
      as_digits (suc x) y in
    ground (arith, split)
bit_and-low zero y = let none : bit_and zero y ≡ 0 = as_digits zero y in ground (arith, none)

-- `&` on the others.
bit_and-high : (x y : ℕ) → bit_and x y / 2 ≡ bit_and (x / 2) (y / 2)
bit_and-high (suc x) y =
    let split : bit_and (suc x) y ≡ conjoin x (suc x / 2) (y / 2) * 2 + min (suc x % 2) (y % 2) =
      as_digits (suc x) y in
    let fewer : conjoin x (suc x / 2) (y / 2) ≡ bit_and (suc x / 2) (y / 2) =
      conjoin_enough x (suc x / 2) (y / 2) (omega arith) ∙ sym (as_digits (suc x / 2) (y / 2)) in
    ground (arith, split, fewer)
bit_and-high zero y =
    let none : bit_and zero y ≡ 0 = as_digits zero y in
    let none_left : bit_and zero (y / 2) ≡ 0 = as_digits zero (y / 2) in
    ground (arith, none, none_left)

-- `&` is the conjunction of the bits.
pub bit-bit_and : (i a b : ℕ) → bit (bit_and a b) i ≡ (bit a i && bit b i)
bit-bit_and zero a b = ground (arith, bit_and-low a b)
bit-bit_and (suc i) a b = rw (bit_and-high a b) (bit-bit_and i (a / 2) (b / 2))

bit_and-zero : (n a : ℕ) → a ≤ n → bit_and a 0 ≡ 0
bit_and-zero n zero h = as_digits zero 0
bit_and-zero zero (suc a) h = absurd (omega arith)
bit_and-zero (suc n) (suc a) h =
    ground (
      arith,
      bit_and-low (suc a) 0,
      bit_and-high (suc a) 0,
      bit_and-zero n (suc a / 2) (omega arith),
    )

-- The test of one bit by a mask.
pub bit-mask : (i a : ℕ) → (bit_and a (2 ^ i) == 0) ≡ not (bit a i)
bit-mask zero a =
    ground (arith, bit_and-low a 1, bit_and-high a 1, bit_and-zero (a / 2) (a / 2) (omega arith))
bit-mask (suc i) a =
    let half : 2 ^ suc i / 2 ≡ 2 ^ i = omega (arith, pow-suc 2 i) in
    let even : 2 ^ suc i % 2 ≡ 0 = omega (arith, pow-suc 2 i) in
    let high : bit_and a (2 ^ suc i) / 2 ≡ bit_and (a / 2) (2 ^ i) =
      bit_and-high a (2 ^ suc i) ∙ ap (bit_and (a / 2)) half in
    ground (arith, high, bit_and-low a (2 ^ suc i), even, bit-mask i (a / 2))

-- Each bit of 0xFF is set.
pub bit-full : (i : ℕ) → i < 8 → bit 0xFF i ≡ true
bit-full zero h = refl
bit-full (suc zero) h = refl
bit-full (suc (suc zero)) h = refl
bit-full (suc (suc (suc zero))) h = refl
bit-full (suc (suc (suc (suc zero)))) h = refl
bit-full (suc (suc (suc (suc (suc zero))))) h = refl
bit-full (suc (suc (suc (suc (suc (suc zero)))))) h = refl
bit-full (suc (suc (suc (suc (suc (suc (suc zero))))))) h = refl
bit-full (suc (suc (suc (suc (suc (suc (suc (suc i)))))))) h = absurd (omega arith)
