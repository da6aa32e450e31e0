-- ===== src/Base/Words.antt =====
-- The 64-bit unsigned integers: numbers below `u64_mod`, with the wrap-around written out.
use Prim.Native.Nat.{ℕ, ◌+◌, ◌%◌, ◌<◌, ◌^◌}
use mathlib.Core.Path.{◌≡◌}
use native.Mathlib.Omega.{arith}

abbrev pub u64_mod : ℕ
u64_mod = 2 ^ 64

abbrev pub u64_max : ℕ
u64_max = 18446744073709551615

-- `n + 1` on `u64`.
unfoldable pub next_u64 : ℕ → ℕ
next_u64 n = (n + 1) % u64_mod

-- Below the largest value the increment does not wrap.
pub next_u64_lem : (n : ℕ) → n < u64_max → next_u64 n ≡ n + 1
unfolding next_u64
next_u64_lem n h = omega arith
