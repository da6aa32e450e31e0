-- ===== src/Base/Checked.antt =====
-- Arithmetic on unsigned integers as a debug build does it: an overflow stops the program.
use Prim.Native.Nat.{ℕ, ◌+◌, ◌-◌, ◌<◌, ◌≤◌}
use mathlib.Core.Path.{◌≡◌}
use native.Mathlib.Omega.{arith}
use mathlib.Core.Bool.{true, false}
use moonlink.Base.Tests.{ltb, leb}
use moonlink.Base.Results.{Outcome, done, panics, Panic}

-- `a - b`.
unfoldable pub checked_sub : ℕ → ℕ → Outcome ℕ
checked_sub a b = elim (leb b a) [ true ↦ done (a - b) | false ↦ panics Panic.arithmetic_overflow ]

-- `a + b` on integers below `bound`.
unfoldable pub checked_add : (bound a b : ℕ) → Outcome ℕ
checked_add bound a b = elim (ltb (a + b) bound) [
  | true ↦ done (a + b)
  | false ↦ panics Panic.arithmetic_overflow
]

pub checked_sub_le : (a b : ℕ) → b ≤ a → checked_sub a b ≡ done (a - b)
unfolding checked_sub
checked_sub_le a b h = let fits : leb b a ≡ true = ground arith in rw (fits, checked_sub)

pub checked_add_lt : (bound a b : ℕ) → a + b < bound → checked_add bound a b ≡ done (a + b)
unfolding checked_add
checked_add_lt bound a b h =
    let fits : ltb (a + b) bound ≡ true = ground arith in rw (fits, checked_add)
