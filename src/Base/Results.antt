-- ===== src/Base/Results.antt =====
-- A computation that may stop by a failed assertion, and one that returns an error.
use mathlib.Core.Path.{◌≡◌, refl}
use mathlib.Core.Bool.{Bool, true, false}

-- Why the source stops: `unimplemented!`, `assert!` and its relatives, `unwrap`, `panic!`,
-- an overflow in a debug build, and an index out of bounds.
pub data Panic : Type 0 where
  unimplemented assertion_failed unwrap_failed unreachable arithmetic_overflow index_out_of_bounds :
      Panic

pub data Outcome {ℓ} (A : Type ℓ) : Type ℓ where
  done : A → Outcome A
  panics : Panic → Outcome A

-- `abbrev`, so that `done a >>= f` computes wherever it stands.
infixl 5 ◌>>=◌ ◌>>◌
abbrev pub ◌>>=◌ {ℓ κ} : {A : Type ℓ} {B : Type κ} → Outcome A → (A → Outcome B) → Outcome B
done a >>= f = f a
panics e >>= f = panics e

abbrev pub ◌>>◌ {ℓ} : {B : Type ℓ} → Outcome (Unit {0}) → Outcome B → Outcome B
m >> k = m >>= λ _. k

abbrev pub assert : Bool → Outcome (Unit {0})
assert true = done tt
assert false = panics assertion_failed

-- What an operation that may fail hands back.
pub data Result {ℓ} (A E : Type ℓ) : Type ℓ where
  ok : A → Result A E
  err : E → Result A E

pub >>=-assoc {ℓ κ μ} :
    {A : Type ℓ} {B : Type κ} {C : Type μ} (m : Outcome A) (f : A → Outcome B) (g : B → Outcome C)
    → ((m >>= f) >>= g) ≡ (m >>= λ a. f a >>= g)
>>=-assoc (done a) f g = refl
>>=-assoc (panics e) f g = refl

-- Inversion of a successful bind.
pub >>=-eq-done {ℓ κ} :
    {A : Type ℓ} {B : Type κ} (m : Outcome A) (f : A → Outcome B) {b : B}
    → (m >>= f) ≡ done b
    → (a : A) × (m ≡ done a) × (f a ≡ done b)
>>=-eq-done (done a) f h = (a, refl, h)
>>=-eq-done (panics e) f h = cc

-- A computation that passed its last assertion.
pub assert-done {ℓ} : {A : Type ℓ} (b : Bool) (x y : A) → (assert b >> done x) ≡ done y → x ≡ y
assert-done true x y e = cc
assert-done false x y e = absurd (cc)
