-- ===== src/Base/Lists.antt =====
-- Lists measured by native numbers, the ends of a vector, and predicates over all entries.
use Prim.Native.Nat.{ℕ, suc}
use mathlib.Core.Path.{◌≡◌, subst}
use mathlib.Core.Logic.{◌⊎◌, inl, inr}
use mathlib.Core.Bool.{Bool, true}
use mathlib.Core.List.{List, [], ◌∷◌, ◌++◌}
use mathlib.Core.Option.{Option, none, some, some-injective}
use moonlink.Base.Tests.{if◌then◌else◌, Bool-cases}

-- The empty type, at every level.
pub data Never {ℓ} : Type ℓ where

module _ {ℓ} {A : Type ℓ} where
  abbrev pub length : List A → ℕ
  length [] = 0
  length (x ∷ xs) = suc (length xs)

  -- `Vec::first` and `Vec::last`.
  abbrev pub first? : List A → Option A
  first? [] = none
  first? (x ∷ xs) = some x

  abbrev pub last? : List A → Option A
  last? [] = none
  last? (x ∷ []) = some x
  last? (x ∷ y ∷ xs) = last? (y ∷ xs)

  -- What `Vec::pop` leaves behind.
  abbrev pub drop_last : List A → List A
  drop_last [] = []
  drop_last (x ∷ []) = []
  drop_last (x ∷ y ∷ xs) = x ∷ drop_last (y ∷ xs)

  -- `Vec::retain`, and `filter` followed by `collect`.
  abbrev pub retain : (A → Bool) → List A → List A
  retain p [] = []
  retain p (x ∷ xs) = if p x then x ∷ retain p xs else retain p xs

  -- `Iterator::find`.
  abbrev pub find? : (A → Bool) → List A → Option A
  find? p [] = none
  find? p (x ∷ xs) = if p x then some x else find? p xs

  -- Every entry satisfies `P`.
  abbrev pub All {κ} : (A → Type κ) → List A → Type κ
  All P [] = Unit
  All P (x ∷ xs) = P x × All P xs

  -- Some entry satisfies `P`.
  abbrev pub Any : (A → Type ℓ) → List A → Type ℓ
  Any P [] = Never
  Any P (x ∷ xs) = P x ⊎ Any P xs

module _ {ℓ κ} {A : Type ℓ} (P : A → Type κ) where
  pub All-append : (xs ys : List A) → All P xs → All P ys → All P (xs ++ ys)
  All-append [] ys p q = q
  All-append (x ∷ xs) ys p q = (p.0, All-append xs ys p.1 q)

  pub All-retain : (keep : A → Bool) (xs : List A) → All P xs → All P (retain keep xs)
  All-retain keep [] p = tt
  All-retain keep (x ∷ xs) p = elim (Bool-cases (keep x)) [
    | inl e ↦ rw e (p.0, All-retain keep xs p.1)
    | inr e ↦ rw e (All-retain keep xs p.1)
  ]

  pub All-drop_last : (xs : List A) → All P xs → All P (drop_last xs)
  All-drop_last [] p = tt
  All-drop_last (x ∷ []) p = tt
  All-drop_last (x ∷ y ∷ xs) p = (p.0, All-drop_last (y ∷ xs) p.1)

  pub All-last : (xs : List A) {s : A} → All P xs → last? xs ≡ some s → P s
  All-last [] p e = absurd (cc)
  All-last (x ∷ []) p e = subst P (some-injective _ _ e) p.0
  All-last (x ∷ y ∷ xs) p e = All-last (y ∷ xs) p.1 e

  -- What a list retains satisfies the test.
  pub All-retained :
      (keep : A → Bool) → ((a : A) → keep a ≡ true → P a) → (xs : List A) → All P (retain keep xs)
  All-retained keep h [] = tt
  All-retained keep h (x ∷ xs) = elim (Bool-cases (keep x)) [
    | inl e ↦ rw e (h x e, All-retained keep h xs)
    | inr e ↦ rw e (All-retained keep h xs)
  ]

pub All-map {ℓ κ μ} :
    {A : Type ℓ} (P : A → Type κ) (Q : A → Type μ)
    → ((a : A) → P a → Q a)
    → (xs : List A) → All P xs
    → All Q xs
All-map P Q f [] p = tt
All-map P Q f (x ∷ xs) p = (f x p.0, All-map P Q f xs p.1)

-- What holds of every entry holds of one.
pub All-Any {ℓ κ} :
    {A : Type ℓ} (P : A → Type κ) (a : A) (xs : List A) → All P xs → Any (λ x. x ≡ a) xs → P a
All-Any P a [] h m = elim m [ ]
All-Any P a (x ∷ xs) h (inl e) = subst P e h.0
All-Any P a (x ∷ xs) h (inr m) = All-Any P a xs h.1 m
