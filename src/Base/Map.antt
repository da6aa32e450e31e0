-- ===== src/Base/Map.antt =====
-- `HashMap<u32, V>`: an association list, whose order is the map's unspecified iteration order.
use Prim.Native.Nat.{ℕ}
use mathlib.Core.Path.{◌≡◌, refl, subst}
use mathlib.Core.Logic.{inl, inr}
use mathlib.Core.List.{List, [], ◌∷◌, ◌++◌, map}
use mathlib.Core.Option.{Option, none, some, some-injective}
use native.Mathlib.Omega.{arith}
use moonlink.Base.Tests.{◌==◌, if◌then◌else◌, Bool-cases}
use mathlib.Core.Bool.{Bool, false}
use moonlink.Base.Lists.{All, retain}

module _ {ℓ} {V : Type ℓ} where
  -- `HashMap::get`.
  abbrev pub lookup : ℕ → List (ℕ × V) → Option V
  lookup k [] = none
  lookup k ((j, v) ∷ m) = if j == k then some v else lookup k m

  -- `HashMap::remove`.
  abbrev pub erase : ℕ → List (ℕ × V) → List (ℕ × V)
  erase k [] = []
  erase k ((j, v) ∷ m) = if j == k then erase k m else (j, v) ∷ erase k m

  -- `HashMap::insert`.
  abbrev pub insert : ℕ → V → List (ℕ × V) → List (ℕ × V)
  insert k v m = (k, v) ∷ erase k m

  -- `HashMap::values`.
  abbrev pub values : List (ℕ × V) → List V
  values = map (λ e. e.1)

  pub lookup-erase :
      (k j : ℕ) (m : List (ℕ × V)) → lookup j (erase k m) ≡ (if k == j then none else lookup j m)
  lookup-erase k j [] = ground arith
  lookup-erase k j ((i, v) ∷ m) = ground (arith, lookup-erase k j m)

  -- Reading after a write.
  pub lookup-insert :
      (k j : ℕ) (v : V) (m : List (ℕ × V))
      → lookup j (insert k v m) ≡ (if k == j then some v else lookup j m)
  lookup-insert k j v m = ground (arith, lookup-erase k j m)

  pub All-erase {κ} :
      (P : V → Type κ) (k : ℕ) (m : List (ℕ × V)) → All P (values m) → All P (values (erase k m))
  All-erase P k [] h = tt
  All-erase P k ((j, v) ∷ m) h = elim (Bool-cases (j == k)) [
    | inl e ↦ rw e (All-erase P k m h.1)
    | inr e ↦ rw e (h.0, All-erase P k m h.1)
  ]

  pub All-insert {κ} :
      (P : V → Type κ) (k : ℕ) (v : V) (m : List (ℕ × V))
      → P v
      → All P (values m)
      → All P (values (insert k v m))
  All-insert P k v m p h = (p, All-erase P k m h)

  pub All-lookup {κ} :
      (P : V → Type κ) (k : ℕ) (m : List (ℕ × V)) {v : V}
      → All P (values m)
      → lookup k m ≡ some v
      → P v
  All-lookup P k [] h e = absurd (cc)
  All-lookup P k ((j, w) ∷ m) h e = elim (Bool-cases (j == k)) [
    | inl c ↦ subst P (some-injective _ _ (rw c at e)) h.0
    | inr c ↦ All-lookup P k m h.1 (rw c at e)
  ]

  -- No key stands twice.
  abbrev pub Unique : List (ℕ × V) → Type ℓ
  Unique [] = Unit
  Unique ((k, v) ∷ m) = (lookup k m ≡ none) × Unique m

  pub Unique-erase : (k : ℕ) (m : List (ℕ × V)) → Unique m → Unique (erase k m)
  Unique-erase k [] h = tt
  Unique-erase k ((j, v) ∷ m) h = elim (Bool-cases (j == k)) [
    | inl e ↦ rw e (Unique-erase k m h.1)
    | inr e ↦ rw e (ground (arith, lookup-erase k j m), Unique-erase k m h.1)
  ]

  pub Unique-insert : (k : ℕ) (v : V) (m : List (ℕ × V)) → Unique m → Unique (insert k v m)
  Unique-insert k v m h = (ground (arith, lookup-erase k k m), Unique-erase k m h)

  lookup-retain-none :
      (p : V → Bool) (k : ℕ) (m : List (ℕ × V))
      → lookup k m ≡ none
      → lookup k (retain (λ e. p e.1) m) ≡ none
  lookup-retain-none p k [] h = refl
  lookup-retain-none p k ((j, v) ∷ m) h = ground (arith, lookup-retain-none p k m)

  pub Unique-retain : (p : V → Bool) (m : List (ℕ × V)) → Unique m → Unique (retain (λ e. p e.1) m)
  Unique-retain p [] h = tt
  Unique-retain p ((j, v) ∷ m) h = elim (Bool-cases (p v)) [
    | inl e ↦ rw e (lookup-retain-none p j m h.0, Unique-retain p m h.1)
    | inr e ↦ rw e (Unique-retain p m h.1)
  ]

  -- What is found after a filter was there before it.
  pub lookup-retain :
      (p : V → Bool) (k : ℕ) (m : List (ℕ × V)) (v : V)
      → Unique m
      → lookup k (retain (λ e. p e.1) m) ≡ some v
      → lookup k m ≡ some v
  lookup-retain p k [] v u h = h
  lookup-retain p k ((j, w) ∷ m) v u h =
      ground (arith, lookup-retain p k m v u.1, lookup-retain-none p j m u.0)

  lookup-append_missing :
      (k j : ℕ) (v : V) (m : List (ℕ × V))
      → lookup j m ≡ none
      → (k == j) ≡ false
      → lookup j (m ++ ((k, v) ∷ [])) ≡ none
  lookup-append_missing k j v [] h d = rw d refl
  lookup-append_missing k j v ((i, w) ∷ m) h d = elim (Bool-cases (i == j)) [
    | inl e ↦ absurd (cc (rw e at h))
    | inr e ↦ rw e (lookup-append_missing k j v m (rw e at h) d)
  ]

  -- A new key at the end.
  pub Unique-append_last :
      (k : ℕ) (v : V) (m : List (ℕ × V))
      → Unique m
      → lookup k m ≡ none
      → Unique (m ++ ((k, v) ∷ []))
  Unique-append_last k v [] u h = (refl, tt)
  Unique-append_last k v ((j, w) ∷ m) u h = elim (Bool-cases (j == k)) [
    | inl e ↦ absurd (cc (rw e at h))
    | inr e ↦
        (lookup-append_missing k j v m u.0 (ground arith), Unique-append_last k v m u.1 (rw e at h))
  ]
