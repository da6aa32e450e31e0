-- ===== src/Cache/Sizes.antt =====
-- The bytes of a list of entries, and what a write or a removal does to them.
use moonlink.Base.{
  ℕ, ◌+◌, ◌≡◌, refl, inl, inr, none, some, List, [], ◌∷◌, ◌++◌, arith, lookup, erase, All, Unique,
  ◌==◌, Bool-cases, ap, subst,
}
use mathlib.Core.Option.{some-injective}
use moonlink.Cache.Entry.{CacheEntryWrapper, size}

abbrev pub sizes : List (ℕ × CacheEntryWrapper) → ℕ
sizes [] = 0
sizes ((k, w) ∷ m) = size w + sizes m

pub sizes-append :
    (m : List (ℕ × CacheEntryWrapper)) (k : ℕ) (w : CacheEntryWrapper)
    → sizes (m ++ ((k, w) ∷ [])) ≡ sizes m + size w
sizes-append [] k w = omega arith
sizes-append ((j, v) ∷ m) k w = omega (arith, sizes-append m k w)

module _ {ℓ} {V : Type ℓ} where
  pub erase-missing : (k : ℕ) (m : List (ℕ × V)) → lookup k m ≡ none → erase k m ≡ m
  erase-missing k [] h = refl
  erase-missing k ((j, v) ∷ m) h = elim (Bool-cases (j == k)) [
    | inl e ↦ absurd (cc (rw e at h))
    | inr e ↦ rw e (ap (λ t. (j, v) ∷ t) (erase-missing k m (rw e at h)))
  ]

  pub All_pairs-erase {κ} :
      (P : ℕ × V → Type κ) (k : ℕ) (m : List (ℕ × V)) → All P m → All P (erase k m)
  All_pairs-erase P k [] h = tt
  All_pairs-erase P k ((j, v) ∷ m) h = elim (Bool-cases (j == k)) [
    | inl e ↦ rw e (All_pairs-erase P k m h.1)
    | inr e ↦ rw e (h.0, All_pairs-erase P k m h.1)
  ]

  pub All_pairs-lookup {κ} :
      (P : ℕ × V → Type κ) (k : ℕ) (m : List (ℕ × V)) (v : V)
      → All P m
      → lookup k m ≡ some v
      → P (k, v)
  All_pairs-lookup P k [] v h e = absurd (cc)
  All_pairs-lookup P k ((j, w) ∷ m) v h e = elim (Bool-cases (j == k)) [
    | inl c ↦
        let same : j ≡ k = ground arith in
        let value : w ≡ v = some-injective w v (rw c at e) in
        subst (λ x. P (x, v)) same (subst (λ x. P (j, x)) value h.0)
    | inr c ↦ All_pairs-lookup P k m v h.1 (rw c at e)
  ]

pub sizes-erase :
    (k : ℕ) (m : List (ℕ × CacheEntryWrapper)) (w : CacheEntryWrapper)
    → Unique m
    → lookup k m ≡ some w
    → sizes (erase k m) + size w ≡ sizes m
sizes-erase k [] w u e = absurd (cc)
sizes-erase k ((j, v) ∷ m) w u e = elim (Bool-cases (j == k)) [
  | inl c ↦
      let same : j ≡ k = ground arith in
      let value : v ≡ w = some-injective v w (rw c at e) in
      let gone : erase k m ≡ m = erase-missing k m (subst (λ x. lookup x m ≡ none) same u.0) in
      rw (c, gone, value) (omega arith)
  | inr c ↦ rw c (omega (arith, sizes-erase k m w u.1 (rw c at e)))
]
