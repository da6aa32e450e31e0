-- ===== src/Cache/Requests/Counts.antt =====
-- The count of a file's handles, and its reference count.
use moonlink.Base.{
  ℕ, ◌+◌, ◌-◌, ◌≤◌, ◌≡◌, some, List, [], ◌∷◌, arith, ◌==◌, inl, inr, sym, if◌then◌else◌, lookup,
  erase, insert, lookup-insert, lookup-erase, Bool-cases, Option-cases, ap, ◌∙◌,
}
use moonlink.Cache.Entry.{CacheEntryWrapper}
use moonlink.Cache.Requests.{count, give_back, references}

-- One handle less for the file, and as many for the others.
pub count-give_back :
    (k j : ℕ) (handles : List ℕ)
    → count j (give_back k handles) ≡ (if k == j then count j handles - 1 else count j handles)
count-give_back k j [] = ground arith
count-give_back k j (i ∷ handles) = ground (arith, count-give_back k j handles)

-- Each file of `pinned` has as many references as there are handles for it.
abbrev pub Counts : List (ℕ × CacheEntryWrapper) → List ℕ → Type 0
Counts pinned handles = (k : ℕ) → references (lookup k pinned) ≡ count k handles

module _ (k : ℕ) (pinned : List (ℕ × CacheEntryWrapper)) (handles : List ℕ)
    (counts : Counts pinned handles) where
  -- A file with a handle is pinned.
  pub held-pinned :
      1 ≤ count k handles
      → (w : CacheEntryWrapper) × (lookup k pinned ≡ some w) × (w.reference_count ≡ count k handles)
  held-pinned h = elim (Option-cases (lookup k pinned)) [
    | inl e ↦ absurd (omega (arith, sym (ap references e) ∙ counts k))
    | inr (w, e) ↦ (w, e, sym (ap references e) ∙ counts k)
  ]

  pub Counts-take :
      (w : CacheEntryWrapper)
      → w.reference_count ≡ count k handles + 1
      → Counts (insert k w pinned) (k ∷ handles)
  Counts-take w h j = elim (Bool-cases (k == j)) [
    | inl e ↦
        let same : k ≡ j = ground arith in
        rw (lookup-insert k j w pinned, e) (omega (arith, h, ap (λ i. count i handles) same))
    | inr e ↦ rw (lookup-insert k j w pinned, e) (counts j)
  ]

  pub Counts-insert_back :
      (w : CacheEntryWrapper)
      → w.reference_count ≡ count k handles - 1
      → Counts (insert k w pinned) (give_back k handles)
  Counts-insert_back w h j = elim (Bool-cases (k == j)) [
    | inl e ↦
        let same : k ≡ j = ground arith in
        rw (lookup-insert k j w pinned, count-give_back k j handles, e)
          (h ∙ ap (λ i. count i handles - 1) same)
    | inr e ↦ rw (lookup-insert k j w pinned, count-give_back k j handles, e) (counts j)
  ]

  pub Counts-erase_back : count k handles ≡ 1 → Counts (erase k pinned) (give_back k handles)
  Counts-erase_back h j = elim (Bool-cases (k == j)) [
    | inl e ↦
        let same : k ≡ j = ground arith in
        rw (lookup-erase k j pinned, count-give_back k j handles, e)
          (sym (ap (λ n. n - 1) h) ∙ ap (λ i. count i handles - 1) same)
    | inr e ↦ rw (lookup-erase k j pinned, count-give_back k j handles, e) (counts j)
  ]
