-- ===== src/Cache/Lru.antt =====
-- The `lru` crate's `LruCache`, without a bound, as the cache uses it. Keys are file ids.
use moonlink.Base.{
  ℕ, ◌≡◌, Bool, true, false, Option, none, some, List, [], ◌∷◌, ◌++◌, lookup, erase, Unique,
}

pub record Lru (V : Type 0) : Type 1 where
  pub Map : Type 0
  pub unbounded : Map
  pub is_empty : Map → Bool
  pub pop_lru : Map → Option ((ℕ × V) × Map)
  pub pop : ℕ → Map → Option V × Map
  pub push : ℕ → V → Map → Map
  -- `get` counts as a use of the entry.
  pub get : ℕ → Map → Option V × Map
  -- The value, and the map once a value is written through the reference.
  pub get_mut : ℕ → Map → Option (V × (V → Map))
  -- The entries, the least recently used first.
  pub entries : Map → List (ℕ × V)

abbrev pub null {ℓ} : {A : Type ℓ} → List A → Bool
null [] = true
null (_ ∷ _) = false

abbrev pub PopsFirst : {V : Type 0} → (lru : Lru V) → lru.Map → Option ((ℕ × V) × lru.Map) → Type 0
PopsFirst lru m none = lru.entries m ≡ []
PopsFirst lru m (some (e, m')) = lru.entries m ≡ e ∷ lru.entries m'

-- A use puts an entry last; `pop_lru` takes the first.
pub record LruLaws {V : Type 0} (lru : Lru V) : Type 0 where
  pub unique : (m : lru.Map) → Unique (lru.entries m)
  pub unbounded_lem : lru.entries lru.unbounded ≡ []
  pub is_empty_lem : (m : lru.Map) → lru.is_empty m ≡ null (lru.entries m)
  pub pop_lru_lem : (m : lru.Map) → PopsFirst lru m (lru.pop_lru m)
  pub pop_found : (k : ℕ) (m : lru.Map) → (lru.pop k m).0 ≡ lookup k (lru.entries m)
  pub pop_left : (k : ℕ) (m : lru.Map) → lru.entries (lru.pop k m).1 ≡ erase k (lru.entries m)
  pub push_lem :
      (k : ℕ) (v : V) (m : lru.Map)
      → lru.entries (lru.push k v m) ≡ erase k (lru.entries m) ++ ((k, v) ∷ [])
  pub get_found : (k : ℕ) (m : lru.Map) → (lru.get k m).0 ≡ lookup k (lru.entries m)
  pub get_missing :
      (k : ℕ) (m : lru.Map)
      → lookup k (lru.entries m) ≡ none
      → lru.entries (lru.get k m).1 ≡ lru.entries m
  pub get_mut_missing :
      (k : ℕ) (m : lru.Map) → lookup k (lru.entries m) ≡ none → lru.get_mut k m ≡ none
  pub get_mut_found :
      (k : ℕ) (m : lru.Map) (v : V)
      → lookup k (lru.entries m) ≡ some v
      → (write : V → lru.Map) × (lru.get_mut k m ≡ some (v, write))
        × ((w : V) → lru.entries (write w) ≡ erase k (lru.entries m) ++ ((k, w) ∷ []))
