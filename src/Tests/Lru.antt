-- ===== src/Tests/Lru.antt =====
-- A list as the `lru` crate's cache: the least recently used entry first.
use moonlink.Base.{
  ℕ, refl, Option, none, some, List, [], ◌∷◌, ◌++◌, arith, lookup, erase, Unique, Unique-erase,
  Unique-append_last, lookup-erase,
}
use moonlink.Cache.Lru.{Lru, LruLaws, PopsFirst, null}
use moonlink.Cache.Entry.{CacheEntryWrapper}

abbrev Entries : Type 0
Entries = List (ℕ × CacheEntryWrapper)

abbrev Used : Type 0
Used = (m : Entries) × Unique m

abbrev push_last : ℕ → CacheEntryWrapper → Used → Used
push_last k v (m, u) = (
  erase k m ++ ((k, v) ∷ []),
  Unique-append_last k v (erase k m) (Unique-erase k m u) (ground (arith, lookup-erase k k m)),
)

abbrev pop_first : Used → Option ((ℕ × CacheEntryWrapper) × Used)
pop_first ([], u) = none
pop_first (e ∷ m, u) = some (e, (m, u.1))

abbrev touch : ℕ → Used → Option CacheEntryWrapper → Used
touch k m none = m
touch k m (some v) = push_last k v m

abbrev write_to :
    ℕ → Used → Option CacheEntryWrapper → Option (CacheEntryWrapper × (CacheEntryWrapper → Used))
write_to k m none = none
write_to k m (some v) = some (v, λ w. push_last k w m)

abbrev pub list_lru : Lru CacheEntryWrapper
list_lru = record {
  Map = Used;
  unbounded = ([], tt);
  is_empty = λ m. null m.0;
  pop_lru = pop_first;
  pop = λ k m. (lookup k m.0, (erase k m.0, Unique-erase k m.0 m.1));
  push = push_last;
  get = λ k m. (lookup k m.0, touch k m (lookup k m.0));
  get_mut = λ k m. write_to k m (lookup k m.0);
  entries = λ m. m.0;
}

pop_first_lem : (m : Used) → PopsFirst list_lru m (pop_first m)
pop_first_lem ([], u) = refl
pop_first_lem (e ∷ m, u) = refl

pub list_lru_laws : LruLaws list_lru
list_lru_laws = record {
  unique = λ m. m.1;
  unbounded_lem = refl;
  is_empty_lem = λ m. refl;
  pop_lru_lem = pop_first_lem;
  pop_found = λ k m. refl;
  pop_left = λ k m. refl;
  push_lem = λ k v m. refl;
  get_found = λ k m. refl;
  get_missing = λ k m h. rw h refl;
  get_mut_missing = λ k m h. rw h refl;
  get_mut_found = λ k m v h. ((λ w. push_last k w m), rw h refl, λ w. refl);
}
