-- ===== src/Unpersisted/Indices.antt =====
-- The set of file indices that are not persisted.
use moonlink.Base.{
  ℕ, ◌+◌, ◌≤◌, ◌<◌, ◌≡◌, refl, false, List, [], ◌∷◌, ◌++◌, panics, Panic, arith, ◌==◌, length,
  Bool-cases, inl, inr,
}
use moonlink.Cache.Internal.{member}
use moonlink.Unpersisted.Records.{UnpersistedRecords, distinct, get_unpersisted_file_indices_set}

length-distinct : (ks : List ℕ) → length (distinct ks) ≤ length ks
length-distinct [] = omega arith
length-distinct (k ∷ ks) = elim (Bool-cases (member k (distinct ks))) [
  | inl t ↦ rw t (omega (arith, length-distinct ks))
  | inr f ↦ rw f (omega (arith, length-distinct ks))
]

length-append : (xs ys : List ℕ) → length (xs ++ ys) ≡ length xs + length ys
length-append [] ys = omega arith
length-append (x ∷ xs) ys = omega (arith, length-append xs ys)

-- The assertion on the number of file indices fails while the buffered compactions have made more
-- data files than file indices.
pub get_unpersisted_file_indices_set-panics :
    (u : UnpersistedRecords)
    → length u.compacted_file_indices_to_add < length u.compacted_data_files_to_add
    → get_unpersisted_file_indices_set u ≡ panics Panic.assertion_failed
unfolding get_unpersisted_file_indices_set
get_unpersisted_file_indices_set-panics u h =
    let merged = u.merged_file_indices_to_add ++ u.compacted_file_indices_to_add in
    let all = u.new_file_indices ++ merged in
    let differ : (length u.new_file_indices
            + length u.merged_file_indices_to_add
            + length u.compacted_data_files_to_add
          == length (distinct all))
        ≡ false =
      ground (
        arith,
        h,
        length-distinct all,
        length-append u.new_file_indices merged,
        length-append u.merged_file_indices_to_add u.compacted_file_indices_to_add,
      ) in
    rw differ refl
