-- ===== src/Wal/Valid/Files.antt =====
-- The numbers of the live files, and what truncation makes of them.
use moonlink.Base.{
  ℕ, ◌+◌, ◌≤◌, ◌<◌, ◌≡◌, refl, ◌⊎◌, inl, inr, true, none, some, List, [], ◌∷◌, ◌++◌, arith, ltb,
  leb, ◌==◌, last?, retain, Bool-cases, ap, sym, subst,
}
use moonlink.Base.Words.{u64_max, next_u64_lem}
use moonlink.Wal.Manager.{WalFileInfo}
use moonlink.Wal.Truncate.{keeps_first_live}
use moonlink.Wal.Persist.{lowest_file_kept, kept_files}
use moonlink.Wal.Complete.{same_files}
use moonlink.Wal.Valid.{Numbered}

abbrev pub older : ℕ → List WalFileInfo → List WalFileInfo
older w = retain (λ file. ltb file.file_number w)

abbrev pub newer : ℕ → List WalFileInfo → List WalFileInfo
newer w = retain (λ file. leb w file.file_number)

pub Numbered-le : (k n : ℕ) (files : List WalFileInfo) → Numbered k files n → k ≤ n
Numbered-le k n [] h = omega arith
Numbered-le k n (file ∷ files) h = omega (arith, Numbered-le (k + 1) n files h.1)

-- Nothing is older than the first number, and all is at least as new.
all_newer :
    (k n w : ℕ) (files : List WalFileInfo)
    → Numbered k files n
    → w ≤ k
    → (older w files ≡ []) × (newer w files ≡ files)
all_newer k n w [] h l = (refl, refl)
all_newer k n w (file ∷ files) h l =
    let (o, e) = all_newer (k + 1) n w files h.1 (omega arith) in (ground arith, ground arith)

head_older :
    (k w : ℕ) (file : WalFileInfo) (files : List WalFileInfo)
    → file.file_number < w
    → (older w (file ∷ files) ≡ file ∷ older w files) × (newer w (file ∷ files) ≡ newer w files)
head_older k w file files l = (ground arith, ground arith)

-- A cut at a number in the range splits the run in two.
pub Numbered-split :
    (k n w : ℕ) (files : List WalFileInfo)
    → Numbered k files n
    → k ≤ w
    → w ≤ n
    → Numbered k (older w files) w × Numbered w (newer w files) n
Numbered-split k n w [] h l m = omega arith
Numbered-split k n w (file ∷ files) h l m = elim (Bool-cases (k == w)) [
  | inl e ↦
      let c : k ≡ w = ground arith in
      let (o, all) = all_newer k n w (file ∷ files) h (omega arith) in
      (
        subst (λ t. Numbered k t w) (sym o) c,
        subst (λ t. Numbered w t n) (sym all) (subst (λ j. Numbered j (file ∷ files) n) c h),
      )
  | inr e ↦
      let (o, all) = Numbered-split (k + 1) n w files h.1 (ground arith) m in
      let (cut, rest) = head_older k w file files (ground arith) in
      (subst (λ t. Numbered k t w) (sym cut) (h.0, o), subst (λ t. Numbered w t n) (sym rest) all)
]

pub Numbered-append :
    (k n : ℕ) (files : List WalFileInfo) (file : WalFileInfo)
    → Numbered k files n
    → file.file_number ≡ n
    → Numbered k (files ++ (file ∷ [])) (n + 1)
Numbered-append k n [] file h e = omega arith
Numbered-append k n (f ∷ files) file h e = (h.0, Numbered-append (k + 1) n files file h.1 e)

pub Numbered-last :
    (k n : ℕ) (file : WalFileInfo) (files : List WalFileInfo)
    → Numbered k (file ∷ files) n
    → (g : WalFileInfo) × (last? (file ∷ files) ≡ some g) × (g.file_number + 1 ≡ n)
Numbered-last k n file [] h = (file, refl, omega arith)
Numbered-last k n file (f ∷ files) h = Numbered-last (k + 1) n f files h.1

-- The number that the deleted files give for the lowest kept one is that of the cut.
pub lowest_file_kept-Numbered :
    (k w : ℕ) (deleted : List WalFileInfo)
    → Numbered k deleted w
    → w ≤ u64_max
    → ((lowest_file_kept deleted ≡ none) × (k ≡ w)) ⊎ (lowest_file_kept deleted ≡ some w)
unfolding lowest_file_kept
lowest_file_kept-Numbered k w [] h b = inl (refl, h)
lowest_file_kept-Numbered k w (file ∷ files) h b =
    let (g, e, n) = Numbered-last k w file files h in
    inr (rw (e, lowest_file_kept) (ap some (omega (arith, next_u64_lem g.file_number))))

pub lowest_file_kept-cases :
    (k w : ℕ) (deleted : List WalFileInfo)
    → Numbered k deleted w
    → w ≤ u64_max
    → (lowest_file_kept deleted ≡ none) ⊎ (lowest_file_kept deleted ≡ some w)
lowest_file_kept-cases k w deleted h b = elim (lowest_file_kept-Numbered k w deleted h b) [
  | inl (e, _) ↦ inl e
  | inr e ↦ inr e
]

pub kept_files-newer :
    (k n w : ℕ) (live deleted : List WalFileInfo)
    → Numbered k live n
    → Numbered k deleted w
    → w ≤ u64_max
    → kept_files (lowest_file_kept deleted) live ≡ newer w live
kept_files-newer k n w live deleted h d b = elim (lowest_file_kept-Numbered k w deleted d b) [
  | inl (e, c) ↦ rw e (sym (all_newer k n w live h (omega arith)).1)
  | inr e ↦ rw e refl
]

pub keeps_first_live-Numbered :
    (k n w : ℕ) (live : List WalFileInfo)
    → Numbered k live n
    → k ≤ w
    → keeps_first_live w live ≡ true
unfolding keeps_first_live
keeps_first_live-Numbered k n w [] h l = refl
keeps_first_live-Numbered k n w (file ∷ files) h l = ground arith

pub same_files_refl : (files : List WalFileInfo) → same_files files files ≡ true
unfolding same_files
same_files_refl [] = refl
same_files_refl (f ∷ files) = ground (arith, same_files_refl files)
