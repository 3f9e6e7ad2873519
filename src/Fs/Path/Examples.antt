-- ===== src/Fs/Path/Examples.antt =====
-- The theorems on directories and paths, lab/fs/fs.c, at a disk whose root directory has one block,
-- block 3, with the name "a" in its first entry.
use mathlib.Core.Path.{subst}
use cse.Base.{
  ℕ, zero, suc, ◌+◌, ◌*◌, ◌<◌, true, none, some, List, [], ◌∷◌, All, length, ◌==◌, ◌&&◌,
  if◌then◌else◌, ◌≡◌, ◌≢◌, ◌⊎◌, inl, inr, refl, sym, arith,
}
use cse.Fs.{Disk, pure, ok, err, e_not_found}
use cse.Fs.Files.{byte_at}
use cse.Fs.Files.Read.{block_no}
use cse.Fs.Directory.{
  FilePtr, s_root, file_in, load, f_name, f_type, same_name, maxnamelen, is_named, is_unused,
  dir_lookup, found_or,
}
use cse.Fs.Directory.Lookup.{entries_in, entries, first, IsDir}
use cse.Fs.Directory.NewName.{IsString}
use cse.Fs.Path.{arrived, missing_last, walk_path, file_create}
use cse.Fs.Path.Elements.{elements}
use cse.Fs.Path.Walk.{IsTree, resolve, walk_path-resolve}
use cse.Fs.Path.Create.{file_create_lem}

abbrev root_words : ℕ → ℕ → ℕ
root_words b w =
    if b == 1
    then if w == 34 then 4096 else if w == 35 then 1 else if w == 36 then 3 else 0
    else if (b == 3) && (w == 0)
    then 97
    else 0

abbrev disk : Disk
disk = record { s_nblocks = 8; words = root_words; flushed = [] }

root-IsDir : IsDir s_root disk
root-IsDir = record {
  whole_blocks = refl;
  no_holes = record {
    size = omega arith;
    blocks = inside;
    indirect = λ h. absurd (omega (arith, h));
  };
}
  where
    inside :
        (n : ℕ)
        → n * 4096 < 4096
        → (0 < block_no (load s_root disk) disk n) × (block_no (load s_root disk) disk n < 8)
    inside zero h = (omega arith, omega arith)
    inside (suc n) h = absurd (omega (arith, h))

abbrev Reached : FilePtr → Type 0
Reached p = (p ≡ s_root) ⊎ (p.block ≡ 3)

entries_in-Reached : (n j : ℕ) → All Reached (entries_in 3 n j)
entries_in-Reached zero j = tt
entries_in-Reached (suc n) j = (inr refl, entries_in-Reached n (j + 1))

disk-IsTree : IsTree Reached disk
disk-IsTree = record {
  root = inl refl;
  dirs = λ p s h. elim s [
    | inl e ↦ subst (λ x. IsDir x disk) (sym e) root-IsDir
    | inr e ↦ absurd (no_dir p e h)
  ];
  children = λ p s h. elim s [
    | inl e ↦ subst (λ x. All Reached (entries x disk)) (sym e) (entries_in-Reached 16 0)
    | inr e ↦ absurd (no_dir p e h)
  ];
}
  where
    no_dir : (p : FilePtr) → p.block ≡ 3 → (f_type p disk == 1) ≡ true → ⊥
    no_dir p e h = ground (arith, e, h)

abbrev slash_a : List ℕ
slash_a = 47 ∷ 47 ∷ 97 ∷ 47 ∷ []

walk_path-resolve_example :
    walk_path slash_a disk ≡ some (resolve disk none s_root (elements slash_a), disk)
walk_path-resolve_example = walk_path-resolve slash_a disk Reached disk-IsTree

found_a : resolve disk none s_root (elements slash_a) ≡ arrived (some s_root) (file_in 3 0)
unfolding resolve elements first same_name byte_at
found_a = refl

abbrev slash_b : List ℕ
slash_b = 47 ∷ 98 ∷ []

no_b : walk_path slash_b disk ≡ some (missing_last s_root (98 ∷ []), disk)
unfolding resolve elements first same_name byte_at
no_b = walk_path-resolve slash_b disk Reached disk-IsTree

absent_b : first (λ q. is_named (98 ∷ []) q disk) (entries s_root disk) ≡ none
unfolding first same_name byte_at
absent_b = refl

second_unused : first (λ q. is_unused q disk) (entries s_root disk) ≡ some (file_in 3 1)
unfolding first byte_at
second_unused = refl

file_create_lem_example :
    (d' : Disk) × (file_create slash_b disk ≡ some (ok (file_in 3 1), d'))
    × (dir_lookup (98 ∷ []) s_root d' ≡ some (ok (file_in 3 1), d'))
    × ((n : List ℕ)
        → IsString n
        → length n < maxnamelen
        → n ≢ 98 ∷ []
        → n ≢ []
        → dir_lookup n s_root d'
          ≡ found_or
              (pure (err e_not_found))
              (first (λ q. is_named n q disk) (entries s_root disk))
              d')
    × ((i : ℕ) → 1 < i → f_name (file_in 3 1) d' i ≡ f_name (file_in 3 1) disk i)
file_create_lem_example =
    file_create_lem s_root 3 1 (98 ∷ []) disk root-IsDir (inl refl) (λ e. omega (arith, e))
      (λ e. omega (arith, e)) slash_b no_b absent_b second_unused ((omega arith, omega arith), tt)
      (omega arith)
