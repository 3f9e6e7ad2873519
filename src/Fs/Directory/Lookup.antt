-- ===== src/Fs/Directory/Lookup.antt =====
-- `dir_lookup` of lab/fs/fs.c against the list of the entries of a directory.
use mathlib.Core.Path.{fun_ext}
use cse.Base.{
  ℕ, zero, suc, ◌+◌, ◌*◌, ◌/◌, ◌%◌, ◌≤◌, Bool, Option, none, some, List, [], ◌∷◌, ◌++◌, ◌==◌,
  if◌then◌else◌, ◌≡◌, inl, inr, refl, ap, ◌∙◌, arith, Bool-cases, Option-cases,
}
use cse.Fs.{Disk, File, D, pure, Result, ok, err, e_not_found, blksize, file_get_block}
use cse.Fs.Files.Read.{block_no, NoHoles, bind-some, file_get_block-eq}
use cse.Fs.Directory.{
  FilePtr, file_in, load, stored, store, in_place, blkfiles, find_in_block, found_or, search_block,
  search_from, search_dir, is_named, dir_lookup,
}

-- The entries `f[j]`, `f[j + 1]`, … of the block `b`, `n` of them, and those of the blocks of `dir`
-- from block `i` on, `n` of them.
abbrev pub entries_in : ℕ → ℕ → ℕ → List FilePtr
entries_in b zero j = []
entries_in b (suc n) j = file_in b j ∷ entries_in b n (j + 1)

abbrev pub entries_from : FilePtr → Disk → ℕ → ℕ → List FilePtr
entries_from dir d zero i = []
entries_from dir d (suc n) i =
    entries_in (block_no (load dir d) d i) blkfiles 0 ++ entries_from dir d n (i + 1)

-- All entries of a directory, used or not.
abbrev pub entries : FilePtr → Disk → List FilePtr
entries dir d = entries_from dir d ((load dir d).f_size / blksize) 0

-- The first element of a list that passes a test.
unfoldable pub first : (FilePtr → Bool) → List FilePtr → Option FilePtr
first test [] = none
first test (p ∷ ps) = let rest = first test ps in if test p then some p else rest

-- The directory is made of whole blocks, all of which are allocated.
pub record IsDir (dir : FilePtr) (d : Disk) : Type 0 where
  pub whole_blocks : (load dir d).f_size % blksize ≡ 0
  pub no_holes : NoHoles (load dir d) d

or_else : Option FilePtr → Option FilePtr → Option FilePtr
or_else none q = q
or_else (some p) q = some p

first-append :
    (test : FilePtr → Bool) (ps qs : List FilePtr)
    → first test (ps ++ qs) ≡ or_else (first test ps) (first test qs)
unfolding first or_else
first-append test [] qs = refl
first-append test (p ∷ ps) qs = elim (Bool-cases (test p)) [
  | inl e ↦ rw e refl
  | inr e ↦ rw e (first-append test ps qs)
]

find_in_block-eq :
    (test : FilePtr → Bool) (b rounds j : ℕ)
    → find_in_block test b rounds j ≡ first test (entries_in b rounds j)
unfolding find_in_block first
find_in_block-eq test b zero j = refl
find_in_block-eq test b (suc rounds) j = rw (find_in_block-eq test b rounds (j + 1)) refl

pub store-load : (p : FilePtr) (d : Disk) → store p (load p d) d ≡ d
unfolding store
store-load p d = ap (λ w. record d { words = w }) (fun_ext λ b. fun_ext λ w. same b w)
  where
    same :
        (b w : ℕ)
        → (if b == p.block then stored p.word (load p d) (d.words b) w else d.words b w)
          ≡ d.words b w
    same b w = ground arith

in_place-eq :
    {A : Type 0} (p : FilePtr) (m : File → D (A × File)) (d : Disk) (a : A)
    → m (load p d) d ≡ some ((a, load p d), d)
    → in_place p m d ≡ some (a, d)
in_place-eq p m d a e =
    bind-some (m (load p d)) (λ (r, f') d'. pure r (store p f' d')) e
    ∙ ap (λ d'. some (a, d')) (store-load p d)

-- Where the directory has no holes, the search finds the first entry that passes the test.
module _ (test : FilePtr → Disk → Bool) (at_end : D (Result FilePtr)) (dir : FilePtr) (d : Disk)
    (whole : NoHoles (load dir d) d) where
  search_from-eq :
      (n i : ℕ)
      → (i + n) * blksize ≤ (load dir d).f_size
      → search_from test at_end dir n i d
        ≡ found_or at_end (first (λ p. test p d) (entries_from dir d n i)) d
  unfolding search_from first or_else
  search_from-eq zero i h = refl
  search_from-eq (suc n) i h =
      bind-some (in_place dir (file_get_block i))
        (search_block test (search_from test at_end dir n (i + 1))) {d = d}
        (in_place-eq dir (file_get_block i) d (ok b)
          (file_get_block-eq (load dir d) d whole i (omega (arith, h))))
      ∙ rw
          (
            find_in_block-eq (λ p. test p d) b blkfiles 0,
            first-append (λ p. test p d) (entries_in b blkfiles 0) (entries_from dir d n (i + 1)),
          )
          (elim (Option-cases (first (λ p. test p d) (entries_in b blkfiles 0))) [
            | inl e ↦ rw e (search_from-eq n (i + 1) (omega (arith, h)))
            | inr (p, e) ↦ rw e refl
          ])
    where
      b : ℕ
      b = block_no (load dir d) d i

module _ (dir : FilePtr) (d : Disk) (is_dir : IsDir dir d) where
  pub search_dir-eq :
      (test : FilePtr → Disk → Bool) (at_end : ℕ → D (Result FilePtr))
      → search_dir test at_end dir d
        ≡ found_or
            (at_end ((load dir d).f_size / blksize))
            (first (λ p. test p d) (entries dir d))
            d
  unfolding search_dir
  search_dir-eq test at_end = rw (is_dir.whole_blocks) (
      search_from-eq test (at_end ((load dir d).f_size / blksize)) dir d is_dir.no_holes
        ((load dir d).f_size / blksize) 0 (omega arith))

  -- On a directory of whole blocks without holes, `dir_lookup` gives the first entry with the name,
  -- and -E_NOT_FOUND if there is none; it leaves the disk as it is.
  pub dir_lookup_lem :
      (name : List ℕ)
      → dir_lookup name dir d
        ≡ found_or (pure (err e_not_found)) (first (λ p. is_named name p d) (entries dir d)) d
  unfolding dir_lookup
  dir_lookup_lem name = search_dir-eq (is_named name) (λ n. pure (err e_not_found))
