-- ===== src/Fs/Directory.antt =====
-- Directories, lab/fs/fs.c: `dir_lookup` and `dir_alloc_file` on the `struct File`s of lab/inc/fs.h
-- in the blocks of a disk. A name is the list of its characters up to the null character; every
-- byte behind the name is left out of it.
pub mod Lookup
pub mod NewName
pub mod Insert
use cse.Base.{
  ℕ, zero, suc, ◌+◌, ◌-◌, ◌*◌, ◌/◌, ◌%◌, Bool, ◌&&◌, Option, none, some, List, [], ◌∷◌, leb, ltb,
  ◌==◌, if◌then◌else◌,
}
use cse.Fs.{Disk, File, F, D, pure, ◌>>=◌, Result, ok, err, e_not_found, blksize, file_get_block}
use cse.Fs.Files.{byte_at}

-- A `struct File *`: a block of the disk and the word of it where the 64 words of the struct start.
pub record FilePtr : Type 0 where
  pub block : ℕ
  pub word : ℕ

-- `f[j]` in the block `b`, and the root of the super block.
abbrev pub file_in : ℕ → ℕ → FilePtr
file_in b j = record { block = b; word = 64 * j }

abbrev pub s_root : FilePtr
s_root = record { block = 1; word = 2 }

abbrev pub maxnamelen : ℕ
maxnamelen = 128

-- The fields of the struct behind a pointer; `f_type` is 1 for a directory.
abbrev pub f_name : FilePtr → Disk → ℕ → ℕ
f_name p d i = byte_at d p.block (4 * p.word + i)

abbrev pub f_type : FilePtr → Disk → ℕ
f_type p d = d.words p.block (p.word + 33)

abbrev pub load : FilePtr → Disk → File
load p d = record {
  f_size = d.words p.block (p.word + 32);
  f_direct = λ i. d.words p.block (p.word + 34 + i);
  f_indirect = d.words p.block (p.word + 44);
}

abbrev pub stored : ℕ → File → (ℕ → ℕ) → ℕ → ℕ
stored at f old w =
    if w == at + 32
    then f.f_size
    else if leb (at + 34) w && ltb w (at + 44)
    then f.f_direct (w - (at + 34))
    else if w == at + 44
    then f.f_indirect
    else old w

unfoldable pub store : FilePtr → File → Disk → Disk
store p f d = record d {
  words = λ b w. if b == p.block then stored p.word f (d.words b) w else d.words b w;
}

-- Code on the struct behind a pointer. It does not write the block of the struct by another name.
abbrev pub in_place : {A : Type 0} → FilePtr → F A → D A
in_place p m d = (m (load p d) >>= λ (r, f') d'. pure r (store p f' d')) d

-- `strcmp(s, name) == 0`, for the string `s` from index `i` on.
unfoldable pub same_name : List ℕ → (ℕ → ℕ) → ℕ → Bool
same_name [] s i = s i == 0
same_name (c ∷ cs) s i = (s i == c) && same_name cs s (i + 1)

abbrev pub blkfiles : ℕ
blkfiles = 16

-- The first `f[j]` of the block that passes the test, with `rounds` rounds left.
unfoldable pub find_in_block : (FilePtr → Bool) → ℕ → ℕ → ℕ → Option FilePtr
find_in_block test b zero j = none
find_in_block test b (suc rounds) j =
    let rest = find_in_block test b rounds (j + 1) in
    if test (file_in b j) then some (file_in b j) else rest

abbrev pub found_or : D (Result FilePtr) → Option FilePtr → D (Result FilePtr)
found_or go_on none = go_on
found_or go_on (some p) = pure (ok p)

-- The round of either loop after `file_get_block`; `go_on` is what follows the round.
abbrev pub search_block :
    (FilePtr → Disk → Bool) → D (Result FilePtr) → Result ℕ → D (Result FilePtr)
search_block test go_on (err e) = pure (err e)
search_block test go_on (ok b) = λ d. found_or go_on (find_in_block (λ p. test p d) b blkfiles 0) d

-- The loop over the blocks of a directory from block `i` on, with `rounds` rounds left; `at_end` is
-- what follows the loop.
unfoldable pub search_from :
    (FilePtr → Disk → Bool) → D (Result FilePtr) → FilePtr → ℕ → ℕ → D (Result FilePtr)
unfolding find_in_block
search_from test at_end dir zero i = at_end
search_from test at_end dir (suc rounds) i =
    in_place dir (file_get_block i)
    >>= search_block test (search_from test at_end dir rounds (i + 1))

-- The assertion that both functions start with, and their search.
unfoldable pub search_dir :
    (FilePtr → Disk → Bool) → (ℕ → D (Result FilePtr)) → FilePtr → D (Result FilePtr)
unfolding search_from
search_dir test at_end dir d =
    let size = (load dir d).f_size in
    if size % blksize == 0
    then search_from test (at_end (size / blksize)) dir (size / blksize) 0 d
    else none

abbrev pub is_named : List ℕ → FilePtr → Disk → Bool
is_named name p d = same_name name (f_name p d) 0

unfoldable pub dir_lookup : List ℕ → FilePtr → D (Result FilePtr)
unfolding search_dir same_name
dir_lookup name dir = search_dir (is_named name) (λ nblock. pure (err e_not_found)) dir

abbrev pub is_unused : FilePtr → Disk → Bool
is_unused p d = f_name p d 0 == 0

abbrev pub first_of : Result ℕ → D (Result FilePtr)
first_of (err e) = pure (err e)
first_of (ok b) = pure (ok (file_in b 0))

-- The directory has no unused entry: it grows by a block, whose first entry is taken.
unfoldable pub grow_dir : FilePtr → ℕ → D (Result FilePtr)
grow_dir dir nblock =
    in_place dir (λ f. pure (tt, record f { f_size = f.f_size + blksize })) >>= λ _.
    in_place dir (file_get_block nblock) >>= first_of

unfoldable pub dir_alloc_file : FilePtr → D (Result FilePtr)
unfolding search_dir grow_dir
dir_alloc_file dir = search_dir is_unused (grow_dir dir) dir
