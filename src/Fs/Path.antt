-- ===== src/Fs/Path.antt =====
-- Path names, lab/fs/fs.c: `skip_slash`, `walk_path`, and the operations on a file by its path. A
-- path is the list of its characters up to the null character; '/' is 47.
pub mod Elements
pub mod Walk
pub mod Create
mod Examples
use cse.Base.{
  ℕ, zero, suc, ◌+◌, ◌*◌, Option, none, some, List, [], ◌∷◌, length, get_or, leb, ◌==◌,
  if◌then◌else◌,
}
use cse.Fs.{
  D, pure, ◌>>=◌, ◌>>◌, Result, ok, err, Error, e_not_found, e_bad_path, e_file_exists, flush,
  file_truncate_blocks,
}
use cse.Fs.Files.{file_flush}
use cse.Fs.Writing.{copy_in}
use cse.Fs.Directory.{
  FilePtr, s_root, maxnamelen, f_type, load, in_place, dir_lookup, dir_alloc_file,
}

unfoldable pub skip_slash : List ℕ → List ℕ
skip_slash [] = []
skip_slash (c ∷ cs) = let rest = skip_slash cs in if c == 47 then rest else c ∷ cs

abbrev pub onto : ℕ → List ℕ × List ℕ → List ℕ × List ℕ
onto c (name, rest) = (c ∷ name, rest)

-- `while (*path != '/' && *path != '\0') path++`: the characters passed, and the path left.
unfoldable pub next_element : List ℕ → List ℕ × List ℕ
next_element [] = ([], [])
next_element (c ∷ cs) = let rest = next_element cs in if c == 47 then ([], c ∷ cs) else onto c rest

-- What `walk_path` returns and leaves: `*pdir` and `*pf`, which are null pointers where they are
-- `none`, and `lastelem` where it is written.
pub record Walked : Type 0 where
  pub result : Result (Unit {0})
  pub pdir : Option FilePtr
  pub pf : Option FilePtr
  pub lastelem : Option (List ℕ)

abbrev pub failed : Error → Walked
failed e = record { result = err e; pdir = none; pf = none; lastelem = none }

abbrev pub arrived : Option FilePtr → FilePtr → Walked
arrived dir f = record { result = ok tt; pdir = dir; pf = some f; lastelem = none }

-- Only the last element of the path is missing in `dir`.
abbrev pub missing_last : FilePtr → List ℕ → Walked
missing_last dir name = record {
  result = err e_not_found;
  pdir = some dir;
  pf = none;
  lastelem = some name;
}

abbrev pub lookup_failed : FilePtr → List ℕ → List ℕ → Error → Walked
lookup_failed dir name [] e_not_found = missing_last dir name
lookup_failed dir name rest e = failed e

abbrev pub next_file : (FilePtr → D Walked) → FilePtr → List ℕ → List ℕ → Result FilePtr → D Walked
next_file go_on dir name rest (ok f) = go_on f
next_file go_on dir name rest (err e) = pure (lookup_failed dir name rest e)

-- The body of the loop at the file `f`, for the element `name` in front of the path `rest`.
abbrev pub enter :
    (Option FilePtr → FilePtr → List ℕ → D Walked) → FilePtr → List ℕ → List ℕ → D Walked
enter go_on f name rest d =
    if leb maxnamelen (length name)
    then some (failed e_bad_path, d)
    else if f_type f d == 1
    then (dir_lookup name f >>= next_file (λ f'. go_on (some f) f' rest) f name rest) d
    else some (failed e_not_found, d)

-- The loop with `fuel` rounds left; `none` is also a loop that is cut off.
unfoldable pub walk_from : ℕ → Option FilePtr → FilePtr → List ℕ → D Walked
unfolding skip_slash next_element
walk_from zero dir f path = λ d. none
walk_from (suc fuel) dir f [] = pure (arrived dir f)
walk_from (suc fuel) dir f (c ∷ cs) =
    (let (name, rest) = next_element (c ∷ cs) in enter (walk_from fuel) f name (skip_slash rest))

-- Every round takes a character of the path.
unfoldable pub walk_path : List ℕ → D Walked
unfolding walk_from
walk_path path = walk_from (length path + 1) none s_root (skip_slash path)

abbrev pub pf_of : Walked → Result FilePtr
pf_of w = elim w.result [
  | err e ↦ err e
  | ok u ↦ elim w.pf [ none ↦ err e_not_found | some f ↦ ok f ]
]

unfoldable pub file_open : List ℕ → D (Result FilePtr)
unfolding walk_path
file_open path = walk_path path >>= λ w. pure (pf_of w)

-- `strcpy(f->f_name, name)`.
unfoldable pub set_name : FilePtr → List ℕ → D (Unit {0})
set_name p name d =
    some (tt, copy_in d p.block (4 * p.word) 0 (length name + 1) (λ i. get_or name i 0))

-- The new entry gets its name, and the directory is flushed; nothing else of the entry is written.
abbrev pub name_entry : FilePtr → List ℕ → Result FilePtr → D (Result FilePtr)
name_entry dir name (err e) = pure (err e)
name_entry dir name (ok f) =
    set_name f name >> (λ d. file_flush dir.block (load dir d) d) >> pure (ok f)

abbrev pub create_in : Walked → D (Result FilePtr)
create_in w = elim w.result [
  | ok u ↦ pure (err e_file_exists)
  | err e_not_found ↦ elim w.pdir [
    | none ↦ pure (err e_not_found)
    | some dir ↦ dir_alloc_file dir >>= name_entry dir (elim w.lastelem [ none ↦ [] | some n ↦ n ])
  ]
  | err e ↦ pure (err e)
]

unfoldable pub file_create : List ℕ → D (Result FilePtr)
unfolding walk_path set_name
file_create path = walk_path path >>= create_in

abbrev pub remove_at : Result FilePtr → D (Result (Unit {0}))
remove_at (err e) = pure (err e)
remove_at (ok p) =
    in_place p (λ f. file_truncate_blocks 0 f >>= λ f'. pure (tt, f'))
    >> set_name p []
    >> in_place p (λ f. pure (tt, record f { f_size = 0 }))
    >> λ d. some (ok tt, flush p.block d)

unfoldable pub file_remove : List ℕ → D (Result (Unit {0}))
unfolding walk_path set_name
file_remove path = file_open path >>= remove_at
