-- ===== src/Fs/Path/Create.antt =====
-- `file_create` of lab/fs/fs.c where the directory of the path has an unused entry.
use mathlib.Core.Path.{subst}
use cse.Base.{ℕ, ◌+◌, ◌*◌, ◌<◌, none, some, List, [], length, ◌≡◌, ◌≢◌, ◌⊎◌, refl, sym, ◌∙◌}
use cse.Fs.{Disk, pure, ◌>>◌, ok, err, e_not_found}
use cse.Fs.Files.{byte_at, file_flush}
use cse.Fs.Files.Flush.{after, NoHoles-after, file_flush-after}
use cse.Fs.Files.Read.{bind-some}
use cse.Fs.Directory.{
  FilePtr, file_in, load, f_name, maxnamelen, is_named, is_unused, dir_lookup, dir_alloc_file,
  found_or, grow_dir,
}
use cse.Fs.Directory.Lookup.{entries, first, IsDir, dir_lookup_lem, search_dir-eq}
use cse.Fs.Directory.NewName.{IsString, chars, named, f_name-rest}
use cse.Fs.Directory.Insert.{load-named, IsDir-named, first-named, first-named_other}
use cse.Fs.Writing.Bytes.{s_nblocks-copy_in}
use cse.Fs.Path.{missing_last, walk_path, set_name, name_entry, create_in, file_create}

-- With an unused entry, `dir_alloc_file` takes the first one and changes nothing.
pub dir_alloc_file-unused :
    (dir p : FilePtr) (d : Disk)
    → IsDir dir d
    → first (λ q. is_unused q d) (entries dir d) ≡ some p
    → dir_alloc_file dir d ≡ some (ok p, d)
unfolding dir_alloc_file
dir_alloc_file-unused dir p d is_dir unused =
    search_dir-eq dir d is_dir is_unused (grow_dir dir) ∙ rw unused refl

-- Flushing blocks has no effect on lookups.
lookup-after :
    (dir : FilePtr) (n : List ℕ) (d : Disk) (fl : List ℕ)
    → IsDir dir d
    → dir_lookup n dir (after d fl)
      ≡ found_or (pure (err e_not_found)) (first (λ q. is_named n q d) (entries dir d)) (after d fl)
unfolding byte_at
lookup-after dir n d fl v = dir_lookup_lem dir (after d fl) still n
  where
    still : IsDir dir (after d fl)
    still = record {
      whole_blocks = v.whole_blocks;
      no_holes = NoHoles-after (load dir d) d fl v.no_holes;
    }

module _ (dir : FilePtr) (b j : ℕ) (name : List ℕ) (d : Disk) (is_dir : IsDir dir d)
    (on_disk : ((load dir d).f_indirect ≡ 0) ⊎ ((load dir d).f_indirect < d.s_nblocks))
    (apart : dir.block ≢ b) (apart' : (load dir d).f_indirect ≢ b) where
  name_entry-eq :
      (fl : List ℕ) × (name_entry dir name (ok (file_in b j)) d
        ≡ some (ok (file_in b j), after (named b j name d) fl))
  unfolding set_name
  name_entry-eq =
      let (fl, run) = file_flush-after dir.block (load dir d') d' after_naming.no_holes indirect in
      (
        fl,
        bind-some (set_name p name >> (λ t. file_flush dir.block (load dir t) t)) (λ u. pure (ok p))
            (bind-some (set_name p name) (λ u t. file_flush dir.block (load dir t) t) refl ∙ run),
      )
    where
      p : FilePtr
      p = file_in b j

      d' : Disk
      d' = named b j name d

      after_naming : IsDir dir d'
      after_naming = IsDir-named dir b j name d is_dir apart apart'

      indirect : ((load dir d').f_indirect ≡ 0) ⊎ ((load dir d').f_indirect < d'.s_nblocks)
      indirect =
          subst (λ f. (f.f_indirect ≡ 0) ⊎ (f.f_indirect < d'.s_nblocks))
            (sym (load-named dir b j name d is_dir apart apart'))
            (rw (s_nblocks-copy_in d b (4 * (64 * j)) 0 (length name + 1) (chars name)) on_disk)

  -- Let only the last name of a path be missing, a string of less than MAXNAMELEN characters,
  -- from a directory of whole blocks, without holes, whose indirect block is on the disk if it
  -- has one; and let the first unused entry of the directory lie in another block than the
  -- directory's own struct and than its indirect block. Then `file_create` ends with that entry.
  -- The name is found there, every other name is found where it was, and the bytes of the entry
  -- behind the name are those that it had before.
  pub file_create_lem :
      (path : List ℕ)
      → walk_path path d ≡ some (missing_last dir name, d)
      → first (λ q. is_named name q d) (entries dir d) ≡ none
      → first (λ q. is_unused q d) (entries dir d) ≡ some (file_in b j)
      → IsString name
      → length name < maxnamelen
      → (d' : Disk) × (file_create path d ≡ some (ok (file_in b j), d'))
        × (dir_lookup name dir d' ≡ some (ok (file_in b j), d'))
        × ((n : List ℕ)
            → IsString n
            → length n < maxnamelen
            → n ≢ name
            → n ≢ []
            → dir_lookup n dir d'
              ≡ found_or (pure (err e_not_found)) (first (λ q. is_named n q d) (entries dir d)) d')
        × ((i : ℕ) → length name < i → f_name (file_in b j) d' i ≡ f_name (file_in b j) d i)
  unfolding file_create byte_at
  file_create_lem path walk absent unused str short =
      let (fl, run) = name_entry-eq in
      (
        after (named b j name d) fl,
        bind-some (walk_path path) create_in walk
            ∙ bind-some (dir_alloc_file dir) (name_entry dir name)
                (dir_alloc_file-unused dir (file_in b j) d is_dir unused)
            ∙ run,
        lookup-after dir name (named b j name d) fl (IsDir-named dir b j name d is_dir apart apart')
            ∙ rw (first-named dir b j name d is_dir apart apart' str short unused absent) refl,
        λ n str' short' ne full.
            lookup-after dir n (named b j name d) fl
              (IsDir-named dir b j name d is_dir apart apart')
            ∙ rw
                (first-named_other dir b j name d is_dir apart apart' str short unused n str' short'
                  ne full)
                refl,
        λ i h. f_name-rest b j name d i h,
      )
