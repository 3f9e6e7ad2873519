-- ===== src/Kern/Examples/Memory.antt =====
-- The theorems on lab/kern/pmap.c at small machines.
use cse.Base.{ℕ, ◌<◌, ◌≤◌, ◌≡◌, ◌≢◌, ◌↔◌, refl, true, false, some, List, [], ◌∷◌, arith, elem, inl}
use cse.Kern.Pages.{Phys, page_free, page_init}
use cse.Kern.Pages.FreeList.{IsValid}
use cse.Kern.Pages.Release.{page_free-IsValid}
use cse.Kern.Pages.Init.{usable_pages, page_init-IsValid}
use cse.Kern.PageTable.{
  pml4e_walk, page_lookup, page_remove, page_insert, ok, pdpe_walk, pgdir_walk, walk_level,
  ensure_entry, walk_entry, finish_level, hook_new, kaddr, with_ptx,
}
use cse.Kern.PageTable.Insert.{Unmapped, entry_of, page_lookup-page_insert}
use cse.Kern.PageTable.Remove.{page_remove-mapped, page_remove-unmapped}
use Prim.Native.Nat.{bit_or}
use cse.Base.{◌+◌, ◌%◌, ◌^◌, ◌-◌}
use cse.Kern.PageTable.{pte_p}
use cse.Kern.UserMem.{ulim, round_up, granted, user_mem_check}
use cse.Kern.UserMem.Ranges.{Permits, user_mem_check_iff, user_mem_check-wraps}
use cse.Kern.Examples.{table_word, full_memory, free_memory, free_pages}

abbrev pub full-IsValid : IsValid full_memory []
full-IsValid = record { chain = refl; distinct = tt; in_range = tt; unused = tt }

pub free-IsValid : IsValid free_memory free_pages
free-IsValid = record {
  chain = (refl, (refl, (refl, refl)));
  distinct = (refl, (refl, (refl, tt)));
  in_range = (ground arith, (ground arith, (ground arith, tt)));
  unused = (refl, (refl, (refl, tt)));
}

-- Nothing of the path to 2^39 exists but table 1: the three free pages become its tables.
pub nothing_there : Unmapped 1 (2 ^ 39) free_memory
unfolding pml4e_walk pdpe_walk pgdir_walk walk_level ensure_entry walk_entry finish_level hook_new
    kaddr with_ptx
nothing_there f i found = cc found

page_lookup-page_insert_example :
    (s' : Phys) × (f : ℕ) × (left : List ℕ) × (page_insert 1 7 (2 ^ 39) 6 free_memory
      ≡ some (ok, s'))
    × (page_lookup 1 (2 ^ 39) s' ≡ some (some (7, (f, 0)), s'))
    × (s'.frames f 0 ≡ entry_of 7 6)
    × ((s'.pages 7).pp_ref ≡ 2)
    × IsValid s' left
    × ((j : ℕ) → elem j free_pages ≡ true → elem j left ≡ false → (s'.pages j).pp_ref ≡ 1)
    × ((j w : ℕ) → elem j free_pages ≡ false → table_word j w ≢ 0 → s'.frames j w ≡ table_word j w)
page_lookup-page_insert_example =
    page_lookup-page_insert 1 7 (2 ^ 39) 6 free_memory free_pages free-IsValid (ground arith)
      (ground arith) (refl, ground arith, inl refl) nothing_there refl (ground arith)
      (λ e. omega (arith, e)) (ground arith)

pub mapped : pml4e_walk 1 4096 false full_memory ≡ some (some (4, 1), full_memory)
unfolding pml4e_walk pdpe_walk pgdir_walk walk_level ensure_entry walk_entry finish_level hook_new
    kaddr with_ptx
mapped = refl

page_remove-mapped_example :
    (s' : Phys) × (page_remove 1 4096 full_memory ≡ some (tt, s'))
    × (s'.frames 4 1 ≡ 0)
    × ((s'.pages 6).pp_ref ≡ 0)
    × IsValid s' (6 ∷ [])
    × ((j : ℕ) → j ≢ 6 → s'.pages j ≡ full_memory.pages j)
page_remove-mapped_example =
    page_remove-mapped 1 4096 4 1 full_memory [] full-IsValid mapped (ground arith) (ground arith)
      (ground arith)

unmapped : pml4e_walk 1 0 false full_memory ≡ some (some (4, 0), full_memory)
unfolding pml4e_walk pdpe_walk pgdir_walk walk_level ensure_entry walk_entry finish_level hook_new
    kaddr with_ptx
unmapped = refl

page_remove-unmapped_example :
    (page_lookup 1 0 full_memory ≡ some (some (0, (4, 0)), full_memory))
    × (s' : Phys) × (page_remove 1 0 full_memory ≡ some (tt, s'))
    × ((s'.pages 0).pp_ref ≡ (0 + 0xffff) % 2 ^ 16)
page_remove-unmapped_example =
    page_remove-unmapped 1 0 4 0 full_memory [] full-IsValid unmapped refl (ground arith)
      (ground arith)

page_free-IsValid_example :
    (s' : Phys) × (page_free 5 free_memory ≡ some s') × IsValid s' (5 ∷ free_pages)
page_free-IsValid_example = page_free-IsValid 5 free_memory free_pages free-IsValid (ground arith)

page_init-IsValid_example : IsValid (page_init 0x200000 full_memory) (usable_pages 0x200000 16)
page_init-IsValid_example = page_init-IsValid 0x200000 full_memory refl (ground arith) refl

-- The range of 100 bytes in the page at 4096.
user_mem_check_iff_example :
    (user_mem_check false 1 4100 100 4 full_memory ≡ some (granted, full_memory)) ↔ (
      (4100 + 100 < ulim)
      × ((a : ℕ) → 4100 ≤ a → a < round_up (4100 + 100) → Permits 1 (bit_or 4 pte_p) a full_memory))
user_mem_check_iff_example = user_mem_check_iff false 1 4100 100 4 full_memory (omega arith)

-- The last page of the 64-bit addresses.
user_mem_check-wraps_example :
    user_mem_check false 1 (2 ^ 64 - 4096) 4096 4 full_memory ≡ some (granted, full_memory)
user_mem_check-wraps_example =
    user_mem_check-wraps false 1 (2 ^ 64 - 4096) 4096 4 full_memory (omega arith) (omega arith)
      (omega arith) (omega arith) (omega arith)
