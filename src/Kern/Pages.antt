-- ===== src/Kern/Pages.antt =====
-- The physical page allocator of lab/kern/pmap.c: the `pages` array, the free list threaded
-- through it, and the contents of the page frames. A `struct Page *` is its index in `pages`.
pub mod FreeList
pub mod Init
pub mod Release
use Prim.Native.Nat.{bit_and}
use cse.Base.{
  ℕ, zero, suc, ◌+◌, ◌-◌, ◌%◌, ◌^◌, Bool, true, false, ◌&&◌, ◌||◌, Option, none, some, ltb, leb,
  ◌==◌, if◌then◌else◌,
}
use cse.Base.Cells.{update}

-- `struct Page`: `pp_ref` is a uint16_t.
pub record Page : Type 0 where
  pub pp_link : Option ℕ
  pub pp_ref : ℕ

-- `frames p w` is the `w`-th 64-bit word of page frame `p`.
pub record Phys : Type 0 where
  pub npages : ℕ
  pub pages : ℕ → Page
  pub page_free_list : Option ℕ
  pub frames : ℕ → ℕ → ℕ

abbrev pub pgsize : ℕ
pgsize = 4096

abbrev pub iophysmem : ℕ
iophysmem = 0x0A0000

abbrev pub extphysmem : ℕ
extphysmem = 0x100000

-- PADDR(BOOT_PAGE_TABLE_START) and PADDR(BOOT_PAGE_TABLE_END).
abbrev pub boot_page_table_start : ℕ
boot_page_table_start = 0x8000

abbrev pub boot_page_table_end : ℕ
boot_page_table_end = 0xe000

abbrev pub mpentry_paddr : ℕ
mpentry_paddr = 0x7000

-- A write of one field of `pages[i]`.
abbrev pub set_link : ℕ → Option ℕ → Phys → Phys
set_link i q s = record s { pages = update s.pages i (record (s.pages i) { pp_link = q }) }

abbrev pub set_ref : ℕ → ℕ → Phys → Phys
set_ref i n s = record s { pages = update s.pages i (record (s.pages i) { pp_ref = n }) }

abbrev pub touches : ℕ → ℕ → ℕ → ℕ → Bool
touches start end from until =
    (leb from start && ltb start until) || (leb from end && ltb end until)

-- The tests of `page_init` that leave a page off the free list.
unfoldable pub is_reserved : ℕ → ℕ → ℕ → ℕ → Bool
is_reserved kernel_end i page_start page_end =
    (i == 0)
    || touches page_start page_end iophysmem extphysmem
    || touches page_start page_end extphysmem kernel_end
    || touches page_start page_end boot_page_table_start boot_page_table_end
    || (page_start == mpentry_paddr)

unfoldable pub push_free : ℕ → Phys → Phys
push_free i s = let s' = set_link i s.page_free_list s in record s' { page_free_list = some i }

-- One round of the loop of `page_init`.
unfoldable pub init_page : ℕ → ℕ → ℕ → ℕ → Phys → Phys
unfolding push_free
init_page kernel_end i page_start page_end s =
    let s' = set_ref i 0 s in
    if is_reserved kernel_end i page_start page_end then s' else push_free i s'

-- The loop with `rounds` rounds left; `page_start` and `page_end` are uint32_t.
unfoldable pub page_init_from : ℕ → ℕ → ℕ → ℕ → ℕ → Phys → Phys
page_init_from kernel_end zero i page_start page_end s = s
page_init_from kernel_end (suc rounds) i page_start page_end s =
    page_init_from kernel_end rounds (i + 1) ((page_start + pgsize) % 2 ^ 32)
      ((page_end + pgsize) % 2 ^ 32) (init_page kernel_end i page_start page_end s)

-- `kernel_end` is PADDR(nextfree), the end of what `boot_alloc` handed out.
unfoldable pub page_init : ℕ → Phys → Phys
page_init kernel_end s = page_init_from kernel_end s.npages 0 0 (pgsize - 1) s

abbrev pub alloc_zero : ℕ
alloc_zero = 1

-- `memset(page2kva(p), 0x00, PGSIZE)`. A page on the list has an index below `npages`, so the
-- check in KADDR passes.
abbrev pub clear_frame : ℕ → (ℕ → ℕ → ℕ) → ℕ → ℕ → ℕ
clear_frame p frames = update frames p (λ w. 0)

-- What `page_alloc` does to the head `p` of the free list.
unfoldable pub take_page : ℕ → ℕ → Phys → Phys
take_page alloc_flags p s = record (set_link p none s) {
  page_free_list = (s.pages p).pp_link;
  frames = if bit_and alloc_flags alloc_zero == 0 then s.frames else clear_frame p s.frames;
}

unfoldable pub page_alloc : ℕ → Phys → Option ℕ × Phys
page_alloc alloc_flags s = elim s.page_free_list [
  | none ↦ (none, s)
  | some p ↦ (some p, take_page alloc_flags p s)
]

-- The walk of `page_free` from `p` down the links, with `none` for a walk longer than its fuel.
unfoldable pub is_on_list : ℕ → (ℕ → Page) → Option ℕ → ℕ → Option Bool
is_on_list zero pages p pp = none
is_on_list (suc fuel) pages none pp = some false
is_on_list (suc fuel) pages (some p) pp =
    let rest = is_on_list fuel pages (pages p).pp_link pp in if p == pp then some true else rest

-- A free list has at most `npages` pages, and the walk is given one step more.
unfoldable pub page_free : ℕ → Phys → Option Phys
unfolding push_free
page_free pp s =
    if (s.pages pp).pp_ref == 0
    then (elim (is_on_list (s.npages + 1) s.pages s.page_free_list pp) [
      | none ↦ none
      | some found ↦ some (if found then s else push_free pp s)
    ])
    else some s

-- `--pp->pp_ref` on a uint16_t.
unfoldable pub page_decref : ℕ → Phys → Option Phys
page_decref pp s =
    let ref = ((s.pages pp).pp_ref + 0xffff) % 2 ^ 16 in
    let s' = set_ref pp ref s in if ref == 0 then page_free pp s' else some s'
