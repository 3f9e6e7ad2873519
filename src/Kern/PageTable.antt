-- ===== src/Kern/PageTable.antt =====
-- The four-level page tables of lab/kern/pmap.c, over the page frames of `Phys`. A kernel pointer
-- to a table is the number of its frame, and a `pte_t *` is a frame and the index of a word in it.
pub mod Again
pub mod Create
pub mod Insert
pub mod Remove
pub mod Walk
use Prim.Native.Nat.{bit_and, bit_or}
use cse.Base.{
  ℕ, ◌+◌, ◌-◌, ◌*◌, ◌/◌, ◌%◌, ◌^◌, Bool, true, false, not, ◌&&◌, ◌||◌, Option, none, some, ltb,
  ◌==◌, if◌then◌else◌,
}
use cse.Base.Cells.{update}
use cse.Kern.Pages.{Phys, pgsize, clear_frame, set_ref, page_alloc, page_free, page_decref}

-- Code that may panic: `none` is a panic.
abbrev pub M : Type 0 → Type 0
M A = Phys → Option (A × Phys)

abbrev pub pure : {A : Type 0} → A → M A
pure a s = some (a, s)

abbrev pub bind_opt : {A B : Type 0} → Option (A × Phys) → (A → M B) → Option (B × Phys)
bind_opt none k = none
bind_opt (some (a, s)) k = k a s

infixl 5 ◌>>=◌ ◌>>◌
abbrev pub ◌>>=◌ : {A B : Type 0} → M A → (A → M B) → M B
◌>>=◌ m k s = bind_opt (m s) k

abbrev pub ◌>>◌ : {A B : Type 0} → M A → M B → M B
m >> n = m >>= λ _. n

-- A function that returns nothing, as a command.
abbrev pub run_void : Option Phys → Option (Unit {0} × Phys)
run_void none = none
run_void (some s) = some (tt, s)

abbrev pub pte_p : ℕ
pte_p = 0x001

abbrev pub pte_w : ℕ
pte_w = 0x002

abbrev pub pte_u : ℕ
pte_u = 0x004

-- PTE_U | PTE_W | PTE_P
abbrev pub table_perm : ℕ
table_perm = bit_or (bit_or pte_u pte_w) pte_p

-- The fields of a linear address: PML4, PDPE, PDX and PTX.
abbrev pub pml4 : ℕ → ℕ
pml4 va = va / 2 ^ 39 % 512

abbrev pub pdpe : ℕ → ℕ
pdpe va = va / 2 ^ 30 % 512

abbrev pub pdx : ℕ → ℕ
pdx va = va / 2 ^ 21 % 512

abbrev pub ptx : ℕ → ℕ
ptx va = va / 2 ^ 12 % 512

-- PTE_ADDR: the low twelve bits cleared.
abbrev pub pte_addr : ℕ → ℕ
pte_addr pte = pte - pte % pgsize

abbrev pub ppn : ℕ → ℕ
ppn pa = pa / pgsize

abbrev pub page2pa : ℕ → ℕ
page2pa pp = pp * pgsize

-- `*p = v` for the `i`-th word of a frame.
abbrev pub poke : ℕ → ℕ → ℕ → Phys → Phys
poke f i v s = record s { frames = update s.frames f (update (s.frames f) i v) }

-- KADDR of the table that an entry points to: panics if there is no such page. The page number
-- is a uint32_t in the test.
unfoldable pub kaddr : ℕ → M ℕ
kaddr pa s = if ltb (ppn pa % 2 ^ 32) s.npages then some (ppn pa, s) else none

unfoldable pub pa2page : ℕ → M ℕ
pa2page pa s = if ltb (ppn pa) s.npages then some (ppn pa, s) else none

-- `newPage->pp_ref++`, the entry set, and the new table cleared.
unfoldable pub hook_table : ℕ → ℕ → ℕ → Phys → Phys
hook_table table i p s =
    let s₁ = set_ref p (((s.pages p).pp_ref + 1) % 2 ^ 16) s in
    let s₂ = poke table i (bit_or (page2pa p) table_perm) s₁ in
    record s₂ { frames = clear_frame p s₂.frames }

-- What the first half of a walk finds at an entry: no table, a table that was there, or a table
-- on a page allocated now.
pub data Entry : Type 0 where
  absent : Entry
  present : Entry
  created : ℕ → Entry

unfoldable pub hook_new : ℕ → ℕ → Option ℕ × Phys → Entry × Phys
unfolding hook_table
hook_new table i (none, s) = (absent, s)
hook_new table i (some p, s) = (created p, hook_table table i p s)

unfoldable pub ensure_entry : ℕ → ℕ → Bool → Phys → Entry × Phys
ensure_entry table i create s =
    if s.frames table i == 0
    then if create then hook_new table i (page_alloc 0 s) else (absent, s)
    else (present, s)

-- The undoing of a new table when the walk below it failed.
unfoldable pub unhook : ℕ → ℕ → ℕ → M (Unit {0})
unhook table i p s = run_void (page_free p (set_ref p 0 (poke table i 0 s)))

-- The code that pml4e_walk, pdpe_walk and pgdir_walk share, around the walk `inner` of the next
-- level: it takes the table that the entry points to.
module _ {A : Type 0} (inner : ℕ → M (Option A)) where
  -- `if (!result && newPage)` undoes the entry.
  unfoldable pub finish_level : ℕ → ℕ → Entry → Option A → M (Option A)
  finish_level table i (created p) none = do unhook table i p; pure none
  finish_level table i e result = pure result

  unfoldable pub walk_entry : ℕ → ℕ → Entry → M (Option A)
  walk_entry table i absent s = some (none, s)
  walk_entry table i e s =
      (do
        below ← kaddr (pte_addr (s.frames table i))
        result ← inner below
        finish_level table i e result)
        s

  unfoldable pub walk_level : ℕ → ℕ → Bool → M (Option A)
  walk_level table i create s =
      let (e, s') = ensure_entry table i create s in walk_entry table i e s'

-- The frame of the page table for `va`: KADDR never gives NULL here.
unfoldable pub pgdir_walk : ℕ → ℕ → Bool → M (Option ℕ)
pgdir_walk pgdir va create = walk_level (λ pt. pure (some pt)) pgdir (pdx va) create

unfoldable pub pdpe_walk : ℕ → ℕ → Bool → M (Option ℕ)
pdpe_walk table va create = walk_level (λ pgdir. pgdir_walk pgdir va create) table (pdpe va) create

-- `return result + PTX(va)`, unless it is NULL.
unfoldable pub with_ptx : ℕ → Option ℕ → Option (ℕ × ℕ)
with_ptx va none = none
with_ptx va (some pt) = some (pt, ptx va)

unfoldable pub pml4e_walk : ℕ → ℕ → Bool → M (Option (ℕ × ℕ))
pml4e_walk table va create = do
  result ← walk_level (λ t. pdpe_walk t va create) table (pml4 va) create
  pure (with_ptx va result)

-- The page and the address of its entry. An entry of 0 in a page table that exists gives page 0.
unfoldable pub page_lookup : ℕ → ℕ → M (Option (ℕ × (ℕ × ℕ)))
page_lookup table va s =
    (do
      pte ← pml4e_walk table va false
      elim pte [
        | none ↦ pure none
        | some (f, i) ↦ λ t. (do pp ← pa2page (t.frames f i); pure (some (pp, (f, i)))) t
      ])
      s

-- `tlb_invalidate` writes no memory.
unfoldable pub page_remove : ℕ → ℕ → M (Unit {0})
page_remove table va = do
  found ← page_lookup table va
  elim found [
    | none ↦ pure tt
    | some (pp, (f, i)) ↦ do (λ t. run_void (page_decref pp t)); (λ t. pure tt (poke f i 0 t))
  ]

pub data Status : Type 0 where
  ok : Status
  e_no_mem : Status

-- `*pte = page2pa(pp); pp->pp_ref++`
unfoldable pub attach : ℕ → ℕ → ℕ → Phys → Phys
attach pp f i s =
    let s' = poke f i (page2pa pp) s in set_ref pp (((s'.pages pp).pp_ref + 1) % 2 ^ 16) s'

-- The code of `page_insert` that makes the entry point at `pp` with its low bits clear.
unfoldable pub place : ℕ → ℕ → ℕ → ℕ → ℕ → M (Unit {0})
unfolding attach
place table pp va f i s =
    let old = s.frames f i in
    if pte_addr old == page2pa pp
    then pure tt (poke f i (pte_addr old) s)
    else (do (if old == 0 then pure tt else page_remove table va); (λ t. pure tt (attach pp f i t)))
        s

unfoldable pub page_insert : ℕ → ℕ → ℕ → ℕ → M Status
unfolding place
page_insert table pp va perm = do
  pte ← pml4e_walk table va true
  elim pte [
    | none ↦ pure e_no_mem
    | some (f, i) ↦ do
      place table pp va f i
      (λ t. pure ok (poke f i (bit_or (t.frames f i) (bit_or perm pte_p)) t))
  ]
