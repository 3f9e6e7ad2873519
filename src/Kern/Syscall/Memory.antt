-- ===== src/Kern/Syscall/Memory.antt =====
-- The system calls of lab/kern/syscall.c on page mappings: which arguments they refuse, and what a
-- successful call maps.
use cse.Base.{
  ℕ, ◌%◌, ◌^◌, ◌≤◌, ◌<◌, ◌≡◌, ◌≢◌, refl, Bool, true, false, ◌||◌, some, List, arith, leb, elem,
  length, Bool-cases, inl, inr, ◌⊎◌,
}
use cse.Kern.Pages.{pgsize}
use cse.Kern.Pages.FreeList.{IsValid}
use cse.Kern.Env.{Kernel, e_inval, ok, err, env_at, envid2env}
use cse.Kern.Env.{utop}
use cse.Kern.PageTable.{page_lookup}
use cse.Kern.Syscall.{bad_va, sys_page_alloc, sys_page_map, sys_page_unmap}
use cse.Kern.PageTable.{ptx}
use cse.Kern.PageTable.Walk.{Ready, indices}
use cse.Kern.PageTable.Insert.{page_lookup-page_insert, entry_of, Unmapped}

bad_va_of : (va : ℕ) → va < 2 ^ 64 → (utop ≤ va) ⊎ (va % pgsize ≢ 0) → bad_va va ≡ true
bad_va_of va h (inl above) = ground arith
bad_va_of va h (inr off) = elim (Bool-cases (leb utop va)) [
  | inl a ↦ rw a
  | inr a ↦ rw a (ground (arith, below a))
]
  where
    below : leb utop va ≡ false → va < utop
    below a = ground arith

-- An address at or above UTOP or off a page boundary is refused with -E_INVAL by the three calls
-- that map and unmap, and nothing changes.
pub bad_va-refused :
    (envid e va perm srcenvid src srcva : ℕ) (k : Kernel)
    → envid2env envid true k ≡ env_at e
    → envid2env srcenvid true k ≡ env_at src
    → va < 2 ^ 64
    → (utop ≤ va) ⊎ (va % pgsize ≢ 0)
    → (sys_page_alloc envid va perm k ≡ some (err e_inval, k))
      × (sys_page_unmap envid va k ≡ some (err e_inval, k))
      × (sys_page_map envid va srcenvid srcva perm k ≡ some (err e_inval, k))
      × (sys_page_map srcenvid srcva envid va perm k ≡ some (err e_inval, k))
unfolding sys_page_alloc sys_page_unmap sys_page_map
bad_va-refused envid e va perm srcenvid src srcva k found found' h bad =
    let b = bad_va_of va h bad in
    (
      rw found (rw b),
      rw found (rw b),
      rw found (rw found' (rw b)),
      rw found' (rw found (rw b (rw (or-true (bad_va srcva))))),
    )
  where
    or-true : (b : Bool) → (b || true) ≡ true
    or-true true = refl
    or-true false = refl

-- Let the caller may touch two environments, the free list hold at least three pages, the tables on
-- the way to `dstva` that exist in the target be pages of the machine off that list, nothing be
-- mapped there, and a page in use other than page 0 be mapped at `srcva` in the source. With any
-- `perm` below a page's size, whatever its bits and whatever the permissions of the page at the
-- source, `sys_page_map` succeeds, and the target's entry is the page with exactly those
-- permissions and the present bit; the entry at the source stays as it was.
pub sys_page_map-grants :
    (srcenvid srcva dstenvid dstva perm src dst pp f i : ℕ) (k : Kernel) (xs : List ℕ)
    → envid2env srcenvid true k ≡ env_at src
    → envid2env dstenvid true k ≡ env_at dst
    → bad_va srcva ≡ false
    → bad_va dstva ≡ false
    → page_lookup (k.envs src).env_pml4e srcva k.phys ≡ some (some (pp, (f, i)), k.phys)
    → elem f xs ≡ false
    → k.phys.frames f i ≢ 0
    → IsValid k.phys xs
    → k.phys.npages < 2 ^ 32
    → 3 ≤ length xs
    → Ready (indices dstva) k.phys xs (k.envs dst).env_pml4e
    → Unmapped (k.envs dst).env_pml4e dstva k.phys
    → elem pp xs ≡ false
    → pp < k.phys.npages
    → pp ≢ 0
    → perm < pgsize
    → (k' : Kernel) × (g : ℕ) × (sys_page_map srcenvid srcva dstenvid dstva perm k
        ≡ some (ok tt, k'))
      × (k'.phys.frames g (ptx dstva) ≡ entry_of pp perm)
      × (page_lookup (k.envs dst).env_pml4e dstva k'.phys
          ≡ some (some (pp, (g, ptx dstva)), k'.phys))
      × (k'.phys.frames f i ≡ k.phys.frames f i)
unfolding sys_page_map
sys_page_map-grants srcenvid srcva dstenvid dstva perm src dst pp f i k xs fs fd gs gd look off full
      v small enough ready free used h ne fits =
    let (s', g, _, inserted, found, entry, _, _, _, kept) =
      page_lookup-page_insert (k.envs dst).env_pml4e pp dstva perm k.phys xs v small enough ready
        free used h ne fits in
    (
      record k { phys = s' },
      g,
      rw fs (rw fd (rw gs (rw gd (rw look (rw inserted))))),
      entry,
      found,
      kept f i off full,
    )
