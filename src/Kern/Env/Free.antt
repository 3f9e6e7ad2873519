-- ===== src/Kern/Env/Free.antt =====
-- The end of an environment: `env_free` and `env_destroy` of lab/kern/env.c, and `region_alloc`.
use Prim.Native.Nat.{bit_and, bit_or}
use cse.Base.{
  ℕ, zero, suc, ◌+◌, ◌-◌, ◌*◌, ◌/◌, ◌%◌, ◌^◌, ◌&&◌, Option, none, some, ◌==◌, if◌then◌else◌,
}
use cse.Kern.Pages.{Phys, pgsize, page_alloc, alloc_zero, page_decref}
use cse.Kern.PageTable.{
  M, pure, ◌>>=◌, ◌>>◌, run_void, pte_p, pte_w, pte_u, pte_addr, kaddr, pa2page, poke, pdx,
  page_remove, page_insert,
}
use cse.Kern.Env.{Kernel, K, set_env, utop, env_free, env_dying, is_running, differs}

-- PGADDR(0, pdpe, pd, pt, 0).
abbrev pub pgaddr : ℕ → ℕ → ℕ → ℕ
pgaddr pdpe pd pt = bit_or (bit_or (pdpe * 2 ^ 30) (pd * 2 ^ 21)) (pt * 2 ^ 12)

abbrev pub is_present : ℕ → ℕ → Phys → ℕ
is_present f i s = bit_and (s.frames f i) pte_p

-- `page_decref(pa2page(pa))`.
abbrev pub drop_page : ℕ → M (Unit {0})
drop_page pa = pa2page pa >>= λ pp s. run_void (page_decref pp s)

-- PTX(~0) and PDX(0xFFFFFFFF): the number of the last entry of a table.
abbrev pub last_entry : ℕ
last_entry = 511

-- The loop over the entries of the page table `pt`, with `rounds` rounds left.
unfoldable pub unmap_entries : ℕ → (ℕ → ℕ) → ℕ → ℕ → ℕ → M (Unit {0})
unmap_entries zero va_of pml4e pt pteno = pure tt
unmap_entries (suc rounds) va_of pml4e pt pteno =
    (λ s. if is_present pt pteno s == 0 then some (tt, s) else page_remove pml4e (va_of pteno) s)
    >> unmap_entries rounds va_of pml4e pt (pteno + 1)

-- What is done for a directory entry that is present: its pages are unmapped and the table freed.
unfoldable pub free_table : ℕ → ℕ → ℕ → ℕ → M (Unit {0})
unfolding unmap_entries
free_table pml4e pdpe pgdir pdeno s =
    (do
      pt ← kaddr (pte_addr (s.frames pgdir pdeno))
      unmap_entries last_entry (pgaddr pdpe pdeno) pml4e pt 0
      (λ t. pure tt (poke pgdir pdeno 0 t))
      drop_page (pte_addr (s.frames pgdir pdeno)))
      s

-- The loop over the entries of a page directory.
unfoldable pub free_tables : ℕ → ℕ → ℕ → ℕ → ℕ → M (Unit {0})
unfolding free_table
free_tables zero pml4e pdpe pgdir pdeno = pure tt
free_tables (suc rounds) pml4e pdpe pgdir pdeno =
    (λ s.
      if is_present pgdir pdeno s == 0 then some (tt, s) else free_table pml4e pdpe pgdir pdeno s)
    >> free_tables rounds pml4e pdpe pgdir (pdeno + 1)

-- The directory of the last gigabyte is only walked up to UTOP.
abbrev pub pdeno_limit : ℕ → ℕ
pdeno_limit pdpe = if pdpe == 3 then pdx utop else last_entry

-- What is done for a present entry of the page directory pointer table.
unfoldable pub free_dir : ℕ → ℕ → ℕ → M (Unit {0})
unfolding free_tables
free_dir pml4e env_pdpe pdpe s =
    (do
      pgdir ← kaddr (pte_addr (s.frames env_pdpe pdpe))
      free_tables (pdeno_limit pdpe) pml4e pdpe pgdir 0
      pa ← (λ t. pure (pte_addr (t.frames env_pdpe pdpe)) t)
      (λ t. pure tt (poke env_pdpe pdpe 0 t))
      drop_page pa)
      s

unfoldable pub free_dirs : ℕ → ℕ → ℕ → ℕ → M (Unit {0})
unfolding free_dir
free_dirs zero pml4e env_pdpe pdpe = pure tt
free_dirs (suc rounds) pml4e env_pdpe pdpe =
    (λ s. if is_present env_pdpe pdpe s == 0 then some (tt, s) else free_dir pml4e env_pdpe pdpe s)
    >> free_dirs rounds pml4e env_pdpe (pdpe + 1)

-- The memory of an environment: the four directories, the table that leads to them and the PML4.
unfoldable pub free_memory : ℕ → ℕ → M (Unit {0})
unfolding free_dirs
free_memory pml4e cr3 s =
    (do
      env_pdpe ← kaddr (pte_addr (s.frames pml4e 0))
      free_dirs 4 pml4e env_pdpe 0
      (λ t. drop_page (pte_addr (t.frames pml4e 0)) t)
      (λ t. pure tt (poke pml4e 0 0 t))
      drop_page cr3)
      s

-- The environment goes back to the free list. `lcr3` writes no memory.
abbrev pub retire : ℕ → Kernel → Option (Unit {0} × Phys) → Option (Unit {0} × Kernel)
retire e k none = none
retire e k (some (u, s)) = some (
  tt,
  record k {
    phys = s;
    envs =
        (set_env e
          (record (k.envs e) {
            env_pml4e = 0;
            env_cr3 = 0;
            env_status = env_free;
            env_link = k.env_free_list;
          })
          k).envs;
    env_free_list = some e;
  },
)

unfoldable pub free_env : ℕ → K (Unit {0})
free_env e k = retire e k (free_memory (k.envs e).env_pml4e (k.envs e).env_cr3 k.phys)

-- How `env_destroy` ends: it returns, or the CPU yields.
pub data Destroyed : Type 0 where
  returned yields : Destroyed

abbrev pub leave : ℕ → Option (Unit {0} × Kernel) → Option (Destroyed × Kernel)
leave e none = none
leave e (some (u, k)) =
    if differs k.curenv e then some (returned, k) else some (yields, record k { curenv = none })

-- `env_destroy`, up to the call of `sched_yield`.
unfoldable pub env_destroy : ℕ → K Destroyed
env_destroy e k =
    if is_running (k.envs e).env_status && differs k.curenv e
    then some (returned, set_env e (record (k.envs e) { env_status = env_dying }) k)
    else leave e (free_env e k)

-- A page for each step of `region_alloc`; the result of `page_insert` is not looked at.
abbrev pub map_fresh : ℕ → ℕ → Option ℕ × Phys → Option (Unit {0} × Phys)
map_fresh pml4e va (none, s) = none
map_fresh pml4e va (some p, s) =
    (page_insert pml4e p va (bit_or (bit_or pte_u pte_w) pte_p) >>= λ r. pure tt) s

unfoldable pub region_alloc_from : ℕ → ℕ → ℕ → M (Unit {0})
region_alloc_from zero pml4e va = pure tt
region_alloc_from (suc rounds) pml4e va =
    (λ s. map_fresh pml4e va (page_alloc alloc_zero s))
    >> region_alloc_from rounds pml4e (va + pgsize)

-- From `va` rounded down to `va + len` rounded up, which does not wrap around.
unfoldable pub region_alloc : ℕ → ℕ → ℕ → M (Unit {0})
unfolding region_alloc_from
region_alloc pml4e va len =
    region_alloc_from ((va + len + pgsize - 1) / pgsize - va / pgsize) pml4e (va - va % pgsize)
