-- ===== src/Kern/UserMem.antt =====
-- `user_mem_check` of lab/kern/pmap.c: whether an environment may access a range of memory.
pub mod Ranges
use Prim.Native.Nat.{bit_and, bit_or}
use cse.Base.{
  ℕ, zero, suc, ◌+◌, ◌-◌, ◌*◌, ◌/◌, ◌%◌, ◌^◌, Bool, true, false, Option, none, some, leb, ltb, ◌==◌,
  if◌then◌else◌,
}
use cse.Kern.Pages.{Phys, pgsize}
use cse.Kern.PageTable.{M, pure, ◌>>=◌, pte_p, pml4e_walk}

-- MMIOBASE: two page tables' worth of memory below KERNBASE.
abbrev pub ulim : ℕ
ulim = 0xefc00000

-- ROUNDUP to a page, of uint64_t.
abbrev pub round_up : ℕ → ℕ
round_up a = let b = (a + pgsize - 1) % 2 ^ 64 in b - b % pgsize

-- 0, or -E_FAULT with the address in `user_mem_check_addr`.
pub data Check : Type 0 where
  granted : Check
  fault : ℕ → Check

-- Whether the entry has all the bits `want`. The message about a refused page prints `*ppte`, also
-- where `ppte` is NULL: `null_ok` is whether address 0 can be read then, `none` is the fault.
unfoldable pub entry_ok : Bool → ℕ → Option (ℕ × ℕ) → M Bool
entry_ok null_ok want none s = if null_ok then some (false, s) else none
entry_ok null_ok want (some (f, i)) s = some (bit_and (s.frames f i) want == want, s)

-- The body of the loop once the walk has given `ppte`; `rest` is the rounds that follow.
unfoldable pub judge : Bool → ℕ → ℕ → ℕ → M Check → Option (ℕ × ℕ) → M Check
unfolding entry_ok
judge null_ok va want addr rest ppte = do
  good ← entry_ok null_ok want ppte
  elim good [ true ↦ rest | false ↦ pure (fault (if addr == va then va else addr - addr % pgsize)) ]

-- The loop over the pages with `rounds` rounds left.
unfoldable pub check_from : Bool → ℕ → ℕ → ℕ → ℕ → ℕ → ℕ → M Check
check_from null_ok table va end want zero addr s = some (granted, s)
check_from null_ok table va end want (suc rounds) addr s =
    let rest = check_from null_ok table va end want rounds (addr + pgsize) in
    if ltb addr end
    then (pml4e_walk table addr false >>= judge null_ok va want addr rest) s
    else some (granted, s)

-- `table` is `env->env_pml4e`.
unfoldable pub user_mem_check : Bool → ℕ → ℕ → ℕ → ℕ → M Check
unfolding check_from
user_mem_check null_ok table va len perm s =
    let sum = (va + len) % 2 ^ 64 in
    if leb ulim sum
    then some (fault va, s)
    else check_from null_ok table va (round_up sum) (bit_or perm pte_p)
        ((round_up sum - va) / pgsize + 1) va s
