-- ===== src/Library/Fork.antt =====
-- lab/lib/fork.c: copy-on-write fork and its page fault handler, on the page table entries of the
-- two address spaces by page number. `vpt[pn]` is 0 where no page is mapped.
pub mod CopyOnWrite
mod Examples
pub mod Fault
pub mod Sweep
use Prim.Native.Nat.{bit_and, bit_or}
use cse.Base.{
  ℕ, zero, suc, ◌+◌, ◌-◌, ◌*◌, ◌/◌, ◌%◌, ◌^◌, Bool, true, false, not, ◌&&◌, ◌||◌, Option, none,
  some, leb, ◌==◌, if◌then◌else◌,
}
use cse.Base.Cells.{update}

abbrev pub pgsize : ℕ
pgsize = 4096

abbrev pub pte_p : ℕ
pte_p = 2 ^ 0

abbrev pub pte_w : ℕ
pte_w = 2 ^ 1

abbrev pub pte_u : ℕ
pte_u = 2 ^ 2

abbrev pub pte_share : ℕ
pte_share = 2 ^ 10

abbrev pub pte_cow : ℕ
pte_cow = 2 ^ 11

-- PTE_AVAIL | PTE_P | PTE_W | PTE_U
abbrev pub pte_user : ℕ
pte_user = 0xe07

-- `x & flag`, as a test.
abbrev pub has : ℕ → ℕ → Bool
has x flag = not (bit_and x flag == 0)

-- The caller's entries and the child's, and the words of the page frames.
pub record Spaces : Type 0 where
  pub vpt : ℕ → ℕ
  pub child : ℕ → ℕ
  pub frames : ℕ → ℕ → ℕ

-- PTE_ADDR(pte) | perm | PTE_P: what `page_insert` writes for the page of `pte`.
abbrev pub entry : ℕ → ℕ → ℕ
entry pte perm = bit_or (pte / pgsize * pgsize) (bit_or perm pte_p)

-- PTE_P|PTE_U|PTE_COW
abbrev pub cow_perm : ℕ
cow_perm = bit_or (bit_or pte_p pte_u) pte_cow

pub data Status : Type 0 where
  ok e_no_mem : Status

-- `sys_page_map(0, addr, envid, addr, perm)`: `no_room` is whether the kernel lacks the memory for
-- a page table of the child, from the child's entries.
abbrev pub map_in_child : (ℕ → (ℕ → ℕ) → Bool) → ℕ → ℕ → Spaces → Status × Spaces
map_in_child no_room pn perm s =
    if no_room pn s.child
    then (e_no_mem, s)
    else (ok, record s { child = update s.child pn (entry (s.vpt pn) perm) })

-- `sys_page_map(0, addr, 0, addr, perm)`: the table is there.
abbrev pub remap : ℕ → ℕ → Spaces → Status × Spaces
remap pn perm s = (ok, record s { vpt = update s.vpt pn (entry (s.vpt pn) perm) })

abbrev pub then_remap : ℕ → ℕ → Status × Spaces → Status × Spaces
then_remap pn perm (ok, s) = remap pn perm s
then_remap pn perm (e_no_mem, s) = (e_no_mem, s)

unfoldable pub duppage : (ℕ → (ℕ → ℕ) → Bool) → ℕ → Spaces → Status × Spaces
duppage no_room pn s =
    let pte = s.vpt pn in
    let perm = pte % 2 ^ 12 in
    let perm_share = bit_and pte pte_user in
    if has perm_share pte_share
    then map_in_child no_room pn perm_share s
    else if has perm pte_w || has perm pte_cow
    then then_remap pn cow_perm (map_in_child no_room pn cow_perm s)
    else map_in_child no_room pn perm s

abbrev pub utext : ℕ
utext = 0x800000

abbrev pub ustacktop : ℕ
ustacktop = 0xef7fe000

abbrev pub uxstacktop : ℕ
uxstacktop = 0xef800000

-- The loop of `fork` over the pages from `pn` on, with `rounds` pages to go: `duppage` for those
-- that are mapped. What `duppage` returns is not looked at.
unfoldable pub dup_from : (ℕ → (ℕ → ℕ) → Bool) → ℕ → ℕ → Spaces → Spaces
unfolding duppage
dup_from no_room zero pn s = s
dup_from no_room (suc rounds) pn s =
    dup_from no_room rounds (pn + 1) (if has (s.vpt pn) pte_p then (duppage no_room pn s).1 else s)

-- The part of `fork` that the parent runs on the address spaces, once the child exists: the page
-- `xstack` that the kernel allocates for the child's exception stack, none if it cannot, the pages
-- below the stack's last, and that one.
abbrev pub give_xstack : Option ℕ → Spaces → Spaces
give_xstack none s = s
give_xstack (some page) s = record s {
  child = update s.child ((uxstacktop - pgsize) / pgsize) (entry (page * pgsize) 7);
  frames = update s.frames page (λ w. 0);
}

unfoldable pub fork_spaces : (ℕ → (ℕ → ℕ) → Bool) → Option ℕ → Spaces → Spaces
unfolding dup_from duppage
fork_spaces no_room xstack s =
    let s₁ = give_xstack xstack s in
    let s₂ = dup_from no_room ((ustacktop - pgsize - utext) / pgsize) (utext / pgsize) s₁ in
    (duppage no_room ((ustacktop - pgsize) / pgsize) s₂).1

abbrev pub utop : ℕ
utop = 0xef800000

abbrev pub pftemp : ℕ
pftemp = 0x5ff000

-- FEC_WR
abbrev pub fec_wr : ℕ
fec_wr = 2 ^ 1

-- `memmove(PFTEMP, rounded, PGSIZE)`, through the mappings.
abbrev pub copy_page : ℕ → ℕ → Spaces → Spaces
copy_page dst src s = record s {
  frames = update s.frames (s.vpt dst / pgsize) (s.frames (s.vpt src / pgsize));
}

-- From the page that `sys_page_alloc(0, PFTEMP, …)` got, none for an error, to the end of
-- `pgfault`; `none` is a panic.
abbrev pub own_copy : ℕ → Option ℕ → Spaces → Option Spaces
own_copy pn none s = none
own_copy pn (some page) s =
    let temp = pftemp / pgsize in
    let s₁ = record s {
      vpt = update s.vpt temp (entry (page * pgsize) 7);
      frames = update s.frames page (λ w. 0);
    } in
    let s₂ = copy_page temp pn s₁ in
    if leb utop (pn * pgsize)
    then none
    else let s₃ = record s₂ { vpt = update s₂.vpt pn (entry (s₂.vpt temp) 7) } in
      some (record s₃ { vpt = update s₃.vpt temp 0 })

-- `pgfault` for the error code and the address of the fault.
unfoldable pub pgfault : ℕ → ℕ → Option ℕ → Spaces → Option Spaces
pgfault err addr got s =
    if has err fec_wr && has (s.vpt (addr / pgsize)) pte_cow
    then own_copy (addr / pgsize) got s
    else none
