-- ===== src/Kern/Examples/Calls.antt =====
-- The theorems on lab/kern/syscall.c at small machines.
use cse.Base.{
  ℕ, ◌+◌, ◌*◌, ◌^◌, ◌≡◌, inl, refl, true, false, ◌&&◌, none, some, arith, if◌then◌else◌, ◌==◌,
}
use cse.Base.Cells.{update}
use cse.Kern.PageTable.{
  page_lookup, pml4e_walk, pdpe_walk, pgdir_walk, walk_level, ensure_entry, walk_entry,
  finish_level, hook_new, kaddr, with_ptx, pa2page,
}
use cse.Kern.PageTable.Insert.{entry_of}
use cse.Kern.Env.{
  Kernel, zero_tf, env_runnable, env_not_runnable, env_at, envid2env, ok, err, e_inval,
  e_ipc_not_recv, utop,
}
use cse.Kern.Syscall.{
  set_status, sys_env_set_status, sys_page_map, sys_ipc_try_send, sys_ipc_recv, bad_va,
}
use cse.Kern.Syscall.Control.{setters-keep_foreign}
use cse.Kern.Syscall.Ipc.{Received, recv-try_send, try_send-wedges}
use cse.Kern.Syscall.Memory.{sys_page_map-grants}
use cse.Kern.Examples.{machine, free_memory, free_pages, table_word}
use cse.Kern.Pages.FreeList.{IsValid}
use cse.Kern.PageTable.Insert.{Unmapped}
use cse.Kern.Examples.Memory.{free-IsValid}

own : envid2env 4096 false machine ≡ env_at 0
unfolding envid2env
own = refl

abbrev started : Kernel
started = record machine {
  envs = update machine.envs 1 (record (machine.envs 1) { env_status = env_runnable });
}

status_set : sys_env_set_status 4097 2 machine ≡ some (ok tt, started)
unfolding sys_env_set_status set_status envid2env
status_set = refl

setters-keep_foreign_example : started.envs 2 ≡ machine.envs 2
setters-keep_foreign_example =
    setters-keep_foreign 4097 2 0 2 zero_tf machine started (ok tt) refl
      ((λ e. omega (arith, e)), (λ e. omega (arith, e))) (inl status_set)

-- Environment 1 is blocked in a receive.
abbrev receiving : Kernel
receiving = record machine {
  envs = λ e.
      if e == 1
      then record (machine.envs 1) { env_status = env_not_runnable; env_ipc_recving = true }
      else machine.envs e;
}

receiver : envid2env 4097 false receiving ≡ env_at 1
unfolding envid2env
receiver = refl

recv-try_send_example :
    (k₁ k₂ : Kernel) × (sys_ipc_recv 4096 machine ≡ some (ok tt, k₁))
    × ((k₁.envs 0).env_status ≡ env_not_runnable)
    × (sys_ipc_try_send 4096 9 utop 0 (record k₁ { curenv = some 1 }) ≡ some (ok tt, k₂))
    × Received (k₂.envs 0) ((record k₁ { curenv = some 1 }).envs 1).env_id 9
recv-try_send_example =
    recv-try_send 4096 9 utop 0 4096 0 1 machine refl (λ e. omega (arith, e)) own (inl refl)
      (ground arith)

no_table : page_lookup 1 (2 ^ 21) receiving.phys ≡ some (none, receiving.phys)
unfolding page_lookup pml4e_walk pdpe_walk pgdir_walk walk_level ensure_entry walk_entry
    finish_level hook_new kaddr with_ptx
no_table = refl

try_send-wedges_example :
    (k' : Kernel) × (sys_ipc_try_send 4097 9 (2 ^ 21) 5 receiving ≡ some (err e_inval, k'))
    × ((k'.envs 1).env_status ≡ env_not_runnable)
    × ((value' srcva' perm' : ℕ)
        → sys_ipc_try_send 4097 value' srcva' perm' k' ≡ some (err e_ipc_not_recv, k'))
try_send-wedges_example =
    try_send-wedges 4097 9 (2 ^ 21) 5 1 0 receiving receiving.phys refl (λ e. omega (arith, e))
      receiver refl (ground arith) (λ e. omega (arith, e)) no_table

-- Page 6 is mapped at 4096 without PTE_W, and environment 1 has an empty table of its own.
abbrev read_only : ℕ → ℕ → ℕ
read_only p w = if (p == 4) && (w == 1) then 6 * 4096 + 5 else table_word p w

abbrev sharing : Kernel
sharing = record machine {
  phys = record free_memory { frames = read_only };
  envs = update machine.envs 1 (record (machine.envs 1) { env_pml4e = 9 });
}

sharing-IsValid : IsValid sharing.phys free_pages
sharing-IsValid =
    let v = free-IsValid in
    record { chain = v.chain; distinct = v.distinct; in_range = v.in_range; unused = v.unused }

sharing_own : envid2env 4096 true sharing ≡ env_at 0
unfolding envid2env
sharing_own = refl

sharing_child : envid2env 4097 true sharing ≡ env_at 1
unfolding envid2env
sharing_child = refl

good_source : bad_va 4096 ≡ false
good_source = refl

good_target : bad_va 0 ≡ false
good_target = refl

six : page_lookup 1 4096 sharing.phys ≡ some (some (6, (4, 1)), sharing.phys)
unfolding page_lookup pml4e_walk pdpe_walk pgdir_walk walk_level ensure_entry walk_entry
    finish_level hook_new kaddr with_ptx pa2page
six = refl

empty_child : Unmapped 9 0 sharing.phys
unfolding pml4e_walk pdpe_walk pgdir_walk walk_level ensure_entry walk_entry finish_level hook_new
    kaddr with_ptx
empty_child f i found = cc found

-- PTE_W is granted: the permissions asked for are 7.
sys_page_map-grants_example :
    (k' : Kernel) × (g : ℕ) × (sys_page_map 4096 4096 4097 0 7 sharing ≡ some (ok tt, k'))
    × (k'.phys.frames g 0 ≡ entry_of 6 7)
    × (page_lookup 9 0 k'.phys ≡ some (some (6, (g, 0)), k'.phys))
    × (k'.phys.frames 4 1 ≡ 6 * 4096 + 5)
sys_page_map-grants_example =
    sys_page_map-grants 4096 4096 4097 0 7 0 1 6 4 1 sharing free_pages sharing_own sharing_child
      good_source good_target six refl (λ e. omega (arith, e)) sharing-IsValid (ground arith)
      (ground arith) (refl, ground arith, inl refl) empty_child refl (ground arith)
      (λ e. omega (arith, e)) (ground arith)
