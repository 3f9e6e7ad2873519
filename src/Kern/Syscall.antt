-- ===== src/Kern/Syscall.antt =====
-- The system calls of lab/kern/syscall.c that work on environments, page tables and messages.
pub mod Ipc
pub mod Memory
pub mod Control
use Prim.Native.Nat.{bit_and}
use cse.Base.{
  ℕ, ◌+◌, ◌-◌, ◌%◌, ◌^◌, Bool, true, false, not, ◌&&◌, ◌||◌, Option, none, some, ltb, leb, ◌==◌,
  if◌then◌else◌,
}
use cse.Base.Cells.{update}
use cse.Kern.Pages.{Phys, pgsize, page_alloc, page_free, alloc_zero}
use cse.Kern.PageTable
use cse.Kern.PageTable.{M, page_lookup, page_insert, page_remove}
use cse.Kern.Env.{
  EnvStatus, env_runnable, env_not_runnable, Trapframe, reg_rax, Env, Kernel, set_env, K, utop,
  Lookup, env_at, null_env, bad_env, deref_null, envid2env, env_alloc, Result, ok, err, Error,
  e_bad_env, e_inval, e_no_mem, e_no_free_env, e_ipc_not_recv,
}

abbrev pub done : Kernel → Option (Result (Unit {0}) × Kernel)
done k = some (ok tt, k)

abbrev pub fail {ℓ} : {A : Type ℓ} → Error → Kernel → Option (Result A × Kernel)
fail e k = some (err e, k)

-- A call goes on with the environment that an id names; to use a NULL one is a fault.
abbrev pub with_env :
    Lookup → K (Result (Unit {0})) → (ℕ → K (Result (Unit {0}))) → K (Result (Unit {0}))
with_env (env_at e) on_error f = f e
with_env null_env on_error f = λ k. none
with_env bad_env on_error f = on_error
with_env deref_null on_error f = λ k. none

-- Whether `envid2env` was a fault, and whether it failed; a NULL environment is neither.
abbrev pub is_fault : Lookup → Bool
is_fault deref_null = true
is_fault l = false

abbrev pub is_bad : Lookup → Bool
is_bad (env_at e) = false
is_bad null_env = false
is_bad bad_env = true
is_bad deref_null = false

-- ROUNDUP(va, PGSIZE) on 64 bits.
abbrev pub roundup : ℕ → ℕ
roundup va = let a = (va + pgsize - 1) % 2 ^ 64 in a - a % pgsize

abbrev pub rounddown : ℕ → ℕ
rounddown va = va - va % pgsize

-- `va >= UTOP || ROUNDUP(va, PGSIZE) != va`
abbrev pub bad_va : ℕ → Bool
bad_va va = leb utop va || not (roundup va == va)

-- PTE_U | PTE_P
abbrev pub pte_up : ℕ
pte_up = 0x005

-- ~PTE_SYSCALL on an `int`.
abbrev pub not_pte_syscall : ℕ
not_pte_syscall = 0xFFFFF1F8

abbrev pub bad_perm : ℕ → Bool
bad_perm perm = not (bit_and perm pte_up == pte_up) || not (bit_and perm not_pte_syscall == 0)

unfoldable pub set_status : ℕ → EnvStatus → Kernel → Kernel
set_status e st k = set_env e (record (k.envs e) { env_status = st }) k

-- ENV_RUNNABLE and ENV_NOT_RUNNABLE as the `int` that the caller passes.
abbrev pub runnable_code : ℕ
runnable_code = 2

abbrev pub not_runnable_code : ℕ
not_runnable_code = 4

unfoldable pub sys_env_set_status : ℕ → ℕ → K (Result (Unit {0}))
unfolding set_status
sys_env_set_status envid status k =
    with_env (envid2env envid true k) (fail e_bad_env)
      (λ e k.
        if status == runnable_code
        then done (set_status e env_runnable k)
        else if status == not_runnable_code
        then done (set_status e env_not_runnable k)
        else fail e_inval k)
      k

unfoldable pub sys_env_set_trapframe : ℕ → Trapframe → K (Result (Unit {0}))
sys_env_set_trapframe envid tf k =
    with_env (envid2env envid true k) (fail e_bad_env)
      (λ e k. done (set_env e (record (k.envs e) { env_tf = tf }) k)) k

unfoldable pub sys_env_set_pgfault_upcall : ℕ → ℕ → K (Result (Unit {0}))
sys_env_set_pgfault_upcall envid func k =
    with_env (envid2env envid true k) (fail e_bad_env)
      (λ e k. done (set_env e (record (k.envs e) { env_pgfault_upcall = func }) k)) k

-- The child's state after `sys_exofork`: the parent's registers, with 0 for its return value.
unfoldable pub child_of : Env → Env → Env
child_of parent v = record v {
  env_status = env_not_runnable;
  env_tf = record parent.env_tf { tf_regs = update parent.env_tf.tf_regs reg_rax 0 };
}

abbrev pub after_alloc : ℕ → Option (Result ℕ × Kernel) → Option (Result ℕ × Kernel)
after_alloc c none = none
after_alloc c (some (err e, k)) = some (err e_no_free_env, k)
after_alloc c (some (ok e, k)) =
    let v = child_of (k.envs c) (k.envs e) in some (ok v.env_id, set_env e v k)

unfoldable pub fork_from : Option ℕ → K (Result ℕ)
fork_from none k = none
fork_from (some c) k = after_alloc c (env_alloc (k.envs c).env_id k)

-- The child's id.
unfoldable pub sys_exofork : K (Result ℕ)
unfolding fork_from
sys_exofork k = fork_from k.curenv k

-- `page_insert` on behalf of a call, with `phys` put back into the kernel.
abbrev pub status_result : Error → PageTable.Status → Result (Unit {0})
status_result e PageTable.ok = ok tt
status_result e PageTable.e_no_mem = err e

abbrev pub lift_status :
    Kernel → Option (PageTable.Status × Phys) → Option (Result (Unit {0}) × Kernel)
lift_status k none = none
lift_status k (some (st, s)) = some (status_result e_no_mem st, record k { phys = s })

abbrev pub lift_free : Kernel → Error → Option Phys → Option (Result (Unit {0}) × Kernel)
lift_free k e none = none
lift_free k e (some s) = some (err e, record k { phys = s })

-- A failed `page_insert` gives the new page back.
abbrev pub after_insert :
    ℕ → Kernel → Option (PageTable.Status × Phys) → Option (Result (Unit {0}) × Kernel)
after_insert p k none = none
after_insert p k (some (PageTable.ok, s)) = done (record k { phys = s })
after_insert p k (some (PageTable.e_no_mem, s)) = lift_free k e_no_mem (page_free p s)

abbrev pub after_page_alloc :
    ℕ → ℕ → ℕ → Kernel → Option ℕ × Phys → Option (Result (Unit {0}) × Kernel)
after_page_alloc table va perm k (none, s) = fail e_no_mem (record k { phys = s })
after_page_alloc table va perm k (some p, s) =
    after_insert p k (page_insert table p (rounddown va) perm s)

unfoldable pub sys_page_alloc : ℕ → ℕ → ℕ → K (Result (Unit {0}))
sys_page_alloc envid va perm k =
    let env = envid2env envid true k in
    if is_fault env
    then none
    else if is_bad env
    then fail e_bad_env k
    else if bad_va va
    then fail e_inval k
    else if bad_perm perm
    then fail e_inval k
    else with_env env (fail e_bad_env)
        (λ e k. after_page_alloc (k.envs e).env_pml4e va perm k (page_alloc alloc_zero k.phys)) k

-- Mapping the page that `page_lookup` found, if any.
abbrev pub map_found :
    ℕ → ℕ → ℕ → Kernel → Option (Option (ℕ × (ℕ × ℕ)) × Phys) → Option (Result (Unit {0}) × Kernel)
map_found table dstva perm k none = none
map_found table dstva perm k (some (none, s)) = fail e_inval (record k { phys = s })
map_found table dstva perm k (some (some (pp, pte), s)) =
    lift_status k (page_insert table pp dstva perm s)

-- Mapping into the environment that the second id names, whose table is read if a page was found.
abbrev pub map_into :
    Lookup
    → ℕ
    → ℕ
    → Kernel
    → Option (Option (ℕ × (ℕ × ℕ)) × Phys)
    → Option (Result (Unit {0}) × Kernel)
map_into (env_at dst) dstva perm k found = map_found (k.envs dst).env_pml4e dstva perm k found
map_into bad_env dstva perm k found = fail e_bad_env k
map_into null_env dstva perm k (some (none, s)) = fail e_inval (record k { phys = s })
map_into null_env dstva perm k found = none
map_into deref_null dstva perm k found = none

unfoldable pub sys_page_map : ℕ → ℕ → ℕ → ℕ → ℕ → K (Result (Unit {0}))
sys_page_map srcenvid srcva dstenvid dstva perm k =
    let src_env = envid2env srcenvid true k in
    let dst_env = envid2env dstenvid true k in
    if is_fault src_env || is_fault dst_env
    then none
    else if is_bad src_env || is_bad dst_env
    then fail e_bad_env k
    else if bad_va srcva || bad_va dstva
    then fail e_inval k
    else with_env src_env (fail e_bad_env)
        (λ src k. map_into dst_env dstva perm k (page_lookup (k.envs src).env_pml4e srcva k.phys)) k

abbrev pub lift_void : Kernel → Option (Unit {0} × Phys) → Option (Result (Unit {0}) × Kernel)
lift_void k none = none
lift_void k (some (u, s)) = done (record k { phys = s })

unfoldable pub sys_page_unmap : ℕ → ℕ → K (Result (Unit {0}))
sys_page_unmap envid va k =
    let env = envid2env envid true k in
    if is_fault env
    then none
    else if is_bad env
    then fail e_bad_env k
    else if bad_va va
    then fail e_inval k
    else with_env env (fail e_bad_env)
        (λ e k. lift_void k (page_remove (k.envs e).env_pml4e va k.phys)) k

-- `env_ipc_recving`, `env_ipc_from` and `env_ipc_value` of the receiver, set before the page is
-- looked at.
unfoldable pub post : ℕ → ℕ → ℕ → Kernel → Kernel
post dst src value k =
    set_env dst
      (record (k.envs dst) {
        env_ipc_recving = false;
        env_ipc_from = (k.envs src).env_id;
        env_ipc_value = value;
      })
      k

-- The end of a successful send.
unfoldable pub deliver : ℕ → ℕ → Kernel → Kernel
deliver dst perm k =
    set_env dst (record (k.envs dst) { env_ipc_perm = perm; env_status = env_runnable }) k

abbrev pub deliver_if :
    ℕ → ℕ → Option (Result (Unit {0}) × Kernel) → Option (Result (Unit {0}) × Kernel)
deliver_if dst perm none = none
deliver_if dst perm (some (err e, k)) = fail e k
deliver_if dst perm (some (ok u, k)) = done (deliver dst perm k)

unfoldable pub send_to : ℕ → ℕ → ℕ → ℕ → ℕ → K (Result (Unit {0}))
unfolding post deliver
send_to dst src value srcva perm k =
    if not (k.envs dst).env_ipc_recving
    then fail e_ipc_not_recv k
    else (let k' = post dst src value k in
        if ltb srcva utop
        then deliver_if dst perm (
            map_found (k'.envs dst).env_pml4e (k'.envs dst).env_ipc_dstva perm k'
              (page_lookup (k'.envs src).env_pml4e srcva k'.phys))
        else done (deliver dst 0 k'))

unfoldable pub sys_ipc_try_send : ℕ → ℕ → ℕ → ℕ → K (Result (Unit {0}))
sys_ipc_try_send envid value srcva perm k =
    with_env (envid2env envid false k) (fail e_bad_env)
      (λ dst.
        with_env (envid2env 0 false k) (fail e_bad_env) (λ src. send_to dst src value srcva perm))
      k

unfoldable pub await : ℕ → ℕ → Kernel → Kernel
await e dstva k =
    set_env e
      (record (k.envs e) {
        env_ipc_recving = true;
        env_ipc_dstva = dstva;
        env_ipc_value = 0;
        env_ipc_perm = 0;
        env_ipc_from = 0;
        env_status = env_not_runnable;
      })
      k

-- `envid2env` does not fail on id 0, so the panic is not reached.
unfoldable pub sys_ipc_recv : ℕ → K (Result (Unit {0}))
unfolding await
sys_ipc_recv dstva k =
    with_env (envid2env 0 false k) (λ k. none)
      (λ e k.
        if ltb dstva utop && not (dstva % pgsize == 0)
        then fail e_inval k
        else done (await e dstva k))
      k
