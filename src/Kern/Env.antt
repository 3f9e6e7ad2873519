-- ===== src/Kern/Env.antt =====
-- Environments, lab/kern/env.c and lab/inc/env.h. A `struct Env *` is its index in `envs`, an
-- `envid_t` its 32-bit pattern, and `curenv` the environment of the CPU that runs the kernel.
pub mod Alloc
pub mod Free
pub mod Ids
pub mod Init
use Prim.Native.Nat.{bit_or}
use cse.Base.{
  ℕ, zero, suc, ◌+◌, ◌-◌, ◌*◌, ◌/◌, ◌%◌, ◌^◌, Bool, true, false, not, ◌&&◌, ◌||◌, Option, none,
  some, ltb, leb, ◌==◌, if◌then◌else◌,
}
use cse.Base.Cells.{update}
use cse.Kern.Pages.{Phys, pgsize, set_ref, page_alloc, alloc_zero}
use cse.Kern.PageTable.{
  M, pure, bind_opt, ◌>>=◌, ◌>>◌, kaddr, pte_addr, page2pa, table_perm, poke, pml4, pdpe, ptx,
  pte_p, pte_u,
}

abbrev pub nenv : ℕ
nenv = 1024

-- ENVX
abbrev pub envx : ℕ → ℕ
envx envid = envid % nenv

-- `1 << ENVGENSHIFT`
abbrev pub generation_step : ℕ
generation_step = 2 ^ 12

pub data EnvStatus : Type 0 where
  env_free env_dying env_runnable env_running env_not_runnable : EnvStatus

pub data EnvType : Type 0 where
  env_type_user env_type_idle env_type_fs env_type_ns : EnvType

abbrev pub is_free : EnvStatus → Bool
is_free env_free = true
is_free _ = false

abbrev pub is_runnable : EnvStatus → Bool
is_runnable env_runnable = true
is_runnable _ = false

abbrev pub is_running : EnvStatus → Bool
is_running env_running = true
is_running _ = false

abbrev pub is_idle_type : EnvType → Bool
is_idle_type env_type_idle = true
is_idle_type _ = false

-- `struct Trapframe`, without its padding; `tf_regs` is `struct PushRegs` by position.
pub record Trapframe : Type 0 where
  pub tf_regs : ℕ → ℕ
  pub tf_es : ℕ
  pub tf_ds : ℕ
  pub tf_trapno : ℕ
  pub tf_err : ℕ
  pub tf_rip : ℕ
  pub tf_cs : ℕ
  pub tf_eflags : ℕ
  pub tf_rsp : ℕ
  pub tf_ss : ℕ

abbrev pub reg_rax : ℕ
reg_rax = 14

pub record Env : Type 0 where
  pub env_tf : Trapframe
  pub env_link : Option ℕ
  pub env_id : ℕ
  pub env_parent_id : ℕ
  pub env_type : EnvType
  pub env_status : EnvStatus
  pub env_runs : ℕ
  pub env_cpunum : ℕ
  pub env_pml4e : ℕ
  pub env_cr3 : ℕ
  pub env_pgfault_upcall : ℕ
  pub env_ipc_recving : Bool
  pub env_ipc_dstva : ℕ
  pub env_ipc_value : ℕ
  pub env_ipc_from : ℕ
  pub env_ipc_perm : ℕ

pub record Kernel : Type 0 where
  pub phys : Phys
  pub envs : ℕ → Env
  pub env_free_list : Option ℕ
  pub curenv : Option ℕ
  pub cpunum : ℕ
  pub boot_pml4e : ℕ

abbrev pub set_env : ℕ → Env → Kernel → Kernel
set_env e v k = record k { envs = update k.envs e v }

-- The return codes that the kernel's calls use, by the names of lab/inc/error.h.
pub data Error : Type 0 where
  e_bad_env e_inval e_no_mem e_no_free_env e_fault e_ipc_not_recv : Error

pub data Result {ℓ} (A : Type ℓ) : Type ℓ where
  ok : A → Result A
  err : Error → Result A

-- What `envid2env` stores: an environment, or NULL where no environment is current. It fails with
-- `bad_env`, and `deref_null` is its read through a `curenv` that is NULL.
pub data Lookup : Type 0 where
  env_at : ℕ → Lookup
  null_env : Lookup
  bad_env : Lookup
  deref_null : Lookup

abbrev pub lookup_of : Option ℕ → Lookup
lookup_of none = null_env
lookup_of (some e) = env_at e

-- `e != curenv`
abbrev pub differs : Option ℕ → ℕ → Bool
differs none e = true
differs (some c) e = not (c == e)

abbrev pub is_null : Option ℕ → Bool
is_null none = true
is_null (some c) = false

-- `curenv->env_id`, read only where there is a current environment.
abbrev pub curenv_id : Kernel → ℕ
curenv_id k = elim k.curenv [ none ↦ 0 | some c ↦ (k.envs c).env_id ]

unfoldable pub envid2env : ℕ → Bool → Kernel → Lookup
envid2env envid checkperm k =
    let e = envx envid in
    if envid == 0
    then lookup_of k.curenv
    else if is_free (k.envs e).env_status || not ((k.envs e).env_id == envid)
    then bad_env
    else if checkperm && is_null k.curenv
    then deref_null
    else if checkperm && differs k.curenv e && not ((k.envs e).env_parent_id == curenv_id k)
    then bad_env
    else env_at e

abbrev pub zero_tf : Trapframe
zero_tf = record {
  tf_regs = λ r. 0;
  tf_es = 0;
  tf_ds = 0;
  tf_trapno = 0;
  tf_err = 0;
  tf_rip = 0;
  tf_cs = 0;
  tf_eflags = 0;
  tf_rsp = 0;
  tf_ss = 0;
}

-- A `struct Env` after `memset(envs, 0, …)`.
abbrev pub zero_env : Env
zero_env = record {
  env_tf = zero_tf;
  env_link = none;
  env_id = 0;
  env_parent_id = 0;
  env_type = env_type_user;
  env_status = env_free;
  env_runs = 0;
  env_cpunum = 0;
  env_pml4e = 0;
  env_cr3 = 0;
  env_pgfault_upcall = 0;
  env_ipc_recving = false;
  env_ipc_dstva = 0;
  env_ipc_value = 0;
  env_ipc_from = 0;
  env_ipc_perm = 0;
}

-- The loop of `env_init`, with `rounds` rounds left.
unfoldable pub env_init_from : ℕ → ℕ → (ℕ → Env) → ℕ → Env
env_init_from zero i envs = envs
env_init_from (suc rounds) i envs = env_init_from rounds (i + 1) (
    update envs i (record (envs i) {
      env_link = if i == nenv - 1 then none else some (i + 1);
      env_id = 0;
      env_status = env_free;
    }))

-- `memset` clears the NENV entries of the array.
unfoldable pub env_init : Kernel → Kernel
env_init k = record k {
  envs = env_init_from nenv 0 (λ i. if ltb i nenv then zero_env else k.envs i);
  env_free_list = some 0;
}

abbrev pub utop : ℕ
utop = 0xEF800000

abbrev pub uvpt : ℕ
uvpt = 0x10000000000

abbrev pub ustacktop : ℕ
ustacktop = utop - 2 * pgsize

abbrev pub npdentries : ℕ
npdentries = 512

-- `for (i = PTX(UTOP); i < NPDENTRIES; i++) pgdir[i] = kernel_pgdir[i];`
unfoldable pub copy_entries : ℕ → ℕ → ℕ → ℕ → Phys → Phys
copy_entries zero i pgdir kernel_pgdir s = s
copy_entries (suc rounds) i pgdir kernel_pgdir s =
    copy_entries rounds (i + 1) pgdir kernel_pgdir (poke pgdir i (s.frames kernel_pgdir i) s)

-- The part of `env_setup_vm` after its three allocations; it gives the frame of the new PML4.
unfoldable pub fill_vm : ℕ → ℕ → ℕ → ℕ → M (Option ℕ)
fill_vm boot_pml4e p p2 p3 s =
    (do
      env_pml4e ← kaddr (pte_addr (page2pa p))
      (λ t. pure tt (poke env_pml4e (pml4 utop) (bit_or (page2pa p2) table_perm) t))
      table ← (λ t. kaddr (pte_addr (t.frames env_pml4e (pml4 utop))) t)
      (λ t. pure tt (poke table (pdpe utop) (bit_or (page2pa p3) table_perm) t))
      pgdir ← (λ t. kaddr (pte_addr (t.frames table (pdpe utop))) t)
      (λ t. pure tt (set_ref p (((t.pages p).pp_ref + 1) % 2 ^ 16) t))
      (λ t. pure tt (set_ref p2 (((t.pages p2).pp_ref + 1) % 2 ^ 16) t))
      (λ t. pure tt (set_ref p3 (((t.pages p3).pp_ref + 1) % 2 ^ 16) t))
      kernel_pdpe ← (λ t. kaddr (pte_addr (t.frames boot_pml4e (pml4 utop))) t)
      kernel_pgdir ← (λ t. kaddr (pte_addr (t.frames kernel_pdpe (pdpe utop))) t)
      (λ t. pure tt (copy_entries (npdentries - ptx utop) (ptx utop) pgdir kernel_pgdir t))
      (λ t. pure tt (poke env_pml4e (pml4 uvpt) (bit_or (bit_or (page2pa p) pte_p) pte_u) t))
      pure (some env_pml4e))
      s

-- What `env_setup_vm` does with the answers to its allocations, the third first: the new PML4's
-- frame, or NULL for -E_NO_MEM. Pages allocated before a failure stay allocated.
unfoldable pub vm_third : ℕ → ℕ → ℕ → Option ℕ × Phys → Option (Option ℕ × Phys)
vm_third boot_pml4e p p2 (none, s) = some (none, s)
vm_third boot_pml4e p p2 (some p3, s) = fill_vm boot_pml4e p p2 p3 s

unfoldable pub vm_second : ℕ → ℕ → Option ℕ × Phys → Option (Option ℕ × Phys)
unfolding vm_third
vm_second boot_pml4e p (none, s) = some (none, s)
vm_second boot_pml4e p (some p2, s) = vm_third boot_pml4e p p2 (page_alloc alloc_zero s)

unfoldable pub vm_first : ℕ → Option ℕ × Phys → Option (Option ℕ × Phys)
unfolding vm_second
vm_first boot_pml4e (none, s) = some (none, s)
vm_first boot_pml4e (some p, s) = vm_second boot_pml4e p (page_alloc alloc_zero s)

unfoldable pub env_setup_vm : ℕ → M (Option ℕ)
unfolding vm_first
env_setup_vm boot_pml4e s = vm_first boot_pml4e (page_alloc alloc_zero s)

-- The id of a slot's next environment; `generation` is an int32_t and a negative one is replaced.
unfoldable pub next_env_id : ℕ → ℕ → ℕ
next_env_id old e =
    let g = (old + generation_step) % 2 ^ 32 in
    let generation = g - g % nenv in
    bit_or (if generation == 0 || leb (2 ^ 31) generation then generation_step else generation) e

abbrev pub gd_ut : ℕ
gd_ut = 0x18

abbrev pub gd_ud : ℕ
gd_ud = 0x20

abbrev pub fl_if : ℕ
fl_if = 0x200

abbrev pub user_tf : Trapframe
user_tf = record zero_tf {
  tf_ds = bit_or gd_ud 3;
  tf_es = bit_or gd_ud 3;
  tf_ss = bit_or gd_ud 3;
  tf_rsp = ustacktop;
  tf_cs = bit_or gd_ut 3;
  tf_eflags = bit_or 0 fl_if;
}

-- The fields that `env_alloc` sets in a slot whose address space is `env_pml4e`.
unfoldable pub fresh_env : ℕ → ℕ → ℕ → Env → Env
fresh_env e parent_id env_pml4e v = record v {
  env_pml4e = env_pml4e;
  env_cr3 = page2pa env_pml4e;
  env_id = next_env_id v.env_id e;
  env_parent_id = parent_id;
  env_type = env_type_user;
  env_status = env_runnable;
  env_runs = 0;
  env_tf = user_tf;
  env_pgfault_upcall = 0;
  env_ipc_recving = false;
}

-- Code over the whole kernel that may panic: `none` is a panic.
abbrev pub K : Type 0 → Type 0
K A = Kernel → Option (A × Kernel)

-- What follows `env_setup_vm` in `env_alloc`.
unfoldable pub commit_env : ℕ → ℕ → Kernel → Option (Option ℕ × Phys) → Option (Result ℕ × Kernel)
unfolding fresh_env
commit_env e parent_id k none = none
commit_env e parent_id k (some (none, s)) = some (err e_no_mem, record k { phys = s })
commit_env e parent_id k (some (some env_pml4e, s)) = some (
  ok e,
  record k {
    phys = s;
    envs = update k.envs e (fresh_env e parent_id env_pml4e (k.envs e));
    env_free_list = (k.envs e).env_link;
  },
)

unfoldable pub env_alloc : ℕ → K (Result ℕ)
env_alloc parent_id k = elim k.env_free_list [
  | none ↦ some (err e_no_free_env, k)
  | some e ↦ commit_env e parent_id k (env_setup_vm k.boot_pml4e k.phys)
]

-- `curenv && curenv->env_status == ENV_RUNNING`, then ENV_RUNNABLE.
abbrev pub preempt_at : Option ℕ → Kernel → Kernel
preempt_at none k = k
preempt_at (some c) k =
    if is_running (k.envs c).env_status
    then set_env c (record (k.envs c) { env_status = env_runnable }) k
    else k

unfoldable pub preempt : Kernel → Kernel
preempt k = preempt_at k.curenv k

-- The state in which `env_run`, with the first line of `env_pop_tf`, leaves the kernel lock and
-- enters user mode in `e`.
unfoldable pub env_run : ℕ → Kernel → Kernel
unfolding preempt
env_run e k =
    let k' = preempt k in
    record (set_env e
      (record (k'.envs e) {
        env_status = env_running;
        env_runs = ((k'.envs e).env_runs + 1) % 2 ^ 32;
        env_cpunum = k.cpunum;
      })
      k') { curenv = some e }
