-- ===== src/Kern/Examples/Envs.antt =====
-- The theorems on lab/kern/env.c and lab/kern/sched.c at small machines.
use cse.Base.{
  ℕ, zero, suc, ◌<◌, ◌≡◌, ◌≢◌, ◌↔◌, ◌⊎◌, refl, true, false, Option, none, some, arith,
  if◌then◌else◌, ◌==◌,
}
use cse.Kern.Pages.{Phys, take_page, page_alloc}
use cse.Kern.PageTable.{kaddr}
use cse.Kern.Env.{
  Kernel, env_free, env_runnable, env_running, env_at, bad_env, ok, zero_env, nenv, envx, envid2env,
  env_alloc, env_setup_vm, fill_vm, vm_first, vm_second, vm_third, copy_entries,
}
use cse.Kern.Env.Ids.{envid2env_iff}
use cse.Kern.Env.Alloc.{env_alloc-ids}
use cse.Kern.Sched.{run_env, is_candidate, sched_choose}
use cse.Kern.Sched.RoundRobin.{around, sched_choose-first}
use cse.Kern.Sched.Fairness.{Leaves, turns, sched_yield-reaches}
use cse.Kern.Examples.{machine, full_memory, free_memory}

abbrev one : ℕ
one = 1

envid2env_iff_example : (envid2env 4097 true machine ≡ env_at 1) ↔ (
    (one ≡ envx 4097)
    × ((machine.envs 1).env_status ≢ env_free)
    × ((machine.envs 1).env_id ≡ 4097)
    × ((true ≡ false) ⊎ (zero ≡ one) ⊎ ((machine.envs 1).env_parent_id ≡ (machine.envs 0).env_id)))
envid2env_iff_example = envid2env_iff 4097 1 0 true machine (λ e. omega (arith, e)) refl

-- Slot 2 has been used before, under the id 4098.
abbrev pub reusing : Kernel
reusing = record machine {
  envs = λ e. if e == 2 then record zero_env { env_id = 4098 } else machine.envs e;
}

abbrev result_phys : Option (Option ℕ × Phys) → Phys
result_phys none = free_memory
result_phys (some (f, s)) = s

unfoldable pub set_up : Phys
set_up = result_phys (env_setup_vm 1 free_memory)

pub setup_done : env_setup_vm 1 free_memory ≡ some (some 10, set_up)
unfolding set_up env_setup_vm vm_first vm_second vm_third page_alloc take_page fill_vm kaddr
    copy_entries
setup_done = refl

env_alloc-ids_example :
    (k' : Kernel) × (env_alloc 4096 reusing ≡ some (ok 2, k'))
    × (envid2env (k'.envs 2).env_id false k' ≡ env_at 2)
    × (envid2env 4098 false k' ≡ bad_env)
env_alloc-ids_example =
    env_alloc-ids 4096 2 10 reusing set_up (ground arith) refl setup_done (ground arith)
      (λ e. omega (arith, e)) refl

abbrev one_page : Phys
one_page = record full_memory { page_free_list = some 5 }

-- Environment 3 is the only candidate; 0 runs.
abbrev pub waiting : Kernel
waiting = record machine {
  envs = λ e.
      if e == 3
      then record zero_env { env_status = env_runnable }
      else if e == 0
      then record zero_env { env_status = env_running }
      else zero_env;
}

passed_over : (t : ℕ) → t < 2 → is_candidate (waiting.envs (around 1 t)) ≡ false
unfolding is_candidate
passed_over zero h = refl
passed_over (suc zero) h = refl
passed_over (suc (suc t)) h = absurd (omega arith)

third : is_candidate (waiting.envs 3) ≡ true
unfolding is_candidate
third = refl

sched_choose-first_example : sched_choose waiting ≡ run_env 3
sched_choose-first_example =
    sched_choose-first waiting 0 2 refl (ground arith) (ground arith) passed_over third

last_free : is_candidate (waiting.envs 1023) ≡ false
unfolding is_candidate
last_free = refl

nothing_between : Leaves 3 (λ i k. k)
nothing_between = record { current = λ i k. refl; same = λ i k. refl; last = λ i k. refl }

sched_yield-reaches_example :
    (t : ℕ) × (t < nenv) × ((turns (λ i k. k) t 0 waiting).curenv ≡ some 3)
sched_yield-reaches_example =
    sched_yield-reaches 3 0 (λ i k. k) waiting nothing_between (omega arith) (omega arith)
      (λ e. omega (arith, e)) refl third last_free
