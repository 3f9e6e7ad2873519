-- ===== src/Kern/Sched.antt =====
-- The scheduler, lab/kern/sched.c.
pub mod Fairness
pub mod RoundRobin
pub mod Destroy
use cse.Base.{
  ℕ, zero, suc, ◌+◌, ◌-◌, Bool, true, false, not, ◌&&◌, ◌||◌, Option, none, some, ltb, ◌==◌,
  if◌then◌else◌,
}
use cse.Kern.Env.{nenv, is_runnable, is_running, is_idle_type, Env, Kernel, env_run}

-- How `sched_yield` ends: in an environment, in the kernel monitor for good, in a panic, or by
-- reading past the end of `envs`.
pub data Choice : Type 0 where
  run_env : ℕ → Choice
  monitor : Choice
  no_idle_panic : Choice
  out_of_bounds : Choice

unfoldable pub is_candidate : Env → Bool
is_candidate v = is_runnable v.env_status && not (is_idle_type v.env_type)

-- `k++; if (k == NENV) k = 0;`
unfoldable pub next_slot : ℕ → ℕ
next_slot k = if k + 1 == nenv then 0 else k + 1

-- The search loop with `rounds` rounds left, or none if it ends without a candidate.
unfoldable pub search_from : ℕ → ℕ → (ℕ → Env) → Option Choice
search_from zero k envs = none
search_from (suc rounds) k envs =
    let rest = search_from rounds (next_slot k) envs in
    if not (ltb k nenv)
    then some out_of_bounds
    else if is_candidate (envs k)
    then some (run_env k)
    else rest

-- `i = thiscpu->cpu_env - envs`, or 1; the search starts at `i + 1`.
abbrev pub start_slot : Option ℕ → ℕ
start_slot none = 2
start_slot (some c) = c + 1

abbrev pub is_busy : Env → Bool
is_busy v = not (is_idle_type v.env_type) && (is_runnable v.env_status || is_running v.env_status)

unfoldable pub any_busy : ℕ → (ℕ → Env) → Bool
any_busy zero envs = false
any_busy (suc n) envs = is_busy (envs n) || any_busy n envs

-- What follows when the search has found nothing and the last environment cannot go on.
unfoldable pub choose_idle : Kernel → Choice
unfolding any_busy
choose_idle k =
    let idle = k.envs k.cpunum in
    if not (any_busy nenv k.envs)
    then monitor
    else if is_runnable idle.env_status || is_running idle.env_status
    then run_env k.cpunum
    else no_idle_panic

unfoldable pub choose_last : Option ℕ → Kernel → Choice
unfolding choose_idle
choose_last none k = choose_idle k
choose_last (some c) k = if is_running (k.envs c).env_status then run_env c else choose_idle k

unfoldable pub sched_choose : Kernel → Choice
sched_choose k = elim (search_from (nenv - 1) (start_slot k.curenv) k.envs) [
  | some c ↦ c
  | none ↦ choose_last k.curenv k
]

unfoldable pub enter : Choice → Kernel → Kernel
enter (run_env e) k = env_run e k
enter monitor k = k
enter no_idle_panic k = k
enter out_of_bounds k = k

unfoldable pub sched_yield : Kernel → Choice × Kernel
unfolding enter
sched_yield k = let c = sched_choose k in (c, enter c k)
