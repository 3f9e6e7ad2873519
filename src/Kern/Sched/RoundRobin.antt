-- ===== src/Kern/Sched/RoundRobin.antt =====
-- The order in which `sched_yield` of lab/kern/sched.c looks at the environments, and where it
-- goes wrong.
use mathlib.Core.Path.{subst}
use native.Mathlib.Decide.{ℕ_discrete}
use cse.Base.{
  ℕ, zero, suc, ◌+◌, ◌-◌, ◌%◌, ◌<◌, ◌≡◌, ◌≢◌, refl, sym, ap, ◌∙◌, true, false, none, some, arith,
  Bool-cases, inl, inr, lt→ltb,
}
use cse.Kern.Env.{nenv, env_running, is_runnable, is_running, Env, Kernel}
use cse.Kern.Sched.{
  Choice, run_env, no_idle_panic, out_of_bounds, is_candidate, next_slot, search_from, start_slot,
  choose_last, choose_idle, sched_choose, any_busy, is_busy,
}

-- Slot `k` moved on by `d` places round the table.
abbrev pub around : ℕ → ℕ → ℕ
around k d = (k + d) % nenv

next_slot-around : (k : ℕ) → k < nenv → next_slot k ≡ around k 1
unfolding next_slot
next_slot-around k h = ground arith

around-around : (k d : ℕ) → around (around k 1) d ≡ around k (suc d)
around-around k d = omega arith

around-zero : (k : ℕ) → k < nenv → around k 0 ≡ k
around-zero k h = omega arith

module _ (rounds k : ℕ) (envs : ℕ → Env) (h : k < nenv) where
  search_from-hit :
      is_candidate (envs k) ≡ true → search_from (suc rounds) k envs ≡ some (run_env k)
  unfolding search_from
  search_from-hit c = rw (lt→ltb k nenv h) (rw c)

  search_from-skip :
      is_candidate (envs k) ≡ false
      → search_from (suc rounds) k envs ≡ search_from rounds (around k 1) envs
  unfolding search_from
  search_from-skip c = rw (lt→ltb k nenv h) (rw c (rw (next_slot-around k h)))

search_from-finds :
    (rounds k d : ℕ) (envs : ℕ → Env)
    → k < nenv
    → d < rounds
    → ((t : ℕ) → t < d → is_candidate (envs (around k t)) ≡ false)
    → is_candidate (envs (around k d)) ≡ true
    → search_from rounds k envs ≡ some (run_env (around k d))
search_from-finds zero k d envs h fuel before at = absurd (omega arith)
search_from-finds (suc rounds) k zero envs h fuel before at =
    let here = around-zero k h in
    search_from-hit rounds k envs h (rw here at at) ∙ ap (λ e. some (run_env e)) (sym here)
search_from-finds (suc rounds) k (suc d) envs h fuel before at =
    search_from-skip rounds k envs h (rw (around-zero k h) at (before 0 (omega arith)))
    ∙ search_from-finds rounds (around k 1) d envs (omega arith) (omega arith)
        (λ t l. rw (around-around k t) (before (suc t) (omega arith))) (rw (around-around k d) at)
    ∙ ap (λ e. some (run_env e)) (around-around k d)

search_from-none :
    (rounds k : ℕ) (envs : ℕ → Env)
    → k < nenv
    → ((t : ℕ) → t < rounds → is_candidate (envs (around k t)) ≡ false)
    → search_from rounds k envs ≡ none
unfolding search_from
search_from-none zero k envs h before = refl
search_from-none (suc rounds) k envs h before =
    search_from-skip rounds k envs h (rw (around-zero k h) at (before 0 (omega arith)))
    ∙ search_from-none rounds (around k 1) envs (omega arith)
        (λ t l. rw (around-around k t) (before (suc t) (omega arith)))

sched_choose-some :
    (k : Kernel) (c : Choice)
    → search_from (nenv - 1) (start_slot k.curenv) k.envs ≡ some c
    → sched_choose k ≡ c
unfolding sched_choose
sched_choose-some k c e = rw (e, sched_choose)

sched_choose-none :
    (k : Kernel)
    → search_from (nenv - 1) (start_slot k.curenv) k.envs ≡ none
    → sched_choose k ≡ choose_last k.curenv k
unfolding sched_choose
sched_choose-none k e = rw (e, sched_choose)

-- From an environment `c` that is not in the last slot, the scheduler runs the first runnable,
-- not idle environment that comes after `c` going round the table.
pub sched_choose-first :
    (k : Kernel) (c d : ℕ)
    → k.curenv ≡ some c
    → c < nenv - 1
    → d < nenv - 1
    → ((t : ℕ) → t < d → is_candidate (k.envs (around (c + 1) t)) ≡ false)
    → is_candidate (k.envs (around (c + 1) d)) ≡ true
    → sched_choose k ≡ run_env (around (c + 1) d)
sched_choose-first k c d cur h small before at = sched_choose-some k (run_env (around (c + 1) d)) (
    subst (λ o. search_from (nenv - 1) (start_slot o) k.envs ≡ some (run_env (around (c + 1) d)))
      (sym cur) (search_from-finds (nenv - 1) (c + 1) d k.envs (omega arith) small before at))

-- If no other environment is a candidate, one that is still running goes on.
pub sched_choose-same :
    (k : Kernel) (c : ℕ)
    → k.curenv ≡ some c
    → c < nenv - 1
    → ((j : ℕ) → j < nenv → j ≢ c → is_candidate (k.envs j) ≡ false)
    → (k.envs c).env_status ≡ env_running
    → sched_choose k ≡ run_env c
unfolding choose_last
sched_choose-same k c cur h others running =
    sched_choose-none k (
      subst (λ o. search_from (nenv - 1) (start_slot o) k.envs ≡ none) (sym cur)
        (search_from-none (nenv - 1) (c + 1) k.envs (omega arith)
          λ t l. others (around (c + 1) t) (omega arith) (omega arith)))
    ∙ subst (λ o. choose_last o k ≡ run_env c) (sym cur) (rw running)

-- From an environment in the last slot the search starts one past the end of the table, whatever
-- the table holds.
pub sched_choose-last_slot :
    (k : Kernel) → k.curenv ≡ some (nenv - 1) → sched_choose k ≡ out_of_bounds
unfolding search_from
sched_choose-last_slot k cur =
    sched_choose-some k out_of_bounds (
      subst (λ o. search_from (nenv - 1) (start_slot o) k.envs ≡ some out_of_bounds) (sym cur) refl)

is_busy_of_candidate : (v : Env) → is_candidate v ≡ true → is_busy v ≡ true
unfolding is_candidate
is_busy_of_candidate v h = ground arith

any_busy-at : (n j : ℕ) (envs : ℕ → Env) → j < n → is_busy (envs j) ≡ true → any_busy n envs ≡ true
unfolding any_busy
any_busy-at zero j envs h b = absurd (omega arith)
any_busy-at (suc n) j envs h b = elim (ℕ_discrete j n) [
  | yes e ↦ rw (subst (λ i. is_busy (envs i) ≡ true) e b)
  | no ne ↦ elim (Bool-cases (is_busy (envs n))) [
    | inl c ↦ rw c
    | inr c ↦ rw c (any_busy-at n j envs (omega arith) b)
  ]
]

-- On a CPU with no environment the search leaves slot 1 out: where slot 1 holds the only
-- candidate and the CPU's idle environment is neither runnable nor running, it panics.
pub sched_choose-skips_one :
    (k : Kernel)
    → k.curenv ≡ none
    → is_candidate (k.envs 1) ≡ true
    → ((j : ℕ) → j < nenv → j ≢ 1 → is_candidate (k.envs j) ≡ false)
    → is_runnable (k.envs k.cpunum).env_status ≡ false
    → is_running (k.envs k.cpunum).env_status ≡ false
    → sched_choose k ≡ no_idle_panic
unfolding choose_last choose_idle
sched_choose-skips_one k cur one others idle₁ idle₂ =
    sched_choose-none k (
      subst (λ o. search_from (nenv - 1) (start_slot o) k.envs ≡ none) (sym cur)
        (search_from-none (nenv - 1) 2 k.envs (omega arith)
          λ t l. others (around 2 t) (omega arith) (omega arith)))
    ∙ subst (λ o. choose_last o k ≡ no_idle_panic) (sym cur) (rw busy (rw idle₁ (rw idle₂)))
  where
    busy : any_busy nenv k.envs ≡ true
    busy = any_busy-at nenv 1 k.envs (omega arith) (is_busy_of_candidate (k.envs 1) one)
