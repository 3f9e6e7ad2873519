-- ===== src/Kern/Sched/Destroy.antt =====
-- `env_destroy` of lab/kern/env.c on the current environment, and the choice that
-- `sched_yield` of lab/kern/sched.c makes after it.
use mathlib.Core.Path.{subst}
use cse.Base.{
  ℕ, zero, suc, ◌-◌, Bool, true, false, ◌&&◌, ◌||◌, Option, none, some, ltb, ◌==◌, if◌then◌else◌,
  ◌≡◌, ◌≢◌, inl, inr, refl, sym, ap, ◌∙◌, arith, Bool-cases, Option-cases, ==_refl,
}
use cse.Base.Cells.{update, update_self, update_ne}
use cse.Kern.Pages.{Phys}
use cse.Kern.Env.{
  nenv, envx, env_free, env_dying, set_env, is_free, is_runnable, is_running, Env, Kernel, bad_env,
  differs, envid2env,
}
use cse.Kern.Env.Free.{
  free_memory, free_env, retire, leave, Destroyed, returned, yields, env_destroy,
}
use cse.Kern.Sched.{
  Choice, run_env, monitor, no_idle_panic, out_of_bounds, is_candidate, next_slot, start_slot,
  search_from, any_busy, choose_idle, choose_last, sched_choose,
}

run_env-injective : (a b : ℕ) → run_env a ≡ run_env b → a ≡ b
run_env-injective a b p = cc p

-- What the search settles on is runnable.
search_from-alive :
    (rounds i e : ℕ) (envs : ℕ → Env)
    → search_from rounds i envs ≡ some (run_env e)
    → is_runnable (envs e).env_status ≡ true
unfolding search_from is_candidate
search_from-alive zero i e envs p = absurd (ground arith)
search_from-alive (suc rounds) i e envs p = elim (Bool-cases (ltb i nenv)) [
  | inr past ↦ absurd (outside (sym (stops past) ∙ p))
  | inl inside ↦ elim (Bool-cases (is_candidate (envs i))) [
    | inl good ↦
        subst (λ x. is_runnable (envs x).env_status ≡ true) (here inside good)
          (ground (arith, good))
    | inr bad ↦ search_from-alive rounds (next_slot i) e envs (sym (goes_on inside bad) ∙ p)
  ]
]
  where
    outside : some out_of_bounds ≡ some (run_env e) → ⊥
    outside q = cc q

    stops : ltb i nenv ≡ false → search_from (suc rounds) i envs ≡ some out_of_bounds
    stops past = rw past refl

    settles :
        ltb i nenv ≡ true
        → is_candidate (envs i) ≡ true
        → search_from (suc rounds) i envs ≡ some (run_env i)
    settles inside good = rw inside (rw good refl)

    here : ltb i nenv ≡ true → is_candidate (envs i) ≡ true → i ≡ e
    here inside good = cc (sym (settles inside good) ∙ p)

    goes_on :
        ltb i nenv ≡ true
        → is_candidate (envs i) ≡ false
        → search_from (suc rounds) i envs ≡ search_from rounds (next_slot i) envs
    goes_on inside bad = rw inside (rw bad refl)

is_alive : ℕ → Kernel → Bool
is_alive e k = is_runnable (k.envs e).env_status || is_running (k.envs e).env_status

choose_idle-alive : (e : ℕ) (k : Kernel) → choose_idle k ≡ run_env e → is_alive e k ≡ true
unfolding choose_idle is_alive
choose_idle-alive e k p = elim (Bool-cases (any_busy nenv k.envs)) [
  | inr idle ↦ absurd (cc (sym (stays idle) ∙ p))
  | inl busy ↦ elim (Bool-cases (is_alive k.cpunum k)) [
    | inl alive ↦ subst (λ x. is_alive x k ≡ true) (here busy alive) alive
    | inr dead ↦ absurd (cc (sym (panics busy dead) ∙ p))
  ]
]
  where
    stays : any_busy nenv k.envs ≡ false → choose_idle k ≡ monitor
    stays idle = rw idle refl

    settles :
        any_busy nenv k.envs ≡ true → is_alive k.cpunum k ≡ true → choose_idle k ≡ run_env k.cpunum
    settles busy alive = rw busy (rw alive refl)

    here : any_busy nenv k.envs ≡ true → is_alive k.cpunum k ≡ true → k.cpunum ≡ e
    here busy alive = cc (sym (settles busy alive) ∙ p)

    panics :
        any_busy nenv k.envs ≡ true → is_alive k.cpunum k ≡ false → choose_idle k ≡ no_idle_panic
    panics busy dead = rw busy (rw dead refl)

-- The scheduler only ever goes on in an environment that can run.
sched_choose-alive : (e : ℕ) (k : Kernel) → sched_choose k ≡ run_env e → is_alive e k ≡ true
unfolding sched_choose choose_last is_alive
sched_choose-alive e k p =
    elim (Option-cases (search_from (nenv - 1) (start_slot k.curenv) k.envs)) [
      | inr (c, found) ↦
          rw
            (search_from-alive (nenv - 1) (start_slot k.curenv) e k.envs
              (found ∙ ap some (sym (settles c found) ∙ p)))
            refl
      | inl nothing ↦ elim (Option-cases k.curenv) [
        | inl no_env ↦ choose_idle-alive e k (sym (idle nothing no_env) ∙ p)
        | inr (c, is_c) ↦ elim (Bool-cases (is_running (k.envs c).env_status)) [
          | inr stopped ↦ choose_idle-alive e k (sym (idle' nothing c is_c stopped) ∙ p)
          | inl running ↦
              subst (λ x. is_alive x k ≡ true) (here nothing c is_c running)
                (ground (arith, running))
        ]
      ]
    ]
  where
    settles :
        (c : Choice)
        → search_from (nenv - 1) (start_slot k.curenv) k.envs ≡ some c
        → sched_choose k ≡ c
    settles c found = rw (sched_choose, found) refl

    last :
        search_from (nenv - 1) (start_slot k.curenv) k.envs ≡ none
        → sched_choose k ≡ choose_last k.curenv k
    last nothing = rw (sched_choose, nothing) refl

    idle :
        search_from (nenv - 1) (start_slot k.curenv) k.envs ≡ none
        → k.curenv ≡ none
        → sched_choose k ≡ choose_idle k
    idle nothing no_env = last nothing ∙ ap (λ c. choose_last c k) no_env

    idle' :
        search_from (nenv - 1) (start_slot k.curenv) k.envs ≡ none
        → (c : ℕ) → k.curenv ≡ some c
        → is_running (k.envs c).env_status ≡ false
        → sched_choose k ≡ choose_idle k
    idle' nothing c is_c stopped = last nothing ∙ ap (λ x. choose_last x k) is_c ∙ rw stopped refl

    here :
        search_from (nenv - 1) (start_slot k.curenv) k.envs ≡ none
        → (c : ℕ) → k.curenv ≡ some c
        → is_running (k.envs c).env_status ≡ true
        → c ≡ e
    here nothing c is_c running =
        run_env-injective c e
          (sym (last nothing ∙ ap (λ x. choose_last x k) is_c ∙ rw running refl) ∙ p)

envid2env-free :
    (id : ℕ) (k : Kernel)
    → (k.envs (envx id)).env_status ≡ env_free
    → id ≢ 0
    → envid2env id false k ≡ bad_env
unfolding envid2env
envid2env-free id k free ne = rw (nonzero, is_free_now) refl
  where
    nonzero : (id == 0) ≡ false
    nonzero = ground (arith, ne)

    is_free_now : is_free (k.envs (envx id)).env_status ≡ true
    is_free_now = ap is_free free

is_alive-free : (e : ℕ) (k : Kernel) → (k.envs e).env_status ≡ env_free → is_alive e k ≡ false
unfolding is_alive
is_alive-free e k free = ap (λ x. is_runnable x || is_running x) free

-- What the freed slot is, and the kernel with it.
abbrev retired : ℕ → Kernel → Env
retired e k = record (k.envs e) {
  env_pml4e = 0;
  env_cr3 = 0;
  env_status = env_free;
  env_link = k.env_free_list;
}

abbrev without_env : ℕ → Phys → Kernel → Kernel
without_env e s k = record k {
  phys = s;
  envs = update k.envs e (retired e k);
  env_free_list = some e;
  curenv = none;
}

env_destroy-eq :
    (e : ℕ) (k : Kernel) (s : Phys)
    → k.curenv ≡ some e
    → free_memory (k.envs e).env_pml4e (k.envs e).env_cr3 k.phys ≡ some (tt, s)
    → env_destroy e k ≡ some (yields, without_env e s k)
unfolding env_destroy free_env
env_destroy-eq e k s current freed =
    ap (λ b. if is_running (k.envs e).env_status && b then lazy else leave e (free_env e k)) here
    ∙ ap (λ b. if b then lazy else leave e (free_env e k))
        (and_false (is_running (k.envs e).env_status))
    ∙ ap (leave e) gone
    ∙ ap (λ b. if b then some (returned, whole) else some (yields, record whole { curenv = none }))
        here
  where
    lazy : Option (Destroyed × Kernel)
    lazy = some (returned, set_env e (record (k.envs e) { env_status = env_dying }) k)

    whole : Kernel
    whole = record k { phys = s; envs = update k.envs e (retired e k); env_free_list = some e }

    here : differs k.curenv e ≡ false
    here = ap (λ c. differs c e) current ∙ rw (==_refl e) refl

    and_false : (b : Bool) → (b && false) ≡ false
    and_false true = refl
    and_false false = refl

    gone : free_env e k ≡ retire e k (some (tt, s))
    gone = ap (retire e k) freed

-- Where the memory of the current environment can be freed, `env_destroy` leaves the CPU without
-- an environment and the slot first on the free list; in the state it leaves `envid2env` refuses
-- the environment's id, no other slot has changed, and the scheduler does not go on in the
-- environment.
pub env_destroy-current :
    (e : ℕ) (k : Kernel) (s : Phys)
    → k.curenv ≡ some e
    → free_memory (k.envs e).env_pml4e (k.envs e).env_cr3 k.phys ≡ some (tt, s)
    → envx (k.envs e).env_id ≡ e
    → (k.envs e).env_id ≢ 0
    → (k' : Kernel) × (env_destroy e k ≡ some (yields, k'))
      × (k'.curenv ≡ none)
      × (k'.env_free_list ≡ some e)
      × ((k'.envs e).env_link ≡ k.env_free_list)
      × (envid2env (k.envs e).env_id false k' ≡ bad_env)
      × ((j : ℕ) → j ≢ e → k'.envs j ≡ k.envs j)
      × (sched_choose k' ≢ run_env e)
env_destroy-current e k s current freed at ne = (
  without_env e s k,
  env_destroy-eq e k s current freed,
  refl,
  refl,
  ap (λ v. v.env_link) self,
  envid2env-free (k.envs e).env_id (without_env e s k)
      (ap (λ x. ((without_env e s k).envs x).env_status) at ∙ freed_status) ne,
  λ j other. update_ne k.envs e j (retired e k) other,
  λ p. ground (
    arith,
    sched_choose-alive e (without_env e s k) p,
    is_alive-free e (without_env e s k) freed_status,
  ),
)
  where
    self : (without_env e s k).envs e ≡ retired e k
    self = update_self k.envs e (retired e k)

    freed_status : ((without_env e s k).envs e).env_status ≡ env_free
    freed_status = ap (λ v. v.env_status) self
