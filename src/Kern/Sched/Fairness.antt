-- ===== src/Kern/Sched/Fairness.antt =====
-- Fairness of `sched_yield` of lab/kern/sched.c: an environment that stays runnable is run.
use mathlib.Core.Path.{subst}
use native.Mathlib.Decide.{ℕ_discrete}
use cse.Base.{
  ℕ, zero, suc, ◌+◌, ◌-◌, ◌%◌, ◌≤◌, ◌<◌, ◌≡◌, ◌≢◌, refl, sym, ap, ◌∙◌, Bool, true, false, some,
  arith, ◌⊎◌, Bool-cases, inl, inr,
}
use cse.Base.Cells.{update_ne}
use cse.Kern.Env.{nenv, is_running, Kernel, preempt, preempt_at, env_run, env_runnable}
use cse.Kern.Sched.{is_candidate, sched_choose, sched_yield, run_env}
use cse.Kern.Sched.RoundRobin.{around, sched_choose-first}

-- The lowest index at which a test succeeds.
lowest :
    (test : ℕ → Bool) (n : ℕ)
    → test n ≡ true
    → (d : ℕ) × (d ≤ n) × (test d ≡ true) × ((t : ℕ) → t < d → test t ≡ false)
lowest test zero h = (0, omega arith, h, λ t l. absurd (omega arith))
lowest test (suc n) h = elim (Bool-cases (test 0)) [
  | inl first ↦ (0, omega arith, first, λ t l. absurd (omega arith))
  | inr later ↦
      let (d, le, at, before) = lowest (λ t. test (suc t)) n h in
      (suc d, omega arith, at, λ t l. below d before later t l)
]
  where
    below :
        (d : ℕ)
        → ((t : ℕ) → t < d → test (suc t) ≡ false)
        → test 0 ≡ false
        → (t : ℕ) → t < suc d
        → test t ≡ false
    below d before later zero l = later
    below d before later (suc t) l = before t (omega arith)

-- What happens to the kernel between the `i`-th call of `sched_yield` and the next, seen from
-- environment `j`: the current environment stays, `j` stays runnable or not, and so does the last
-- slot of the table.
pub record Leaves (j : ℕ) (between : ℕ → Kernel → Kernel) : Type 0 where
  pub current : (i : ℕ) (k : Kernel) → (between i k).curenv ≡ k.curenv
  pub same : (i : ℕ) (k : Kernel) → is_candidate ((between i k).envs j) ≡ is_candidate (k.envs j)
  pub last :
      (i : ℕ) (k : Kernel)
      → is_candidate ((between i k).envs (nenv - 1)) ≡ is_candidate (k.envs (nenv - 1))

-- The kernel after `n` calls of `sched_yield`, the first of them call `i`.
pub turns : (ℕ → Kernel → Kernel) → ℕ → ℕ → Kernel → Kernel
turns between zero i k = k
turns between (suc n) i k = turns between n (i + 1) (sched_yield (between i k)).1

entered : (k : Kernel) (e : ℕ) → sched_choose k ≡ run_env e → (sched_yield k).1 ≡ env_run e k
unfolding sched_yield
entered k e h = rw h refl

-- How many slots lie from `c` on to `j`, going round.
abbrev distance : ℕ → ℕ → ℕ
distance c j = (j + nenv - c) % nenv

preempt-other : (k : Kernel) (c i : ℕ) → k.curenv ≡ some c → i ≢ c → (preempt k).envs i ≡ k.envs i
unfolding preempt
preempt-other k c i cur ne =
    ap (λ o. (preempt_at o k).envs i) cur ∙ elim (Bool-cases (is_running (k.envs c).env_status)) [
      | inl was ↦ rw was (update_ne k.envs c i (record (k.envs c) { env_status = env_runnable }) ne)
      | inr was ↦ rw was refl
    ]

env_run-curenv : (e : ℕ) (k : Kernel) → (env_run e k).curenv ≡ some e
unfolding env_run
env_run-curenv e k = refl

env_run-other :
    (k : Kernel) (c e i : ℕ) → k.curenv ≡ some c → i ≢ c → i ≢ e → (env_run e k).envs i ≡ k.envs i
unfolding env_run
env_run-other k c e i cur ne ne' = update_ne (preempt k).envs e i _ ne' ∙ preempt-other k c i cur ne

module _ (j : ℕ) (inside : j < nenv - 1) (between : ℕ → Kernel → Kernel)
    (l : Leaves j between) where
  -- The state before a call: `c` is current, `j` another environment that can be run, and the last
  -- slot cannot.
  record Waits (c : ℕ) (k : Kernel) : Type 0 where
    current : k.curenv ≡ some c
    in_table : c < nenv - 1
    other : c ≢ j
    ready : is_candidate (k.envs j) ≡ true
    last : is_candidate (k.envs (nenv - 1)) ≡ false

  Waits-between : (i c : ℕ) (k : Kernel) → Waits c k → Waits c (between i k)
  Waits-between i c k w = record {
    current = l.current i k ∙ w.current;
    in_table = w.in_table;
    other = w.other;
    ready = l.same i k ∙ w.ready;
    last = l.last i k ∙ w.last;
  }

  -- The environment that the call enters, which comes after `c` and no later than `j`.
  record Chosen (c : ℕ) (k : Kernel) : Type 0 where
    next : ℕ
    choice : sched_choose k ≡ run_env next
    candidate : is_candidate (k.envs next) ≡ true
    in_table : next < nenv - 1
    nearer : (next ≡ j) ⊎ (distance next j < distance c j)

  Waits-Chosen : (c : ℕ) (k : Kernel) → Waits c k → Chosen c k
  Waits-Chosen c k w =
      let (d, le, at, before) =
        lowest (λ t. is_candidate (k.envs (around (c + 1) t))) (distance c j - 1) reaches in
      record {
        next = around (c + 1) d;
        choice = sched_choose-first k c d w.current w.in_table (omega arith) before at;
        candidate = at;
        in_table = below (around (c + 1) d) at (omega arith);
        nearer = closer d le;
      }
    where
      there : around (c + 1) (distance c j - 1) ≡ j
      there = omega (arith, w.other, w.in_table)

      reaches : is_candidate (k.envs (around (c + 1) (distance c j - 1))) ≡ true
      reaches = subst (λ x. is_candidate (k.envs x) ≡ true) (sym there) w.ready

      clash : true ≡ false → ⊥
      clash e = cc

      below : (e : ℕ) → is_candidate (k.envs e) ≡ true → e < nenv → e < nenv - 1
      below e at h = elim (ℕ_discrete e (nenv - 1)) [
        | yes same ↦ absurd (clash (sym at ∙ ap (λ x. is_candidate (k.envs x)) same ∙ w.last))
        | no ne ↦ omega arith
      ]

      closer :
          (d : ℕ)
          → d ≤ distance c j - 1
          → (around (c + 1) d ≡ j) ⊎ (distance (around (c + 1) d) j < distance c j)
      closer d le = elim (ℕ_discrete d (distance c j - 1)) [
        | yes e ↦ inl (ap (around (c + 1)) e ∙ there)
        | no ne ↦ inr (omega (arith, w.other, w.in_table))
      ]

  Waits-sched_yield :
      (c : ℕ) (k : Kernel) (w : Waits c k) (ch : Chosen c k)
      → ch.next ≢ j
      → Waits ch.next (sched_yield k).1
  Waits-sched_yield c k w ch ne = rw (entered k ch.next ch.choice) record {
    current = env_run-curenv ch.next k;
    in_table = ch.in_table;
    other = ne;
    ready =
        ap is_candidate
          (env_run-other k c ch.next j w.current (λ e. w.other (sym e)) (λ e. ne (sym e)))
        ∙ w.ready;
    last =
        ap is_candidate (
          env_run-other k c ch.next (nenv - 1) w.current (λ e. omega (arith, w.in_table))
            (λ e. omega (arith, ch.in_table)))
        ∙ w.last;
  }

  reaches_turn :
      (n i c : ℕ) (k : Kernel)
      → Waits c k
      → distance c j ≤ n
      → (t : ℕ) × (t ≤ n) × ((turns between t i k).curenv ≡ some j)
  unfolding turns
  reaches_turn zero i c k w h = absurd (omega (arith, w.other, w.in_table))
  reaches_turn (suc n) i c k w h =
      let w' : Waits c (between i k) = Waits-between i c k w in
      let ch : Chosen c (between i k) = Waits-Chosen c (between i k) w' in
      elim (ℕ_discrete ch.next j) [
        | yes e ↦ (
          1,
          omega arith,
          ap (λ q. q.curenv) (entered (between i k) ch.next ch.choice)
              ∙ env_run-curenv ch.next (between i k)
              ∙ ap (λ x. some x) e,
        )
        | no ne ↦
            let (t, le, there) =
              reaches_turn n (i + 1) ch.next (sched_yield (between i k)).1
                (Waits-sched_yield c (between i k) w' ch ne) (closer n ch ne h) in
            (suc t, omega arith, there)
      ]
    where
      closer :
          (n : ℕ) (ch : Chosen c (between i k))
          → ch.next ≢ j
          → distance c j ≤ suc n
          → distance ch.next j ≤ n
      closer n ch ne h = elim ch.nearer [ inl e ↦ absurd (ne e) | inr l ↦ omega arith ]

-- Fairness: started from an environment that is not in the last slot, with the last slot not
-- runnable, an environment `j` of another slot that stays runnable is the current one after at most
-- `nenv - 1` calls of `sched_yield`, whatever happens to the kernel between the calls that leaves
-- the current environment current and the last slot not runnable.
pub sched_yield-reaches :
    (j c : ℕ) (between : ℕ → Kernel → Kernel) (k : Kernel)
    → Leaves j between
    → j < nenv - 1
    → c < nenv - 1
    → c ≢ j
    → k.curenv ≡ some c
    → is_candidate (k.envs j) ≡ true
    → is_candidate (k.envs (nenv - 1)) ≡ false
    → (t : ℕ) × (t < nenv) × ((turns between t 0 k).curenv ≡ some j)
sched_yield-reaches j c between k l h h' ne cur ready last =
    let (t, le, there) =
      reaches_turn j h between l (nenv - 1) 0 c k
        (record { current = cur; in_table = h'; other = ne; ready = ready; last = last })
        (omega arith) in
    (t, omega arith, there)
