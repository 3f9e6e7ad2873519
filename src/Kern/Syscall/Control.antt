-- ===== src/Kern/Syscall/Control.antt =====
-- Who may change whom through the system calls of lab/kern/syscall.c, and what a child starts with.
use mathlib.Core.Path.{ap₂}
use cse.Base.{
  ℕ, ◌≡◌, ◌≢◌, refl, sym, ap, ◌∙◌, true, some, arith, ◌==◌, if◌then◌else◌, Bool-cases, inl, inr,
  ◌⊎◌,
}
use cse.Base.Cells.{update_self, update_ne}
use cse.Kern.Pages.{Phys}
use cse.Kern.Env.{
  env_runnable, env_not_runnable, Env, Kernel, set_env, Error, e_bad_env, e_inval, Result, ok,
  Lookup, env_at, null_env, bad_env, deref_null, envid2env, env_setup_vm, next_env_id, fresh_env, K,
}
use cse.Kern.Env.{Trapframe, reg_rax}
use cse.Kern.Env.Alloc.{env_alloc-eq-ok, committed}
use cse.Kern.Syscall.{
  done, fail, with_env, set_status, runnable_code, not_runnable_code, sys_env_set_status,
  sys_env_set_trapframe, sys_env_set_pgfault_upcall, child_of, sys_exofork, fork_from,
}

-- What `envid2env` with a permission check accepts is the caller or a child of the caller.
permitted :
    (envid e c : ℕ) (k : Kernel)
    → k.curenv ≡ some c
    → envid2env envid true k ≡ env_at e
    → (c ≡ e) ⊎ ((k.envs e).env_parent_id ≡ (k.envs c).env_id)
unfolding envid2env
permitted envid e c k cur found = ground arith

-- The caller `c` may not touch slot `j`.
abbrev pub IsForeign : Kernel → ℕ → ℕ → Type 0
IsForeign k c j = (c ≢ j) × ((k.envs j).env_parent_id ≢ (k.envs c).env_id)

foreign-ne :
    (envid e c j : ℕ) (k : Kernel)
    → k.curenv ≡ some c
    → envid2env envid true k ≡ env_at e
    → IsForeign k c j
    → j ≢ e
foreign-ne envid e c j k cur found (nc, np) q = elim (permitted envid e c k cur found) [
  | inl same ↦ nc (same ∙ sym q)
  | inr child ↦ np (ap (λ i. (k.envs i).env_parent_id) q ∙ child)
]

-- A call on a named environment leaves slot `j` alone if its body writes only the slot named.
with_env-keeps :
    (envid c j : ℕ) (k : Kernel) (f : ℕ → K (Result (Unit {0}))) {r : Result (Unit {0})}
    {k' : Kernel}
    → k.curenv ≡ some c
    → IsForeign k c j
    → ((e : ℕ) (r' : Result (Unit {0})) (k'' : Kernel)
        → f e k ≡ some (r', k'')
        → j ≢ e
        → k''.envs j ≡ k.envs j)
    → with_env (envid2env envid true k) (fail e_bad_env) f k ≡ some (r, k')
    → k'.envs j ≡ k.envs j
with_env-keeps envid c j k f {r} {k'} cur far body e = go (envid2env envid true k) refl e
  where
    go :
        (l : Lookup)
        → envid2env envid true k ≡ l
        → with_env l (fail e_bad_env) f k ≡ some (r, k')
        → k'.envs j ≡ k.envs j
    go (env_at i) found e = body i r k' e (foreign-ne envid i c j k cur found far)
    go null_env found e = cc
    go bad_env found e = ground arith
    go deref_null found e = cc

written :
    (i j : ℕ) (v : Env) (k k' : Kernel) (r : Result (Unit {0}))
    → done (set_env i v k) ≡ some (r, k')
    → j ≢ i
    → k'.envs j ≡ k.envs j
written i j v k k' r e ne = ap (λ q. q.envs j) (sym same) ∙ update_ne k.envs i j v ne
  where
    same : set_env i v k ≡ k'
    same = cc

unwritten :
    (er : Error) (k k' : Kernel) (r : Result (Unit {0})) (j : ℕ)
    → fail er k ≡ some (r, k')
    → k'.envs j ≡ k.envs j
unwritten er k k' r j e = ap (λ q. q.envs j) (sym same)
  where
    same : k ≡ k'
    same = cc

set_status-keeps :
    (x i j : ℕ) (k k' : Kernel) (r : Result (Unit {0}))
    → (if x == runnable_code
        then done (set_status i env_runnable k)
        else if x == not_runnable_code
        then done (set_status i env_not_runnable k)
        else fail e_inval k)
      ≡ some (r, k')
    → j ≢ i
    → k'.envs j ≡ k.envs j
unfolding set_status
set_status-keeps x i j k k' r e ne = elim (Bool-cases (x == runnable_code)) [
  | inl a ↦ written i j _ k k' r (rw a at e) ne
  | inr a ↦ elim (Bool-cases (x == not_runnable_code)) [
    | inl b ↦ written i j _ k k' r (rw b at (rw a at e)) ne
    | inr b ↦ unwritten e_inval k k' r j (rw b at (rw a at e))
  ]
]

-- No setting call changes an environment that is neither the caller nor a child of the caller:
-- status, trap frame and page fault upcall, whatever the arguments and the outcome.
pub setters-keep_foreign :
    (envid x c j : ℕ) (tf : Trapframe) (k k' : Kernel) (r : Result (Unit {0}))
    → k.curenv ≡ some c
    → IsForeign k c j
    → (sys_env_set_status envid x k ≡ some (r, k'))
      ⊎ (sys_env_set_trapframe envid tf k ≡ some (r, k'))
      ⊎ (sys_env_set_pgfault_upcall envid x k ≡ some (r, k'))
    → k'.envs j ≡ k.envs j
unfolding sys_env_set_status sys_env_set_trapframe sys_env_set_pgfault_upcall
setters-keep_foreign envid x c j tf k k' r cur far (inl e) =
    with_env-keeps envid c j k _ cur far (λ i r' k'' f ne. set_status-keeps x i j k k'' r' f ne) e
setters-keep_foreign envid x c j tf k k' r cur far (inr (inl e)) =
    with_env-keeps envid c j k _ cur far (λ i r' k'' f ne. written i j _ k k'' r' f ne) e
setters-keep_foreign envid x c j tf k k' r cur far (inr (inr e)) =
    with_env-keeps envid c j k _ cur far (λ i r' k'' f ne. written i j _ k k'' r' f ne) e

-- `sys_env_set_trapframe` stores the caller's trap frame as it is: the code segment and the
-- interrupt flag that the environment will run with are the ones that the caller chose.
pub sys_env_set_trapframe-verbatim :
    (envid e : ℕ) (tf : Trapframe) (k : Kernel)
    → envid2env envid true k ≡ env_at e
    → (k' : Kernel) × (sys_env_set_trapframe envid tf k ≡ some (ok tt, k'))
      × ((k'.envs e).env_tf ≡ tf)
unfolding sys_env_set_trapframe
sys_env_set_trapframe-verbatim envid e tf k found = (
  set_env e (record (k.envs e) { env_tf = tf }) k,
  rw found,
  ap (λ v. v.env_tf) (update_self k.envs e (record (k.envs e) { env_tf = tf })),
)

-- A child made by `sys_exofork` is not runnable, has the caller for its parent, holds the caller's
-- registers but for a return value of 0, and the caller is told the child's id.
pub sys_exofork-child :
    (c e f : ℕ) (k : Kernel) (s : Phys)
    → k.curenv ≡ some c
    → c ≢ e
    → k.env_free_list ≡ some e
    → env_setup_vm k.boot_pml4e k.phys ≡ some (some f, s)
    → (k' : Kernel) × (sys_exofork k ≡ some (ok (k'.envs e).env_id, k'))
      × ((k'.envs e).env_id ≡ next_env_id (k.envs e).env_id e)
      × ((k'.envs e).env_status ≡ env_not_runnable)
      × ((k'.envs e).env_parent_id ≡ (k.envs c).env_id)
      × ((k'.envs e).env_tf.tf_regs reg_rax ≡ 0)
      × ((r : ℕ) → r ≢ reg_rax → (k'.envs e).env_tf.tf_regs r ≡ (k.envs c).env_tf.tf_regs r)
      × ((k'.envs e).env_tf.tf_rip ≡ (k.envs c).env_tf.tf_rip)
      × ((k'.envs e).env_tf.tf_rsp ≡ (k.envs c).env_tf.tf_rsp)
unfolding sys_exofork fresh_env child_of
sys_exofork-child c e f k s cur ne free vm = (
  k',
  ap (λ o. fork_from o k) cur
      ∙ rw (env_alloc-eq-ok parent e f k s free vm)
          (rw (ap (λ v. v.env_id) (update_self k₁.envs e v))),
  ap (λ w. w.env_id) made,
  ap (λ w. w.env_status) made,
  ap (λ w. w.env_parent_id) made,
  ap (λ w. w.env_tf.tf_regs reg_rax) made ∙ update_self (k.envs c).env_tf.tf_regs reg_rax 0,
  λ r other.
      ap (λ w. w.env_tf.tf_regs r) made ∙ update_ne (k.envs c).env_tf.tf_regs reg_rax r 0 other,
  ap (λ w. w.env_tf.tf_rip) made,
  ap (λ w. w.env_tf.tf_rsp) made,
)
  where
    parent : ℕ
    parent = (k.envs c).env_id

    k₁ : Kernel
    k₁ = committed e parent f s k

    v : Env
    v = child_of (k₁.envs c) (k₁.envs e)

    k' : Kernel
    k' = set_env e v k₁

    made : k'.envs e ≡ child_of (k.envs c) (fresh_env e parent f (k.envs e))
    made =
        update_self k₁.envs e v
        ∙ ap₂ child_of (update_ne k.envs e c (fresh_env e parent f (k.envs e)) ne)
            (update_self k.envs e (fresh_env e parent f (k.envs e)))
