-- ===== src/Kern/Env/Alloc.antt =====
-- What `env_alloc` of lab/kern/env.c does to the table on each of its outcomes.
use mathlib.Core.Path.{subst}
use cse.Base.{ℕ, ◌^◌, ◌<◌, ◌≡◌, ◌≢◌, sym, ap, ◌∙◌, false, none, some, [], ◌∷◌, arith}
use cse.Base.Cells.{update, update_self}
use cse.Kern.Pages.{Phys, page_alloc, alloc_zero, take_page}
use cse.Kern.Pages.FreeList.{IsValid, page_alloc-nil, page_alloc-eq-some, take_page-IsValid}
use cse.Kern.Env.{
  nenv, envx, env_runnable, Kernel, e_no_mem, ok, err, env_at, bad_env, envid2env, env_setup_vm,
  next_env_id, fresh_env, commit_env, env_alloc,
}
use cse.Kern.Env.Ids.{next_env_id_lem}

env_alloc-eq-commit :
    (parent_id e : ℕ) (k : Kernel)
    → k.env_free_list ≡ some e
    → env_alloc parent_id k ≡ commit_env e parent_id k (env_setup_vm k.boot_pml4e k.phys)
unfolding env_alloc
env_alloc-eq-commit parent_id e k free = ground arith

-- The kernel after `env_alloc` has made slot `e` into an environment with page tables at `f`.
abbrev pub committed : ℕ → ℕ → ℕ → Phys → Kernel → Kernel
committed e parent_id f s k = record k {
  phys = s;
  envs = update k.envs e (fresh_env e parent_id f (k.envs e));
  env_free_list = (k.envs e).env_link;
}

pub env_alloc-eq-ok :
    (parent_id e f : ℕ) (k : Kernel) (s : Phys)
    → k.env_free_list ≡ some e
    → env_setup_vm k.boot_pml4e k.phys ≡ some (some f, s)
    → env_alloc parent_id k ≡ some (ok e, committed e parent_id f s k)
unfolding commit_env
env_alloc-eq-ok parent_id e f k s free vm = rw (env_alloc-eq-commit parent_id e k free) (rw vm)

envid2env-ok :
    (id e : ℕ) (k : Kernel)
    → id ≢ 0
    → envx id ≡ e
    → (k.envs e).env_status ≡ env_runnable
    → (k.envs e).env_id ≡ id
    → envid2env id false k ≡ env_at e
unfolding envid2env
envid2env-ok id e k ne at st same = rw at (ground arith)

envid2env-stale :
    (id e : ℕ) (k : Kernel)
    → id ≢ 0
    → envx id ≡ e
    → (k.envs e).env_id ≢ id
    → envid2env id false k ≡ bad_env
unfolding envid2env
envid2env-stale id e k ne at other = rw at (ground arith)

-- A slot that `env_alloc` hands out again answers to its new id, and no longer to the id it had.
pub env_alloc-ids :
    (parent_id e f : ℕ) (k : Kernel) (s : Phys)
    → e < nenv
    → k.env_free_list ≡ some e
    → env_setup_vm k.boot_pml4e k.phys ≡ some (some f, s)
    → (k.envs e).env_id < 2 ^ 32
    → (k.envs e).env_id ≢ 0
    → envx (k.envs e).env_id ≡ e
    → (k' : Kernel) × (env_alloc parent_id k ≡ some (ok e, k'))
      × (envid2env (k'.envs e).env_id false k' ≡ env_at e)
      × (envid2env (k.envs e).env_id false k' ≡ bad_env)
unfolding fresh_env
env_alloc-ids parent_id e f k s h free vm small ne at =
    let (pos, below, slot, differs_old) = next_env_id_lem (k.envs e).env_id e small h in
    (
      committed e parent_id f s k,
      env_alloc-eq-ok parent_id e f k s free vm,
      subst (λ v. envid2env v.env_id false k' ≡ env_at e) (sym made)
          (envid2env-ok (next_env_id (k.envs e).env_id e) e k' (λ z. omega (arith, pos)) slot
            (ap (λ v. v.env_status) made) (ap (λ v. v.env_id) made)),
      envid2env-stale (k.envs e).env_id e k' ne at
          (λ z. differs_old (sym (ap (λ v. v.env_id) made) ∙ z)),
    )
  where
    k' : Kernel
    k' = committed e parent_id f s k

    made : k'.envs e ≡ fresh_env e parent_id f (k.envs e)
    made = update_self k.envs e (fresh_env e parent_id f (k.envs e))

-- Without the three pages for the page tables `env_alloc` reports -E_NO_MEM and leaves every
-- environment and the list of free slots as they were.
pub env_alloc-no_mem :
    (parent_id e : ℕ) (k : Kernel) (s : Phys)
    → k.env_free_list ≡ some e
    → env_setup_vm k.boot_pml4e k.phys ≡ some (none, s)
    → env_alloc parent_id k ≡ some (err e_no_mem, record k { phys = s })
unfolding commit_env
env_alloc-no_mem parent_id e k s free vm = env_alloc-eq-commit parent_id e k free ∙ rw vm

env_setup_vm-short :
    (boot p : ℕ) (s s₁ : Phys)
    → page_alloc alloc_zero s ≡ (some p, s₁)
    → page_alloc alloc_zero s₁ ≡ (none, s₁)
    → env_setup_vm boot s ≡ some (none, s₁)
unfolding env_setup_vm
env_setup_vm-short boot p s s₁ first second = rw first (rw second)

-- With exactly one free page left `env_alloc` fails for want of memory and does not give the page
-- back: the free list is then empty although the page has no reference.
pub env_alloc-leaks :
    (parent_id e p : ℕ) (k : Kernel)
    → k.env_free_list ≡ some e
    → IsValid k.phys (p ∷ [])
    → (k' : Kernel) × (env_alloc parent_id k ≡ some (err e_no_mem, k'))
      × IsValid k'.phys []
      × ((k'.phys.pages p).pp_ref ≡ 0)
unfolding commit_env take_page
env_alloc-leaks parent_id e p k free v =
    let s₁ = take_page alloc_zero p k.phys in
    let v₁ = take_page-IsValid alloc_zero k.phys p [] v in
    (
      record k { phys = s₁ },
      rw (env_alloc-eq-commit parent_id e k free) (
          rw (
            env_setup_vm-short k.boot_pml4e p k.phys s₁
              (page_alloc-eq-some alloc_zero k.phys p v.chain.0)
              (page_alloc-nil alloc_zero s₁ v₁))),
      v₁,
      ground (arith, v.unused.0),
    )
