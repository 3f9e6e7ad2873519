-- ===== src/Kern/Env/Init.antt =====
-- The environment table as `env_init` of lab/kern/env.c leaves it.
use native.Mathlib.Decide.{ℕ_discrete}
use cse.Base.{
  ℕ, zero, suc, ◌+◌, ◌-◌, ◌<◌, ◌≡◌, refl, ap, ◌∙◌, true, ◌&&◌, none, some, arith, ◌==◌, ltb, leb,
  if◌then◌else◌,
}
use cse.Base.Cells.{update}
use cse.Kern.Env.{nenv, env_free, Env, Kernel, zero_env, env_init_from, env_init}

-- What slot `i` holds after the loop.
abbrev slot : ℕ → Env → Env
slot i v = record v {
  env_link = if i == nenv - 1 then none else some (i + 1);
  env_id = 0;
  env_status = env_free;
}

env_init_from_lem :
    (rounds i : ℕ) (envs : ℕ → Env) (j : ℕ)
    → env_init_from rounds i envs j
      ≡ (if leb i j && ltb j (i + rounds) then slot j (envs j) else envs j)
unfolding env_init_from
env_init_from_lem zero i envs j = ground arith
env_init_from_lem (suc rounds) i envs j =
    rw (env_init_from_lem rounds (i + 1) (update envs i (slot i (envs i))) j)
      (elim (ℕ_discrete j i) [ yes e ↦ rw e (ground arith) | no ne ↦ ground arith ])

-- After `env_init` every slot is free, has id 0 and is linked to the next one, the last to none;
-- the free list starts at slot 0.
pub env_init_lem :
    (k : Kernel) (j : ℕ)
    → j < nenv
    → let v = (env_init k).envs j in
      ((env_init k).env_free_list ≡ some 0)
      × (v.env_status ≡ env_free)
      × (v.env_id ≡ 0)
      × (v.env_link ≡ (if j == nenv - 1 then none else some (j + 1)))
unfolding env_init
env_init_lem k j h =
    (refl, ap (λ v. v.env_status) at_slot, ap (λ v. v.env_id) at_slot, ap (λ v. v.env_link) at_slot)
  where
    cleared : ℕ → Env
    cleared i = if ltb i nenv then zero_env else k.envs i

    in_array : (leb 0 j && ltb j (0 + nenv)) ≡ true
    in_array = ground arith

    at_slot : env_init_from nenv 0 cleared j ≡ slot j (cleared j)
    at_slot = env_init_from_lem nenv 0 cleared j ∙ rw in_array
