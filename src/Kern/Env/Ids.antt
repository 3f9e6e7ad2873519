-- ===== src/Kern/Env/Ids.antt =====
-- Environment ids of lab/kern/env.c: which ids `envid2env` accepts, and what ids `env_alloc` gives.
use cse.Base.{
  ℕ, ◌+◌, ◌-◌, ◌*◌, ◌/◌, ◌%◌, ◌^◌, ◌≤◌, ◌<◌, ◌≡◌, ◌≢◌, ◌↔◌, ap, ◌∙◌, Bool, true, false, ◌||◌, some,
  arith, ◌==◌, leb, Bool-cases, inl, inr, ◌⊎◌,
}
use Prim.Native.Nat.{bit_or}
use cse.Base.Bits.{bit_or-eq-add}
use cse.Kern.Env.{nenv, envx, generation_step, env_free, Kernel, env_at, envid2env, next_env_id}

-- An id that `env_alloc` makes for slot `e` is positive as an int32_t, leads back to the slot, and
-- differs from the slot's previous id.
pub next_env_id_lem :
    (old e : ℕ)
    → old < 2 ^ 32
    → e < nenv
    → let id = next_env_id old e in (0 < id) × (id < 2 ^ 31) × (envx id ≡ e) × (id ≢ old)
unfolding next_env_id
next_env_id_lem old e small h = elim (Bool-cases ((gen == 0) || leb (2 ^ 31) gen)) [
  | inl b ↦ rw b (omega (arith, bit_or-eq-add 10 4 e h, or_cases gen b))
  | inr b ↦ rw b (omega (arith, split, or_false gen b))
]
  where
    gen : ℕ
    gen = (old + generation_step) % 2 ^ 32 - (old + generation_step) % 2 ^ 32 % nenv

    or_cases : (n : ℕ) → ((n == 0) || leb (2 ^ 31) n) ≡ true → (n ≡ 0) ⊎ (2 ^ 31 ≤ n)
    or_cases n b = ground arith

    or_false : (n : ℕ) → ((n == 0) || leb (2 ^ 31) n) ≡ false → (0 < n) × (n < 2 ^ 31)
    or_false n b = ground arith

    shape : gen ≡ gen / nenv * 2 ^ 10
    shape = omega arith

    split : bit_or gen e ≡ gen + e
    split = rw (ap (λ n. bit_or n e) shape ∙ bit_or-eq-add 10 (gen / nenv) e h) (omega arith)

-- With a current environment `c`, a nonzero id is accepted exactly when its slot is in use under
-- that very id and, if permission is asked for, is the current environment or a child of it; the
-- slot accepted is then the one the id names.
pub envid2env_iff :
    (envid e c : ℕ) (checkperm : Bool) (k : Kernel)
    → envid ≢ 0
    → k.curenv ≡ some c
    → (envid2env envid checkperm k ≡ env_at e) ↔ (
        (e ≡ envx envid)
        × ((k.envs e).env_status ≢ env_free)
        × ((k.envs e).env_id ≡ envid)
        × ((checkperm ≡ false) ⊎ (c ≡ e) ⊎ ((k.envs e).env_parent_id ≡ (k.envs c).env_id)))
unfolding envid2env
envid2env_iff envid e c checkperm k ne cur = (λ h. ground arith, λ h. ground arith)
