-- ===== src/Kern/Syscall/Ipc.antt =====
-- Messages between environments: `sys_ipc_recv` and `sys_ipc_try_send` of lab/kern/syscall.c.
use cse.Base.{
  ℕ, ◌%◌, ◌≤◌, ◌<◌, ◌≡◌, ◌≢◌, refl, sym, ap, ◌∙◌, true, false, not, ◌&&◌, none, some, arith, ◌==◌,
  ltb, inl, ◌⊎◌, lt→ltb,
}
use cse.Base.Cells.{update_self, update_ne}
use cse.Kern.Pages.{Phys, pgsize}
use cse.Kern.Env.{
  env_runnable, env_not_runnable, Env, Kernel, e_inval, e_ipc_not_recv, ok, err, env_at, lookup_of,
  envid2env,
}
use cse.Kern.Env.{utop}
use cse.Kern.Env.Ids.{envid2env_iff}
use cse.Kern.PageTable.{page_lookup}
use cse.Kern.Syscall.{post, deliver, send_to, sys_ipc_try_send, await, sys_ipc_recv}

caller : (c : ℕ) (k : Kernel) → k.curenv ≡ some c → envid2env 0 false k ≡ env_at c
unfolding envid2env
caller c k cur = ap lookup_of cur

try_send-eq-send_to :
    (envid value srcva perm dst src : ℕ) (k : Kernel)
    → k.curenv ≡ some src
    → envid2env envid false k ≡ env_at dst
    → sys_ipc_try_send envid value srcva perm k ≡ send_to dst src value srcva perm k
unfolding sys_ipc_try_send
try_send-eq-send_to envid value srcva perm dst src k cur found = rw found (rw (caller src k cur))

-- What a receiver holds after a message with no page.
pub record Received (v : Env) (sender value : ℕ) : Type 0 where
  pub from : v.env_ipc_from ≡ sender
  pub value_is : v.env_ipc_value ≡ value
  pub no_page : v.env_ipc_perm ≡ 0
  pub closed : v.env_ipc_recving ≡ false
  pub wakes : v.env_status ≡ env_runnable

-- A send with no page to an environment that is receiving succeeds: the receiver holds the value
-- and the sender's id, is runnable, and receives no longer; no other environment changes.
pub try_send-delivers :
    (envid value srcva perm dst src : ℕ) (k : Kernel)
    → k.curenv ≡ some src
    → envid2env envid false k ≡ env_at dst
    → (k.envs dst).env_ipc_recving ≡ true
    → utop ≤ srcva
    → (k' : Kernel) × (sys_ipc_try_send envid value srcva perm k ≡ some (ok tt, k'))
      × Received (k'.envs dst) (k.envs src).env_id value
      × ((j : ℕ) → j ≢ dst → k'.envs j ≡ k.envs j)
unfolding send_to post deliver
try_send-delivers envid value srcva perm dst src k cur found ready no_page = (
  deliver dst 0 (post dst src value k),
  try_send-eq-send_to envid value srcva perm dst src k cur found ∙ rw ready (rw above),
  record {
    from = ap (λ v. v.env_ipc_from) made;
    value_is = ap (λ v. v.env_ipc_value) made;
    no_page = ap (λ v. v.env_ipc_perm) made;
    closed = ap (λ v. v.env_ipc_recving) made;
    wakes = ap (λ v. v.env_status) made;
  },
  λ j ne.
      update_ne k₁.envs dst j (delivered (k₁.envs dst)) ne
      ∙ update_ne k.envs dst j (posted (k.envs dst)) ne,
)
  where
    k₁ : Kernel
    k₁ = post dst src value k

    posted : Env → Env
    posted v = record v {
      env_ipc_recving = false;
      env_ipc_from = (k.envs src).env_id;
      env_ipc_value = value;
    }

    delivered : Env → Env
    delivered v = record v { env_ipc_perm = 0; env_status = env_runnable }

    made : (deliver dst 0 k₁).envs dst ≡ delivered (posted (k.envs dst))
    made =
        update_self k₁.envs dst (delivered (k₁.envs dst))
        ∙ ap delivered (update_self k.envs dst (posted (k.envs dst)))

    above : ltb srcva utop ≡ false
    above = ground arith

-- A send to an environment that is not receiving fails and changes nothing.
pub try_send-not_recv :
    (envid value srcva perm dst src : ℕ) (k : Kernel)
    → k.curenv ≡ some src
    → envid2env envid false k ≡ env_at dst
    → (k.envs dst).env_ipc_recving ≡ false
    → sys_ipc_try_send envid value srcva perm k ≡ some (err e_ipc_not_recv, k)
unfolding send_to
try_send-not_recv envid value srcva perm dst src k cur found closed =
    try_send-eq-send_to envid value srcva perm dst src k cur found ∙ rw closed

-- A receive followed, on any CPU and with any current environment, by a send to the receiver of a
-- value with no page (an address from UTOP on): the receiver was blocked until then, and gets the
-- value and the id of the sender.
pub recv-try_send :
    (dstva value srcva perm envid dst src : ℕ) (k : Kernel)
    → k.curenv ≡ some dst
    → envid ≢ 0
    → envid2env envid false k ≡ env_at dst
    → (dstva % pgsize ≡ 0) ⊎ (utop ≤ dstva)
    → utop ≤ srcva
    → (k₁ k₂ : Kernel) × (sys_ipc_recv dstva k ≡ some (ok tt, k₁))
      × ((k₁.envs dst).env_status ≡ env_not_runnable)
      × (sys_ipc_try_send envid value srcva perm (record k₁ { curenv = some src })
          ≡ some (ok tt, k₂))
      × Received (k₂.envs dst) ((record k₁ { curenv = some src }).envs src).env_id value
unfolding sys_ipc_recv await
recv-try_send dstva value srcva perm envid dst src k cur ne found aligned no_page =
    let (k₂, sent, got, _) =
      try_send-delivers envid value srcva perm dst src k₁' refl still ready no_page in
    (k₁, k₂, rw (caller dst k cur) (rw accepted), ap (λ v. v.env_status) made, sent, got)
  where
    waiting : Env → Env
    waiting v = record v {
      env_ipc_recving = true;
      env_ipc_dstva = dstva;
      env_ipc_value = 0;
      env_ipc_perm = 0;
      env_ipc_from = 0;
      env_status = env_not_runnable;
    }

    k₁ : Kernel
    k₁ = await dst dstva k

    k₁' : Kernel
    k₁' = record k₁ { curenv = some src }

    made : k₁.envs dst ≡ waiting (k.envs dst)
    made = update_self k.envs dst (waiting (k.envs dst))

    accepted : (ltb dstva utop && not (dstva % pgsize == 0)) ≡ false
    accepted = ground arith

    ready : (k₁'.envs dst).env_ipc_recving ≡ true
    ready = ap (λ v. v.env_ipc_recving) made

    still : envid2env envid false k₁' ≡ env_at dst
    still =
        let (slot, _, named, _) = (envid2env_iff envid dst dst false k ne cur).0 found in
        (envid2env_iff envid dst src false k₁' ne refl).1 (
          slot,
          (λ e. cc (ap (λ v. v.env_status) made, e)),
          ap (λ v. v.env_id) made ∙ named,
          inl refl,
        )

-- A send to another environment from an address where the sender has no page table fails with
-- -E_INVAL, but the receiver has stopped receiving: its status is as it was, so that a blocked
-- receiver is still blocked, and in the state left every send of the same sender to it is refused.
pub try_send-wedges :
    (envid value srcva perm dst src : ℕ) (k : Kernel) (s : Phys)
    → k.curenv ≡ some src
    → envid ≢ 0
    → envid2env envid false k ≡ env_at dst
    → (k.envs dst).env_ipc_recving ≡ true
    → srcva < utop
    → dst ≢ src
    → page_lookup (k.envs src).env_pml4e srcva k.phys ≡ some (none, s)
    → (k' : Kernel) × (sys_ipc_try_send envid value srcva perm k ≡ some (err e_inval, k'))
      × ((k'.envs dst).env_status ≡ (k.envs dst).env_status)
      × ((value' srcva' perm' : ℕ)
          → sys_ipc_try_send envid value' srcva' perm' k' ≡ some (err e_ipc_not_recv, k'))
unfolding send_to post
try_send-wedges envid value srcva perm dst src k s cur ne found ready below other missing = (
  k',
  try_send-eq-send_to envid value srcva perm dst src k cur found
      ∙ rw ready (rw (lt→ltb srcva utop below) (rw unmapped)),
  ap (λ v. v.env_status) made,
  λ value' srcva' perm'.
      try_send-not_recv envid value' srcva' perm' dst src k' cur still
        (ap (λ v. v.env_ipc_recving) made),
)
  where
    posted : Env → Env
    posted v = record v {
      env_ipc_recving = false;
      env_ipc_from = (k.envs src).env_id;
      env_ipc_value = value;
    }

    k' : Kernel
    k' = record (post dst src value k) { phys = s }

    made : k'.envs dst ≡ posted (k.envs dst)
    made = update_self k.envs dst (posted (k.envs dst))

    unmapped : page_lookup ((post dst src value k).envs src).env_pml4e srcva k.phys ≡ some (none, s)
    unmapped =
        ap (λ v. page_lookup v.env_pml4e srcva k.phys)
          (update_ne k.envs dst src (posted (k.envs dst)) (λ e. other (sym e)))
        ∙ missing

    still : envid2env envid false k' ≡ env_at dst
    still =
        let (slot, in_use, named, _) = (envid2env_iff envid dst src false k ne cur).0 found in
        (envid2env_iff envid dst src false k' ne cur).1 (
          slot,
          (λ e. in_use (sym (ap (λ v. v.env_status) made) ∙ e)),
          ap (λ v. v.env_id) made ∙ named,
          inl refl,
        )
