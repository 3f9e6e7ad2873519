-- ===== src/Kern/Examples/Ending.antt =====
-- The end of an environment, lab/kern/env.c, whose tables are the pages 1 to 4, each with one
-- reference; entry 511 of its only page table, page 4, maps page 6.
use cse.Base.{
  ℕ, ◌+◌, ◌*◌, ◌≡◌, ◌≢◌, refl, none, some, Option, arith, ltb, ◌==◌, ◌&&◌, false, if◌then◌else◌,
}
use cse.Kern.Pages.{Page, Phys, page_decref, page_free, is_on_list, push_free}
use cse.Kern.PageTable.{kaddr, pa2page}
use cse.Kern.Env.{Kernel, bad_env, envid2env}
use cse.Kern.Env.Free.{
  yields, free_memory, free_dirs, free_dir, free_tables, free_table, unmap_entries, env_destroy,
}
use cse.Kern.Sched.{run_env, sched_choose}
use cse.Kern.Sched.Destroy.{env_destroy-current}
use cse.Kern.Examples.{used_page, unused_page, machine}

-- With an empty table of directories.
abbrev empty_tables : ℕ → ℕ → ℕ
empty_tables p w = if (p == 1) && (w == 0) then 2 * 4096 + 7 else 0

abbrev all_used : ℕ → Page
all_used p = if ltb p 7 then used_page else unused_page

abbrev empty_space : Phys
empty_space = record { npages = 16; pages = all_used; page_free_list = none; frames = empty_tables }

abbrev ending : Kernel
ending = record machine {
  phys = empty_space;
  envs = λ e. record (machine.envs e) { env_cr3 = 4096 };
}

abbrev phys_of : Option (Unit {0} × Phys) → Phys
phys_of none = empty_space
phys_of (some (u, s)) = s

unfoldable emptied : Phys
emptied = phys_of (free_memory 1 4096 empty_space)

emptied_run : free_memory 1 4096 empty_space ≡ some (tt, emptied)
unfolding emptied free_memory free_dirs kaddr pa2page page_decref page_free is_on_list push_free
emptied_run = refl

env_destroy-current_example :
    (k' : Kernel) × (env_destroy 0 ending ≡ some (yields, k'))
    × (k'.curenv ≡ none)
    × (k'.env_free_list ≡ some 0)
    × ((k'.envs 0).env_link ≡ some 2)
    × (envid2env 4096 false k' ≡ bad_env)
    × ((j : ℕ) → j ≢ 0 → k'.envs j ≡ ending.envs j)
    × (sched_choose k' ≢ run_env 0)
env_destroy-current_example =
    env_destroy-current 0 ending emptied refl emptied_run refl (λ e. omega (arith, e))

abbrev last_mapped : ℕ → ℕ → ℕ
last_mapped p w =
    if (p == 1) && (w == 0)
    then 2 * 4096 + 7
    else if (p == 2) && (w == 0)
    then 3 * 4096 + 7
    else if (p == 3) && (w == 0)
    then 4 * 4096 + 7
    else if (p == 4) && (w == 511)
    then 6 * 4096 + 7
    else 0

abbrev last_space : Phys
last_space = record { npages = 16; pages = all_used; page_free_list = none; frames = last_mapped }

refs_after : ℕ → ℕ
refs_after p = ((phys_of (free_memory 1 4096 last_space)).pages p).pp_ref

-- The page table is freed, and the page that its last entry maps keeps its reference.
last_page_kept : (refs_after 4 ≡ 0) × (refs_after 6 ≡ 1)
unfolding refs_after free_memory free_dirs free_dir free_tables free_table unmap_entries kaddr
    pa2page page_decref page_free is_on_list push_free
last_page_kept = (refl, refl)
