-- ===== src/Kern/Examples.antt =====
-- Small machines on which the theorems on lab/kern are applied.
mod Envs
mod Ending
mod Locks
mod Memory
mod Calls
use cse.Base.{ℕ, ◌*◌, ◌+◌, Option, none, some, List, [], ◌∷◌, ◌==◌, ◌&&◌, if◌then◌else◌}
use cse.Kern.Pages.{Page, Phys}
use cse.Kern.Env.{Env, Kernel, env_runnable, zero_env}

abbrev unused_page : Page
unused_page = record { pp_link = none; pp_ref = 0 }

abbrev used_page : Page
used_page = record { pp_link = none; pp_ref = 1 }

-- Table 1 leads by table 2 and table 3 to page table 4, whose entry 0 is empty and whose entry 1
-- maps page 6; page 6 and page 7 have one reference each.
abbrev table_word : ℕ → ℕ → ℕ
table_word p w =
    if (p == 4) && (w == 1)
    then 6 * 4096 + 7
    else if w == 0
    then if p == 1
      then 2 * 4096 + 7
      else if p == 2
      then 3 * 4096 + 7
      else if p == 3
      then 4 * 4096 + 7
      else 0
    else 0

abbrev page_of : ℕ → Page
page_of p = if p == 6 then used_page else if p == 7 then used_page else unused_page

-- No page is free.
abbrev full_memory : Phys
full_memory = record { npages = 16; pages = page_of; page_free_list = none; frames = table_word }

-- The pages 10, 11 and 12 are free.
abbrev link_of : ℕ → Page
link_of p =
    if p == 10
    then record { pp_link = some 11; pp_ref = 0 }
    else if p == 11
    then record { pp_link = some 12; pp_ref = 0 }
    else page_of p

abbrev free_memory : Phys
free_memory = record { npages = 16; pages = link_of; page_free_list = some 10; frames = table_word }

abbrev free_pages : List ℕ
free_pages = 10 ∷ 11 ∷ 12 ∷ []

-- Environment 0 has id 4096, environment 1 has id 4097 and is its child; the others are free.
abbrev env_of : ℕ → Env
env_of e =
    if e == 0
    then record zero_env { env_id = 4096; env_status = env_runnable; env_pml4e = 1 }
    else if e == 1
    then record zero_env {
      env_id = 4097;
      env_parent_id = 4096;
      env_status = env_runnable;
      env_pml4e = 1;
    }
    else zero_env

abbrev machine : Kernel
machine = record {
  phys = free_memory;
  envs = env_of;
  env_free_list = some 2;
  curenv = some 0;
  cpunum = 0;
  boot_pml4e = 1;
}
