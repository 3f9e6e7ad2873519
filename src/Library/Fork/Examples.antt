-- ===== src/Library/Fork/Examples.antt =====
-- The theorems on lab/lib/fork.c at a space of two pages.
use cse.Base.{ℕ, ◌*◌, ◌+◌, ◌/◌, ◌≡◌, ◌≢◌, refl, Bool, false, none, some, arith, ◌==◌, if◌then◌else◌}
use cse.Library.Fork.{Spaces, pgsize, fork_spaces, pgfault}
use cse.Library.Fork.CopyOnWrite.{Guarded, own_entry, child_entry}
use cse.Library.Fork.Sweep.{fork-isolates, fork-gives_all}
use cse.Library.Fork.Fault.{Own, pgfault-Own}

-- Page 2304 is writable, page 2305 copy-on-write.
abbrev space : Spaces
space = record {
  vpt = λ pn. if pn == 2304 then 5 * 4096 + 7 else if pn == 2305 then 6 * 4096 + 0x805 else 0;
  child = λ pn. 0;
  frames = λ f w. f;
}

abbrev never : ℕ → (ℕ → ℕ) → Bool
never pn t = false

fork-gives_all_example :
    ((fork_spaces never none space).vpt 2304 ≡ own_entry (5 * 4096 + 7))
    × ((fork_spaces never none space).child 2304 ≡ child_entry (5 * 4096 + 7))
fork-gives_all_example =
    fork-gives_all never none space 2304 (λ j. refl) (λ j t. refl) (omega arith) (omega arith) refl

child_has_it : (fork_spaces never none space).child 2304 ≢ 0
child_has_it e = omega (arith, e, there)
  where
    there : (fork_spaces never none space).child 2304 ≡ 5 * 4096 + 0x805
    there =
        (fork-gives_all never none space 2304 (λ j. refl) (λ j t. refl) (omega arith) (omega arith)
          refl).1

fork-isolates_example :
    let s' = fork_spaces never none space in
    Guarded (s'.vpt 2304)
    × Guarded (s'.child 2304)
    × (s'.vpt 2304 / pgsize ≡ space.vpt 2304 / pgsize)
    × (s'.child 2304 / pgsize ≡ space.vpt 2304 / pgsize)
fork-isolates_example =
    fork-isolates never none space 2304 (λ j. refl) (omega arith) (omega arith) child_has_it

pgfault-Own_example :
    (s' : Spaces) × (pgfault 2 (2305 * 4096 + 8) (some 9) space ≡ some s') × Own space 2305 9 s'
pgfault-Own_example =
    pgfault-Own 2 (2305 * 4096 + 8) 9 space refl refl (omega arith) (λ e. omega (arith, e))
      (λ e. omega (arith, e))
