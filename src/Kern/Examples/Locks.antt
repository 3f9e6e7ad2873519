-- ===== src/Kern/Examples/Locks.antt =====
-- The theorems on lab/kern/spinlock.c at schedules of two CPUs.
use cse.Base.{zero, ◌≡◌, refl, some, [], ◌∷◌}
use cse.Kern.Spinlock.{critical, step_at, initial, run}
use cse.Kern.Spinlock.Exclusion.{run-excludes}

-- CPU 0 gets the lock while CPU 1 goes round in `spin_lock`.
in_section : (run (0 ∷ 1 ∷ 0 ∷ 1 ∷ 0 ∷ 1 ∷ 0 ∷ 1 ∷ []) initial).place 0 ≡ critical
unfolding run step_at
in_section = refl

run-excludes_example :
    let s = run (0 ∷ 1 ∷ 0 ∷ 1 ∷ 0 ∷ 1 ∷ 0 ∷ 1 ∷ []) initial in
    (zero ≡ zero) × (s.locked ≡ 1) × (s.cpu ≡ some 0)
run-excludes_example = run-excludes (0 ∷ 1 ∷ 0 ∷ 1 ∷ 0 ∷ 1 ∷ 0 ∷ 1 ∷ []) 0 0 in_section in_section
