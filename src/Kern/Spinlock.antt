-- ===== src/Kern/Spinlock.antt =====
-- The kernel lock of lab/kern/spinlock.c, with DEBUG_SPINLOCK, as CPUs take and release it: a step
-- of a CPU is one access to the lock, and a schedule says whose step comes next. The program
-- counters that the lock records for debugging are left out.
pub mod Exclusion
use cse.Base.{ℕ, Bool, true, false, Option, none, some, List, [], ◌∷◌, ◌==◌, if◌then◌else◌}
use cse.Base.Cells.{update}

-- Where a CPU stands: outside the lock, in `spin_lock` before each of its accesses, in the critical
-- section, or in `spin_unlock` before each of its accesses; `panicked` is a panic of either.
pub data Place : Type 0 where
  outside lock_reads_locked lock_reads_cpu lock_xchg lock_writes_cpu critical : Place
  unlock_reads_locked unlock_reads_cpu unlock_clears_cpu unlock_xchg panicked : Place

pub record System : Type 0 where
  pub locked : ℕ
  pub cpu : Option ℕ
  pub place : ℕ → Place

abbrev pub go : ℕ → Place → System → System
go i p s = record s { place = update s.place i p }

abbrev pub is_cpu : ℕ → Option ℕ → Bool
is_cpu i none = false
is_cpu i (some j) = j == i

-- The access of CPU `i` to the lock at a place in `spin_lock` or `spin_unlock`.
unfoldable pub lock_step : Place → ℕ → System → System
lock_step lock_reads_locked i s = go i (if s.locked == 0 then lock_xchg else lock_reads_cpu) s
lock_step lock_reads_cpu i s = go i (if is_cpu i s.cpu then panicked else lock_xchg) s
lock_step lock_xchg i s =
    go i (if s.locked == 0 then lock_writes_cpu else lock_xchg) (record s { locked = 1 })
lock_step lock_writes_cpu i s = go i critical (record s { cpu = some i })
lock_step unlock_reads_locked i s = go i (if s.locked == 0 then panicked else unlock_reads_cpu) s
lock_step unlock_reads_cpu i s = go i (if is_cpu i s.cpu then unlock_clears_cpu else panicked) s
lock_step unlock_clears_cpu i s = go i unlock_xchg (record s { cpu = none })
lock_step unlock_xchg i s = go i outside (record s { locked = 0 })
lock_step p i s = s

-- The step of a CPU that calls `spin_lock` from outside and `spin_unlock` from its critical
-- section.
unfoldable pub step_at : Place → ℕ → System → System
unfolding lock_step
step_at outside i s = go i lock_reads_locked s
step_at critical i s = go i unlock_reads_locked s
step_at p i s = lock_step p i s

abbrev pub step : ℕ → System → System
step i s = step_at (s.place i) i s

-- `__spin_initlock`, with every CPU outside.
abbrev pub initial : System
initial = record { locked = 0; cpu = none; place = λ i. outside }

unfoldable pub run : List ℕ → System → System
run [] s = s
run (i ∷ schedule) s = run schedule (step i s)
