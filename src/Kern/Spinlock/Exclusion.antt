-- ===== src/Kern/Spinlock/Exclusion.antt =====
-- Mutual exclusion of the kernel lock of lab/kern/spinlock.c, under every schedule.
use mathlib.Core.Path.{subst}
use cse.Base.{
  ℕ, ◌≡◌, refl, sym, ap, ◌∙◌, Bool, true, false, Option, none, some, List, [], ◌∷◌, arith, ◌==◌,
  if◌then◌else◌, Bool-cases, inl, inr, ==_refl,
}
use cse.Kern.Spinlock.{
  Place, outside, lock_reads_locked, lock_reads_cpu, lock_xchg, lock_writes_cpu, critical,
  unlock_reads_locked, unlock_reads_cpu, unlock_clears_cpu, unlock_xchg, panicked, System, go,
  is_cpu, lock_step, step_at, step, initial, run,
}

-- Between the `xchg` that takes the lock and the one that gives it back.
abbrev holds : Place → Bool
holds lock_writes_cpu = true
holds critical = true
holds unlock_reads_locked = true
holds unlock_reads_cpu = true
holds unlock_clears_cpu = true
holds unlock_xchg = true
holds _ = false

-- Where the lock names the CPU that has it.
abbrev is_named : Place → Bool
is_named critical = true
is_named unlock_reads_locked = true
is_named unlock_reads_cpu = true
is_named unlock_clears_cpu = true
is_named _ = false

abbrev is_panicked : Place → Bool
is_panicked panicked = true
is_panicked _ = false

abbrev lock_word : Option ℕ → ℕ
lock_word none = 0
lock_word (some h) = 1

abbrev name_of : Option ℕ → (ℕ → Place) → Option ℕ
name_of none place = none
name_of (some h) place = if is_named (place h) then some h else none

-- `owner` is the CPU that has the lock, if any.
record IsOwned (owner : Option ℕ) (s : System) : Type 0 where
  word : s.locked ≡ lock_word owner
  named : s.cpu ≡ name_of owner s.place
  held : (i : ℕ) → holds (s.place i) ≡ is_cpu i owner
  fine : (i : ℕ) → is_panicked (s.place i) ≡ false

-- A CPU that does not have the lock moves on to another such place.
keep_out :
    (i : ℕ) (q : Place) (owner : Option ℕ) (s : System)
    → holds (s.place i) ≡ false
    → holds q ≡ false
    → is_panicked q ≡ false
    → IsOwned owner s
    → IsOwned owner (go i q s)
keep_out i q none s out out' calm v = record {
  word = v.word;
  named = v.named;
  held = λ j. ground (arith, v.held j);
  fine = λ j. ground (arith, v.fine j);
}
keep_out i q (some h) s out out' calm v = record {
  word = v.word;
  named = ground (arith, v.held i, v.named);
  held = λ j. ground (arith, v.held j, v.held i);
  fine = λ j. ground (arith, v.fine j);
}

-- The CPU that has the lock moves on with it.
keep_in :
    (i : ℕ) (q : Place) (s : System)
    → holds q ≡ true
    → is_panicked q ≡ false
    → is_named q ≡ is_named (s.place i)
    → IsOwned (some i) s
    → IsOwned (some i) (go i q s)
keep_in i q s inn calm same v = record {
  word = v.word;
  named = ground (arith, v.named);
  held = λ j. ground (arith, v.held j);
  fine = λ j. ground (arith, v.fine j);
}

acquire :
    (i : ℕ) (s : System)
    → IsOwned none s
    → IsOwned (some i) (go i lock_writes_cpu (record s { locked = 1 }))
acquire i s v = record {
  word = refl;
  named = ground (arith, v.named);
  held = λ j. ground (arith, v.held j);
  fine = λ j. ground (arith, v.fine j);
}

release :
    (i : ℕ) (s : System)
    → s.cpu ≡ none
    → IsOwned (some i) s
    → IsOwned none (go i outside (record s { locked = 0 }))
release i s unnamed v = record {
  word = refl;
  named = unnamed;
  held = λ j. ground (arith, v.held j);
  fine = λ j. ground (arith, v.fine j);
}

-- A write of `lk->cpu` by the CPU that has the lock.
write_cpu :
    (i : ℕ) (q : Place) (s : System)
    → holds q ≡ true
    → is_panicked q ≡ false
    → IsOwned (some i) s
    → IsOwned (some i) (go i q (record s { cpu = if is_named q then some i else none }))
write_cpu i q s inn calm v = record {
  word = v.word;
  named = ground arith;
  held = λ j. ground (arith, v.held j);
  fine = λ j. ground (arith, v.fine j);
}

module _ (i : ℕ) (owner : Option ℕ) (s : System) (v : IsOwned owner s) where
  is_owner : holds (s.place i) ≡ true → IsOwned (some i) s
  is_owner inn = subst (λ o. IsOwned o s) (only owner (sym (v.held i) ∙ inn)) v
    where
      only : (o : Option ℕ) → is_cpu i o ≡ true → o ≡ some i
      only none e = cc
      only (some h) e = ground arith

  not_named : holds (s.place i) ≡ false → is_cpu i s.cpu ≡ false
  not_named out = ap (is_cpu i) v.named ∙ other owner (sym (v.held i) ∙ out)
    where
      other : (o : Option ℕ) → is_cpu i o ≡ false → is_cpu i (name_of o s.place) ≡ false
      other none e = refl
      other (some h) e = ground arith

module _ (h : ℕ) (s : System) (v : IsOwned (some h) s) where
  locked_when_owned : (s.locked == 0) ≡ false
  locked_when_owned = ground (arith, v.word)

  IsOwned-locked : IsOwned (some h) (record s { locked = 1 })
  IsOwned-locked = record { word = refl; named = v.named; held = v.held; fine = v.fine }

  cpu_at : (p : Place) → s.place h ≡ p → s.cpu ≡ (if is_named p then some h else none)
  cpu_at p at = v.named ∙ ap (λ q. if is_named q then some h else none) at

step_at-IsOwned :
    (p : Place) (i : ℕ) (owner : Option ℕ) (s : System)
    → s.place i ≡ p
    → IsOwned owner s
    → (owner' : Option ℕ) × IsOwned owner' (step_at p i s)
unfolding step_at lock_step
step_at-IsOwned outside i owner s at v =
    (owner, keep_out i lock_reads_locked owner s (ap holds at) refl refl v)
step_at-IsOwned lock_reads_locked i owner s at v = (
  owner,
  elim (Bool-cases (s.locked == 0)) [
    | inl e ↦ rw e (keep_out i lock_xchg owner s (ap holds at) refl refl v)
    | inr e ↦ rw e (keep_out i lock_reads_cpu owner s (ap holds at) refl refl v)
  ],
)
step_at-IsOwned lock_reads_cpu i owner s at v = (
  owner,
  rw (not_named i owner s v (ap holds at)) (keep_out i lock_xchg owner s (ap holds at) refl refl v),
)
step_at-IsOwned lock_xchg i none s at v = (some i, rw v.word (acquire i s v))
step_at-IsOwned lock_xchg i (some h) s at v = (
  some h,
  rw (locked_when_owned h s v) (
      keep_out i lock_xchg (some h) (record s { locked = 1 }) (ap holds at) refl refl
        (IsOwned-locked h s v)),
)
step_at-IsOwned lock_writes_cpu i owner s at v =
    (some i, write_cpu i critical s refl refl (is_owner i owner s v (ap holds at)))
step_at-IsOwned critical i owner s at v = (
  some i,
  keep_in i unlock_reads_locked s refl refl (sym (ap is_named at))
      (is_owner i owner s v (ap holds at)),
)
step_at-IsOwned unlock_reads_locked i owner s at v =
    let v' = is_owner i owner s v (ap holds at) in
    (
      some i,
      rw (locked_when_owned i s v')
          (keep_in i unlock_reads_cpu s refl refl (sym (ap is_named at)) v'),
    )
step_at-IsOwned unlock_reads_cpu i owner s at v =
    let v' = is_owner i owner s v (ap holds at) in
    (
      some i,
      rw (ap (is_cpu i) (cpu_at i s v' unlock_reads_cpu at) ∙ ==_refl i)
          (keep_in i unlock_clears_cpu s refl refl (sym (ap is_named at)) v'),
    )
step_at-IsOwned unlock_clears_cpu i owner s at v =
    (some i, write_cpu i unlock_xchg s refl refl (is_owner i owner s v (ap holds at)))
step_at-IsOwned unlock_xchg i owner s at v =
    let v' = is_owner i owner s v (ap holds at) in
    (none, release i s (cpu_at i s v' unlock_xchg at) v')
step_at-IsOwned panicked i owner s at v = absurd (calm (sym (ap is_panicked at) ∙ v.fine i))
  where
    calm : true ≡ false → ⊥
    calm e = cc

run-IsOwned :
    (schedule : List ℕ) (owner : Option ℕ) (s : System)
    → IsOwned owner s
    → (owner' : Option ℕ) × IsOwned owner' (run schedule s)
unfolding run
run-IsOwned [] owner s v = (owner, v)
run-IsOwned (i ∷ schedule) owner s v =
    let (owner', v') = step_at-IsOwned (s.place i) i owner s refl v in
    run-IsOwned schedule owner' (step i s) v'

initial-IsOwned : IsOwned none initial
initial-IsOwned = record { word = refl; named = refl; held = λ i. refl; fine = λ i. refl }

-- Under every schedule, started with the lock free and every CPU outside, two CPUs in their
-- critical sections are the same, and the lock is then taken and names that CPU.
pub run-excludes :
    (schedule : List ℕ) (i j : ℕ)
    → (run schedule initial).place i ≡ critical
    → (run schedule initial).place j ≡ critical
    → (i ≡ j) × ((run schedule initial).locked ≡ 1) × ((run schedule initial).cpu ≡ some i)
run-excludes schedule i j at at' =
    let s = run schedule initial in
    let (owner, v) = run-IsOwned schedule none initial initial-IsOwned in
    let v' = is_owner i owner s v (ap holds at) in
    let named = cpu_at i s v' critical at in
    let named' = cpu_at j s (is_owner j owner s v (ap holds at')) critical at' in
    (same (sym named ∙ named'), v'.word, named)
  where
    same : some i ≡ some j → i ≡ j
    same e = cc
