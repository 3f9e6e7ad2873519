-- ===== src/Library/Args/Value.antt =====
-- `argvalue` and `argnextvalue` of lab/lib/args.c: the value of an option.
use cse.Base.{ℕ, zero, suc, ◌<◌, false, Option, none, some, List, [], ◌∷◌, length, ◌≡◌, refl, arith}
use cse.Library.Args.{
  Argstate, argstart, is_end_mark, argnext, next_argument, argnextvalue, argvalue,
}
use cse.Library.Args.Flags.{ended}

argvalue_idem_at :
    (argv : List (List ℕ)) (curarg v : Option (List ℕ))
    → let (v', args) = argvalue (record { argv = argv; curarg = curarg; argvalue = v }) in
      argvalue args ≡ (v', args)
unfolding argvalue argnextvalue
argvalue_idem_at argv curarg (some v) = refl
argvalue_idem_at argv none none = refl
argvalue_idem_at argv (some (c ∷ cs)) none = refl
argvalue_idem_at [] (some []) none = refl
argvalue_idem_at (prog ∷ []) (some []) none = refl
argvalue_idem_at (prog ∷ arg ∷ rest) (some []) none = refl

-- Calling `argvalue` again gives the same value, or again none, and changes nothing.
pub argvalue_idem :
    (args : Argstate) → let (v, args') = argvalue args in argvalue args' ≡ (v, args')
argvalue_idem args = argvalue_idem_at args.argv args.curarg args.argvalue

-- Calls of `argnextvalue` until it gives a null pointer: the values, and the last state. `none` is
-- more than `fuel` calls.
abbrev pub with_value :
    List ℕ → Option (List (List ℕ) × Argstate) → Option (List (List ℕ) × Argstate)
with_value v none = none
with_value v (some (vs, args)) = some (v ∷ vs, args)

abbrev pub values_rest :
    (Argstate → Option (List (List ℕ) × Argstate))
    → Option (List ℕ) × Argstate
    → Option (List (List ℕ) × Argstate)
values_rest go_on (none, args) = some ([], args)
values_rest go_on (some v, args) = with_value v (go_on args)

unfoldable pub all_values : ℕ → Argstate → Option (List (List ℕ) × Argstate)
unfolding argnextvalue
all_values zero args = none
all_values (suc fuel) args = values_rest (all_values fuel) (argnextvalue args)

all_values-between :
    (fuel : ℕ) (prog : List ℕ) (args : List (List ℕ)) (v : Option (List ℕ))
    → length args < fuel
    → all_values fuel (record { argv = prog ∷ args; curarg = some []; argvalue = v })
      ≡ some (args, ended prog [])
unfolding all_values argnextvalue
all_values-between zero prog args v h = absurd (omega arith)
all_values-between (suc fuel) prog [] v h = refl
all_values-between (suc fuel) prog (arg ∷ args) v h =
    rw (all_values-between fuel prog args (some arg) (omega (arith, h))) refl

-- What stands behind the letter of an option, unless that is empty, in front of other arguments.
abbrev pub own_value : List ℕ → List (List ℕ) → List (List ℕ)
own_value [] args = args
own_value (c ∷ cs) args = (c ∷ cs) ∷ args

abbrev behind_letter : List ℕ → List ℕ → List (List ℕ) → Argstate
behind_letter prog cs args = record { argv = prog ∷ args; curarg = some cs; argvalue = none }

-- At an option that is not "--" the first `argnext` gives its letter. Calls of `argnextvalue` then
-- give what stands behind the letter, if anything does, and all further arguments in order, and end
-- with a null pointer and no argument left.
pub argnext-all_values :
    (fuel : ℕ) (prog : List ℕ) (c : ℕ) (cs : List ℕ) (args : List (List ℕ))
    → is_end_mark c cs ≡ false
    → suc (length args) < fuel
    → (args' : Argstate) × (argnext (argstart (prog ∷ (45 ∷ c ∷ cs) ∷ args)) ≡ (some c, args'))
      × (all_values fuel args' ≡ some (own_value cs args, ended prog []))
unfolding argstart argnext next_argument all_values argnextvalue
argnext-all_values zero prog c cs args letter h = absurd (omega arith)
argnext-all_values (suc fuel) prog c [] args letter h = (
  behind_letter prog [] args,
  rw letter refl,
  all_values-between (suc fuel) prog args none (omega (arith, h)),
)
argnext-all_values (suc fuel) prog c (e ∷ es) args letter h = (
  behind_letter prog (e ∷ es) args,
  refl,
  rw (all_values-between fuel prog args (some (e ∷ es)) (omega (arith, h))) refl,
)
