-- ===== src/Library/Args/Examples.antt =====
-- The theorems on lab/lib/args.c at the arguments of `ls -ld - x` and of `cc -oa b`.
use cse.Base.{ℕ, some, List, [], ◌∷◌, ◌≡◌, refl, arith}
use cse.Library.Args.{Argstate, argstart, argnext}
use cse.Library.Args.Flags.{options, all_letters, ended, all_letters-options}
use cse.Library.Args.Value.{all_values, argnext-all_values}

abbrev some_args : List (List ℕ)
some_args = (45 ∷ 108 ∷ 100 ∷ []) ∷ (45 ∷ []) ∷ (120 ∷ []) ∷ []

all_letters-options_example :
    all_letters 3 (argstart ((108 ∷ 115 ∷ []) ∷ some_args))
    ≡ some (108 ∷ 100 ∷ [], ended (108 ∷ 115 ∷ []) ((45 ∷ []) ∷ (120 ∷ []) ∷ []))
unfolding options
all_letters-options_example = all_letters-options 3 (108 ∷ 115 ∷ []) some_args (ground arith)

argnext-all_values_example :
    (args : Argstate) × (argnext (argstart ((99 ∷ []) ∷ (45 ∷ 111 ∷ 97 ∷ []) ∷ (98 ∷ []) ∷ []))
      ≡ (some 111, args))
    × (all_values 4 args ≡ some ((97 ∷ []) ∷ (98 ∷ []) ∷ [], ended (99 ∷ []) []))
argnext-all_values_example =
    argnext-all_values 4 (99 ∷ []) 111 (97 ∷ []) ((98 ∷ []) ∷ []) refl (ground arith)
