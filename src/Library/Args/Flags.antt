-- ===== src/Library/Args/Flags.antt =====
-- The loop over `argnext` of lab/lib/args.c against the options that stand in the arguments.
use cse.Base.{
  ℕ, zero, suc, ◌+◌, ◌<◌, true, false, Option, none, some, List, [], ◌∷◌, ◌++◌, length, ◌==◌,
  if◌then◌else◌, ◌≡◌, inl, inr, refl, arith, Bool-cases, length-append,
}
use cse.Library.Args.{Argstate, argstart, is_end_mark, argnext, next_argument}

-- The letters of the leading options of a list of arguments, and the arguments that are left: "--"
-- ends the options and is dropped; "-" and what does not start with '-' end them and stay.
abbrev pub in_front : ℕ → List ℕ → List ℕ × List (List ℕ) → List ℕ × List (List ℕ)
in_front c cs (letters, rest) = ((c ∷ cs) ++ letters, rest)

unfoldable pub options : List (List ℕ) → List ℕ × List (List ℕ)
options [] = ([], [])
options ([] ∷ args) = ([], [] ∷ args)
options ((dash ∷ []) ∷ args) = ([], (dash ∷ []) ∷ args)
options ((dash ∷ c ∷ cs) ∷ args) =
    let rest = options args in
    if dash == 45
    then if is_end_mark c cs then ([], args) else in_front c cs rest
    else ([], (dash ∷ c ∷ cs) ∷ args)

-- `while ((c = argnext(&args)) >= 0)`, with `fuel` rounds left: the letters and the last state.
-- `none` is a loop that is cut off.
abbrev pub collected : ℕ → Option (List ℕ × Argstate) → Option (List ℕ × Argstate)
collected c none = none
collected c (some (letters, args)) = some (c ∷ letters, args)

abbrev pub collect_rest :
    (Argstate → Option (List ℕ × Argstate)) → Option ℕ × Argstate → Option (List ℕ × Argstate)
collect_rest go_on (none, args) = some ([], args)
collect_rest go_on (some c, args) = collected c (go_on args)

unfoldable pub all_letters : ℕ → Argstate → Option (List ℕ × Argstate)
unfolding argnext next_argument
all_letters zero args = none
all_letters (suc fuel) args = collect_rest (all_letters fuel) (argnext args)

-- The state inside an argument, of which `cs` is left, and the state at the end of the options.
abbrev inside : List ℕ → List (List ℕ) → List ℕ → Option (List ℕ) → Argstate
inside prog args cs v = record { argv = prog ∷ args; curarg = some cs; argvalue = v }

abbrev pub ended : List ℕ → List (List ℕ) → Argstate
ended prog args = record { argv = prog ∷ args; curarg = none; argvalue = none }

length-options :
    (dash c : ℕ) (cs : List ℕ) (args : List (List ℕ))
    → (dash == 45) ≡ true
    → is_end_mark c cs ≡ false
    → length (options ((dash ∷ c ∷ cs) ∷ args)).0 ≡ suc (length cs) + length (options args).0
unfolding options
length-options dash c cs args e option = rw e (rw option (length-append (c ∷ cs) (options args).0))

all_letters-inside :
    (fuel : ℕ) (prog : List ℕ) (args : List (List ℕ)) (cs : List ℕ) (v : Option (List ℕ))
    → length cs + length (options args).0 < fuel
    → all_letters fuel (inside prog args cs v)
      ≡ some (cs ++ (options args).0, ended prog (options args).1)
unfolding all_letters argnext next_argument options
all_letters-inside zero prog args cs v h = absurd (omega arith)
all_letters-inside (suc fuel) prog args (c ∷ cs) v h =
    rw (all_letters-inside fuel prog args cs none (omega (arith, h))) refl
all_letters-inside (suc fuel) prog [] [] v h = refl
all_letters-inside (suc fuel) prog ([] ∷ args) [] v h = refl
all_letters-inside (suc fuel) prog ((dash ∷ []) ∷ args) [] v h = refl
all_letters-inside (suc fuel) prog ((dash ∷ c ∷ cs) ∷ args) [] v h =
    elim (Bool-cases (dash == 45)) [
      | inr other ↦ rw other refl
      | inl e ↦ rw e (elim (Bool-cases (is_end_mark c cs)) [
        | inl mark ↦ rw mark refl
        | inr option ↦ rw option (
            rw
              (all_letters-inside fuel prog args cs none
                (omega (arith, h, length-options dash c cs args e option)))
              refl)
      ])
    ]

-- The loop ends, gives the letters of the leading options in order, and leaves the program's name
-- and the other arguments; a round for each letter and one more are enough.
pub all_letters-options :
    (fuel : ℕ) (prog : List ℕ) (args : List (List ℕ))
    → length (options args).0 < fuel
    → all_letters fuel (argstart (prog ∷ args))
      ≡ some ((options args).0, ended prog (options args).1)
unfolding argstart all_letters argnext options
all_letters-options zero prog args h = absurd (omega arith)
all_letters-options (suc fuel) prog [] h = refl
all_letters-options (suc fuel) prog (arg ∷ args) h =
    all_letters-inside (suc fuel) prog (arg ∷ args) [] none (omega (arith, h))
