-- ===== src/Library/Args.antt =====
-- lab/lib/args.c. A string is the list of its characters up to the null character, a pointer into
-- it what is left of the list, and `argv` the list of the `*argc` arguments; a null pointer behind
-- them is moved along with them. '-' is 45.
pub mod Flags
pub mod Value
mod Examples
use cse.Base.{ℕ, Bool, true, false, Option, none, some, List, [], ◌∷◌, ◌==◌, ◌&&◌, if◌then◌else◌}

-- Of `struct Argstate`, with the arguments behind `argc` and `argv`; `none` is a null pointer.
pub record Argstate : Type 0 where
  pub argv : List (List ℕ)
  pub curarg : Option (List ℕ)
  pub argvalue : Option (List ℕ)

-- `*argc > 1 ? "" : 0`, for an `argv` that is not null.
abbrev pub start_of : List (List ℕ) → Option (List ℕ)
start_of (prog ∷ arg ∷ rest) = some []
start_of argv = none

unfoldable pub argstart : List (List ℕ) → Argstate
argstart argv = record { argv = argv; curarg = start_of argv; argvalue = none }

-- The label `endofargs`.
abbrev pub endofargs : Argstate → Option ℕ × Argstate
endofargs args = (none, record args { curarg = none })

-- Argument 1 is dropped, and `*argc` is one less.
abbrev pub shift : List (List ℕ) → List (List ℕ)
shift (prog ∷ arg ∷ rest) = prog ∷ rest
shift argv = argv

-- The next character of `curarg`, which is not at its end.
abbrev pub take_char : ℕ → List ℕ → Argstate → Option ℕ × Argstate
take_char c cs args = (some c, record args { curarg = some cs })

-- Whether the argument is "--", of which the first character has been passed.
abbrev pub is_end_mark : ℕ → List ℕ → Bool
is_end_mark c [] = c == 45
is_end_mark c (e ∷ es) = false

-- The next argument, if it is an option.
unfoldable pub next_argument : List (List ℕ) → Argstate → Option ℕ × Argstate
next_argument (prog ∷ (dash ∷ c ∷ cs) ∷ rest) args =
    if dash == 45
    then if is_end_mark c cs
      then endofargs (record args { argv = shift args.argv })
      else take_char c cs (record args { argv = shift args.argv })
    else endofargs args
next_argument argv args = endofargs args

abbrev pub argnext_at : Option (List ℕ) → Argstate → Option ℕ × Argstate
argnext_at none args = (none, args)
argnext_at (some []) args = next_argument args.argv args
argnext_at (some (c ∷ cs)) args = take_char c cs args

-- `none` is the result -1.
unfoldable pub argnext : Argstate → Option ℕ × Argstate
unfolding next_argument
argnext args = argnext_at args.curarg (record args { argvalue = none })

abbrev pub next_value : List (List ℕ) → Argstate → Option (List ℕ) × Argstate
next_value (prog ∷ arg ∷ rest) args =
    (some arg, record args { argvalue = some arg; argv = shift args.argv })
next_value argv args = (none, record args { argvalue = none; curarg = none })

abbrev pub value_at : Option (List ℕ) → Argstate → Option (List ℕ) × Argstate
value_at none args = (none, args)
value_at (some []) args = next_value args.argv args
value_at (some (c ∷ cs)) args =
    (some (c ∷ cs), record args { argvalue = some (c ∷ cs); curarg = some [] })

unfoldable pub argnextvalue : Argstate → Option (List ℕ) × Argstate
argnextvalue args = value_at args.curarg args

abbrev pub value_or : Option (List ℕ) → Argstate → Option (List ℕ) × Argstate
value_or none args = argnextvalue args
value_or (some v) args = (some v, args)

unfoldable pub argvalue : Argstate → Option (List ℕ) × Argstate
unfolding argnextvalue
argvalue args = value_or args.argvalue args
