-- ===== src/Kern/Kdebug/Examples.antt =====
-- The theorems on `stab_binsearch` of lab/kern/kdebug.c at a table of six stabs: those at 1, 3 and
-- 5 are of type 36, at the addresses 10, 20 and 30.
use cse.Base.{ℕ, ◌+◌, ◌*◌, ◌≤◌, ◌<◌, some, ◌==◌, if◌then◌else◌, ◌≡◌, ◌⊎◌, refl, arith}
use cse.Kern.Kdebug.Info.{Symbols, n_so, out_of_bounds, debuginfo_rip, debuginfo_rip-below}
use cse.Kern.Kdebug.{Stab, stab_binsearch}
use cse.Kern.Kdebug.Scan.{Typed, Other}
use cse.Kern.Kdebug.Bracket.{InOrder, NextFree}
use cse.Kern.Kdebug.Found.{stab_binsearch-found}

abbrev table : ℕ → Stab
table i =
    if i == 1
    then record { n_strx = 0; n_desc = 0; n_type = 36; n_value = 10 }
    else if i == 3
    then record { n_strx = 0; n_desc = 0; n_type = 36; n_value = 20 }
    else if i == 5
    then record { n_strx = 0; n_desc = 0; n_type = 36; n_value = 30 }
    else record { n_strx = 0; n_desc = 0; n_type = 68; n_value = 0 }

value_of : (i : ℕ) → Typed table 36 i → ((table i).n_value ≡ i * 5 + 5)
value_of i t = ground (arith, t)

in_order : InOrder table 36 0 6 25
in_order i j a b c t t' = omega (arith, b, value_of i t, value_of j t')

free : NextFree table 36 0 6 25
free i a b t e = omega (arith, e, value_of i t)

later : (i : ℕ) → 3 < i → i < 6 → Typed table 36 i → 25 < (table i).n_value
later i a b t = ground (arith, a, t)

stab_binsearch-found_example :
    (e : ℕ) × (stab_binsearch table 36 0 6 25 ≡ some (4, e))
    × (3 < e)
    × (e ≤ 6)
    × ((i : ℕ) → 3 < i → i < e → Other table 36 i)
    × ((e ≡ 6) ⊎ Typed table 36 e)
stab_binsearch-found_example =
    stab_binsearch-found table 36 0 6 25 in_order free (ground arith) (ground arith) 3
      (ground arith) (ground arith) refl (ground arith) later

-- Two stabs at addresses that follow each other.
abbrev adjacent : ℕ → Stab
adjacent i = record { n_strx = 0; n_desc = 0; n_type = 36; n_value = i + 10 }

second_taken : stab_binsearch adjacent 36 0 2 10 ≡ some (2, 2)
unfolding stab_binsearch
second_taken = refl

-- The first stab is that of a source file, at the start of the kernel's code.
abbrev symbols : Symbols
symbols = record {
  stabs = λ i. record { n_strx = 0; n_type = n_so; n_desc = 0; n_value = 0xF0100000 };
  count = 1;
  stabstr = λ a. 0;
  str_size = 1;
}

debuginfo_rip-below_example : debuginfo_rip symbols symbols 0xF0000000 ≡ some out_of_bounds
debuginfo_rip-below_example =
    debuginfo_rip-below symbols symbols 0xF0000000 (ground arith) (ground arith)
      (λ i j a b c t t'. omega (arith, b, c)) (λ i a b t e. absurd (omega (arith, e)))
      (ground arith) refl (ground arith) (ground arith) refl
