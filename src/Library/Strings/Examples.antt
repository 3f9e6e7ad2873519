-- ===== src/Library/Strings/Examples.antt =====
-- The theorems on strings, lab/lib/string.c, at small memories.
use mathlib.Core.Logic.{◌↔◌}
use cse.Base.{ℕ, ◌+◌, ◌<◌, some, List, [], ◌∷◌, ◌==◌, if◌then◌else◌, ◌≡◌, ◌⊎◌, inl, refl, arith}
use cse.Library.Strings.{Mem, ℤ, pos, strcmp, strcpy}
use cse.Library.Strings.Compare.{Holds, strcmp_iff, strcpy-strcmp}

-- "ab" at 10 and "a" at 20.
abbrev memory : Mem
memory a = if a == 10 then 97 else if a == 11 then 98 else if a == 20 then 97 else 0

abbrev a_b : List ℕ
a_b = 97 ∷ 98 ∷ []

a_b-Holds : Holds memory 10 a_b
a_b-Holds = (refl, ground arith, (refl, ground arith, refl))

strcmp_iff_example : (d : ℤ) × (strcmp 3 10 20 memory ≡ some d) × ((d ≡ pos 0) ↔ (a_b ≡ 97 ∷ []))
strcmp_iff_example =
    strcmp_iff 3 10 20 memory a_b (97 ∷ []) a_b-Holds (refl, ground arith, refl) (ground arith)

strcpy-strcmp_example :
    (m' : Mem) × (strcpy 3 2 10 memory ≡ some m')
    × Holds m' 2 a_b
    × Holds m' 10 a_b
    × ((a : ℕ) → (a < 2) ⊎ (2 + 2 < a) → m' a ≡ memory a)
    × (strcmp 3 2 10 m' ≡ some (pos 0))
strcpy-strcmp_example =
    strcpy-strcmp 3 2 10 memory a_b a_b-Holds (inl (ground arith)) (ground arith)
