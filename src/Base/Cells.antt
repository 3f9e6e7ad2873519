-- ===== src/Base/Cells.antt =====
-- Arrays that are written in place, as functions of the index.
use Prim.Native.Nat.{ℕ}
use mathlib.Core.Path.{◌≡◌}
use mathlib.Core.Logic.{◌≢◌}
use native.Mathlib.Omega.{arith}
use cse.Base.Tests.{◌==◌, if◌then◌else◌}

-- `a[i] = v`
abbrev pub update {ℓ} : {A : Type ℓ} → (ℕ → A) → ℕ → A → ℕ → A
update f i v j = if j == i then v else f j

module _ {ℓ} {A : Type ℓ} (f : ℕ → A) where
  pub update_self : (i : ℕ) (v : A) → update f i v i ≡ v
  update_self i v = ground arith

  pub update_ne : (i j : ℕ) (v : A) → j ≢ i → update f i v j ≡ f j
  update_ne i j v h = ground arith
