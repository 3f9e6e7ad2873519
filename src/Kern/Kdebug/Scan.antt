-- ===== src/Kern/Kdebug/Scan.antt =====
-- The inner loop of `stab_binsearch`, lab/kern/kdebug.c, which looks for a stab of the type.
use mathlib.Core.Path.{subst}
use native.Mathlib.Decide.{ℕ_discrete}
use cse.Base.{
  ℕ, zero, suc, ◌+◌, ◌≤◌, ◌<◌, true, false, none, some, ◌==◌, ◌≡◌, ◌⊎◌, inl, inr, refl, sym, ◌∙◌,
  arith, Bool-cases,
}
use cse.Kern.Kdebug.{Stab, scan_down}

module _ (stabs : ℕ → Stab) (type : ℕ) where
  -- Stab `i` is of the type, or of another.
  abbrev pub Typed : ℕ → Type 0
  Typed i = ((stabs i).n_type == type) ≡ true

  abbrev pub Other : ℕ → Type 0
  Other i = ((stabs i).n_type == type) ≡ false

  Typed-Other : (i : ℕ) → Typed i → Other i → ⊥
  Typed-Other i t o = ground (arith, t, o)

  scan_down-Typed : (l n : ℕ) → Typed (l + n) → scan_down stabs type l (suc n) ≡ some (l + n)
  unfolding scan_down
  scan_down-Typed l n t = rw t refl

  scan_down-Other :
      (l n : ℕ) → Other (l + n) → scan_down stabs type l (suc n) ≡ scan_down stabs type l n
  unfolding scan_down
  scan_down-Other l n o = rw o refl

  -- Whether stab `l + n` is of the type, and what is known of a stab up to there.
  at_or_below : (l n i : ℕ) → l ≤ i → i < l + suc n → (i ≡ l + n) ⊎ (i < l + n)
  at_or_below l n i from below = elim (ℕ_discrete i (l + n)) [
    | yes e ↦ inl e
    | no ne ↦ inr (omega (arith, ne, below))
  ]

  pub scan_down-none : (l n i : ℕ) → scan_down stabs type l n ≡ none → l ≤ i → i < l + n → Other i
  scan_down-none l zero i e from below = absurd (omega (arith, from, below))
  scan_down-none l (suc n) i e from below = elim (Bool-cases ((stabs (l + n)).n_type == type)) [
    | inl t ↦ absurd (some-not_none (sym (scan_down-Typed l n t) ∙ e))
    | inr o ↦ elim (at_or_below l n i from below) [
      | inl at ↦ subst Other (sym at) o
      | inr under ↦ scan_down-none l n i (sym (scan_down-Other l n o) ∙ e) from under
    ]
  ]
    where
      some-not_none : some (l + n) ≡ none → ⊥
      some-not_none p = ground arith

  pub scan_down-some :
      (l n m : ℕ)
      → scan_down stabs type l n ≡ some m
      → (l ≤ m) × (m < l + n) × Typed m × ((i : ℕ) → m < i → i < l + n → Other i)
  unfolding scan_down
  scan_down-some l zero m e = absurd (ground (arith, e))
  scan_down-some l (suc n) m e = elim (Bool-cases ((stabs (l + n)).n_type == type)) [
    | inl t ↦ here (cc (sym (scan_down-Typed l n t) ∙ e)) t
    | inr o ↦
        let (from, below, typed, behind) = scan_down-some l n m (sym (scan_down-Other l n o) ∙ e) in
        (
          from,
          omega (arith, below),
          typed,
          λ i above under. elim (at_or_below l n i (omega (arith, from, above)) under) [
            | inl at ↦ subst Other (sym at) o
            | inr under' ↦ behind i above under'
          ],
        )
  ]
    where
      here :
          l + n ≡ m
          → Typed (l + n)
          → (l ≤ m) × (m < l + suc n) × Typed m × ((i : ℕ) → m < i → i < l + suc n → Other i)
      here at t = (
        omega (arith, at),
        omega (arith, at),
        subst Typed at t,
        λ i above under. absurd (omega (arith, at, above, under)),
      )
