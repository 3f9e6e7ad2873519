-- ===== src/Library/Strings/Compare.antt =====
-- `strcmp` and `strcpy` of lab/lib/string.c on the strings that stand in memory.
use mathlib.Core.Path.{subst, ap₂}
use mathlib.Core.Logic.{◌↔◌}
use native.Mathlib.Decide.{ℕ_discrete}
use cse.Base.{
  ℕ, zero, suc, ◌+◌, ◌<◌, ◌≤◌, false, some, List, [], ◌∷◌, All, length, ◌==◌, if◌then◌else◌, ◌≡◌,
  ◌≢◌, ◌⊎◌, inl, inr, refl, sym, ap, ◌∙◌, arith, ==_refl,
}
use cse.Base.Cells.{update, update_self, update_ne}
use cse.Library.Strings.{Mem, ℤ, pos, sub, strcmp, strcpy}

-- The string `cs` stands at address `p`, with the null character behind it.
abbrev pub Holds : Mem → ℕ → List ℕ → Type 0
Holds m p [] = m p ≡ 0
Holds m p (c ∷ cs) = (m p ≡ c) × (0 < c) × Holds m (p + 1) cs

Holds-same :
    (m m' : Mem) (p : ℕ) (cs : List ℕ)
    → Holds m p cs
    → ((a : ℕ) → p ≤ a → a ≤ p + length cs → m' a ≡ m a)
    → Holds m' p cs
Holds-same m m' p [] h same = same p (omega arith) (omega arith) ∙ h
Holds-same m m' p (c ∷ cs) (at, full, rest) same = (
  same p (omega arith) (omega arith) ∙ at,
  full,
  Holds-same m m' (p + 1) cs rest (λ a from below. same a (omega arith) (omega arith)),
)

sub-zero : (a b : ℕ) → (sub a b ≡ pos 0) ↔ (a ≡ b)
unfolding sub
sub-zero a b = elim (ℕ_discrete a b) [
  | yes e ↦ (λ p. e, λ p. ground arith)
  | no ne ↦ (λ p. absurd (ground arith), λ p. absurd (ne p))
]

differ : (a b : ℕ) → a ≢ b → (a == b) ≡ false
differ a b ne = ground arith

-- The characters are compared up to the first that differ, the null character included.
pub difference : List ℕ → List ℕ → ℤ
unfolding sub
difference [] [] = pos 0
difference [] (y ∷ ys) = sub 0 y
difference (x ∷ xs) [] = sub x 0
difference (x ∷ xs) (y ∷ ys) = let rest = difference xs ys in if x == y then rest else sub x y

strcmp-difference :
    (fuel p q : ℕ) (m : Mem) (xs ys : List ℕ)
    → Holds m p xs
    → Holds m q ys
    → length xs < fuel
    → strcmp fuel p q m ≡ some (difference xs ys)
unfolding strcmp difference
strcmp-difference zero p q m xs ys hx hy enough = absurd (omega arith)
strcmp-difference (suc fuel) p q m [] [] hx hy enough = rw (hx, hy) refl
strcmp-difference (suc fuel) p q m [] (y ∷ ys) hx hy enough = rw (hx, hy.0) refl
strcmp-difference (suc fuel) p q m (x ∷ xs) [] hx hy enough =
    rw (hx.0, hy, differ x 0 (λ e. omega (arith, e, hx.1))) refl
strcmp-difference (suc fuel) p q m (x ∷ xs) (y ∷ ys) hx hy enough =
    rw
      (
        hx.0,
        hy.0,
        differ x 0 (λ e. omega (arith, e, hx.1)),
        strcmp-difference fuel (p + 1) (q + 1) m xs ys hx.2 hy.2 (omega (arith, enough)),
      )
      (elim (ℕ_discrete x y) [ yes e ↦ ground arith | no ne ↦ ground arith ])

abbrev Full : List ℕ → Type 0
Full cs = All (λ c. 0 < c) cs

Holds-Full : (m : Mem) (p : ℕ) (cs : List ℕ) → Holds m p cs → Full cs
Holds-Full m p [] h = tt
Holds-Full m p (c ∷ cs) h = (h.1, Holds-Full m (p + 1) cs h.2)

difference-zero : (xs ys : List ℕ) → Full xs → Full ys → difference xs ys ≡ pos 0 → xs ≡ ys
unfolding difference
difference-zero [] [] fx fy d = refl
difference-zero [] (y ∷ ys) fx fy d = absurd (omega (arith, fy.0, (sub-zero 0 y).0 d))
difference-zero (x ∷ xs) [] fx fy d = absurd (omega (arith, fx.0, (sub-zero x 0).0 d))
difference-zero (x ∷ xs) (y ∷ ys) fx fy d = elim (ℕ_discrete x y) [
  | yes e ↦ ap₂ (λ c cs. c ∷ cs) e (difference-zero xs ys fx.1 fy.1 (sym (behind e) ∙ d))
  | no ne ↦ absurd (ne ((sub-zero x y).0 (sym (here ne) ∙ d)))
]
  where
    behind : x ≡ y → difference (x ∷ xs) (y ∷ ys) ≡ difference xs ys
    behind e = rw e (rw (==_refl y) refl)

    here : x ≢ y → difference (x ∷ xs) (y ∷ ys) ≡ sub x y
    here ne = rw (differ x y ne) refl

difference_self : (xs : List ℕ) → difference xs xs ≡ pos 0
unfolding difference
difference_self [] = refl
difference_self (x ∷ xs) = rw (==_refl x) (difference_self xs)

-- On two strings in memory `strcmp` ends within one round more than the first has characters, and
-- its result is 0 exactly when they are the same.
pub strcmp_iff :
    (fuel p q : ℕ) (m : Mem) (xs ys : List ℕ)
    → Holds m p xs
    → Holds m q ys
    → length xs < fuel
    → (d : ℤ) × (strcmp fuel p q m ≡ some d) × ((d ≡ pos 0) ↔ (xs ≡ ys))
strcmp_iff fuel p q m xs ys hx hy enough = (
  difference xs ys,
  strcmp-difference fuel p q m xs ys hx hy enough,
  (
    difference-zero xs ys (Holds-Full m p xs hx) (Holds-Full m q ys hy),
    λ e. subst (λ zs. difference xs zs ≡ pos 0) e (difference_self xs),
  ),
)

-- The places from `dst` on that a string of `n` characters takes are not those from `src` on.
abbrev pub Disjoint : ℕ → ℕ → ℕ → Type 0
Disjoint dst src n = (dst + n < src) ⊎ (src + n < dst)

copied_to :
    (fuel dst src : ℕ) (m : Mem) (cs : List ℕ)
    → Holds m src cs
    → Disjoint dst src (length cs)
    → length cs < fuel
    → (m' : Mem) × (strcpy fuel dst src m ≡ some m')
      × Holds m' dst cs
      × ((a : ℕ) → (a < dst) ⊎ (dst + length cs < a) → m' a ≡ m a)
unfolding strcpy
copied_to zero dst src m cs h apart enough = absurd (omega arith)
copied_to (suc fuel) dst src m [] h apart enough = (
  update m dst (m src),
  rw h refl,
  update_self m dst (m src) ∙ h,
  λ a out. update_ne m dst a (m src) (elsewhere a out),
)
  where
    elsewhere : (a : ℕ) → (a < dst) ⊎ (dst + 0 < a) → a ≢ dst
    elsewhere a out e = elim out [ inl l ↦ omega (arith, l, e) | inr g ↦ omega (arith, g, e) ]
copied_to (suc fuel) dst src m (c ∷ cs) h apart enough =
    let (m', run, copied, others) =
      copied_to fuel (dst + 1) (src + 1) m₁ cs moved_on apart' (omega (arith, enough)) in
    (
      m',
      rw not_end run,
      (others dst (inl (omega arith)) ∙ update_self m dst (m src) ∙ h.0, h.1, copied),
      λ a out. others a (further a out) ∙ update_ne m dst a (m src) (elsewhere a out),
    )
  where
    not_end : (m src == 0) ≡ false
    not_end = differ (m src) 0 (λ e. omega (arith, e, h.0, h.1))

    m₁ : Mem
    m₁ = update m dst (m src)

    moved_on : Holds m₁ (src + 1) cs
    moved_on =
        Holds-same m m₁ (src + 1) cs h.2
          (λ a from below. update_ne m dst a (m src) (away a from below))
      where
        away : (a : ℕ) → src + 1 ≤ a → a ≤ src + 1 + length cs → a ≢ dst
        away a from below e = elim apart [
          | inl l ↦ omega (arith, l, e, from)
          | inr g ↦ omega (arith, g, e, below)
        ]

    apart' : Disjoint (dst + 1) (src + 1) (length cs)
    apart' = elim apart [ inl l ↦ inl (omega (arith, l)) | inr g ↦ inr (omega (arith, g)) ]

    further :
        (a : ℕ)
        → (a < dst) ⊎ (dst + suc (length cs) < a)
        → (a < dst + 1) ⊎ (dst + 1 + length cs < a)
    further a out = elim out [ inl l ↦ inl (omega (arith, l)) | inr g ↦ inr (omega (arith, g)) ]

    elsewhere : (a : ℕ) → (a < dst) ⊎ (dst + suc (length cs) < a) → a ≢ dst
    elsewhere a out e = elim out [ inl l ↦ omega (arith, l, e) | inr g ↦ omega (arith, g, e) ]

-- `strcpy` of a string to a place that it does not overlap ends within one round more than it has
-- characters. The string then stands in both places, no other byte changes, and `strcmp` of the two
-- gives 0.
pub strcpy-strcmp :
    (fuel dst src : ℕ) (m : Mem) (cs : List ℕ)
    → Holds m src cs
    → Disjoint dst src (length cs)
    → length cs < fuel
    → (m' : Mem) × (strcpy fuel dst src m ≡ some m')
      × Holds m' dst cs
      × Holds m' src cs
      × ((a : ℕ) → (a < dst) ⊎ (dst + length cs < a) → m' a ≡ m a)
      × (strcmp fuel dst src m' ≡ some (pos 0))
strcpy-strcmp fuel dst src m cs h apart enough =
    let (m', run, copied, others) = copied_to fuel dst src m cs h apart enough in
    let kept : Holds m' src cs =
      Holds-same m m' src cs h (λ a from below. others a (outside a from below)) in
    (
      m',
      run,
      copied,
      kept,
      others,
      strcmp-difference fuel dst src m' cs cs copied kept enough ∙ ap some (difference_self cs),
    )
  where
    outside : (a : ℕ) → src ≤ a → a ≤ src + length cs → (a < dst) ⊎ (dst + length cs < a)
    outside a from below = elim apart [
      | inl l ↦ inr (omega (arith, l, from))
      | inr g ↦ inl (omega (arith, g, below))
    ]
