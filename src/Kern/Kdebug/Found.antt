-- ===== src/Kern/Kdebug/Found.antt =====
-- What `stab_binsearch` of lab/kern/kdebug.c leaves behind its pointers.
use native.Mathlib.Decide.{ℕ_discrete}
use cse.Base.{
  ℕ, zero, suc, ◌+◌, ◌-◌, ◌*◌, ◌^◌, ◌≤◌, ◌<◌, true, false, some, ltb, if◌then◌else◌, ◌≡◌, ◌⊎◌, inl,
  inr, refl, ap, ◌∙◌, arith, Bool-cases, lt→ltb,
}
use cse.Kern.Kdebug.{Stab, Search, search, last_of_type, finish, start, stab_binsearch}
use cse.Kern.Kdebug.Scan.{Typed, Other}
use cse.Kern.Kdebug.Bracket.{InOrder, NextFree, Inv, search-Inv}

module _ (stabs : ℕ → Stab) (type : ℕ) where
  clash : (i : ℕ) → Typed stabs type i → Other stabs type i → ⊥
  clash i t o = ground (arith, t, o)

  last_of_type-none :
      (left n : ℕ)
      → ((i : ℕ) → left < i → i ≤ left + n → Other stabs type i)
      → last_of_type stabs type left n ≡ left
  unfolding last_of_type
  last_of_type-none left zero others = refl
  last_of_type-none left (suc n) others =
      rw (others (left + suc n) (omega arith) (omega arith))
        (last_of_type-none left n (λ i a b. others i a (omega (arith, b))))

  -- The last loop stops at `region_left` where no stab of the type lies above it.
  finish-at :
      (s : Search) (l e : ℕ)
      → s.any_matches ≡ true
      → s.region_left ≡ l
      → s.region_right_end ≡ e
      → ((i : ℕ) → l < i → i < e → Other stabs type i)
      → finish stabs type s ≡ (if ltb l e then l + 1 else e, e)
  unfolding finish
  finish-at s l e any is_l is_e others =
      rw (any, is_l, is_e)
        (elim (Bool-cases (ltb l e)) [
          | inl less ↦ rw less (
              ap (λ x. (x + 1, e))
                (last_of_type-none l (e - 1 - l) (λ i a b. others i a (omega (arith, a, b)))))
          | inr not_less ↦ rw not_less refl
        ])

  module _ (left right_end addr : ℕ) (ordered : InOrder stabs type left right_end addr)
      (free : NextFree stabs type left right_end addr) (small : addr + 1 < 2 ^ 64)
      (range : left ≤ right_end) where
    ending :
        (s : Search) × (search stabs type
            (2 * (right_end - left) + 2)
            (start stabs type left right_end addr)
          ≡ some s)
        × Inv stabs type left right_end addr s
        × (s.l ≡ s.r_end)
    ending =
        search-Inv stabs type left right_end addr ordered free small (2 * (right_end - left) + 2)
          (start stabs type left right_end addr) at_start (inl (refl, omega arith))
      where
        at_start : Inv stabs type left right_end addr (start stabs type left right_end addr)
        at_start = record {
          low = omega arith;
          mid = range;
          high = omega arith;
          same = refl;
          at_addr = inl refl;
          above = λ i a b t. absurd (omega (arith, a, b));
          right = inl refl;
          matched = inl refl;
          below = inl (refl, λ i a b. absurd (omega (arith, a, b)));
        }

    module _ (s : Search) (v : Inv stabs type left right_end addr s) (done : s.l ≡ s.r_end) where
      -- A stab of the type that is not above the address lies below the end of the search.
      not_above : (i : ℕ) → i < right_end → Typed stabs type i → (stabs i).n_value ≤ addr → i < s.l
      not_above i under typed le = elim (Bool-cases (ltb i s.l)) [
        | inl less ↦ ground (arith, less)
        | inr more ↦ absurd (omega (arith, le, v.above i (ground (arith, more, done)) under typed))
      ]

      -- The search has ended at the last such stab.
      at_last :
          (t : ℕ)
          → left ≤ t
          → t < right_end
          → Typed stabs type t
          → (stabs t).n_value ≤ addr
          → ((i : ℕ) → t < i → i < right_end → Typed stabs type i → addr < (stabs i).n_value)
          → (s.region_left ≡ t)
            × (s.any_matches ≡ true)
            × ((i : ℕ) → t < i → i < s.l → Other stabs type i)
      at_last t from under typed le last = elim v.below [
        | inl (base, none_yet) ↦
            absurd (clash t typed (none_yet t from (not_above t under typed le)))
        | inr (a, b, typed', le', any, gap) ↦
            let at : s.region_left ≡ t = elim (Bool-cases (ltb s.region_left t)) [
              | inl less ↦
                  absurd (clash t typed (gap t (ground (arith, less)) (not_above t under typed le)))
              | inr ge ↦ elim (ℕ_discrete s.region_left t) [
                | yes e ↦ e
                | no ne ↦
                    absurd
                      (omega (arith, le', last s.region_left (ground (arith, ge, ne)) b typed'))
              ]
            ] in
            (at, any, λ i c d. gap i (omega (arith, at, c)) d)
      ]

      -- The search has ended at the first stab of the type.
      at_first :
          (t : ℕ)
          → left ≤ t
          → t < right_end
          → Typed stabs type t
          → addr < (stabs t).n_value
          → ((i : ℕ) → left ≤ i → i < t → Other stabs type i)
          → (s.region_left ≡ left) × (s.r_end ≡ t) × (s.any_matches ≡ true)
      at_first t from under typed higher first = elim v.below [
        | inr (a, b, typed', le, any, gap) ↦ absurd (elim (Bool-cases (ltb s.region_left t)) [
          | inl less ↦ clash s.region_left typed' (first s.region_left a (ground (arith, less)))
          | inr ge ↦ elim (ℕ_discrete s.region_left t) [
            | yes e ↦ omega (arith, le, higher, ap (λ x. (stabs x).n_value) e)
            | no ne ↦ omega (
              arith,
              le,
              higher,
              ordered t s.region_left from (ground (arith, ge, ne)) b typed typed',
            )
          ]
        ])
        | inl (base, none_yet) ↦ let (at, any) = at_end none_yet in (base, at, any)
      ]
        where
          at_end :
              ((i : ℕ) → left ≤ i → i < s.l → Other stabs type i)
              → (s.r_end ≡ t) × (s.any_matches ≡ true)
          at_end none_yet = elim (Bool-cases (ltb t s.r_end)) [
            | inl less ↦ absurd (clash t typed (none_yet t from (ground (arith, less, done))))
            | inr ge ↦ elim v.right [
              | inl e ↦ absurd (ground (arith, e, under, ge))
              | inr (h, typed', any) ↦ elim (ℕ_discrete s.r_end t) [
                | yes e ↦ (e, any)
                | no ne ↦ absurd (
                    clash s.r_end typed'
                      (first s.r_end (omega (arith, done, v.low)) (ground (arith, ge, ne))))
              ]
            ]
          ]

    run_to_end :
        (s : Search)
        → search stabs type (2 * (right_end - left) + 2) (start stabs type left right_end addr)
          ≡ some s
        → stab_binsearch stabs type left right_end addr ≡ some (finish stabs type s)
    unfolding stab_binsearch
    run_to_end s run = rw run refl

    -- Let the stabs of the type in the range be in order, none of them at the address that
    -- follows, which is below 2^64, and let `t` be the last of them that is not above the
    -- address. Then the search ends, with `*region_left` at `t` and `*region_right` right before
    -- the next stab of the type, or at the end of the range.
    pub stab_binsearch-found :
        (t : ℕ)
        → left ≤ t
        → t < right_end
        → Typed stabs type t
        → (stabs t).n_value ≤ addr
        → ((i : ℕ) → t < i → i < right_end → Typed stabs type i → addr < (stabs i).n_value)
        → (e : ℕ) × (stab_binsearch stabs type left right_end addr ≡ some (t + 1, e))
          × (t < e)
          × (e ≤ right_end)
          × ((i : ℕ) → t < i → i < e → Other stabs type i)
          × ((e ≡ right_end) ⊎ Typed stabs type e)
    stab_binsearch-found t from under typed le last =
        let (s, run, v, done) = ending in
        let (at, any, gap) = at_last s v done t from under typed le last in
        let inside : t < s.r_end = omega (arith, done, not_above s v done t under typed le) in
        (
          s.r_end,
          run_to_end s run
              ∙ ap some (
                  finish-at s t s.r_end any at v.same (λ i a b. gap i a (omega (arith, b, done)))
                  ∙ rw (lt→ltb t s.r_end inside) refl),
          inside,
          v.high,
          λ i a b. gap i a (omega (arith, b, done)),
          elim v.right [ inl e ↦ inl e | inr (h, typed', any') ↦ inr typed' ],
        )

    -- With the stabs of the type in order and none at the address that follows, let `t` be the
    -- first of them, and above the address. Then the search ends with `*region_right` right
    -- before `t`, and `*region_left` is as it was, unless `t` starts the range: then it is where
    -- `*region_right` is. In both cases `*region_left` is not above `*region_right`.
    pub stab_binsearch-above :
        (t : ℕ)
        → left ≤ t
        → t < right_end
        → Typed stabs type t
        → addr < (stabs t).n_value
        → ((i : ℕ) → left ≤ i → i < t → Other stabs type i)
        → stab_binsearch stabs type left right_end addr
          ≡ some (if ltb left t then left + 1 else t, t)
    stab_binsearch-above t from under typed higher first =
        let (s, run, v, done) = ending in
        let (base, at, any) = at_first s v done t from under typed higher first in
        run_to_end s run
        ∙ ap some
            (finish-at s left t any base (v.same ∙ at) (λ i a b. first i (omega (arith, a)) b))

    -- With no stab of the type in the range the search ends with `*region_right` right below
    -- `*region_left`, which is as it was.
    pub stab_binsearch-none :
        ((i : ℕ) → left ≤ i → i < right_end → Other stabs type i)
        → stab_binsearch stabs type left right_end addr ≡ some (left + 1, left)
    unfolding finish
    stab_binsearch-none others =
        let (s, run, v, done) = ending in run_to_end s run ∙ rw (no_match s v, unmoved s v) refl
      where
        no_match : (s : Search) → Inv stabs type left right_end addr s → s.any_matches ≡ false
        no_match s v = elim v.matched [
          | inl e ↦ e
          | inr (i, a, b, t) ↦ absurd (clash i t (others i a b))
        ]

        unmoved : (s : Search) → Inv stabs type left right_end addr s → s.region_left ≡ left
        unmoved s v = elim v.below [
          | inl (base, none_yet) ↦ base
          | inr (a, b, t, le, any, gap) ↦ absurd (clash s.region_left t (others s.region_left a b))
        ]
