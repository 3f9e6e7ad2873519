-- ===== src/Kern/UserMem/Ranges.antt =====
-- What `user_mem_check` of lab/kern/pmap.c grants: exactly the ranges below ULIM whose pages are
-- all mapped with the permissions asked for, and, where the sum wraps around, ranges it never
-- looked at.
use mathlib.Core.Path.{subst, fun_ext}
use native.Mathlib.Decide.{ℕ_discrete}
use cse.Base.{
  ltb→lt, leb→le, ℕ, zero, suc, ◌+◌, ◌-◌, ◌*◌, ◌/◌, ◌%◌, ◌^◌, ◌≤◌, ◌<◌, ◌≡◌, ◌↔◌, refl, sym, ap,
  ◌∙◌, Bool, true, false, Option, none, some, List, [], ◌∷◌, leb, ltb, ◌==◌, arith, lt→ltb, ==_refl,
  Bool-cases, Option-cases, inl, inr,
}
use Prim.Native.Nat.{bit_and, bit_or}
use cse.Kern.Pages.{Phys, pgsize}
use cse.Kern.PageTable.{
  M, bind_opt, pte_p, pml4e_walk, pml4, pdpe, pdx, ptx, pte_addr, ppn, with_ptx,
}
use cse.Kern.PageTable.Walk.{walk_list, indices, pml4e_walk-eq-walk_list}
use cse.Kern.PageTable.Again.{plain-zero, plain-nonzero}
use cse.Kern.UserMem.{ulim, round_up, Check, granted, entry_ok, judge, check_from, user_mem_check}

-- The plain walk changes nothing.
walk_list-keeps :
    (is : List ℕ) (t : ℕ) (s : Phys) {r : Option ℕ} {s' : Phys}
    → walk_list is false t s ≡ some (r, s')
    → s' ≡ s
unfolding walk_list
walk_list-keeps [] t s h = cc h
walk_list-keeps (i ∷ is) t s {r} {s'} h = elim (ℕ_discrete (s.frames t i) 0) [
  | yes z ↦ cc (plain-zero (walk_list is false) t i s z, h)
  | no ne ↦ elim (Bool-cases (ltb (ppn (pte_addr (s.frames t i)) % 2 ^ 32) s.npages)) [
    | inl e ↦
        walk_list-keeps is (ppn (pte_addr (s.frames t i))) s
          (rw e at (sym (plain-nonzero (walk_list is false) t i s ne) ∙ h))
    | inr e ↦ cc (rw e at (plain-nonzero (walk_list is false) t i s ne), h)
  ]
]

pml4e_walk-keeps :
    (t va : ℕ) (s : Phys) {r : Option (ℕ × ℕ)} {s' : Phys}
    → pml4e_walk t va false s ≡ some (r, s')
    → s' ≡ s
pml4e_walk-keeps t va s {r} {s'} h = elim (Option-cases (walk_list (indices va) false t s)) [
  | inl e ↦ cc (rw e at (pml4e_walk-eq-walk_list t va false s), h)
  | inr ((r₁, s₁), e) ↦
      cc (walk_list-keeps (indices va) t s e, rw e at (pml4e_walk-eq-walk_list t va false s), h)
]

with_ptx_page : (a b : ℕ) → ptx a ≡ ptx b → with_ptx a ≡ with_ptx b
unfolding with_ptx
with_ptx_page a b same = fun_ext λ r. elim r as (λ x. with_ptx a x ≡ with_ptx b x) [
  | none ↦ refl
  | some pt ↦ ap (λ i. some (pt, i)) same
]

-- Addresses of one page have one entry.
pml4e_walk_page :
    (t a b : ℕ) (s : Phys)
    → a / 2 ^ 12 ≡ b / 2 ^ 12
    → pml4e_walk t a false s ≡ pml4e_walk t b false s
pml4e_walk_page t a b s same =
    pml4e_walk-eq-walk_list t a false s
    ∙ rw (p₁, p₂, p₃)
        (ap
          (λ (w : Option ℕ → Option (ℕ × ℕ)).
            bind_opt (walk_list (indices b) false t s) (λ r s'. some (w r, s')))
          (with_ptx_page a b p₄))
    ∙ sym (pml4e_walk-eq-walk_list t b false s)
  where
    p₁ : pml4 a ≡ pml4 b
    p₁ = omega (arith, same)

    p₂ : pdpe a ≡ pdpe b
    p₂ = omega (arith, same)

    p₃ : pdx a ≡ pdx b
    p₃ = omega (arith, same)

    p₄ : ptx a ≡ ptx b
    p₄ = omega (arith, same)

-- `table` gives the bits `want` at `va`.
abbrev pub Permits : ℕ → ℕ → ℕ → Phys → Type 0
Permits table want va s =
    (f i : ℕ) × (pml4e_walk table va false s ≡ some (some (f, i), s))
    × (bit_and (s.frames f i) want ≡ want)

ge→ltb : (a b : ℕ) → b ≤ a → ltb a b ≡ false
ge→ltb a b h = ground arith

lt→leb : (a b : ℕ) → b < a → leb a b ≡ false
lt→leb a b h = ground arith

==-true : (a b : ℕ) → (a == b) ≡ true → a ≡ b
==-true a b h = ground arith

module _ (null_ok : Bool) (table va end want : ℕ) where
  judge-inv :
      (addr : ℕ) (rest : M Check) (ppte : Option (ℕ × ℕ)) (s : Phys) {s' : Phys}
      → judge null_ok va want addr rest ppte s ≡ some (granted, s')
      → (f i : ℕ) × (ppte ≡ some (f, i))
        × (bit_and (s.frames f i) want ≡ want)
        × (rest s ≡ some (granted, s'))
  unfolding judge entry_ok
  judge-inv addr rest none s h = elim (Bool-cases null_ok) [
    | inl e ↦ cc (rw e at h)
    | inr e ↦ cc (rw e at h)
  ]
  judge-inv addr rest (some (f, i)) s h = elim (Bool-cases (bit_and (s.frames f i) want == want)) [
    | inl e ↦ (f, i, refl, ==-true _ _ e, rw e at h)
    | inr e ↦ cc (rw e at h)
  ]

  -- One round that goes on, and what it must have met.
  check_from-step :
      (rounds addr : ℕ) (s : Phys)
      → addr < end
      → Permits table want addr s
      → check_from null_ok table va end want (suc rounds) addr s
        ≡ check_from null_ok table va end want rounds (addr + pgsize) s
  unfolding check_from judge entry_ok
  check_from-step rounds addr s below (f, i, found, bits) =
      rw (lt→ltb addr end below) (rw found (rw bits (rw (==_refl want) refl)))

  check_from-inv :
      (rounds addr : ℕ) (s : Phys) {s' : Phys}
      → addr < end
      → check_from null_ok table va end want (suc rounds) addr s ≡ some (granted, s')
      → Permits table want addr s
        × (check_from null_ok table va end want rounds (addr + pgsize) s ≡ some (granted, s'))
  unfolding check_from
  check_from-inv rounds addr s {s'} below h = elim (Option-cases (pml4e_walk table addr false s)) [
    | inl e ↦ cc (rw e at (rw (lt→ltb addr end below) at h))
    | inr ((ppte, s₁), e) ↦
        let same = pml4e_walk-keeps table addr s e in
        let (f, i, p, q, r) =
          judge-inv addr (check_from null_ok table va end want rounds (addr + pgsize)) ppte s₁
            (rw e at (rw (lt→ltb addr end below) at h)) in
        (
          (f, i, cc (e, p, same), subst (λ x. bit_and (x.frames f i) want ≡ want) same q),
          subst
              (λ x.
                check_from null_ok table va end want rounds (addr + pgsize) x ≡ some (granted, s'))
              same r,
        )
  ]

  check_from-past :
      (rounds addr : ℕ) (s : Phys)
      → end ≤ addr
      → check_from null_ok table va end want rounds addr s ≡ some (granted, s)
  unfolding check_from
  check_from-past zero addr s h = refl
  check_from-past (suc rounds) addr s h = rw (ge→ltb addr end h) refl

  module _ (aligned : end % pgsize ≡ 0) where
    check_from_sound :
        (rounds addr a : ℕ) (s : Phys) {s' : Phys}
        → end ≤ addr + rounds * pgsize
        → addr / pgsize ≤ a / pgsize
        → a < end
        → check_from null_ok table va end want rounds addr s ≡ some (granted, s')
        → Permits table want a s
    check_from_sound zero addr a s enough from below h =
        absurd (omega (arith, aligned, enough, from, below))
    check_from_sound (suc rounds) addr a s enough from below h =
        let (here, later) = check_from-inv rounds addr s (omega (arith, aligned, from, below)) h in
        elim (ℕ_discrete (a / pgsize) (addr / pgsize)) [
          | yes same ↦
              subst
                (λ w.
                  (f i : ℕ) × (w ≡ some (some (f, i), s)) × (bit_and (s.frames f i) want ≡ want))
                (sym (pml4e_walk_page table a addr s same)) here
          | no away ↦
              check_from_sound rounds (addr + pgsize) a s (omega (arith, enough))
                (omega (arith, away, from)) below later
        ]

  check_from_complete :
      (rounds addr : ℕ) (s : Phys)
      → ((a : ℕ) → addr ≤ a → a < end → Permits table want a s)
      → check_from null_ok table va end want rounds addr s ≡ some (granted, s)
  unfolding check_from
  check_from_complete zero addr s all = refl
  check_from_complete (suc rounds) addr s all = elim (Bool-cases (ltb addr end)) [
    | inl below ↦
        check_from-step rounds addr s (ltb→lt addr end below)
          (all addr (omega arith) (ltb→lt addr end below))
        ∙ check_from_complete rounds (addr + pgsize) s (λ a from. all a (omega (arith, from)))
    | inr past ↦ rw past refl
  ]

-- Where the range does not wrap around, `user_mem_check` grants it, and changes nothing, exactly if
-- it ends below ULIM and every address of every page it touches has the permissions asked for and
-- is present.
pub user_mem_check_iff :
    (null_ok : Bool) (table va len perm : ℕ) (s : Phys)
    → va + len < 2 ^ 64
    → (user_mem_check null_ok table va len perm s ≡ some (granted, s)) ↔ (
        (va + len < ulim)
        × ((a : ℕ) → va ≤ a → a < round_up (va + len) → Permits table (bit_or perm pte_p) a s))
unfolding user_mem_check
user_mem_check_iff null_ok table va len perm s small =
    rw whole (elim (Bool-cases (leb ulim (va + len))) [
      | inl high ↦
          rw high (λ h. cc h, λ h. absurd (omega (arith, leb→le ulim (va + len) high, h.0)))
      | inr low ↦ rw low (
        λ h. (
          ground arith,
          λ a from below.
              check_from_sound null_ok table va end want aligned rounds va a s (omega arith)
                (omega (arith, from)) below h,
        ),
        λ h. check_from_complete null_ok table va end want rounds va s h.1,
      )
    ])
  where
    end : ℕ
    end = round_up (va + len)

    want : ℕ
    want = bit_or perm pte_p

    rounds : ℕ
    rounds = (end - va) / pgsize + 1

    whole : (va + len) % 2 ^ 64 ≡ va + len
    whole = omega (arith, small)

    aligned : end % pgsize ≡ 0
    aligned = omega arith

-- A range that wraps around past 2^64 is granted whatever the tables hold, if what is left of the
-- sum is below ULIM and its page ends at or below the start of the range.
pub user_mem_check-wraps :
    (null_ok : Bool) (table va len perm : ℕ) (s : Phys)
    → va < 2 ^ 64
    → len < 2 ^ 64
    → 2 ^ 64 ≤ va + len
    → va + len - 2 ^ 64 < ulim
    → round_up (va + len) ≤ va
    → user_mem_check null_ok table va len perm s ≡ some (granted, s)
unfolding user_mem_check check_from
user_mem_check-wraps null_ok table va len perm s h₁ h₂ wraps low past =
    rw (lt→leb ulim ((va + len) % 2 ^ 64) (omega arith)) (
      check_from-past null_ok table va (round_up ((va + len) % 2 ^ 64)) (bit_or perm pte_p) _ va s
        (omega (arith, past)))
