-- ===== src/Kern/Pages/Release.antt =====
-- How pages come back to the free list: `page_free` and `page_decref` of lab/kern/pmap.c.
use cse.Base.{
  ℕ, ◌+◌, ◌-◌, ◌%◌, ◌^◌, ◌<◌, ◌≡◌, ◌≢◌, true, false, some, List, ◌∷◌, arith, ◌==◌, if◌then◌else◌,
  elem, length-le_of_Distinct, ==_iff, Bool-cases, inl, inr, ◌⊎◌,
}
use mathlib.Core.Path.{subst}
use cse.Kern.Pages.{Phys, page_alloc, is_on_list, push_free, page_free, page_decref, set_ref}
use cse.Kern.Pages.FreeList.{
  IsValid, is_on_list-elem, page_alloc-cons, push_free-IsValid, elem_of_unused, set_ref-IsValid,
}

-- Where a page ends up: off the list only if it is still referred to, and never twice on it.
abbrev pub freed : ℕ → Phys → List ℕ → List ℕ
freed pp s xs = if (s.pages pp).pp_ref == 0 then (if elem pp xs then xs else pp ∷ xs) else xs

-- `page_free` ends, keeps the free list valid, and puts an unreferenced page on it unless it is
-- there already; a page that is still referred to stays off.
pub page_free-IsValid :
    (pp : ℕ) (s : Phys) (xs : List ℕ)
    → IsValid s xs
    → pp < s.npages
    → (s' : Phys) × (page_free pp s ≡ some s') × IsValid s' (freed pp s xs)
unfolding page_free
page_free-IsValid pp s xs v h = elim (Bool-cases ((s.pages pp).pp_ref == 0)) [
  | inr used ↦ (s, rw used, rw used v)
  | inl zero_ref ↦ (
    if elem pp xs then s else push_free pp s,
    rw zero_ref (rw walk),
    rw zero_ref (pushed ((==_iff _ _).0 zero_ref) (Bool-cases (elem pp xs))),
  )
]
  where
    walk : is_on_list (s.npages + 1) s.pages s.page_free_list pp ≡ some (elem pp xs)
    walk =
        is_on_list-elem (s.npages + 1) s.pages s.page_free_list xs pp v.chain
          (omega (arith, length-le_of_Distinct s.npages xs v.distinct v.in_range))

    pushed :
        (s.pages pp).pp_ref ≡ 0
        → (elem pp xs ≡ true) ⊎ (elem pp xs ≡ false)
        → IsValid (if elem pp xs then s else push_free pp s) (if elem pp xs then xs else pp ∷ xs)
    pushed r (inl on) = rw on v
    pushed r (inr off) = rw off (push_free-IsValid pp s xs v h r off)

freed_new :
    (pp : ℕ) (s : Phys) (xs : List ℕ)
    → (s.pages pp).pp_ref ≡ 0
    → elem pp xs ≡ false
    → freed pp s xs ≡ pp ∷ xs
freed_new pp s xs r out = ground arith

-- A page that is freed is the next to be allocated, and the free list is then as it was.
pub page_alloc-page_free :
    (flags pp : ℕ) (s : Phys) (xs : List ℕ)
    → IsValid s xs
    → pp < s.npages
    → (s.pages pp).pp_ref ≡ 0
    → elem pp xs ≡ false
    → (s' : Phys) × (page_free pp s ≡ some s')
      × ((page_alloc flags s').0 ≡ some pp)
      × IsValid (page_alloc flags s').1 xs
page_alloc-page_free flags pp s xs v h r out =
    let (s', e, v') = page_free-IsValid pp s xs v h in
    let w = subst (IsValid s') (freed_new pp s xs r out) v' in
    let (got, valid, _, _) = page_alloc-cons flags s' pp xs w in (s', e, got, valid)

page_free-eq-push_free :
    (pp : ℕ) (s : Phys) (xs : List ℕ)
    → IsValid s xs
    → (s.pages pp).pp_ref ≡ 0
    → elem pp xs ≡ false
    → page_free pp s ≡ some (push_free pp s)
unfolding page_free
page_free-eq-push_free pp s xs v r out = ground (
  arith,
  is_on_list-elem (s.npages + 1) s.pages s.page_free_list xs pp v.chain,
  length-le_of_Distinct s.npages xs v.distinct v.in_range,
)

-- `page_decref` on a referenced page takes one reference off, frees the page exactly when that
-- was the last one, keeps the free list valid, and touches no other page's entry.
pub page_decref_lem :
    (pp : ℕ) (s : Phys) (xs : List ℕ)
    → IsValid s xs
    → pp < s.npages
    → 0 < (s.pages pp).pp_ref
    → (s.pages pp).pp_ref < 2 ^ 16
    → let ref = (s.pages pp).pp_ref - 1 in
      (s' : Phys) × (page_decref pp s ≡ some s')
      × IsValid s' (if ref == 0 then pp ∷ xs else xs)
      × ((s'.pages pp).pp_ref ≡ ref)
      × ((j : ℕ) → j ≢ pp → s'.pages j ≡ s.pages j)
unfolding page_decref push_free
page_decref_lem pp s xs v h pos small = elim (Bool-cases (ref == 0)) [
  | inl last ↦ (
    push_free pp s₁,
    rw wrapped (rw last (page_free-eq-push_free pp s₁ xs v₁ (cleared last) out)),
    rw last (push_free-IsValid pp s₁ xs v₁ h (cleared last) out),
    ground arith,
    λ j ne. ground arith,
  )
  | inr more ↦ (s₁, rw wrapped (rw more), rw more v₁, ground arith, λ j ne. ground arith)
]
  where
    ref : ℕ
    ref = (s.pages pp).pp_ref - 1

    s₁ : Phys
    s₁ = set_ref pp ref s

    wrapped : ((s.pages pp).pp_ref + 0xffff) % 2 ^ 16 ≡ ref
    wrapped = omega arith

    out : elem pp xs ≡ false
    out = elem_of_unused s.pages pp xs v.unused pos

    v₁ : IsValid s₁ xs
    v₁ = set_ref-IsValid pp ref s xs out v

    cleared : (ref == 0) ≡ true → (s₁.pages pp).pp_ref ≡ 0
    cleared last = ground arith
