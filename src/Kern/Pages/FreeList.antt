-- ===== src/Kern/Pages/FreeList.antt =====
-- The free list of lab/kern/pmap.c as a list of page numbers.
use cse.Base.{
  ℕ, zero, suc, ◌<◌, ◌≡◌, ◌≢◌, refl, false, Option, none, some, List, [], ◌∷◌, arith, ◌==◌, length,
  ap, All, elem, Distinct, ==_iff, Bool-cases, inl, inr,
}
use cse.Base.Cells.{update}
use mathlib.Core.Path.{subst}
use cse.Kern.Pages.{take_page, Page, Phys, page_alloc, is_on_list, push_free, set_ref}

-- From `p` the links lead through the pages of the list to NULL.
abbrev pub Chain : (ℕ → Page) → Option ℕ → List ℕ → Type 0
Chain pages p [] = p ≡ none
Chain pages p (x ∷ xs) = (p ≡ some x) × Chain pages (pages x).pp_link xs

-- The free list holds the pages `xs`, in order, each once, and none of them is referred to.
pub record IsValid (s : Phys) (xs : List ℕ) : Type 0 where
  pub chain : Chain s.pages s.page_free_list xs
  pub distinct : Distinct xs
  pub in_range : All (λ x. x < s.npages) xs
  pub unused : All (λ x. (s.pages x).pp_ref ≡ 0) xs

pub Chain-update :
    (pages : ℕ → Page) (p : Option ℕ) (xs : List ℕ) (i : ℕ) (v : Page)
    → elem i xs ≡ false
    → Chain pages p xs
    → Chain (update pages i v) p xs
Chain-update pages p [] i v out c = c
Chain-update pages p (x ∷ xs) i v out c =
    ground (arith, Chain-update pages (pages x).pp_link xs i v)

pub unused-update :
    (pages : ℕ → Page) (xs : List ℕ) (i : ℕ) (v : Page)
    → elem i xs ≡ false
    → All (λ x. (pages x).pp_ref ≡ 0) xs
    → All (λ x. (update pages i v x).pp_ref ≡ 0) xs
unused-update pages [] i v out h = tt
unused-update pages (x ∷ xs) i v out h = ground (arith, unused-update pages xs i v)

-- Enough fuel makes the walk a membership test.
pub is_on_list-elem :
    (fuel : ℕ) (pages : ℕ → Page) (p : Option ℕ) (xs : List ℕ) (pp : ℕ)
    → Chain pages p xs
    → length xs < fuel
    → is_on_list fuel pages p pp ≡ some (elem pp xs)
unfolding is_on_list
is_on_list-elem zero pages p xs pp c h = absurd (omega arith)
is_on_list-elem (suc fuel) pages none [] pp c h = refl
is_on_list-elem (suc fuel) pages (some q) [] pp c h = ground arith
is_on_list-elem (suc fuel) pages none (x ∷ xs) pp c h = ground arith
is_on_list-elem (suc fuel) pages (some q) (x ∷ xs) pp c h =
    ground (arith, is_on_list-elem fuel pages (pages x).pp_link xs pp c.1)

pub page_alloc-eq-some :
    (flags : ℕ) (s : Phys) (x : ℕ)
    → s.page_free_list ≡ some x
    → page_alloc flags s ≡ (some x, take_page flags x s)
unfolding page_alloc
page_alloc-eq-some flags s x e = ground arith

pub take_page-IsValid :
    (flags : ℕ) (s : Phys) (x : ℕ) (xs : List ℕ)
    → IsValid s (x ∷ xs)
    → IsValid (take_page flags x s) xs
unfolding take_page
take_page-IsValid flags s x xs v = record {
  chain = Chain-update s.pages (s.pages x).pp_link xs x _ v.distinct.0 v.chain.1;
  distinct = v.distinct.1;
  in_range = v.in_range.1;
  unused = unused-update s.pages xs x _ v.distinct.0 v.unused.1;
}

-- On a free list that starts with `x`, `page_alloc` returns `x`, unlinks it, leaves the rest of
-- the list valid, and touches no other page's entry.
pub page_alloc-cons :
    (flags : ℕ) (s : Phys) (x : ℕ) (xs : List ℕ)
    → IsValid s (x ∷ xs)
    → let (r, s') = page_alloc flags s in
      (r ≡ some x)
      × IsValid s' xs
      × ((s'.pages x).pp_link ≡ none)
      × ((j : ℕ) → j ≢ x → s'.pages j ≡ s.pages j)
unfolding take_page
page_alloc-cons flags s x xs v =
    rw (page_alloc-eq-some flags s x v.chain.0)
      (refl, take_page-IsValid flags s x xs v, ground arith, λ j h. ground arith)

-- With no free page `page_alloc` returns NULL and changes nothing.
pub page_alloc-nil : (flags : ℕ) (s : Phys) → IsValid s [] → page_alloc flags s ≡ (none, s)
unfolding page_alloc
page_alloc-nil flags s v = ground arith

pub push_free-IsValid :
    (pp : ℕ) (s : Phys) (xs : List ℕ)
    → IsValid s xs
    → pp < s.npages
    → (s.pages pp).pp_ref ≡ 0
    → elem pp xs ≡ false
    → IsValid (push_free pp s) (pp ∷ xs)
unfolding push_free
push_free-IsValid pp s xs v h r out = record {
  chain = (
    refl,
    subst (λ q. Chain (push_free pp s).pages q xs) linked
        (Chain-update s.pages s.page_free_list xs pp _ out v.chain),
  );
  distinct = (out, v.distinct);
  in_range = (h, v.in_range);
  unused = (ground arith, unused-update s.pages xs pp _ out v.unused);
}
  where
    linked : s.page_free_list ≡ ((push_free pp s).pages pp).pp_link
    linked = ground arith

-- A page that is referred to is not on the free list.
pub elem_of_unused :
    (pages : ℕ → Page) (pp : ℕ) (xs : List ℕ)
    → All (λ x. (pages x).pp_ref ≡ 0) xs
    → 0 < (pages pp).pp_ref
    → elem pp xs ≡ false
elem_of_unused pages pp [] h pos = refl
elem_of_unused pages pp (x ∷ xs) h pos =
    ground (arith, elem_of_unused pages pp xs h.1, h.0, apart x h.0)
  where
    apart : (y : ℕ) → (pages y).pp_ref ≡ 0 → (pp == y) ≡ false
    apart y e = elim (Bool-cases (pp == y)) [
      | inr other ↦ other
      | inl same ↦ absurd (clash y e ((==_iff _ _).0 same))
    ]
      where
        clash : (z : ℕ) → (pages z).pp_ref ≡ 0 → pp ≡ z → ⊥
        clash z f q = omega (arith, ap (λ k. (pages k).pp_ref) q)

pub set_ref-IsValid :
    (pp n : ℕ) (s : Phys) (xs : List ℕ)
    → elem pp xs ≡ false
    → IsValid s xs
    → IsValid (set_ref pp n s) xs
set_ref-IsValid pp n s xs out v = record {
  chain = Chain-update s.pages s.page_free_list xs pp _ out v.chain;
  distinct = v.distinct;
  in_range = v.in_range;
  unused = unused-update s.pages xs pp _ out v.unused;
}
