-- ===== src/Kern/PageTable/Remove.antt =====
-- Taking a mapping away: `page_remove` of lab/kern/pmap.c, on an address that is mapped and on one
-- whose page table exists with an empty entry.
use mathlib.Core.Path.{subst}
use native.Mathlib.Decide.{ℕ_discrete}
use cse.Base.{
  ℕ, ◌+◌, ◌%◌, sym, ◌∙◌, ◌-◌, ◌^◌, ◌<◌, ◌≡◌, ◌≢◌, ap, false, some, List, ◌∷◌, arith, ◌==◌,
  if◌then◌else◌, drop,
}
use cse.Kern.Pages.{Phys, page_decref, set_ref}
use cse.Kern.Pages.FreeList.{IsValid}
use cse.Kern.Pages.Release.{page_decref_lem}
use cse.Kern.PageTable.{ppn, poke, pml4e_walk, page_lookup, page_remove}
use cse.Kern.PageTable.Again.{page_lookup-eq-some}

page_remove-eq :
    (t va f i pp : ℕ) (s s' : Phys)
    → page_lookup t va s ≡ some (some (pp, (f, i)), s)
    → page_decref pp s ≡ some s'
    → page_remove t va s ≡ some (tt, poke f i 0 s')
unfolding page_remove
page_remove-eq t va f i pp s s' look drop = rw look (rw drop)

poke-IsValid : (f i e : ℕ) (s : Phys) (xs : List ℕ) → IsValid s xs → IsValid (poke f i e s) xs
poke-IsValid f i e s xs v = record {
  chain = v.chain;
  distinct = v.distinct;
  in_range = v.in_range;
  unused = v.unused;
}

-- `page_remove` of a mapped page in use clears the entry, takes one reference off the page, and
-- frees the page exactly when that was the last one; the free list stays valid and no other
-- page's count changes.
pub page_remove-mapped :
    (t va f i : ℕ) (s : Phys) (xs : List ℕ)
    → let pp = ppn (s.frames f i) in
      IsValid s xs
      → pml4e_walk t va false s ≡ some (some (f, i), s)
      → pp < s.npages
      → 0 < (s.pages pp).pp_ref
      → (s.pages pp).pp_ref < 2 ^ 16
      → let ref = (s.pages pp).pp_ref - 1 in
        (s' : Phys) × (page_remove t va s ≡ some (tt, s'))
        × (s'.frames f i ≡ 0)
        × ((s'.pages pp).pp_ref ≡ ref)
        × IsValid s' (if ref == 0 then pp ∷ xs else xs)
        × ((j : ℕ) → j ≢ pp → s'.pages j ≡ s.pages j)
page_remove-mapped t va f i s xs v walk h pos fits =
    let (s', done, valid, count, others) = page_decref_lem (ppn (s.frames f i)) s xs v h pos fits in
    (
      poke f i 0 s',
      page_remove-eq t va f i (ppn (s.frames f i)) s s' (page_lookup-eq-some t va f i s walk h)
          done,
      ground arith,
      count,
      poke-IsValid f i 0 s'
          (if (s.pages (ppn (s.frames f i))).pp_ref - 1 == 0 then ppn (s.frames f i) ∷ xs else xs)
          valid,
      others,
    )

-- Where the page table exists but the entry is empty, `page_lookup` does not answer NULL but
-- page 0. If the free list is valid, `page_remove` ends and takes a reference off page 0, whose
-- count, of 16 bits, goes from 0 to the largest one.
pub page_remove-unmapped :
    (t va f i : ℕ) (s : Phys) (xs : List ℕ)
    → IsValid s xs
    → pml4e_walk t va false s ≡ some (some (f, i), s)
    → s.frames f i ≡ 0
    → 0 < s.npages
    → (s.pages 0).pp_ref < 2 ^ 16
    → (page_lookup t va s ≡ some (some (0, (f, i)), s))
      × (s' : Phys) × (page_remove t va s ≡ some (tt, s'))
      × ((s'.pages 0).pp_ref ≡ ((s.pages 0).pp_ref + 0xffff) % 2 ^ 16)
unfolding page_decref
page_remove-unmapped t va f i s xs v walk empty h fits = elim (ℕ_discrete (s.pages 0).pp_ref 0) [
  | yes none_yet ↦ (
    looked,
    poke f i 0 (set_ref 0 0xffff s),
    page_remove-eq t va f i 0 s (set_ref 0 0xffff s) looked (rw (none_yet, page_decref)),
    ground (arith, none_yet),
  )
  | no some_left ↦
      let (s', gone, _, count, _, _) =
        page_remove-mapped t va f i s xs v walk (omega (arith, first)) (positive some_left)
          (subst (λ p. (s.pages p).pp_ref < 2 ^ 16) (sym first) fits) in
      (
        looked,
        s',
        gone,
        subst (λ p. (s'.pages p).pp_ref ≡ (s.pages p).pp_ref - 1) first count
            ∙ omega (arith, some_left, fits),
      )
]
  where
    looked : page_lookup t va s ≡ some (some (0, (f, i)), s)
    looked =
        subst (λ e. page_lookup t va s ≡ some (some (ppn e, (f, i)), s)) empty
          (page_lookup-eq-some t va f i s walk (omega (arith, ap ppn empty)))

    first : ppn (s.frames f i) ≡ 0
    first = ap ppn empty

    positive : (s.pages 0).pp_ref ≢ 0 → 0 < (s.pages (ppn (s.frames f i))).pp_ref
    positive ne = subst (λ p. 0 < (s.pages p).pp_ref) (sym first) (omega (arith, ne))
