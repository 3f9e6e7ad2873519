-- ===== src/Kern/PageTable/Insert.antt =====
-- Placing a page at a virtual address, and finding it there: `page_insert` and `page_lookup` of
-- lab/kern/pmap.c.
use mathlib.Core.Path.{subst, ap₂}
use cse.Base.{
  ℕ, ◌+◌, ◌*◌, ◌%◌, ◌^◌, ◌≤◌, ◌<◌, ◌≡◌, ◌≢◌, refl, sym, ap, ◌∙◌, true, false, some, List, arith,
  ◌==◌, elem, length, inl, inr, ==_iff,
}
use Prim.Native.Nat.{bit_or}
use cse.Base.Bits.{bit_or-eq-add, bit_or-lt}
use cse.Kern.Pages.{Phys, pgsize}
use cse.Kern.Pages.FreeList.{IsValid, set_ref-IsValid}
use cse.Kern.PageTable.{
  pte_addr, ppn, page2pa, poke, ptx, pml4e_walk, page_lookup, page_insert, place, attach, pte_p, ok,
}
use cse.Kern.PageTable.Walk.{walk_list, indices, Ready, Created}
use cse.Kern.PageTable.Create.{walk_list-Created}
use cse.Kern.PageTable.Again.{Extends, walk_list-again, pml4e_walk-eq-some, page_lookup-eq-some}

abbrev pub entry_of : ℕ → ℕ → ℕ
entry_of pp perm = pp * pgsize + bit_or perm pte_p

-- The state that `page_insert` leaves where nothing was mapped.
abbrev pub inserted : ℕ → ℕ → ℕ → ℕ → Phys → Phys
inserted pp f i perm s =
    let s' = attach pp f i s in poke f i (bit_or (s'.frames f i) (bit_or perm pte_p)) s'

place-empty :
    (t pp va f i : ℕ) (s : Phys)
    → s.frames f i ≡ 0
    → pp ≢ 0
    → place t pp va f i s ≡ some (tt, attach pp f i s)
unfolding place
place-empty t pp va f i s empty ne = rw differs (rw ((==_iff _ _).1 empty))
  where
    differs : (pte_addr (s.frames f i) == page2pa pp) ≡ false
    differs = ground arith

page_insert-empty :
    (t pp va perm f i : ℕ) (s s₁ : Phys)
    → pml4e_walk t va true s ≡ some (some (f, i), s₁)
    → s₁.frames f i ≡ 0
    → pp ≢ 0
    → page_insert t pp va perm s ≡ some (ok, inserted pp f i perm s₁)
unfolding page_insert
page_insert-empty t pp va perm f i s s₁ walk empty ne =
    rw walk (rw (place-empty t pp va f i s₁ empty ne))

-- What holds once a page `pp` in use has been placed at an entry `(f, i)` that was empty.
module _ (pp f i perm : ℕ) (s : Phys) (ys : List ℕ) (v : IsValid s ys) (used : elem pp ys ≡ false)
    (small : perm < pgsize) (empty : s.frames f i ≡ 0) where
  abbrev placed : Phys
  placed = inserted pp f i perm s

  placed-entry : placed.frames f i ≡ entry_of pp perm
  unfolding attach
  placed-entry =
      ground (
        arith,
        bit_or-eq-add 12 pp (bit_or perm pte_p),
        bit_or-lt 12 perm pte_p small (omega arith),
      )

  placed-Extends : Extends s placed
  unfolding attach
  placed-Extends = record {
    npages = refl;
    entries = λ j w ne. ground (arith, λ (p : j ≡ f) (q : w ≡ i). ne (ap₂ s.frames p q ∙ empty));
  }

  placed-IsValid : IsValid placed ys
  unfolding attach
  placed-IsValid =
      let r = set_ref-IsValid pp (((s.pages pp).pp_ref + 1) % 2 ^ 16) s ys used v in
      record { chain = r.chain; distinct = r.distinct; in_range = r.in_range; unused = r.unused }

  placed-count : (placed.pages pp).pp_ref ≡ ((s.pages pp).pp_ref + 1) % 2 ^ 16
  unfolding attach
  placed-count = ground arith

page_insert-Created :
    (t pp va perm : ℕ) (s : Phys) (xs : List ℕ)
    → elem pp xs ≡ false
    → pp < s.npages
    → pp ≢ 0
    → perm < pgsize
    → (c : Created (λ create. walk_list (indices va) create t) s xs)
    → c.after.frames c.table (ptx va) ≡ 0
    → (s' : Phys) × (f : ℕ) × (left : List ℕ) × (page_insert t pp va perm s ≡ some (ok, s'))
      × (page_lookup t va s' ≡ some (some (pp, (f, ptx va)), s'))
      × (s'.frames f (ptx va) ≡ entry_of pp perm)
      × ((s'.pages pp).pp_ref ≡ ((s.pages pp).pp_ref + 1) % 2 ^ 16)
      × IsValid s' left
      × ((j : ℕ) → elem j xs ≡ true → elem j left ≡ false → (s'.pages j).pp_ref ≡ 1)
      × ((j w : ℕ) → elem j xs ≡ false → s.frames j w ≢ 0 → s'.frames j w ≡ s.frames j w)
unfolding attach
page_insert-Created t pp va perm s xs used h ne fits c empty = (
  placed pp f i perm c.after c.left c.valid off fits empty,
  c.table,
  c.left,
  page_insert-empty t pp va perm f i s c.after (pml4e_walk-eq-some t va true s c.done) empty ne,
  subst (λ k. page_lookup t va after_insert ≡ some (some (k, (f, i)), after_insert)) found looked,
  placed-entry pp f i perm c.after c.left c.valid off fits empty,
  placed-count pp f i perm c.after c.left c.valid off fits empty
      ∙ ap (λ p. (p.pp_ref + 1) % 2 ^ 16) (c.kept.counts pp used),
  placed-IsValid pp f i perm c.after c.left c.valid off fits empty,
  λ j was now. others j (other j was) ∙ c.taken j was now,
  λ j w out full.
      ext.entries j w (λ e. full (sym (c.kept.entries j w out full) ∙ e))
      ∙ c.kept.entries j w out full,
)
  where
    f : ℕ
    f = c.table

    i : ℕ
    i = ptx va

    other : (j : ℕ) → elem j xs ≡ true → j ≢ pp
    other j was e = cc (was, used, e)

    off : elem pp c.left ≡ false
    off = c.kept.outside pp used

    after_insert : Phys
    after_insert = placed pp f i perm c.after c.left c.valid off fits empty

    others : (j : ℕ) → j ≢ pp → (after_insert.pages j).pp_ref ≡ (c.after.pages j).pp_ref
    others j apart = ground arith

    ext : Extends c.after after_insert
    ext = placed-Extends pp f i perm c.after c.left c.valid off fits empty

    found : ppn (after_insert.frames f i) ≡ pp
    found = omega (
      arith,
      placed-entry pp f i perm c.after c.left c.valid off fits empty,
      bit_or-lt 12 perm pte_p fits (omega arith),
    )

    looked :
        page_lookup t va after_insert
        ≡ some (some (ppn (after_insert.frames f i), (f, i)), after_insert)
    looked =
        page_lookup-eq-some t va f i after_insert
          (pml4e_walk-eq-some t va false after_insert (
            walk_list-again (indices va) t c.after after_insert
              (placed-Extends pp f i perm c.after c.left c.valid off fits empty) c.again))
          (omega (arith, found, c.kept.npages))

-- Where the plain walk ends, nothing is mapped.
abbrev pub Unmapped : ℕ → ℕ → Phys → Type 0
Unmapped t va s = (f i : ℕ) → pml4e_walk t va false s ≡ some (some (f, i), s) → s.frames f i ≡ 0

Unmapped-entry :
    (t va : ℕ) (s : Phys) (xs : List ℕ)
    → Unmapped t va s
    → (c : Created (λ create. walk_list (indices va) create t) s xs)
    → c.after.frames c.table (ptx va) ≡ 0
Unmapped-entry t va s xs free c = elim c.source [
  | inl e ↦
      ap (λ p. p.frames c.table (ptx va)) e
      ∙ free c.table (ptx va) (
          pml4e_walk-eq-some t va false s
            (subst (λ p. walk_list (indices va) false t p ≡ some (some c.table, p)) e c.again))
  | inr zeros ↦ zeros (ptx va)
]

-- Let the free list hold at least three pages, the tables on the way to `va` that exist be pages of
-- the machine off that list, and nothing be mapped at `va`. `page_insert` of a page in use, other
-- than page 0, then succeeds, with new tables where they are missing: the page's count goes up by
-- one, `page_lookup` finds the page, its entry is the page's address with the permissions and the
-- present bit, the free list stays valid, each page taken from it for a table has one reference,
-- and no nonzero word of a page that was in use changes.
pub page_lookup-page_insert :
    (t pp va perm : ℕ) (s : Phys) (xs : List ℕ)
    → IsValid s xs
    → s.npages < 2 ^ 32
    → 3 ≤ length xs
    → Ready (indices va) s xs t
    → Unmapped t va s
    → elem pp xs ≡ false
    → pp < s.npages
    → pp ≢ 0
    → perm < pgsize
    → (s' : Phys) × (f : ℕ) × (left : List ℕ) × (page_insert t pp va perm s ≡ some (ok, s'))
      × (page_lookup t va s' ≡ some (some (pp, (f, ptx va)), s'))
      × (s'.frames f (ptx va) ≡ entry_of pp perm)
      × ((s'.pages pp).pp_ref ≡ ((s.pages pp).pp_ref + 1) % 2 ^ 16)
      × IsValid s' left
      × ((j : ℕ) → elem j xs ≡ true → elem j left ≡ false → (s'.pages j).pp_ref ≡ 1)
      × ((j w : ℕ) → elem j xs ≡ false → s.frames j w ≢ 0 → s'.frames j w ≡ s.frames j w)
page_lookup-page_insert t pp va perm s xs v small enough ready free used h ne fits =
    let c = walk_list-Created (indices va) s xs t v small enough ready in
    page_insert-Created t pp va perm s xs used h ne fits c (Unmapped-entry t va s xs free c)
