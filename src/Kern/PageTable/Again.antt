-- ===== src/Kern/PageTable/Again.antt =====
-- The plain walk of lab/kern/pmap.c reads nonzero entries only, so it survives any change that
-- keeps those; and what `page_lookup` then answers.
use mathlib.Core.Path.{subst, ap₂}
use native.Mathlib.Decide.{ℕ_discrete}
use cse.Base.{
  ℕ, ◌%◌, ◌^◌, ◌<◌, ◌≡◌, ◌≢◌, refl, sym, ◌∙◌, Bool, true, false, Option, none, some, List, [], ◌∷◌,
  arith, ltb, if◌then◌else◌, Bool-cases, inl, inr, lt→ltb,
}
use cse.Kern.Pages.{Phys}
use cse.Kern.PageTable.{
  M, pure, bind_opt, kaddr, pa2page, pte_addr, ppn, ensure_entry, finish_level, walk_entry,
  walk_level, ptx, pml4e_walk, with_ptx, page_lookup,
}
use cse.Kern.PageTable.Walk.{walk_list, indices, pml4e_walk-eq-walk_list, ensure_entry-present}

-- `s'` has the nonzero table entries of `s` and as many pages.
pub record Extends (s s' : Phys) : Type 0 where
  pub npages : s'.npages ≡ s.npages
  pub entries : (j w : ℕ) → s.frames j w ≢ 0 → s'.frames j w ≡ s.frames j w

bind-pure : {A : Type 0} (m : Option (A × Phys)) → bind_opt m pure ≡ m
bind-pure none = refl
bind-pure (some (a, s)) = refl

module _ (inner : ℕ → M (Option ℕ)) (t i : ℕ) (s : Phys) where
  pub plain-zero : s.frames t i ≡ 0 → walk_level inner t i false s ≡ some (none, s)
  unfolding walk_level walk_entry ensure_entry
  plain-zero z = ground arith

  pub plain-nonzero :
      s.frames t i ≢ 0
      → let pa = pte_addr (s.frames t i) in
        walk_level inner t i false s
        ≡ (if ltb (ppn pa % 2 ^ 32) s.npages then inner (ppn pa) s else none)
  unfolding walk_level walk_entry kaddr finish_level
  plain-nonzero ne =
      rw (ensure_entry-present t i false s ne)
        (elim (Bool-cases (ltb (ppn (pte_addr (s.frames t i)) % 2 ^ 32) s.npages)) [
          | inl e ↦ rw e (bind-pure (inner (ppn (pte_addr (s.frames t i))) s))
          | inr e ↦ rw e
        ])

  -- What the plain walk of one level must have met to succeed.
  pub plain-inv :
      {r : ℕ} {s₁ : Phys}
      → walk_level inner t i false s ≡ some (some r, s₁)
      → let u = ppn (pte_addr (s.frames t i)) in
        (s.frames t i ≢ 0) × (ltb (u % 2 ^ 32) s.npages ≡ true) × (inner u s ≡ some (some r, s₁))
  plain-inv found = elim (ℕ_discrete (s.frames t i) 0) [
    | yes z ↦ cc (plain-zero z, found)
    | no ne ↦ elim (Bool-cases (ltb (ppn (pte_addr (s.frames t i)) % 2 ^ 32) s.npages)) [
      | inl e ↦ (ne, e, rw e at (sym (plain-nonzero ne) ∙ found))
      | inr e ↦ cc (rw e at (plain-nonzero ne), found)
    ]
  ]

walk_level-again :
    (inner : ℕ → M (Option ℕ)) (t i : ℕ) (s s' : Phys) {r : ℕ}
    → Extends s s'
    → walk_level inner t i false s ≡ some (some r, s)
    → ((u : ℕ) → inner u s ≡ some (some r, s) → inner u s' ≡ some (some r, s'))
    → walk_level inner t i false s' ≡ some (some r, s')
walk_level-again inner t i s s' {r} ext found rec =
    let (ne, inside, below) = plain-inv inner t i s found in
    let same : s'.frames t i ≡ s.frames t i = ext.entries t i ne in
    let inside' : ltb (ppn (pte_addr (s'.frames t i)) % 2 ^ 32) s'.npages ≡ true =
      ap₂ (λ e n. ltb (ppn (pte_addr e) % 2 ^ 32) n) same ext.npages ∙ inside in
    rw (plain-nonzero inner t i s' (λ e. ne (sym same ∙ e))) (
      rw inside' (
        subst (λ e. inner (ppn (pte_addr e)) s' ≡ some (some r, s')) (sym same)
          (rec (ppn (pte_addr (s.frames t i))) below)))

pub walk_list-again :
    (is : List ℕ) (t : ℕ) (s s' : Phys) {r : ℕ}
    → Extends s s'
    → walk_list is false t s ≡ some (some r, s)
    → walk_list is false t s' ≡ some (some r, s')
unfolding walk_list
walk_list-again [] t s s' ext e = ground arith
walk_list-again (i ∷ is) t s s' ext e =
    walk_level-again (walk_list is false) t i s s' ext e (λ u f. walk_list-again is u s s' ext f)

pub pml4e_walk-eq-some :
    (t va : ℕ) (create : Bool) (s : Phys) {f : ℕ} {s' : Phys}
    → walk_list (indices va) create t s ≡ some (some f, s')
    → pml4e_walk t va create s ≡ some (some (f, ptx va), s')
unfolding with_ptx
pml4e_walk-eq-some t va create s e = rw (pml4e_walk-eq-walk_list t va create s) (rw e)

pub page_lookup-eq-some :
    (t va f i : ℕ) (s : Phys)
    → pml4e_walk t va false s ≡ some (some (f, i), s)
    → ppn (s.frames f i) < s.npages
    → page_lookup t va s ≡ some (some (ppn (s.frames f i), (f, i)), s)
unfolding page_lookup pa2page
page_lookup-eq-some t va f i s walk h = rw walk (rw (lt→ltb _ _ h))
