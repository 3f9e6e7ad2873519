-- ===== src/Kern/PageTable/Create.antt =====
-- The creating walk of lab/kern/pmap.c succeeds with three free pages, and the plain walk then
-- finds the same entry.
use mathlib.Core.Path.{subst}
use native.Mathlib.Decide.{ℕ_discrete}
use cse.Base.{
  ℕ, suc, ◌+◌, ◌*◌, ◌^◌, ◌≤◌, ◌<◌, ◌≡◌, ◌≢◌, refl, sym, ap, ◌∙◌, Bool, true, false, Option, some,
  List, [], ◌∷◌, arith, length, elem, inl, inr,
}
use cse.Kern.Pages.{Phys, take_page, pgsize}
use cse.Kern.Pages.FreeList.{IsValid, page_alloc-eq-some}
use cse.Kern.PageTable.{M, pte_addr, ppn, walk_level}
use cse.Kern.PageTable.Again.{plain-zero}
use cse.Kern.PageTable.Walk.{
  walk_list, Kept-refl, Kept-trans, Ready, Created, walk_level-present, walk_level-created, hooked,
  hooked-entry, hooked-count, hooked-empty, hooked-npages, hooked-IsValid, hooked-Kept,
}

entry-ppn : (x : ℕ) → ppn (pte_addr (x * pgsize + 7)) ≡ x
entry-ppn x = omega arith

Ready-in_range : (is : List ℕ) (s : Phys) (xs : List ℕ) (t : ℕ) → Ready is s xs t → t < s.npages
Ready-in_range [] s xs t r = r.1
Ready-in_range (i ∷ is) s xs t r = r.1

-- One level up, where the table was there already.
old_table-Created :
    (inner : Bool → ℕ → M (Option ℕ)) (t i : ℕ) (s : Phys) (xs : List ℕ)
    → let u = ppn (pte_addr (s.frames t i)) in
      s.npages < 2 ^ 32
      → elem t xs ≡ false
      → s.frames t i ≢ 0
      → u < s.npages
      → Created (λ create. inner create u) s xs
      → Created (λ create. walk_level (inner create) t i create) s xs
old_table-Created inner t i s xs small out ne h c = record {
  table = c.table;
  after = c.after;
  left = c.left;
  done = walk_level-present (inner true) t i true s ne refl h small c.done;
  again =
      walk_level-present (inner false) t i false c.after (λ e. ne (sym same ∙ e))
        (ap (λ k. ppn (pte_addr k)) same) (omega (arith, c.kept.npages))
        (omega (arith, c.kept.npages)) c.again;
  valid = c.valid;
  kept = c.kept;
  taken = c.taken;
  source = c.source;
  off = c.off;
  in_range = c.in_range;
}
  where
    same : c.after.frames t i ≡ s.frames t i
    same = c.kept.entries t i out ne

-- One level up, where the table is made now on the first free page.
new_table-Created :
    (inner : Bool → ℕ → M (Option ℕ)) (s : Phys) (t i x : ℕ) (xs : List ℕ)
    → (v : IsValid s (x ∷ xs)) → (out : elem t (x ∷ xs) ≡ false) → (empty : s.frames t i ≡ 0)
    → s.npages < 2 ^ 32
    → (c : Created (λ create. inner create x) (hooked s t i x xs v out empty) xs)
    → (c.after ≡ hooked s t i x xs v out empty → c.table ≡ x)
    → Created (λ create. walk_level (inner create) t i create) s (x ∷ xs)
new_table-Created inner s t i x xs v out empty small c lands = record {
  table = c.table;
  after = c.after;
  left = c.left;
  done =
      walk_level-created (inner true) t i x s (take_page 0 x s) empty
        (page_alloc-eq-some 0 s x v.chain.0) (ap (λ k. ppn (pte_addr k)) entry ∙ entry-ppn x)
        (omega (arith, hooked-npages s t i x xs v out empty, v.in_range.0))
        (omega (arith, hooked-npages s t i x xs v out empty)) c.done;
  again =
      walk_level-present (inner false) t i false c.after (λ e. omega (arith, same))
        (ap (λ k. ppn (pte_addr k)) same ∙ entry-ppn x) (omega (arith, after-npages, v.in_range.0))
        (omega (arith, after-npages)) c.again;
  valid = c.valid;
  kept =
      Kept-trans s (x ∷ xs) (hooked s t i x xs v out empty) xs c.after c.left
        (hooked-Kept s t i x xs v out empty) c.kept;
  taken = λ j free used. elim (ℕ_discrete j x) [
    | yes e ↦
        ap (λ k. (c.after.pages k).pp_ref) e
        ∙ ap (λ p. p.pp_ref) (c.kept.counts x v.distinct.0)
        ∙ hooked-count s t i x xs v out empty
    | no ne ↦ c.taken j (among_rest j ne free) used
  ];
  source = inr (λ w. elim c.source [
    | inl e ↦
        ap (λ p. p.frames c.table w) e
        ∙ ap (λ k. (hooked s t i x xs v out empty).frames k w) (lands e)
        ∙ hooked-empty s t i x xs v out empty w
    | inr zeros ↦ zeros w
  ]);
  off = c.off;
  in_range = c.in_range;
}
  where
    among_rest : (j : ℕ) → j ≢ x → elem j (x ∷ xs) ≡ true → elem j xs ≡ true
    among_rest j ne free = ground arith

    entry : (hooked s t i x xs v out empty).frames t i ≡ x * pgsize + 7
    entry = hooked-entry s t i x xs v out empty

    off_rest : elem t xs ≡ false
    off_rest = (hooked-Kept s t i x xs v out empty).outside t out

    same : c.after.frames t i ≡ x * pgsize + 7
    same = c.kept.entries t i off_rest (λ e. omega (arith, entry)) ∙ entry

    after-npages : c.after.npages ≡ s.npages
    after-npages = c.kept.npages ∙ hooked-npages s t i x xs v out empty

-- The plain walk from an empty table ends there, with no level to go.
fresh-end :
    (is : List ℕ) (s : Phys) (x : ℕ) {r : ℕ}
    → ((w : ℕ) → s.frames x w ≡ 0)
    → walk_list is false x s ≡ some (some r, s)
    → r ≡ x
unfolding walk_list
fresh-end [] s x empty found = ground arith
fresh-end (i ∷ is) s x empty found = cc (plain-zero (walk_list is false) x i s (empty i), found)

-- With a free page for each level the creating walk succeeds, and leaves a page table that the
-- plain walk finds.
pub walk_list-Created :
    (is : List ℕ) (s : Phys) (xs : List ℕ) (t : ℕ)
    → IsValid s xs
    → s.npages < 2 ^ 32
    → length is ≤ length xs
    → Ready is s xs t
    → Created (λ create. walk_list is create t) s xs
unfolding walk_list
walk_list-Created [] s xs t v small enough ready = record {
  table = t;
  after = s;
  left = xs;
  done = refl;
  again = refl;
  valid = v;
  kept = Kept-refl s xs;
  taken = λ j free used. cc (free, used);
  source = inl refl;
  off = ready.0;
  in_range = ready.1;
}
walk_list-Created (i ∷ is) s xs t v small enough ready =
    step xs (ℕ_discrete (s.frames t i) 0) v enough ready (walk_list-Created is)
  where
    step :
        (xs : List ℕ)
        → Dec (s.frames t i ≡ 0)
        → IsValid s xs
        → suc (length is) ≤ length xs
        → Ready (i ∷ is) s xs t
        → ((s : Phys) (xs : List ℕ) (t : ℕ)
            → IsValid s xs
            → s.npages < 2 ^ 32
            → length is ≤ length xs
            → Ready is s xs t
            → Created (λ create. walk_list is create t) s xs)
        → Created (λ create. walk_level (walk_list is create) t i create) s xs
    step xs (no ne) v enough (out, h, inl z) rec = absurd (ne z)
    step xs (no ne) v enough (out, h, inr r) rec =
        old_table-Created (walk_list is) t i s xs small out ne (Ready-in_range is s xs _ r)
          (rec s xs (ppn (pte_addr (s.frames t i))) v small (omega arith) r)
    step [] (yes z) v enough r rec = absurd (omega arith)
    step (x ∷ xs) (yes z) v enough r rec =
        new_table-Created (walk_list is) s t i x xs v r.0 z small below λ e.
          (fresh-end is (hooked s t i x xs v r.0 z) x (hooked-empty s t i x xs v r.0 z)
            (subst (λ p. walk_list is false x p ≡ some (some below.table, p)) e below.again))
      where
        fresh-Ready : (js : List ℕ) → Ready js (hooked s t i x xs v r.0 z) xs x
        fresh-Ready [] =
            (v.distinct.0, omega (arith, hooked-npages s t i x xs v r.0 z, v.in_range.0))
        fresh-Ready (j ∷ js) = (
          v.distinct.0,
          omega (arith, hooked-npages s t i x xs v r.0 z, v.in_range.0),
          inl (hooked-empty s t i x xs v r.0 z j),
        )

        below : Created (λ create. walk_list is create x) (hooked s t i x xs v r.0 z) xs
        below =
            rec (hooked s t i x xs v r.0 z) xs x (hooked-IsValid s t i x xs v r.0 z)
              (omega (arith, hooked-npages s t i x xs v r.0 z)) (omega arith) (fresh-Ready is)
