-- ===== src/Kern/PageTable/Walk.antt =====
-- What the creating walk of lab/kern/pmap.c leaves behind, level by level: enough free pages make
-- it succeed, the plain walk then finds the same entry, and nothing that was in use is disturbed.
use mathlib.Core.Path.{ap₂}
use cse.Base.{
  ℕ, ◌+◌, ◌*◌, ◌^◌, ◌<◌, ◌≡◌, ◌≢◌, refl, sym, ◌∙◌, Bool, true, false, Option, some, List, [], ◌∷◌,
  arith, elem, ◌⊎◌,
}
use cse.Base.Bits.{bit_or-eq-add}
use cse.Kern.Pages.{Phys, take_page, page_alloc, pgsize}
use cse.Kern.Pages.FreeList.{IsValid, take_page-IsValid, set_ref-IsValid}
use cse.Kern.PageTable.{
  M, pure, bind_opt, kaddr, pte_addr, ppn, hook_table, present, created, ensure_entry, hook_new,
  finish_level, walk_entry, walk_level, pml4, pdpe, pdx, pgdir_walk, pdpe_walk, pml4e_walk,
  with_ptx,
}

-- The walk over the indices of the levels still to go.
unfoldable pub walk_list : List ℕ → Bool → ℕ → M (Option ℕ)
walk_list [] create t = pure (some t)
walk_list (i ∷ is) create t = walk_level (walk_list is create) t i create

abbrev pub indices : ℕ → List ℕ
indices va = pml4 va ∷ pdpe va ∷ pdx va ∷ []

pub pml4e_walk-eq-walk_list :
    (t va : ℕ) (create : Bool) (s : Phys)
    → pml4e_walk t va create s
      ≡ bind_opt (walk_list (indices va) create t s) (λ r s'. some (with_ptx va r, s'))
unfolding pml4e_walk pdpe_walk pgdir_walk walk_list
pml4e_walk-eq-walk_list t va create s = refl

-- Going on from `s` with free pages `xs` to `s'` with free pages `ys`, no page in use was given
-- out, no table entry in use was changed, and no page in use changed its count.
pub record Kept (s : Phys) (xs : List ℕ) (s' : Phys) (ys : List ℕ) : Type 0 where
  pub npages : s'.npages ≡ s.npages
  pub outside : (j : ℕ) → elem j xs ≡ false → elem j ys ≡ false
  pub entries : (j w : ℕ) → elem j xs ≡ false → s.frames j w ≢ 0 → s'.frames j w ≡ s.frames j w
  pub counts : (j : ℕ) → elem j xs ≡ false → s'.pages j ≡ s.pages j

pub Kept-refl : (s : Phys) (xs : List ℕ) → Kept s xs s xs
Kept-refl s xs = record {
  npages = refl;
  outside = λ j h. h;
  entries = λ j w h ne. refl;
  counts = λ j h. refl;
}

pub Kept-trans :
    (s : Phys) (xs : List ℕ) (s' : Phys) (ys : List ℕ) (s'' : Phys) (zs : List ℕ)
    → Kept s xs s' ys
    → Kept s' ys s'' zs
    → Kept s xs s'' zs
Kept-trans s xs s' ys s'' zs a b = record {
  npages = b.npages ∙ a.npages;
  outside = λ j h. b.outside j (a.outside j h);
  entries = λ j w h ne.
      b.entries j w (a.outside j h) (λ e. ne (sym (a.entries j w h ne) ∙ e)) ∙ a.entries j w h ne;
  counts = λ j h. b.counts j (a.outside j h) ∙ a.counts j h;
}

-- The tables along the way that exist already are pages of the machine and not on the free list.
abbrev pub Ready : List ℕ → Phys → List ℕ → ℕ → Type 0
Ready [] s xs t = (elem t xs ≡ false) × (t < s.npages)
Ready (i ∷ is) s xs t =
    (elem t xs ≡ false)
    × (t < s.npages)
    × ((s.frames t i ≡ 0) ⊎ Ready is s xs (ppn (pte_addr (s.frames t i))))

-- The pages `xs` were free before and `left` are afterwards; each page taken has one reference, and
-- the table at the end was there already, with nothing changed, or is empty.
pub record Created (walk : Bool → M (Option ℕ)) (s : Phys) (xs : List ℕ) : Type 0 where
  pub table : ℕ
  pub after : Phys
  pub left : List ℕ
  pub done : walk true s ≡ some (some table, after)
  pub again : walk false after ≡ some (some table, after)
  pub valid : IsValid after left
  pub kept : Kept s xs after left
  pub taken : (j : ℕ) → elem j xs ≡ true → elem j left ≡ false → (after.pages j).pp_ref ≡ 1
  pub source : (after ≡ s) ⊎ ((w : ℕ) → after.frames table w ≡ 0)
  pub off : elem table left ≡ false
  pub in_range : table < after.npages

pub ensure_entry-present :
    (t i : ℕ) (create : Bool) (s : Phys)
    → s.frames t i ≢ 0
    → ensure_entry t i create s ≡ (present, s)
unfolding ensure_entry
ensure_entry-present t i create s ne = ground arith

ensure_entry-created :
    (t i x : ℕ) (s s₁ : Phys)
    → s.frames t i ≡ 0
    → page_alloc 0 s ≡ (some x, s₁)
    → ensure_entry t i true s ≡ (created x, hook_table t i x s₁)
unfolding ensure_entry hook_new hook_table
ensure_entry-created t i x s s₁ z got = rw (z, ensure_entry) (rw (got, hook_new))

pub kaddr-eq-some :
    (pa u : ℕ) (s : Phys) → ppn pa ≡ u → u < s.npages → s.npages < 2 ^ 32 → kaddr pa s ≡ some (u, s)
unfolding kaddr
kaddr-eq-some pa u s e h small = ground arith

module _ (inner : ℕ → M (Option ℕ)) where
  pub walk_level-present :
      (t i : ℕ) (create : Bool) (s : Phys) {u r : ℕ} {s' : Phys}
      → s.frames t i ≢ 0
      → ppn (pte_addr (s.frames t i)) ≡ u
      → u < s.npages
      → s.npages < 2 ^ 32
      → inner u s ≡ some (some r, s')
      → walk_level inner t i create s ≡ some (some r, s')
  unfolding walk_level walk_entry finish_level
  walk_level-present t i create s {u} ne e h small inside =
      rw (ensure_entry-present t i create s ne)
        (rw (kaddr-eq-some (pte_addr (s.frames t i)) u s e h small) (rw inside))

  pub walk_level-created :
      (t i x : ℕ) (s s₁ : Phys) {r : ℕ} {s' : Phys}
      → s.frames t i ≡ 0
      → page_alloc 0 s ≡ (some x, s₁)
      → let s₂ = hook_table t i x s₁ in
        ppn (pte_addr (s₂.frames t i)) ≡ x
        → x < s₂.npages
        → s₂.npages < 2 ^ 32
        → inner x s₂ ≡ some (some r, s')
        → walk_level inner t i true s ≡ some (some r, s')
  unfolding walk_level walk_entry finish_level
  walk_level-created t i x s s₁ z got e h small inside =
      let s₂ = hook_table t i x s₁ in
      rw (ensure_entry-created t i x s s₁ z got)
        (rw (kaddr-eq-some (pte_addr (s₂.frames t i)) x s₂ e h small) (rw inside))

-- Hooking a page `x` from the front of the free list into an empty entry of a table in use.
module _ (s : Phys) (t i x : ℕ) (xs : List ℕ) (v : IsValid s (x ∷ xs))
    (out : elem t (x ∷ xs) ≡ false) (empty : s.frames t i ≡ 0) where
  abbrev pub hooked : Phys
  hooked = hook_table t i x (take_page 0 x s)

  pub t-ne-x : t ≢ x
  t-ne-x e = cc (out, absurd_self)
    where
      absurd_self : elem t (x ∷ xs) ≡ true
      absurd_self = ground arith

  pub hooked-entry : hooked.frames t i ≡ x * pgsize + 7
  unfolding hook_table take_page
  hooked-entry = ground (arith, t-ne-x, bit_or-eq-add 12 x 7)

  pub hooked-empty : (w : ℕ) → hooked.frames x w ≡ 0
  unfolding hook_table take_page
  hooked-empty w = ground arith

  pub hooked-count : (hooked.pages x).pp_ref ≡ 1
  unfolding hook_table take_page
  hooked-count = ground (arith, v.unused.0)

  pub hooked-npages : hooked.npages ≡ s.npages
  unfolding hook_table take_page
  hooked-npages = refl

  pub hooked-IsValid : IsValid hooked xs
  unfolding hook_table
  hooked-IsValid =
      let r =
        set_ref-IsValid x _ (take_page 0 x s) xs v.distinct.0 (take_page-IsValid 0 s x xs v) in
      record { chain = r.chain; distinct = r.distinct; in_range = r.in_range; unused = r.unused }

  pub hooked-Kept : Kept s (x ∷ xs) hooked xs
  unfolding hook_table take_page
  hooked-Kept = record {
    npages = refl;
    outside = λ j h. ground arith;
    entries = λ j w h ne. ground (arith, λ (p : j ≡ t) (q : w ≡ i). ne (ap₂ s.frames p q ∙ empty));
    counts = λ j h. ground arith;
  }
