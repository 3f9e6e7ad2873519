-- ===== src/Library/Fork/Sweep.antt =====
-- The pages that fork of lab/lib/fork.c goes over: each becomes what `Dup` says, no other changes,
-- and so no private page is left that both environments have and one of them can write.
use native.Mathlib.Decide.{ℕ_discrete}
use mathlib.Core.Path.{subst}
use Prim.Native.Nat.{bit_and}
use cse.Base.{
  Option, none, some, ℕ, zero, suc, ◌+◌, ◌-◌, ◌/◌, ◌%◌, ◌^◌, ◌≤◌, ◌<◌, Bool, true, false,
  if◌then◌else◌, ◌≡◌, ◌≢◌, ◌⊎◌, inl, inr, refl, sym, ◌∙◌, arith, Bool-cases,
}
use cse.Base.Cells.{update, update_self, update_ne}
use cse.Library.Fork.{
  pgsize, pte_p, pte_w, pte_share, pte_cow, pte_user, has, Spaces, entry, cow_perm, map_in_child,
  then_remap, duppage, dup_from, give_xstack, fork_spaces, utext, ustacktop,
}
use cse.Library.Fork.CopyOnWrite.{
  Guarded, Dup, left_out, shared, copy_on_write, read_only, Dup-isolated, Dup-present, changes,
  own_entry, child_entry,
}

-- The kernel has run out of memory for the child's page tables at some point.
abbrev pub Full : (ℕ → (ℕ → ℕ) → Bool) → Type 0
Full no_room = (pn : ℕ) × (t : ℕ → ℕ) × (no_room pn t ≡ true)

module _ (no_room : ℕ → (ℕ → ℕ) → Bool) where
  -- Page `pn` is treated by `Dup` and no other page changes.
  abbrev Treated : ℕ → Spaces → Spaces → Type 0
  Treated pn s s' =
      Dup (Full no_room) (s.vpt pn) (s'.vpt pn) (s'.child pn)
      × ((j : ℕ) → j ≢ pn → (s'.vpt j ≡ s.vpt j) × (s'.child j ≡ s.child j))

  mapped-Treated :
      (pn perm : ℕ) (s : Spaces)
      → s.child pn ≡ 0
      → Dup (Full no_room) (s.vpt pn) (s.vpt pn) (entry (s.vpt pn) perm)
      → Treated pn s (map_in_child no_room pn perm s).1
  mapped-Treated pn perm s empty dup = elim (Bool-cases (no_room pn s.child)) [
    | inl full ↦ rw full (
      subst (λ c. Dup (Full no_room) (s.vpt pn) (s.vpt pn) c) (sym empty)
          (left_out (s.vpt pn) (inr (pn, s.child, full))),
      λ j ne. (refl, refl),
    )
    | inr room ↦ rw room (
      subst (λ c. Dup (Full no_room) (s.vpt pn) (s.vpt pn) c)
          (sym (update_self s.child pn (entry (s.vpt pn) perm))) dup,
      λ j ne. (refl, update_ne s.child pn j (entry (s.vpt pn) perm) ne),
    )
  ]

  remapped-Treated :
      (pn : ℕ) (s : Spaces)
      → s.child pn ≡ 0
      → has (bit_and (s.vpt pn) pte_user) pte_share ≡ false
      → changes (s.vpt pn) ≡ true
      → Treated pn s (then_remap pn cow_perm (map_in_child no_room pn cow_perm s)).1
  remapped-Treated pn s empty private change = elim (Bool-cases (no_room pn s.child)) [
    | inl full ↦ rw full (
      subst (λ c. Dup (Full no_room) (s.vpt pn) (s.vpt pn) c) (sym empty)
          (left_out (s.vpt pn) (inr (pn, s.child, full))),
      λ j ne. (refl, refl),
    )
    | inr room ↦
        let e = entry (s.vpt pn) cow_perm in
        rw room (
          subst (λ v. Dup (Full no_room) (s.vpt pn) v (update s.child pn e pn))
              (sym (update_self s.vpt pn e))
              (subst (λ c. Dup (Full no_room) (s.vpt pn) e c) (sym (update_self s.child pn e))
                (copy_on_write (s.vpt pn) private change)),
          λ j ne. (update_ne s.vpt pn j e ne, update_ne s.child pn j e ne),
        )
  ]

  duppage-Treated : (pn : ℕ) (s : Spaces) → s.child pn ≡ 0 → Treated pn s (duppage no_room pn s).1
  unfolding duppage
  duppage-Treated pn s empty = elim (Bool-cases (has (bit_and (s.vpt pn) pte_user) pte_share)) [
    | inl share ↦
        rw share (mapped-Treated pn (bit_and (s.vpt pn) pte_user) s empty (shared (s.vpt pn) share))
    | inr private ↦ elim (Bool-cases (has (s.vpt pn % 2 ^ 12) pte_w)) [
      | inl w ↦ rw (private, w) (remapped-Treated pn s empty private (rw w refl))
      | inr no_w ↦ elim (Bool-cases (has (s.vpt pn % 2 ^ 12) pte_cow)) [
        | inl cow ↦
            rw (private, no_w, cow) (remapped-Treated pn s empty private (rw (no_w, cow) refl))
        | inr no_cow ↦
            rw (private, no_w, no_cow)
              (mapped-Treated pn (s.vpt pn % 2 ^ 12) s empty
                (read_only (s.vpt pn) private no_w no_cow))
      ]
    ]
  ]

  round : ℕ → Spaces → Spaces
  round pn s = if has (s.vpt pn) pte_p then (duppage no_room pn s).1 else s

  round-Treated : (pn : ℕ) (s : Spaces) → s.child pn ≡ 0 → Treated pn s (round pn s)
  unfolding round
  round-Treated pn s empty = elim (Bool-cases (has (s.vpt pn) pte_p)) [
    | inl present ↦ rw present (duppage-Treated pn s empty)
    | inr absent ↦ rw absent (
      subst (λ c. Dup (Full no_room) (s.vpt pn) (s.vpt pn) c) (sym empty)
          (left_out (s.vpt pn) (inl absent)),
      λ j ne. (refl, refl),
    )
  ]

  -- The loop treats the pages from `pn` on and changes no other.
  abbrev Swept : ℕ → ℕ → Spaces → Spaces → Type 0
  Swept pn end s s' =
      ((j : ℕ) → pn ≤ j → j < end → Dup (Full no_room) (s.vpt j) (s'.vpt j) (s'.child j))
      × ((j : ℕ) → (j < pn) ⊎ (end ≤ j) → (s'.vpt j ≡ s.vpt j) × (s'.child j ≡ s.child j))

  Swept-later :
      (pn end : ℕ) (s s₁ s₂ : Spaces)
      → pn < end
      → Treated pn s s₁
      → Swept (pn + 1) end s₁ s₂
      → Swept pn end s s₂
  Swept-later pn end s s₁ s₂ h (here, apart) (later, outside) = (
    λ j from below. elim (ℕ_discrete j pn) [
      | yes e ↦
          let (v, c) = outside pn (inl (omega arith)) in
          subst (λ x. Dup (Full no_room) (s.vpt x) (s₂.vpt x) (s₂.child x)) (sym e)
            (subst (λ x. Dup (Full no_room) (s.vpt pn) x (s₂.child pn)) (sym v)
              (subst (λ x. Dup (Full no_room) (s.vpt pn) (s₁.vpt pn) x) (sym c) here))
      | no ne ↦
          subst (λ x. Dup (Full no_room) x (s₂.vpt j) (s₂.child j)) (apart j ne).0
            (later j (omega (arith, from, ne)) below)
    ],
    λ j out.
        let (v, c) = outside j (further j out) in
        let (v₁, c₁) = apart j (other j out) in (v ∙ v₁, c ∙ c₁),
  )
    where
      further : (j : ℕ) → (j < pn) ⊎ (end ≤ j) → (j < pn + 1) ⊎ (end ≤ j)
      further j (inl l) = inl (omega (arith, l))
      further j (inr r) = inr r

      other : (j : ℕ) → (j < pn) ⊎ (end ≤ j) → j ≢ pn
      other j (inl l) e = omega (arith, l, e)
      other j (inr r) e = omega (arith, r, e, h)

  dup_from-Swept :
      (rounds pn : ℕ) (s : Spaces)
      → ((j : ℕ) → pn ≤ j → j < pn + rounds → s.child j ≡ 0)
      → Swept pn (pn + rounds) s (dup_from no_room rounds pn s)
  unfolding dup_from round
  dup_from-Swept zero pn s empty =
      (λ j from below. absurd (omega (arith, from, below)), λ j out. (refl, refl))
  dup_from-Swept (suc rounds) pn s empty =
      let first = round-Treated pn s (empty pn (omega arith) (omega arith)) in
      subst (λ e. Swept pn e s (dup_from no_room rounds (pn + 1) (round pn s))) (omega arith)
        (Swept-later pn (pn + 1 + rounds) s (round pn s)
          (dup_from no_room rounds (pn + 1) (round pn s)) (omega arith) first
          (dup_from-Swept rounds (pn + 1) (round pn s) (λ j from below.
            (first.1 j (λ e. omega (arith, e, from))).1
            ∙ empty j (omega (arith, from)) (omega (arith, below)))))

  Swept-last :
      (pn end : ℕ) (s s₁ s₂ : Spaces)
      → pn ≤ end
      → Swept pn end s s₁
      → Treated end s₁ s₂
      → Swept pn (end + 1) s s₂
  Swept-last pn end s s₁ s₂ h (inside, outside) (last, apart) = (
    λ j from below. elim (ℕ_discrete j end) [
      | yes e ↦
          subst (λ x. Dup (Full no_room) (s.vpt x) (s₂.vpt x) (s₂.child x)) (sym e)
            (subst (λ x. Dup (Full no_room) x (s₂.vpt end) (s₂.child end))
              (outside end (inr (omega arith))).0 last)
      | no ne ↦
          let (v, c) = apart j ne in
          subst (λ x. Dup (Full no_room) (s.vpt j) x (s₂.child j)) (sym v)
            (subst (λ x. Dup (Full no_room) (s.vpt j) (s₁.vpt j) x) (sym c)
              (inside j from (omega (arith, below, ne))))
    ],
    λ j out.
        let (v, c) = outside j (nearer j out) in
        let (v₁, c₁) = apart j (other j out) in (v₁ ∙ v, c₁ ∙ c),
  )
    where
      nearer : (j : ℕ) → (j < pn) ⊎ (end + 1 ≤ j) → (j < pn) ⊎ (end ≤ j)
      nearer j (inl l) = inl l
      nearer j (inr r) = inr (omega (arith, r))

      other : (j : ℕ) → (j < pn) ⊎ (end + 1 ≤ j) → j ≢ end
      other j (inl l) e = omega (arith, l, e, h)
      other j (inr r) e = omega (arith, r, e)

  sweep-Swept :
      (n pn : ℕ) (s : Spaces)
      → ((j : ℕ) → pn ≤ j → j < pn + n + 1 → s.child j ≡ 0)
      → Swept pn (pn + n + 1) s (duppage no_room (pn + n) (dup_from no_room n pn s)).1
  sweep-Swept n pn s empty =
      let most = dup_from-Swept n pn s (λ j from below. empty j from (omega (arith, below))) in
      Swept-last pn (pn + n) s (dup_from no_room n pn s)
        (duppage no_room (pn + n) (dup_from no_room n pn s)).1 (omega arith) most
        (duppage-Treated (pn + n) (dup_from no_room n pn s)
          ((most.1 (pn + n) (inr (omega arith))).1 ∙ empty (pn + n) (omega arith) (omega arith)))

given-vpt : (xstack : Option ℕ) (s : Spaces) (j : ℕ) → (give_xstack xstack s).vpt j ≡ s.vpt j
given-vpt none s j = refl
given-vpt (some page) s j = refl

given-child :
    (xstack : Option ℕ) (s : Spaces) (j : ℕ)
    → j < ustacktop / pgsize
    → (give_xstack xstack s).child j ≡ s.child j
given-child none s j h = refl
given-child (some page) s j h = update_ne s.child _ j _ (λ e. omega (arith, h, e))

-- What `fork` has done to the pages from UTEXT up to USTACKTOP, whatever memory the kernel has:
-- every page is as `Dup` says.
fork-Dup :
    (no_room : ℕ → (ℕ → ℕ) → Bool) (xstack : Option ℕ) (s : Spaces) (pn : ℕ)
    → ((j : ℕ) → s.child j ≡ 0)
    → utext / pgsize ≤ pn
    → pn < ustacktop / pgsize
    → let s' = fork_spaces no_room xstack s in
      Dup (Full no_room) (s.vpt pn) (s'.vpt pn) (s'.child pn)
unfolding fork_spaces
fork-Dup no_room xstack s pn empty from below =
    let s₁ = give_xstack xstack s in
    subst
      (λ x.
        Dup (Full no_room) x ((fork_spaces no_room xstack s).vpt pn)
          ((fork_spaces no_room xstack s).child pn))
      (given-vpt xstack s pn)
      ((sweep-Swept no_room ((ustacktop - pgsize - utext) / pgsize) (utext / pgsize) s₁
          (λ j l b. given-child xstack s j (omega (arith, b)) ∙ empty j)).0
        pn from (omega (arith, below)))

-- After `fork` to a child that had no pages, whatever memory the kernel had, every page from UTEXT
-- up to USTACKTOP that the child has is the caller's page, and neither of them can write it unless
-- it is shared.
pub fork-isolates :
    (no_room : ℕ → (ℕ → ℕ) → Bool) (xstack : Option ℕ) (s : Spaces) (pn : ℕ)
    → ((j : ℕ) → s.child j ≡ 0)
    → utext / pgsize ≤ pn
    → pn < ustacktop / pgsize
    → (fork_spaces no_room xstack s).child pn ≢ 0
    → let s' = fork_spaces no_room xstack s in
      Guarded (s'.vpt pn)
      × Guarded (s'.child pn)
      × (s'.vpt pn / pgsize ≡ s.vpt pn / pgsize)
      × (s'.child pn / pgsize ≡ s.vpt pn / pgsize)
fork-isolates no_room xstack s pn empty from below has_it =
    Dup-isolated (fork-Dup no_room xstack s pn empty from below) has_it

-- While the kernel has memory, `fork` gives a child that had no pages every page that is mapped
-- from UTEXT up to USTACKTOP: a shared page with its permissions, a writable or copy-on-write one
-- as copy-on-write in both, and any other with its permissions; the caller's other entries there
-- are as they were.
pub fork-gives_all :
    (no_room : ℕ → (ℕ → ℕ) → Bool) (xstack : Option ℕ) (s : Spaces) (pn : ℕ)
    → ((j : ℕ) → s.child j ≡ 0)
    → ((j : ℕ) (t : ℕ → ℕ) → no_room j t ≡ false)
    → utext / pgsize ≤ pn
    → pn < ustacktop / pgsize
    → has (s.vpt pn) pte_p ≡ true
    → let s' = fork_spaces no_room xstack s in
      (s'.vpt pn ≡ own_entry (s.vpt pn)) × (s'.child pn ≡ child_entry (s.vpt pn))
fork-gives_all no_room xstack s pn empty room from below here =
    Dup-present (fork-Dup no_room xstack s pn empty from below)
      (λ (j, t, full). cc (room j t, full)) here
