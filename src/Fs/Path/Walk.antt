-- ===== src/Fs/Path/Walk.antt =====
-- `walk_path` of lab/fs/fs.c against a walk over the list of the elements of the path.
use mathlib.Core.Path.{subst}
use cse.Base.{
  ℕ, zero, suc, ◌+◌, ◌<◌, Bool, true, false, Option, none, some, List, [], ◌∷◌, All, length, leb,
  ◌==◌, if◌then◌else◌, ◌≡◌, inl, inr, refl, sym, ap, ◌∙◌, arith, Bool-cases, Option-cases,
}
use cse.Fs.{Disk, D, pure, Result, err, e_not_found, e_bad_path}
use cse.Fs.Files.Read.{bind-some}
use cse.Fs.Directory.{FilePtr, s_root, maxnamelen, f_type, is_named, dir_lookup, found_or}
use cse.Fs.Directory.Lookup.{entries, first, IsDir, dir_lookup_lem}
use cse.Fs.Path.{
  skip_slash, next_element, Walked, failed, arrived, missing_last, lookup_failed, next_file, enter,
  walk_from, walk_path,
}
use cse.Fs.Path.Elements.{
  elements, length-skip_slash, skip_slash_idem, elements-skip_slash, not_slash,
  elements-next_element, length-next_element,
}

-- The files that can be reached from the root, of which the directories have whole blocks and no
-- holes.
pub record IsTree (S : FilePtr → Type 0) (d : Disk) : Type 0 where
  pub root : S s_root
  pub dirs : (p : FilePtr) → S p → (f_type p d == 1) ≡ true → IsDir p d
  pub children : (p : FilePtr) → S p → (f_type p d == 1) ≡ true → All S (entries p d)

-- What is reported when `name` is not in `dir`, with further names behind it.
abbrev pub not_there : FilePtr → List ℕ → List (List ℕ) → Walked
not_there dir name [] = missing_last dir name
not_there dir name (n ∷ names) = failed e_not_found

abbrev pub choose : Walked → (FilePtr → Walked) → Option FilePtr → Walked
choose absent found none = absent
choose absent found (some p) = found p

-- The walk from `f`, which was found in `dir`, over a list of names.
unfoldable pub resolve : Disk → Option FilePtr → FilePtr → List (List ℕ) → Walked
resolve d dir f [] = arrived dir f
resolve d dir f (name ∷ names) =
    if leb maxnamelen (length name)
    then failed e_bad_path
    else if f_type f d == 1
    then choose (not_there f name names) (λ q. resolve d (some f) q names)
        (first (λ p. is_named name p d) (entries f d))
    else failed e_not_found

first-All :
    (S : FilePtr → Type 0) (test : FilePtr → Bool) (ps : List FilePtr) (q : FilePtr)
    → All S ps
    → first test ps ≡ some q
    → S q
unfolding first
first-All S test [] q all e = absurd (ground arith)
first-All S test (p ∷ ps) q all e = elim (Bool-cases (test p)) [
  | inl t ↦ subst S (cc (sym (taken t) ∙ e)) all.0
  | inr t ↦ first-All S test ps q all.1 (sym (passed t) ∙ e)
]
  where
    taken : test p ≡ true → first test (p ∷ ps) ≡ some p
    taken t = rw t refl

    passed : test p ≡ false → first test (p ∷ ps) ≡ first test ps
    passed t = rw t refl

module _ (d : Disk) (S : FilePtr → Type 0) (tree : IsTree S d) where
  -- With nothing left of the path there are no names left.
  lookup_failed-eq :
      (dir : FilePtr) (name rest : List ℕ)
      → skip_slash rest ≡ rest
      → lookup_failed dir name rest e_not_found ≡ not_there dir name (elements rest)
  unfolding elements
  lookup_failed-eq dir name [] h = refl
  lookup_failed-eq dir name (c ∷ cs) h = rw (elements-next_element c cs (not_slash c cs h)) refl

  enter-eq :
      (go_on : Option FilePtr → FilePtr → List ℕ → D Walked) (dir : Option FilePtr) (f : FilePtr)
      (name rest : List ℕ)
      → S f
      → skip_slash rest ≡ rest
      → ((q : FilePtr)
          → S q
          → go_on (some f) q rest d ≡ some (resolve d (some f) q (elements rest), d))
      → enter go_on f name rest d ≡ some (resolve d dir f (name ∷ elements rest), d)
  unfolding resolve
  enter-eq go_on dir f name rest s h goes = elim (Bool-cases (leb maxnamelen (length name))) [
    | inl long ↦ rw long refl
    | inr short ↦ rw short (elim (Bool-cases (f_type f d == 1)) [
      | inr other ↦ rw other refl
      | inl is_dir ↦ rw is_dir (elim (Option-cases (first (λ p. is_named name p d) (entries f d))) [
        | inl e ↦
            bind-some (dir_lookup name f) next (looked is_dir none e)
            ∙ rw (e, lookup_failed-eq f name rest h) refl
        | inr (q, e) ↦
            bind-some (dir_lookup name f) next (looked is_dir (some q) e)
            ∙ rw e (
                goes q (
                  first-All S (λ p. is_named name p d) (entries f d) q (tree.children f s is_dir)
                    e))
      ])
    ])
  ]
    where
      looked :
          (f_type f d == 1) ≡ true
          → (o : Option FilePtr) → first (λ p. is_named name p d) (entries f d) ≡ o
          → dir_lookup name f d ≡ found_or (pure (err e_not_found)) o d
      looked is_dir o e =
          dir_lookup_lem f d (tree.dirs f s is_dir) name
          ∙ ap (λ x. found_or (pure (err e_not_found)) x d) e

      next : Result FilePtr → D Walked
      next = next_file (λ f'. go_on (some f) f' rest) f name rest

  walk_from-eq :
      (fuel : ℕ) (dir : Option FilePtr) (f : FilePtr) (path : List ℕ)
      → S f
      → skip_slash path ≡ path
      → length path < fuel
      → walk_from fuel dir f path d ≡ some (resolve d dir f (elements path), d)
  unfolding walk_from resolve elements
  walk_from-eq zero dir f path s h l = absurd (omega arith)
  walk_from-eq (suc fuel) dir f [] s h l = refl
  walk_from-eq (suc fuel) dir f (c ∷ cs) s h l =
      enter-eq (walk_from fuel) dir f name (skip_slash rest) s (skip_slash_idem rest) (λ q sq.
        walk_from-eq fuel (some f) q (skip_slash rest) sq (skip_slash_idem rest)
          (omega (arith, length-skip_slash rest, length-next_element c cs (not_slash c cs h))))
      ∙ rw (elements-next_element c cs (not_slash c cs h), elements-skip_slash rest) refl
    where
      name : List ℕ
      name = (next_element (c ∷ cs)).0

      rest : List ℕ
      rest = (next_element (c ∷ cs)).1

-- On a disk whose directories have whole blocks and no holes, `walk_path` ends, leaves the disk as
-- it is, and gives what a walk over the names between the slashes gives.
pub walk_path-resolve :
    (path : List ℕ) (d : Disk) (S : FilePtr → Type 0)
    → IsTree S d
    → walk_path path d ≡ some (resolve d none s_root (elements path), d)
unfolding walk_path
walk_path-resolve path d S tree =
    walk_from-eq d S tree (length path + 1) none s_root (skip_slash path) tree.root
      (skip_slash_idem path) (omega (arith, length-skip_slash path))
    ∙ rw (elements-skip_slash path) refl
