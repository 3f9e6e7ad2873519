-- ===== src/Fs/Path/Elements.antt =====
-- The elements of a path, as `walk_path` of lab/fs/fs.c takes them off the path.
use cse.Base.{
  ℕ, ◌≤◌, true, false, List, [], ◌∷◌, length, ◌==◌, if◌then◌else◌, ◌≡◌, inl, inr, refl, sym, ap,
  ◌∙◌, arith, Bool-cases,
}
use cse.Fs.Path.{skip_slash, next_element}

to_head : ℕ → List (List ℕ) → List (List ℕ)
to_head c [] = (c ∷ []) ∷ []
to_head c (run ∷ runs) = (c ∷ run) ∷ runs

-- The runs of characters between the slashes of a path.
split : List ℕ → List (List ℕ)
unfolding to_head
split [] = [] ∷ []
split (c ∷ cs) = let runs = split cs in if c == 47 then [] ∷ runs else to_head c runs

drop_empty : List (List ℕ) → List (List ℕ)
drop_empty [] = []
drop_empty ([] ∷ runs) = drop_empty runs
drop_empty ((c ∷ cs) ∷ runs) = (c ∷ cs) ∷ drop_empty runs

-- The names between the slashes.
unfoldable pub elements : List ℕ → List (List ℕ)
unfolding split drop_empty
elements path = drop_empty (split path)

pub length-skip_slash : (path : List ℕ) → length (skip_slash path) ≤ length path
unfolding skip_slash
length-skip_slash [] = omega arith
length-skip_slash (c ∷ cs) = ground (arith, length-skip_slash cs)

pub skip_slash_idem : (path : List ℕ) → skip_slash (skip_slash path) ≡ skip_slash path
unfolding skip_slash
skip_slash_idem [] = refl
skip_slash_idem (c ∷ cs) = elim (Bool-cases (c == 47)) [
  | inl e ↦ rw e (skip_slash_idem cs)
  | inr e ↦ rw e (rw e refl)
]

pub elements-skip_slash : (path : List ℕ) → elements (skip_slash path) ≡ elements path
unfolding skip_slash elements
elements-skip_slash [] = refl
elements-skip_slash (c ∷ cs) = elim (Bool-cases (c == 47)) [
  | inl e ↦ rw e (elements-skip_slash cs)
  | inr e ↦ rw e (rw e refl)
]

-- A path that `skip_slash` leaves alone does not start with a slash.
pub not_slash : (c : ℕ) (cs : List ℕ) → skip_slash (c ∷ cs) ≡ c ∷ cs → (c == 47) ≡ false
unfolding skip_slash
not_slash c cs h = elim (Bool-cases (c == 47)) [
  | inl e ↦ absurd (shorter (sym (skips e) ∙ h))
  | inr e ↦ e
]
  where
    skips : (c == 47) ≡ true → skip_slash (c ∷ cs) ≡ skip_slash cs
    skips e = rw e refl

    shorter : skip_slash cs ≡ c ∷ cs → ⊥
    shorter g = omega (arith, length-skip_slash cs, ap length g)

-- The runs behind the first one, where `rest` is what follows the first run.
behind : List ℕ → List (List ℕ)
behind [] = []
behind (c ∷ cs) = split cs

split-next_element :
    (path : List ℕ)
    → let (name, rest) = next_element path in
      (split path ≡ name ∷ behind rest) × (elements rest ≡ drop_empty (behind rest))
unfolding split next_element behind elements
split-next_element [] = (refl, refl)
split-next_element (c ∷ cs) = elim (Bool-cases (c == 47)) [
  | inl e ↦ rw e (refl, rw e refl)
  | inr e ↦ rw e (rw ((split-next_element cs).0) (refl, (split-next_element cs).1))
]

length-next_element_le :
    (path : List ℕ) → let (name, rest) = next_element path in length rest ≤ length path
unfolding next_element
length-next_element_le [] = omega arith
length-next_element_le (c ∷ cs) = elim (Bool-cases (c == 47)) [
  | inl e ↦ rw e (omega arith)
  | inr e ↦ rw e (omega (arith, length-next_element_le cs))
]

module _ (c : ℕ) (cs : List ℕ) (h : (c == 47) ≡ false) where
  -- The element in front of a path that starts with no slash, and the elements behind it.
  pub elements-next_element :
      let (name, rest) = next_element (c ∷ cs) in elements (c ∷ cs) ≡ name ∷ elements rest
  unfolding next_element elements
  elements-next_element =
      rw (h, (split-next_element cs).0)
        (ap ((c ∷ (next_element cs).0) ∷◌) (sym (split-next_element cs).1))

  pub length-next_element : let (name, rest) = next_element (c ∷ cs) in length rest ≤ length cs
  unfolding next_element
  length-next_element = rw h (length-next_element_le cs)
