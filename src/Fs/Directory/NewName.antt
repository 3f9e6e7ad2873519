-- ===== src/Fs/Directory/NewName.antt =====
-- What a new name in an unused entry of a directory makes of the directory, lab/fs/fs.c.
use mathlib.Core.Path.{subst, ap₂}
use native.Mathlib.Decide.{ℕ_discrete}
use cse.Base.{
  ℕ, zero, suc, ◌+◌, ◌-◌, ◌*◌, ◌≤◌, ◌<◌, true, false, ◌&&◌, List, [], ◌∷◌, All, length, get_or, leb,
  ltb, ◌≡◌, ◌≢◌, ◌⊎◌, inl, inr, refl, sym, ap, ◌∙◌, arith, Bool-cases,
}
use cse.Fs.{Disk}
use cse.Fs.Files.{byte_at}
use cse.Fs.Writing.{copy_in}
use cse.Fs.Writing.Bytes.{byte_at-copy_in, byte_at-copy_in_ne}
use cse.Fs.Directory.{file_in, f_name, same_name, is_named, is_unused, maxnamelen}

-- A C string of bytes: no null character in it.
abbrev pub IsString : List ℕ → Type 0
IsString cs = All (λ c. (0 < c) × (c < 256)) cs

same_name-cong :
    (name : List ℕ) (s t : ℕ → ℕ) (k : ℕ)
    → ((i : ℕ) → k ≤ i → i ≤ k + length name → s i ≡ t i)
    → same_name name s k ≡ same_name name t k
unfolding same_name
same_name-cong [] s t k h = rw (h k (omega arith) (omega arith)) refl
same_name-cong (c ∷ cs) s t k h =
    rw
      (
        h k (omega arith) (omega arith),
        same_name-cong cs s t (k + 1) (λ i from below. h i (omega arith) (omega arith)),
      )
      refl

-- The string that stands at `k`.
same_name-get_or :
    (name : List ℕ) (s : ℕ → ℕ) (k : ℕ)
    → ((i : ℕ) → i ≤ length name → s (k + i) ≡ get_or name i 0)
    → same_name name s k ≡ true
unfolding same_name
same_name-get_or [] s k h = ground (arith, here)
  where
    here : s k ≡ 0
    here = subst (λ x. s x ≡ 0) (omega arith) (h 0 (omega arith))
same_name-get_or (c ∷ cs) s k h =
    rw (same_name-get_or cs s (k + 1) (λ i l. ap s (omega arith) ∙ h (suc i) (omega arith)))
      (ground (arith, here))
  where
    here : s k ≡ c
    here = subst (λ x. s x ≡ c) (omega arith) (h 0 (omega arith))

-- One string stands at a place.
same_name_unique :
    (m n : List ℕ) (s : ℕ → ℕ) (k : ℕ)
    → IsString m
    → IsString n
    → same_name m s k ≡ true
    → same_name n s k ≡ true
    → m ≡ n
unfolding same_name
same_name_unique [] [] s k um un hm hn = refl
same_name_unique [] (c ∷ cs) s k um un hm hn = absurd (ground (arith, un.0.0))
same_name_unique (c ∷ cs) [] s k um un hm hn = absurd (ground (arith, um.0.0))
same_name_unique (c ∷ cs) (e ∷ es) s k um un hm hn =
    ap₂ (λ x xs. x ∷ xs) (ground (arith, hm, hn))
      (same_name_unique cs es s (k + 1) um.1 un.1 (ground (arith, hm)) (ground (arith, hn)))

get_or-lt : (name : List ℕ) (i : ℕ) → IsString name → get_or name i 0 < 256
get_or-lt [] i s = omega arith
get_or-lt (c ∷ cs) zero s = s.0.1
get_or-lt (c ∷ cs) (suc i) s = get_or-lt cs i s.1

-- The bytes of a string, the null character behind it included.
abbrev pub chars : List ℕ → ℕ → ℕ
chars name i = get_or name i 0

-- The entry `j` of block `b` has got the name.
module _ (b j : ℕ) (name : List ℕ) (d : Disk) where
  abbrev pub named : Disk
  named = copy_in d b (4 * (64 * j)) 0 (length name + 1) (chars name)

  f_name_self :
      (i : ℕ) → IsString name → i ≤ length name → f_name (file_in b j) named i ≡ get_or name i 0
  f_name_self i str le =
      byte_at-copy_in d b (4 * (64 * j)) 0 (length name + 1) (chars name) (4 * (64 * j) + i)
      ∙ rw (inside) (omega (arith, get_or-lt name i str, ap (λ x. get_or name x 0) index))
    where
      inside :
          (leb (4 * (64 * j)) (4 * (64 * j) + i)
            && ltb (4 * (64 * j) + i) (4 * (64 * j) + (length name + 1)))
          ≡ true
      inside = ground (arith, le)

      index : 0 + (4 * (64 * j) + i - 4 * (64 * j)) ≡ i
      index = omega arith

  byte_at-outside :
      (x : ℕ)
      → (x < 4 * (64 * j)) ⊎ (4 * (64 * j) + length name < x)
      → byte_at named b x ≡ byte_at d b x
  byte_at-outside x out =
      byte_at-copy_in d b (4 * (64 * j)) 0 (length name + 1) (chars name) x ∙ rw outside refl
    where
      outside : (leb (4 * (64 * j)) x && ltb x (4 * (64 * j) + (length name + 1))) ≡ false
      outside = elim out [ inl l ↦ ground (arith, l) | inr g ↦ ground (arith, g) ]

  -- The rest of the entry is as it was.
  pub f_name-rest :
      (i : ℕ) → length name < i → f_name (file_in b j) named i ≡ f_name (file_in b j) d i
  f_name-rest i h = byte_at-outside (4 * (64 * j) + i) (inr (omega arith))

  f_name-other :
      (c k i : ℕ)
      → length name < maxnamelen
      → (c ≢ b) ⊎ (k ≢ j)
      → i < maxnamelen
      → f_name (file_in c k) named i ≡ f_name (file_in c k) d i
  f_name-other c k i short other h = elim (ℕ_discrete c b) [
    | no ne ↦
        byte_at-copy_in_ne d b c (4 * (64 * j)) 0 (length name + 1) (chars name) (4 * (64 * k) + i)
          ne
    | yes e ↦ rw e (
        byte_at-outside (4 * (64 * k) + i)
          (elim other [ inl ne ↦ absurd (ne e) | inr ne ↦ apart ne ]))
  ]
    where
      apart :
          k ≢ j
          → (4 * (64 * k) + i < 4 * (64 * j)) ⊎ (4 * (64 * j) + length name < 4 * (64 * k) + i)
      apart ne = elim (Bool-cases (ltb k j)) [
        | inl l ↦ inl (ground arith)
        | inr g ↦ inr (ground arith)
      ]

  pub is_named_self : IsString name → is_named name (file_in b j) named ≡ true
  is_named_self str = same_name-get_or name (f_name (file_in b j) named) 0 (λ i le.
      let start : 0 + i ≡ i = omega arith in
      ap (f_name (file_in b j) named) start ∙ f_name_self i str le)

  pub is_named-other :
      (c k : ℕ) (n : List ℕ)
      → length name < maxnamelen
      → length n < maxnamelen
      → (c ≢ b) ⊎ (k ≢ j)
      → is_named n (file_in c k) named ≡ is_named n (file_in c k) d
  is_named-other c k n short short' other =
      same_name-cong n (f_name (file_in c k) named) (f_name (file_in c k) d) 0
        (λ i from below. f_name-other c k i short other (omega arith))

  -- An unused entry has no name, and now it has this one only.
  pub is_named-unused :
      (n : List ℕ)
      → IsString name
      → IsString n
      → n ≢ name
      → n ≢ []
      → is_unused (file_in b j) d ≡ true
      → is_named n (file_in b j) named ≡ is_named n (file_in b j) d
  unfolding same_name
  is_named-unused [] str str' ne full unused = absurd (full refl)
  is_named-unused (c ∷ cs) str str' ne full unused = now ∙ sym before
    where
      now : is_named (c ∷ cs) (file_in b j) named ≡ false
      now = elim (Bool-cases (is_named (c ∷ cs) (file_in b j) named)) [
        | inl e ↦ absurd (
            ne (
              same_name_unique (c ∷ cs) name (f_name (file_in b j) named) 0 str' str e
                (is_named_self str)))
        | inr e ↦ e
      ]

      before : is_named (c ∷ cs) (file_in b j) d ≡ false
      before = ground (arith, str'.0.0, unused)
