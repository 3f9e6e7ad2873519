-- ===== src/Fs/Directory/Insert.antt =====
-- Lookups in a directory, lab/fs/fs.c, after an unused entry of it has got a name.
use mathlib.Core.Path.{subst, ap₂}
use native.Mathlib.Decide.{ℕ_discrete}
use cse.Base.{
  ℕ, zero, suc, ◌+◌, ◌-◌, ◌*◌, ◌/◌, ◌%◌, ◌<◌, Bool, true, false, none, some, List, [], ◌∷◌, ◌++◌,
  All, length, ltb, if◌then◌else◌, ◌≡◌, ◌≢◌, ◌⊎◌, inl, inr, refl, sym, ap, ◌∙◌, arith, Bool-cases,
}
use cse.Fs.{Disk, blksize, ndirect}
use cse.Fs.Files.Read.{block_no, NoHoles}
use cse.Fs.Writing.Bytes.{s_nblocks-copy_in, words-copy_in}
use cse.Fs.Directory.{FilePtr, file_in, load, blkfiles, is_named, is_unused, maxnamelen}
use cse.Fs.Directory.Lookup.{entries_in, entries_from, entries, first, IsDir}
use cse.Fs.Directory.NewName.{
  IsString, chars, named, is_named_self, is_named-other, is_named-unused,
}

-- The entries of a block start at a multiple of 64 words.
abbrev InBlock : FilePtr → Type 0
InBlock q = (k : ℕ) × (q ≡ file_in q.block k)

All-append : (P : FilePtr → Type 0) (ps qs : List FilePtr) → All P ps → All P qs → All P (ps ++ qs)
All-append P [] qs a b = b
All-append P (p ∷ ps) qs a b = (a.0, All-append P ps qs a.1 b)

entries_in-InBlock : (b n j : ℕ) → All InBlock (entries_in b n j)
entries_in-InBlock b zero j = tt
entries_in-InBlock b (suc n) j = ((j, refl), entries_in-InBlock b n (j + 1))

entries_from-InBlock : (dir : FilePtr) (d : Disk) (n i : ℕ) → All InBlock (entries_from dir d n i)
entries_from-InBlock dir d zero i = tt
entries_from-InBlock dir d (suc n) i =
    All-append InBlock (entries_in b blkfiles 0) (entries_from dir d n (i + 1))
      (entries_in-InBlock b blkfiles 0) (entries_from-InBlock dir d n (i + 1))
  where
    b : ℕ
    b = block_no (load dir d) d i

first-cong :
    (P : FilePtr → Type 0) (test test' : FilePtr → Bool) (ps : List FilePtr)
    → All P ps
    → ((q : FilePtr) → P q → test' q ≡ test q)
    → first test' ps ≡ first test ps
unfolding first
first-cong P test test' [] a h = refl
first-cong P test test' (p ∷ ps) a h = rw (h p a.0, first-cong P test test' ps a.1 h) refl

first-some :
    (test : FilePtr → Bool) (q : FilePtr) (qs : List FilePtr) (p : FilePtr)
    → first test (q ∷ qs) ≡ some p
    → ((test q ≡ true) × (q ≡ p)) ⊎ (first test qs ≡ some p)
unfolding first
first-some test q qs p e = elim (Bool-cases (test q)) [
  | inl t ↦ inl (t, cc (sym (taken t) ∙ e))
  | inr t ↦ inr (sym (passed t) ∙ e)
]
  where
    taken : test q ≡ true → first test (q ∷ qs) ≡ some q
    taken t = rw t refl

    passed : test q ≡ false → first test (q ∷ qs) ≡ first test qs
    passed t = rw t refl

first-none :
    (test : FilePtr → Bool) (q : FilePtr) (qs : List FilePtr)
    → first test (q ∷ qs) ≡ none
    → (test q ≡ false) × (first test qs ≡ none)
unfolding first
first-none test q qs e = ground (arith, e)

first-true :
    (test : FilePtr → Bool) (ps : List FilePtr) (p : FilePtr)
    → first test ps ≡ some p
    → test p ≡ true
unfolding first
first-true test [] p e = absurd (ground (arith, e))
first-true test (q ∷ qs) p e = elim (first-some test q qs p e) [
  | inl (t, same) ↦ subst (λ x. test x ≡ true) same t
  | inr later ↦ first-true test qs p later
]

-- The element that the first test finds is the only one that passes the last test, since none
-- passed before.
first-new :
    (P : FilePtr → Type 0) (test old now : FilePtr → Bool) (ps : List FilePtr) (p : FilePtr)
    → All P ps
    → first test ps ≡ some p
    → first old ps ≡ none
    → now p ≡ true
    → ((q : FilePtr) → P q → (q ≡ p) ⊎ (now q ≡ old q))
    → first now ps ≡ some p
unfolding first
first-new P test old now [] p a e e' yes_p others = absurd (ground (arith, e))
first-new P test old now (q ∷ qs) p a e e' yes_p others = elim (others q a.0) [
  | inl same ↦ here same
  | inr as_before ↦ elim (first-some test q qs p e) [
    | inl (t, same) ↦ here same
    | inr later ↦
        rw (as_before, (first-none old q qs e').0)
          (first-new P test old now qs p a.1 later (first-none old q qs e').1 yes_p others)
  ]
]
  where
    here : q ≡ p → first now (q ∷ qs) ≡ some p
    here same = rw (subst (λ x. now x ≡ true) (sym same) yes_p) (ap some same)

-- The directory does not hold its own struct in the block `b`, nor its block numbers.
module _ (dir : FilePtr) (b j : ℕ) (name : List ℕ) (d : Disk) (is_dir : IsDir dir d)
    (apart : dir.block ≢ b) (apart' : (load dir d).f_indirect ≢ b) where
  abbrev pub d' : Disk
  d' = named b j name d

  pub load-named : load dir d' ≡ load dir d
  load-named =
      ap
        (λ (w : ℕ → ℕ). record {
          f_size = w (dir.word + 32);
          f_direct = λ i. w (dir.word + 34 + i);
          f_indirect = w (dir.word + 44);
        })
        (words-copy_in d b dir.block (4 * (64 * j)) 0 (length name + 1) (chars name) apart)

  block_no-named : (i : ℕ) → block_no (load dir d') d' i ≡ block_no (load dir d) d i
  block_no-named i =
      ap (λ f. block_no f d' i) load-named
      ∙ ap (λ (w : ℕ → ℕ). if ltb i ndirect then (load dir d).f_direct i else w (i - ndirect))
          (words-copy_in d b (load dir d).f_indirect (4 * (64 * j)) 0 (length name + 1) (chars name)
            apart')

  entries_from-named : (n i : ℕ) → entries_from dir d' n i ≡ entries_from dir d n i
  entries_from-named zero i = refl
  entries_from-named (suc n) i =
      ap₂ (λ c ps. entries_in c blkfiles 0 ++ ps) (block_no-named i) (entries_from-named n (i + 1))

  entries-named : entries dir d' ≡ entries dir d
  entries-named =
      ap (λ f. entries_from dir d' (f.f_size / blksize) 0) load-named
      ∙ entries_from-named ((load dir d).f_size / blksize) 0

  NoHoles-named : NoHoles (load dir d) d'
  NoHoles-named = record {
    size = is_dir.no_holes.size;
    blocks = λ n h.
        let here : block_no (load dir d) d' n ≡ block_no (load dir d) d n =
          ap (λ f. block_no f d' n) (sym load-named) ∙ block_no-named n in
        rw (here, s_nblocks-copy_in d b (4 * (64 * j)) 0 (length name + 1) (chars name))
          (is_dir.no_holes.blocks n h);
    indirect = λ h.
        rw (s_nblocks-copy_in d b (4 * (64 * j)) 0 (length name + 1) (chars name))
          (is_dir.no_holes.indirect h);
  }

  pub IsDir-named : IsDir dir d'
  IsDir-named = record {
    whole_blocks = ap (λ f. f.f_size % blksize) load-named ∙ is_dir.whole_blocks;
    no_holes = subst (λ f. NoHoles f d') (sym load-named) NoHoles-named;
  }

  module _ (str : IsString name) (short : length name < maxnamelen)
      (unused : first (λ q. is_unused q d) (entries dir d) ≡ some (file_in b j)) where
    same_or_not :
        (q : FilePtr) (k : ℕ)
        → q ≡ file_in q.block k
        → (q ≡ file_in b j) ⊎ ((q.block ≢ b) ⊎ (k ≢ j))
    same_or_not q k w = elim (ℕ_discrete q.block b) [
      | no ne ↦ inr (inl ne)
      | yes e ↦ elim (ℕ_discrete k j) [ no ne ↦ inr (inr ne) | yes e' ↦ inl (w ∙ ap₂ file_in e e') ]
    ]

    others :
        (n : List ℕ) (q : FilePtr)
        → length n < maxnamelen
        → InBlock q
        → (q ≡ file_in b j) ⊎ (is_named n q d' ≡ is_named n q d)
    others n q short' (k, w) = elim (same_or_not q k w) [
      | inl same ↦ inl same
      | inr other ↦ inr (
          subst (λ x. is_named n x d' ≡ is_named n x d) (sym w)
            (is_named-other b j name d q.block k n short short' other))
    ]

    entries-InBlock : All InBlock (entries dir d)
    entries-InBlock = entries_from-InBlock dir d ((load dir d).f_size / blksize) 0

    -- The name is found at the entry.
    pub first-named :
        first (λ q. is_named name q d) (entries dir d) ≡ none
        → first (λ q. is_named name q d') (entries dir d') ≡ some (file_in b j)
    first-named absent =
        ap (first (λ q. is_named name q d')) entries-named
        ∙ first-new InBlock (λ q. is_unused q d) (λ q. is_named name q d) (λ q. is_named name q d')
            (entries dir d) (file_in b j) entries-InBlock unused absent
            (is_named_self b j name d str) (λ q w. others name q short w)

    -- Every other name is found where it was.
    pub first-named_other :
        (n : List ℕ)
        → IsString n
        → length n < maxnamelen
        → n ≢ name
        → n ≢ []
        → first (λ q. is_named n q d') (entries dir d')
          ≡ first (λ q. is_named n q d) (entries dir d)
    first-named_other n str' short' ne full =
        ap (first (λ q. is_named n q d')) entries-named
        ∙ first-cong InBlock (λ q. is_named n q d) (λ q. is_named n q d') (entries dir d)
            entries-InBlock
            (λ q w. elim (others n q short' w) [
              | inr same ↦ same
              | inl e ↦
                  subst (λ x. is_named n x d' ≡ is_named n x d) (sym e)
                    (is_named-unused b j name d n str str' ne full
                      (first-true (λ q. is_unused q d) (entries dir d) (file_in b j) unused))
            ])
