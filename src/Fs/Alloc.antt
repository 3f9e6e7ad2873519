-- ===== src/Fs/Alloc.antt =====
-- `alloc_block` of lab/fs/fs.c: which block it takes, what it writes and what it flushes.
use mathlib.Core.Path.{subst}
use native.Mathlib.Decide.{ℕ_discrete}
use cse.Base.{
  ℕ, zero, suc, ◌+◌, ◌-◌, ◌≤◌, ◌<◌, ◌≡◌, refl, ap, ◌∙◌, true, false, not, ◌&&◌, ◌||◌, some, arith,
  ◌==◌, ==_refl,
}
use cse.Fs.{
  Disk, e_no_disk, ok, err, diskaddr, block_is_free, mark_free, free_block, flush, toggle,
  claim_block, alloc_from, alloc_block,
}
use cse.Base.{ltb, ◌≢◌, ◌/◌, ◌%◌, ◌∷◌, sym}
use cse.Base.TestBit.{bit_at}
use cse.Fs.{bitmap, block_words}
use cse.Fs.Bitmap.{free_bit, block_is_free-eq, free_bit-mark_free, free_bit-toggle}

-- The disk after `alloc_block` took block `b`.
abbrev pub allocated : ℕ → Disk → Disk
allocated b d = flush 2 (toggle b d)

s_nblocks-toggle : (b : ℕ) (d : Disk) → (toggle b d).s_nblocks ≡ d.s_nblocks
unfolding toggle
s_nblocks-toggle b d = refl

s_nblocks-mark_free : (b : ℕ) (d : Disk) → (mark_free b d).s_nblocks ≡ d.s_nblocks
unfolding mark_free
s_nblocks-mark_free b d = refl

block_is_free-flush : (b c : ℕ) (d : Disk) → block_is_free c (flush b d) ≡ block_is_free c d
unfolding block_is_free
block_is_free-flush b c d = refl

block_is_free-mark_free :
    (b c : ℕ) (d : Disk)
    → b < d.s_nblocks
    → block_is_free c (mark_free b d) ≡ ((b == c) || block_is_free c d)
block_is_free-mark_free b c d inside =
    block_is_free-eq c (mark_free b d)
    ∙ rw (s_nblocks-mark_free b d, free_bit-mark_free b c d, block_is_free-eq c d)
        (elim (ℕ_discrete b c) [
          | yes e ↦ ground (arith, subst (λ x. x < d.s_nblocks) e inside)
          | no ne ↦ ground arith
        ])

-- Of the blocks on the disk exactly `b` changes its state when its bit is turned over.
block_is_free-toggle :
    (b c : ℕ) (d : Disk)
    → block_is_free b d ≡ true
    → block_is_free c (toggle b d) ≡ (not (b == c) && block_is_free c d)
block_is_free-toggle b c d free =
    block_is_free-eq c (toggle b d)
    ∙ rw (s_nblocks-toggle b d, free_bit-toggle b c d, block_is_free-eq c d)
        (elim (ℕ_discrete b c) [
          | yes e ↦ rw e (ground (arith, was_set (subst (λ x. block_is_free x d ≡ true) e free)))
          | no ne ↦ ground arith
        ])
  where
    was_set : block_is_free c d ≡ true → free_bit c d ≡ 1
    was_set f = ground (arith, block_is_free-eq c d)

pub diskaddr-eq : (b : ℕ) (d : Disk) → 0 < b → b < d.s_nblocks → diskaddr b d ≡ some (b, d)
unfolding diskaddr
diskaddr-eq b d pos inside = ground arith

claim_block_lem :
    (b : ℕ) (d : Disk)
    → block_is_free b d ≡ true
    → 2 < d.s_nblocks
    → claim_block b d ≡ some (ok b, allocated b d)
unfolding claim_block
claim_block_lem b d free room =
    rw (diskaddr-eq 2 (toggle b d) (omega arith) reachable) (rw taken refl)
  where
    reachable : 2 < (toggle b d).s_nblocks
    reachable = rw (s_nblocks-toggle b d) room

    taken : block_is_free b (allocated b d) ≡ false
    taken =
        block_is_free-flush 2 b (toggle b d) ∙ block_is_free-toggle b b d free ∙ rw (==_refl b) refl

alloc_from-first :
    (rounds b k : ℕ) (d : Disk)
    → k < rounds
    → 2 < d.s_nblocks
    → ((i : ℕ) → i < k → block_is_free (b + i) d ≡ false)
    → block_is_free (b + k) d ≡ true
    → alloc_from rounds b d ≡ some (ok (b + k), allocated (b + k) d)
unfolding alloc_from
alloc_from-first zero b k d h room before at = absurd (omega arith)
alloc_from-first (suc rounds) b zero d h room before at =
    let here : b + 0 ≡ b = omega arith in
    rw here (rw (rw here at at) (claim_block_lem b d (rw here at at) room))
alloc_from-first (suc rounds) b (suc k) d h room before at = rw (in_use (before 0 (omega arith))) (
    alloc_from-first rounds (b + 1) k d (omega arith) room
      (λ i l. subst (λ x. block_is_free x d ≡ false) (omega arith) (before (suc i) (omega arith)))
      (subst (λ x. block_is_free x d ≡ true) (omega arith) at)
    ∙ ap (λ x. some (ok x, allocated x d)) (omega arith))
  where
    in_use : block_is_free (b + 0) d ≡ false → block_is_free b d ≡ false
    in_use e = subst (λ x. block_is_free x d ≡ false) (omega arith) e

alloc_from-full :
    (rounds b : ℕ) (d : Disk)
    → ((i : ℕ) → i < rounds → block_is_free (b + i) d ≡ false)
    → alloc_from rounds b d ≡ some (err e_no_disk, d)
unfolding alloc_from
alloc_from-full zero b d none_free = refl
alloc_from-full (suc rounds) b d none_free = rw (in_use (none_free 0 (omega arith))) (
    alloc_from-full rounds (b + 1) d
      λ i l. subst (λ x. block_is_free x d ≡ false) (omega arith) (none_free (suc i) (omega arith)))
  where
    in_use : block_is_free (b + 0) d ≡ false → block_is_free b d ≡ false
    in_use e = subst (λ x. block_is_free x d ≡ false) (omega arith) e

module _ (b : ℕ) (d : Disk) (pos : 0 < b) (room : 2 < d.s_nblocks)
    (before : (c : ℕ) → 0 < c → c < b → block_is_free c d ≡ false)
    (at : block_is_free b d ≡ true) where
  alloc_block-eq : alloc_block d ≡ some (ok b, allocated b d)
  unfolding alloc_block
  alloc_block-eq = subst (λ x. alloc_block d ≡ some (ok x, allocated x d)) (omega arith) found
    where
      inside : b < d.s_nblocks
      inside = ground (arith, block_is_free-eq b d)

      found : alloc_block d ≡ some (ok (1 + (b - 1)), allocated (1 + (b - 1)) d)
      found =
          alloc_from-first (d.s_nblocks - 1) 1 (b - 1) d (omega (arith, inside)) room
            (λ i l. before (1 + i) (omega arith) (omega arith))
            (subst (λ x. block_is_free x d ≡ true) (omega arith) at)

  after_alloc : (c : ℕ) → block_is_free c (allocated b d) ≡ (not (b == c) && block_is_free c d)
  after_alloc c = block_is_free-flush 2 c (toggle b d) ∙ block_is_free-toggle b c d at

  -- On a disk of more than two blocks `alloc_block` takes the lowest free block above 0: it returns
  -- that block, which is then in use, and every other block keeps its state.
  pub alloc_block-first :
      (d' : Disk) × (alloc_block d ≡ some (ok b, d'))
      × ((c : ℕ) → block_is_free c d' ≡ (not (b == c) && block_is_free c d))
  alloc_block-first = (allocated b d, alloc_block-eq, after_alloc)

  -- Where the lowest free block is 32768 or more, `alloc_block` flushes block 2, but the bitmap word
  -- that it changes lies in another block, which is not flushed.
  pub alloc_block-flushes :
      32768 ≤ b
      → (d' : Disk) × (alloc_block d ≡ some (ok b, d'))
        × (d'.flushed ≡ 2 ∷ d.flushed)
        × (bitmap d' (b / 32) ≢ bitmap d (b / 32))
        × (2 < 2 + b / 32 / block_words)
  unfolding toggle
  alloc_block-flushes far = (
    allocated b d,
    alloc_block-eq,
    refl,
    λ e. ground (arith, sym (still_free e) ∙ now_used),
    omega arith,
  )
    where
      now_used : block_is_free b (allocated b d) ≡ false
      now_used = after_alloc b ∙ rw (==_refl b) refl

      still_free :
          bitmap (allocated b d) (b / 32) ≡ bitmap d (b / 32)
          → block_is_free b (allocated b d) ≡ true
      still_free e =
          block_is_free-eq b (allocated b d)
          ∙ ap (λ w. ltb b d.s_nblocks && (bit_at w (b % 32) == 1)) e
          ∙ sym (block_is_free-eq b d)
          ∙ at

-- With no free block above 0 it reports -E_NO_DISK and changes nothing.
pub alloc_block-full :
    (d : Disk)
    → ((c : ℕ) → 0 < c → block_is_free c d ≡ false)
    → alloc_block d ≡ some (err e_no_disk, d)
unfolding alloc_block
alloc_block-full d none_free =
    alloc_from-full (d.s_nblocks - 1) 1 d (λ i l. none_free (1 + i) (omega arith))

-- A block in use that is freed is the one allocated next, if no lower one is free, and the set of
-- free blocks is then as it was.
pub alloc_block-free_block :
    (b : ℕ) (d : Disk)
    → 0 < b
    → b < d.s_nblocks
    → 2 < d.s_nblocks
    → ((c : ℕ) → 0 < c → c ≤ b → block_is_free c d ≡ false)
    → (d₁ d₂ : Disk) × (free_block b d ≡ some (tt, d₁))
      × (block_is_free b d₁ ≡ true)
      × (alloc_block d₁ ≡ some (ok b, d₂))
      × ((c : ℕ) → block_is_free c d₂ ≡ block_is_free c d)
unfolding free_block
alloc_block-free_block b d pos inside room used =
    let (d₂, took, after) =
      alloc_block-first b d₁ pos room
        (λ c p l. freed c ∙ rw (used c p (omega arith)) (ground arith)) freed_b in
    (
      d₁,
      d₂,
      rw not_zero,
      freed_b,
      took,
      λ c.
          after c
          ∙ rw (freed c) (elim (ℕ_discrete b c) [
            | yes e ↦
                rw (subst (λ x. block_is_free x d ≡ false) e (used b pos (omega arith)))
                  (ground arith)
            | no ne ↦ ground arith
          ]),
    )
  where
    d₁ : Disk
    d₁ = mark_free b d

    not_zero : (b == 0) ≡ false
    not_zero = ground arith

    freed : (c : ℕ) → block_is_free c d₁ ≡ ((b == c) || block_is_free c d)
    freed c = block_is_free-mark_free b c d inside

    freed_b : block_is_free b d₁ ≡ true
    freed_b = freed b ∙ rw (==_refl b)
