-- ===== src/Fs/Bitmap.antt =====
-- The free block bitmap of lab/fs/fs.c as a set of blocks: what the tests and updates of single
-- bits mean.
use native.Mathlib.Decide.{ℕ_discrete}
use cse.Base.{
  ℕ, zero, suc, ◌-◌, ◌*◌, ◌/◌, ◌%◌, ◌^◌, ◌<◌, ◌≡◌, ◌≢◌, refl, ap, ◌∙◌, Bool, true, false, not, ◌&&◌,
  arith, ◌==◌, ltb, if◌then◌else◌,
}
use Prim.Native.Nat.{bit_or, bit_xor}
use cse.Base.TestBit.{bit_at, bit_at-lt, bit_and-pow, bit_at-set, bit_at-flip}
use cse.Fs.{Disk, block_words, bitmap, set_bitmap, mask, block_is_free, mark_free, toggle}
use native.Mathlib.Nat.{pow-suc}

-- The bit of block `b`.
abbrev pub free_bit : ℕ → Disk → ℕ
free_bit b d = bit_at (bitmap d (b / 32)) (b % 32)

bitmap-set_bitmap :
    (i j v : ℕ) (d : Disk) → bitmap (set_bitmap i v d) j ≡ (if i == j then v else bitmap d j)
bitmap-set_bitmap i j v d = elim (ℕ_discrete i j) [
  | yes e ↦ rw e (ground arith)
  | no ne ↦ ground (arith, apart ne)
]
  where
    apart : i ≢ j → (i / block_words ≡ j / block_words) → (i % block_words ≡ j % block_words) → ⊥
    apart ne p q = omega arith

pow_pos : (i : ℕ) → 0 < 2 ^ i
pow_pos zero = omega arith
pow_pos (suc i) = rw pow-suc (omega (arith, pow_pos i))

pub block_is_free-eq :
    (b : ℕ) (d : Disk) → block_is_free b d ≡ (ltb b d.s_nblocks && (free_bit b d == 1))
unfolding block_is_free
block_is_free-eq b d =
    rw (bit_and-pow (bitmap d (b / 32)) (b % 32))
      (ground (arith, masked (free_bit b d) (b % 32) (bit_at-lt (bitmap d (b / 32)) (b % 32))))
  where
    masked : (x i : ℕ) → x < 2 → not (x * 2 ^ i == 0) ≡ (x == 1)
    masked zero i h = ground arith
    masked (suc zero) i h = ground (arith, pow_pos i)
    masked (suc (suc x)) i h = absurd (omega arith)

-- A write of the bitmap word that holds block `b`, seen from block `c`.
module _ (b c v : ℕ) (d : Disk) where
  free_bit-set_bitmap :
      free_bit c (set_bitmap (b / 32) v d)
      ≡ (if b / 32 == c / 32 then bit_at v (c % 32) else free_bit c d)
  free_bit-set_bitmap =
      ap (λ w. bit_at w (c % 32)) (bitmap-set_bitmap (b / 32) (c / 32) v d)
      ∙ if_bit (b / 32 == c / 32)
    where
      if_bit :
          (t : Bool)
          → bit_at (if t then v else bitmap d (c / 32)) (c % 32)
            ≡ (if t then bit_at v (c % 32) else free_bit c d)
      if_bit true = refl
      if_bit false = refl

module _ (b c : ℕ) (d : Disk) where
  same_word : b / 32 ≡ c / 32 → bit_at (bitmap d (b / 32)) (c % 32) ≡ free_bit c d
  same_word e = ap (λ i. bit_at (bitmap d i) (c % 32)) e

  block_eq : b / 32 ≡ c / 32 → b % 32 ≡ c % 32 → b ≡ c
  block_eq p q = omega arith

  -- `free_block` sets the block's bit and no other.
  pub free_bit-mark_free : free_bit c (mark_free b d) ≡ (if b == c then 1 else free_bit c d)
  unfolding mark_free
  free_bit-mark_free =
      free_bit-set_bitmap b c (bit_or (bitmap d (b / 32)) (mask b)) d
      ∙ rw (bit_at-set (bitmap d (b / 32)) (b % 32) (c % 32)) (ground (arith, same_word, block_eq))

  -- `alloc_block` turns the block's bit over and no other.
  pub free_bit-toggle :
      free_bit c (toggle b d) ≡ (if b == c then 1 - free_bit c d else free_bit c d)
  unfolding toggle
  free_bit-toggle =
      free_bit-set_bitmap b c (bit_xor (bitmap d (b / 32)) (mask b)) d
      ∙ rw (bit_at-flip (bitmap d (b / 32)) (b % 32) (c % 32)) (ground (arith, same_word, block_eq))
