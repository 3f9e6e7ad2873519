-- ===== src/Fs/Writing/Bytes.antt =====
-- The bytes of a block that `file_write` of lab/fs/fs.c copies into, and of the other blocks.
use cse.Base.{
  ℕ, zero, suc, ◌+◌, ◌*◌, ◌/◌, ◌%◌, ◌^◌, ◌<◌, ◌&&◌, leb, ltb, ◌≡◌, ◌≢◌, inl, inr, refl, ap, ◌∙◌,
  arith, Bool-cases,
}
use cse.Base.Cells.{update_self, update_ne}
use cse.Fs.{Disk}
use cse.Fs.Files.{byte_at}
use cse.Fs.Writing.{word_of, new_byte, copy_in}

byte_at-lt : (d : Disk) (b j : ℕ) → byte_at d b j < 256
unfolding byte_at
byte_at-lt d b j = omega arith

-- The bytes of a word made of bytes.
word_of-byte : (g : ℕ → ℕ) (k : ℕ) → ((m : ℕ) → g m < 256) → k < 4 → word_of g / 256 ^ k % 256 ≡ g k
word_of-byte g zero small h = omega (arith, small 0, small 1, small 2, small 3)
word_of-byte g (suc zero) small h = omega (arith, small 0, small 1, small 2, small 3)
word_of-byte g (suc (suc zero)) small h = omega (arith, small 0, small 1, small 2, small 3)
word_of-byte g (suc (suc (suc zero))) small h = omega (arith, small 0, small 1, small 2, small 3)
word_of-byte g (suc (suc (suc (suc k)))) small h = absurd (omega (arith, h))

new_byte-lt : (d : Disk) (b off i bn : ℕ) (buf : ℕ → ℕ) (j : ℕ) → new_byte d b off i bn buf j < 256
new_byte-lt d b off i bn buf j = elim (Bool-cases (leb off j && ltb j (off + bn))) [
  | inl e ↦ rw e (omega arith)
  | inr e ↦ rw e (byte_at-lt d b j)
]

pub byte_at-copy_in :
    (d : Disk) (b off i bn : ℕ) (buf : ℕ → ℕ) (j : ℕ)
    → byte_at (copy_in d b off i bn buf) b j ≡ new_byte d b off i bn buf j
unfolding byte_at copy_in
byte_at-copy_in d b off i bn buf j =
    ap (λ w. w / 256 ^ (j % 4) % 256)
      (ap (λ f. f (j / 4))
        (update_self d.words b (λ w. word_of (λ k. new_byte d b off i bn buf (w * 4 + k)))))
    ∙ word_of-byte (λ k. new_byte d b off i bn buf (j / 4 * 4 + k)) (j % 4)
        (λ m. new_byte-lt d b off i bn buf (j / 4 * 4 + m)) (omega arith)
    ∙ ap (new_byte d b off i bn buf) (omega arith)

pub byte_at-copy_in_ne :
    (d : Disk) (b c off i bn : ℕ) (buf : ℕ → ℕ) (j : ℕ)
    → c ≢ b
    → byte_at (copy_in d b off i bn buf) c j ≡ byte_at d c j
unfolding byte_at copy_in
byte_at-copy_in_ne d b c off i bn buf j ne =
    ap (λ f. f (j / 4) / 256 ^ (j % 4) % 256)
      (update_ne d.words b c (λ w. word_of (λ k. new_byte d b off i bn buf (w * 4 + k))) ne)

pub s_nblocks-copy_in :
    (d : Disk) (b off i bn : ℕ) (buf : ℕ → ℕ) → (copy_in d b off i bn buf).s_nblocks ≡ d.s_nblocks
unfolding copy_in
s_nblocks-copy_in d b off i bn buf = refl

pub words-copy_in :
    (d : Disk) (b c off i bn : ℕ) (buf : ℕ → ℕ)
    → c ≢ b
    → (copy_in d b off i bn buf).words c ≡ d.words c
unfolding copy_in
words-copy_in d b c off i bn buf ne = update_ne d.words b c _ ne
