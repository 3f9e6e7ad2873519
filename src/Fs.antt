-- ===== src/Fs.antt =====
-- The file system server's blocks, lab/fs/fs.c: the free block bitmap and the block numbers of
-- files. A disk block in memory is its 1024 32-bit words; `diskaddr(b)` is block `b`.
pub mod Bitmap
pub mod Alloc
pub mod Files
pub mod OpenFiles
pub mod Writing
pub mod Directory
pub mod Path
pub mod Serving
mod Examples
use Prim.Native.Nat.{bit_and, bit_or, bit_xor}
use cse.Base.{
  ℕ, zero, suc, ◌+◌, ◌-◌, ◌*◌, ◌/◌, ◌%◌, ◌^◌, Bool, true, false, not, ◌&&◌, ◌||◌, Option, none,
  some, List, [], ◌∷◌, ltb, leb, ◌==◌, if◌then◌else◌,
}
use cse.Base.Cells.{update}

-- `flushed` records the blocks that `flush_block` was called on, the last first.
pub record Disk : Type 0 where
  pub s_nblocks : ℕ
  pub words : ℕ → ℕ → ℕ
  pub flushed : List ℕ

pub data Error : Type 0 where
  e_no_disk e_not_found e_inval e_bad_path e_file_exists : Error

pub data Result {ℓ} (A : Type ℓ) : Type ℓ where
  ok : A → Result A
  err : Error → Result A

-- Code that may panic: `none` is a panic or a failed assertion.
abbrev pub D : Type 0 → Type 0
D A = Disk → Option (A × Disk)

abbrev pub pure : {A : Type 0} → A → D A
pure a d = some (a, d)

infixl 5 ◌>>=◌ ◌>>◌
abbrev pub ◌>>=◌ : {A B : Type 0} → D A → (A → D B) → D B
◌>>=◌ m f d = elim (m d) [ none ↦ none | some (a, d') ↦ f a d' ]

abbrev pub ◌>>◌ : {A B : Type 0} → D A → D B → D B
m >> n = m >>= λ _. n

abbrev pub blksize : ℕ
blksize = 4096

-- The words of one block.
abbrev pub block_words : ℕ
block_words = 1024

-- `bitmap[i]`: the bitmap starts at block 2 and goes on through the blocks after it.
abbrev pub bitmap : Disk → ℕ → ℕ
bitmap d i = d.words (2 + i / block_words) (i % block_words)

abbrev pub set_word : ℕ → ℕ → ℕ → Disk → Disk
set_word b w v d = record d { words = update d.words b (update (d.words b) w v) }

abbrev pub set_bitmap : ℕ → ℕ → Disk → Disk
set_bitmap i v d = set_word (2 + i / block_words) (i % block_words) v d

-- `diskaddr` panics on block 0 and past the end of the disk.
unfoldable pub diskaddr : ℕ → D ℕ
diskaddr b d = if (b == 0) || leb d.s_nblocks b then none else some (b, d)

-- `1 << (blockno % 32)` as a 32-bit pattern.
abbrev pub mask : ℕ → ℕ
mask b = 2 ^ (b % 32)

-- `super` has been set by `fs_init`.
unfoldable pub block_is_free : ℕ → Disk → Bool
block_is_free b d =
    if leb d.s_nblocks b then false else not (bit_and (bitmap d (b / 32)) (mask b) == 0)

unfoldable pub mark_free : ℕ → Disk → Disk
mark_free b d = set_bitmap (b / 32) (bit_or (bitmap d (b / 32)) (mask b)) d

unfoldable pub free_block : ℕ → D (Unit {0})
unfolding mark_free
free_block b d = if b == 0 then none else some (tt, mark_free b d)

abbrev pub flush : ℕ → Disk → Disk
flush b d = record d { flushed = b ∷ d.flushed }

unfoldable pub toggle : ℕ → Disk → Disk
toggle b d = set_bitmap (b / 32) (bit_xor (bitmap d (b / 32)) (mask b)) d

-- The flush of `alloc_block` at the address of block 2, and its assertion.
abbrev pub finish_claim : ℕ → Option (ℕ × Disk) → Option (Result ℕ × Disk)
finish_claim b none = none
finish_claim b (some (bitmap_block, d)) =
    let d' = flush bitmap_block d in if block_is_free b d' then none else some (ok b, d')

-- What `alloc_block` does at the free block that it has found.
unfoldable pub claim_block : ℕ → D (Result ℕ)
claim_block b d = finish_claim b (diskaddr 2 (toggle b d))

-- The loop of `alloc_block` with `rounds` rounds left.
unfoldable pub alloc_from : ℕ → ℕ → D (Result ℕ)
alloc_from zero b d = some (err e_no_disk, d)
alloc_from (suc rounds) b d =
    let rest = alloc_from rounds (b + 1) d in if block_is_free b d then claim_block b d else rest

unfoldable pub alloc_block : D (Result ℕ)
unfolding alloc_from
alloc_block d = alloc_from (d.s_nblocks - 1) 1 d

abbrev pub ndirect : ℕ
ndirect = 10

abbrev pub nindirect : ℕ
nindirect = blksize / 4

-- The block numbers of a `struct File`; its size in bytes is not negative.
pub record File : Type 0 where
  pub f_size : ℕ
  pub f_direct : ℕ → ℕ
  pub f_indirect : ℕ

-- A pointer to a block number: a direct slot of the file, or a word of its indirect block.
pub data Slot : Type 0 where
  direct : ℕ → Slot
  in_block : ℕ → ℕ → Slot

-- Code that works on a file in memory.
abbrev pub F : Type 0 → Type 0
F A = File → D (A × File)

abbrev pub clear_block : ℕ → Disk → Disk
clear_block b d = record d { words = update d.words b (λ w. 0) }

-- The slot in the indirect block `b`.
abbrev pub indirect_slot : ℕ → File → D (Result Slot × File)
indirect_slot filebno f = do
  b ← diskaddr f.f_indirect
  pure (ok (in_block b (filebno - ndirect)), f)

-- A fresh indirect block, recorded in the file and cleared.
abbrev pub with_indirect : ℕ → File → Result ℕ → D (Result Slot × File)
with_indirect filebno f (err e) = pure (err e, f)
with_indirect filebno f (ok r) = do
  b ← diskaddr r
  (λ t. pure tt (clear_block b t))
  indirect_slot filebno (record f { f_indirect = r })

unfoldable pub file_block_walk : ℕ → Bool → F (Result Slot)
file_block_walk filebno alloc f d =
    if leb (ndirect + nindirect) filebno
    then some ((err e_inval, f), d)
    else if ltb filebno ndirect
    then some ((ok (direct filebno), f), d)
    else if f.f_indirect == 0
    then (if alloc
        then (alloc_block >>= with_indirect filebno f) d
        else some ((err e_not_found, f), d))
    else indirect_slot filebno f d

-- `*ppdiskbno`, and a write of it.
abbrev pub read_slot : Slot → File → Disk → ℕ
read_slot (direct i) f d = f.f_direct i
read_slot (in_block b w) f d = d.words b w

abbrev pub write_slot : Slot → ℕ → File → Disk → File × Disk
write_slot (direct i) v f d = (record f { f_direct = update f.f_direct i v }, d)
write_slot (in_block b w) v f d = (f, set_word b w v d)

abbrev pub block_at : ℕ → File → D (Result ℕ × File)
block_at b f = do a ← diskaddr b; pure (ok a, f)

-- A new block for an empty slot; any failure is reported as -E_NO_DISK.
abbrev pub fill_slot : Slot → File → Result ℕ → D (Result ℕ × File)
fill_slot p f (err e) = pure (err e_no_disk, f)
fill_slot p f (ok b) =
    λ d. (let (f', d') = write_slot p b f d in block_at (read_slot p f' d') f' d')

abbrev pub get_at : Result Slot × File → D (Result ℕ × File)
get_at (err e, f) = pure (err e, f)
get_at (ok p, f) = λ d.
    if read_slot p f d == 0
    then (alloc_block >>= fill_slot p f) d
    else block_at (read_slot p f d) f d

unfoldable pub file_get_block : ℕ → F (Result ℕ)
file_get_block filebno f = file_block_walk filebno true f >>= get_at

abbrev pub free_at : Result Slot × File → D (Result (Unit {0}) × File)
free_at (err e, f) = pure (err e, f)
free_at (ok p, f) = λ d.
    if read_slot p f d == 0
    then some ((ok tt, f), d)
    else (free_block (read_slot p f d) >>= λ _ d'.
          (let (f', d'') = write_slot p 0 f d' in pure (ok tt, f') d''))
        d

unfoldable pub file_free_block : ℕ → F (Result (Unit {0}))
file_free_block filebno f = file_block_walk filebno false f >>= free_at

-- `for (bno = new_nblocks; bno < old_nblocks; bno++)` with `rounds` rounds left; an error is only
-- printed.
unfoldable pub free_blocks_from : ℕ → ℕ → File → D File
free_blocks_from zero bno f = pure f
free_blocks_from (suc rounds) bno f =
    file_free_block bno f >>= λ (r, f'). free_blocks_from rounds (bno + 1) f'

abbrev pub nblocks_of : ℕ → ℕ
nblocks_of size = (size + blksize - 1) / blksize

-- The same for a size of 32 bits, which is negative from 2^31 on: the division is that of an
-- `int`, towards 0, and its result a uint32_t.
abbrev pub uint_nblocks_of : ℕ → ℕ
uint_nblocks_of newsize =
    let up = (newsize + blksize - 1) % 2 ^ 32 in
    if ltb up (2 ^ 31) then up / blksize else (2 ^ 32 - (2 ^ 32 - up) / blksize) % 2 ^ 32

abbrev pub drop_indirect : ℕ → File → D File
drop_indirect new_nblocks f =
    if leb new_nblocks ndirect && not (f.f_indirect == 0)
    then free_block f.f_indirect >> pure (record f { f_indirect = 0 })
    else pure f

unfoldable pub file_truncate_blocks : ℕ → File → D File
file_truncate_blocks newsize f = do
  f' ←
      free_blocks_from (uint_nblocks_of f.f_size - uint_nblocks_of newsize)
        (uint_nblocks_of newsize) f
  drop_indirect (uint_nblocks_of newsize) f'

-- `a > b` on the 32 bits of two `off_t`, which are negative from 2^31 on.
abbrev pub off_gt : ℕ → ℕ → Bool
off_gt a b = ltb ((b + 2 ^ 31) % 2 ^ 32) ((a + 2 ^ 31) % 2 ^ 32)

-- The new size is cut to the 32 bits of an `off_t`. `flush_block(f)` flushes the block that holds
-- the `struct File`, `home`.
unfoldable pub file_set_size : ℕ → ℕ → File → D File
file_set_size home size f = do
  let newsize = size % 2 ^ 32
  f' ← (if off_gt f.f_size newsize then file_truncate_blocks newsize f else pure f)
  (λ d. pure tt (flush home d))
  pure (record f' { f_size = newsize })

-- `check_bitmap` asserts that the blocks of the bitmap are in use, with `rounds` rounds left.
unfoldable pub bitmap_in_use : ℕ → ℕ → Disk → Bool
bitmap_in_use zero i d = true
bitmap_in_use (suc rounds) i d = not (block_is_free (2 + i) d) && bitmap_in_use rounds (i + 1) d

abbrev pub blkbitsize : ℕ
blkbitsize = blksize * 8

-- Whether all assertions of `check_bitmap` hold.
unfoldable pub check_bitmap : Disk → Bool
unfolding bitmap_in_use
check_bitmap d =
    bitmap_in_use ((d.s_nblocks + blkbitsize - 1) / blkbitsize) 0 d
    && not (block_is_free 0 d)
    && not (block_is_free 1 d)
