-- ===== src/Fs/Files.antt =====
-- `file_read`, `file_flush` and `fs_sync` of lab/fs/fs.c. A byte of a block is a byte of one of its
-- words, the low one first.
pub mod Flush
pub mod Read
use cse.Base.{
  ◌||◌, ℕ, zero, suc, ◌+◌, ◌-◌, ◌*◌, ◌/◌, ◌%◌, ◌^◌, min, ◌&&◌, Option, none, some, leb, ltb,
  if◌then◌else◌,
}
use cse.Base.{◌==◌, false}
use cse.Fs.{
  D, pure, ◌>>=◌, ◌>>◌, Slot, read_slot, diskaddr, flush, file_block_walk, nblocks_of, Disk, File,
  Result, ok, err, blksize, file_get_block,
}

unfoldable pub byte_at : Disk → ℕ → ℕ → ℕ
byte_at d b j = d.words b (j / 4) / 256 ^ (j % 4) % 256

-- `memmove(buf, blk + pos % BLKSIZE, bn)`, with `buf` at index `i` of the caller's buffer.
abbrev pub copy_out : Disk → ℕ → ℕ → ℕ → ℕ → (ℕ → ℕ) → ℕ → ℕ
copy_out d b off i bn buf k =
    if leb i k && ltb k (i + bn) then byte_at d b (off + (k - i)) else buf k

-- What a read leaves: its result, the file, the buffer, and the disk. `none` is a panic.
abbrev pub Reading : Type 0
Reading = Option (Result ℕ × File × (ℕ → ℕ) × Disk)

-- The round of the loop after `file_get_block`; `go_on` is the rounds that follow.
abbrev pub read_block :
    ℕ
    → ℕ
    → ℕ
    → (ℕ → ℕ)
    → (ℕ → File → (ℕ → ℕ) → Disk → Reading)
    → Option ((Result ℕ × File) × Disk)
    → Reading
read_block pos end i buf go_on none = none
read_block pos end i buf go_on (some ((err e, f), d)) = some (err e, f, buf, d)
read_block pos end i buf go_on (some ((ok b, f), d)) =
    let bn = min (blksize - pos % blksize) (end - pos) in
    go_on bn f (copy_out d b (pos % blksize) i bn buf) d

-- The loop of `file_read`, which returns `count`, with `rounds` rounds left.
unfoldable pub read_loop : ℕ → ℕ → ℕ → ℕ → ℕ → File → (ℕ → ℕ) → Disk → Reading
read_loop count zero pos end i f buf d = some (ok count, f, buf, d)
read_loop count (suc rounds) pos end i f buf d =
    if ltb pos end
    then read_block pos end i buf
        (λ bn f' buf' d'. read_loop count rounds (pos + bn) end (i + bn) f' buf' d')
        (file_get_block (pos / blksize) f d)
    else some (ok count, f, buf, d)

-- The offset is not negative; a size from 2^31 on is, and so not above the offset. Every round but
-- the first starts at a block, so that the blocks of the range and one more round
-- are enough.
unfoldable pub file_read : ℕ → ℕ → File → (ℕ → ℕ) → Disk → Reading
unfolding read_loop
file_read count offset f buf d =
    if leb f.f_size offset || leb (2 ^ 31) f.f_size
    then some (ok 0, f, buf, d)
    else let n = min count (f.f_size - offset) in
      read_loop n (n / blksize + 2) offset (offset + n) 0 f buf d

-- The body of the loop of `file_flush`: an error and an empty slot are passed over.
abbrev pub flush_slot : Result Slot × File → D (Unit {0})
flush_slot (err e, f) = pure tt
flush_slot (ok p, f) = λ d.
    if read_slot p f d == 0
    then some (tt, d)
    else (diskaddr (read_slot p f d) >>= λ b d'. some (tt, flush b d')) d

-- The loop of `file_flush` at block `i`, with `rounds` rounds left.
unfoldable pub flush_from : ℕ → ℕ → File → D (Unit {0})
flush_from zero i f = pure tt
flush_from (suc rounds) i f =
    (file_block_walk i false f >>= flush_slot) >> flush_from rounds (i + 1) f

-- The flush of the block `home` that holds the `struct File`, and of the indirect block.
abbrev pub flush_own : ℕ → File → D (Unit {0})
flush_own home f d =
    if f.f_indirect == 0
    then some (tt, flush home d)
    else (diskaddr f.f_indirect >>= λ b d'. some (tt, flush b d')) (flush home d)

-- How often the loop of `file_flush` runs: not at all for a size from 2^31 on, which is negative.
abbrev pub flush_rounds : ℕ → ℕ
flush_rounds size = if leb (2 ^ 31) size then 0 else nblocks_of size

unfoldable pub file_flush : ℕ → File → D (Unit {0})
unfolding flush_from
file_flush home f = flush_from (flush_rounds f.f_size) 0 f >> flush_own home f

-- The loop of `fs_sync` with `rounds` rounds left.
unfoldable pub sync_from : ℕ → ℕ → D (Unit {0})
sync_from zero i = pure tt
sync_from (suc rounds) i = (diskaddr i >>= λ b d. some (tt, flush b d)) >> sync_from rounds (i + 1)

unfoldable pub fs_sync : D (Unit {0})
unfolding sync_from
fs_sync d = sync_from (d.s_nblocks - 1) 1 d
