-- ===== src/Fs/Writing.antt =====
-- `file_write` of lab/fs/fs.c. The bytes of a word are written and read with the low one first.
pub mod Bytes
pub mod InPlace
use cse.Base.{
  ◌^◌, ℕ, zero, suc, ◌+◌, ◌-◌, ◌*◌, ◌/◌, ◌%◌, min, ◌&&◌, Option, none, some, leb, ltb,
  if◌then◌else◌,
}
use cse.Base.Cells.{update}
use cse.Fs.{Disk, File, Result, ok, err, blksize, file_get_block, file_set_size}
use cse.Fs.Files.{byte_at}

-- The word of four bytes.
abbrev pub word_of : (ℕ → ℕ) → ℕ
word_of g = g 0 + g 1 * 256 + g 2 * 65536 + g 3 * 16777216

-- Byte `j` of block `b` after `bn` bytes of `buf` from index `i` on have been copied to offset
-- `off`.
abbrev pub new_byte : Disk → ℕ → ℕ → ℕ → ℕ → (ℕ → ℕ) → ℕ → ℕ
new_byte d b off i bn buf j =
    if leb off j && ltb j (off + bn) then buf (i + (j - off)) % 256 else byte_at d b j

-- `memmove(blk + pos % BLKSIZE, buf, bn)`, with `buf` at index `i` of the caller's buffer.
unfoldable pub copy_in : Disk → ℕ → ℕ → ℕ → ℕ → (ℕ → ℕ) → Disk
copy_in d b off i bn buf = record d {
  words = update d.words b (λ w. word_of (λ k. new_byte d b off i bn buf (w * 4 + k)));
}

-- What a write leaves: its result, the file and the disk. `none` is a panic.
abbrev pub Writing : Type 0
Writing = Option (Result ℕ × File × Disk)

-- The round of the loop after `file_get_block`; `go_on` is the rounds that follow.
abbrev pub write_block :
    ℕ → ℕ → ℕ → (ℕ → ℕ) → (ℕ → File → Disk → Writing) → Option ((Result ℕ × File) × Disk) → Writing
write_block pos end i buf go_on none = none
write_block pos end i buf go_on (some ((err e, f), d)) = some (err e, f, d)
write_block pos end i buf go_on (some ((ok b, f), d)) =
    let bn = min (blksize - pos % blksize) (end - pos) in
    go_on bn f (copy_in d b (pos % blksize) i bn buf)

-- The loop of `file_write`, which returns `count`, with `rounds` rounds left.
unfoldable pub write_loop : ℕ → ℕ → ℕ → ℕ → ℕ → (ℕ → ℕ) → File → Disk → Writing
write_loop count zero pos end i buf f d = some (ok count, f, d)
write_loop count (suc rounds) pos end i buf f d =
    if ltb pos end
    then write_block pos end i buf
        (λ bn f' d'. write_loop count rounds (pos + bn) end (i + bn) buf f' d')
        (file_get_block (pos / blksize) f d)
    else some (ok count, f, d)

-- What follows the extension of the file, which only fails by a panic.
abbrev pub write_from_size : ℕ → ℕ → (ℕ → ℕ) → Option (File × Disk) → Writing
write_from_size count offset buf none = none
write_from_size count offset buf (some (f, d)) =
    write_loop count (count / blksize + 2) offset (offset + count) 0 buf f d

-- `home` is the block that holds the `struct File`. The offset is not negative; a size from 2^31 on
-- is, and above every sum in the comparison, which is one of 64-bit numbers without a sign.
unfoldable pub file_write : ℕ → ℕ → ℕ → (ℕ → ℕ) → File → Disk → Writing
unfolding write_loop
file_write home count offset buf f d = write_from_size count offset buf (
    if ltb f.f_size (2 ^ 31) && ltb f.f_size (offset + count)
    then file_set_size home (offset + count) f d
    else some (f, d))
