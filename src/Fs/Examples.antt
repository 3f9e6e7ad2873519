-- ===== src/Fs/Examples.antt =====
-- The theorems on lab/fs/fs.c at a disk of eight blocks.
use cse.Base.{
  ℕ, zero, suc, ◌^◌, ◌<◌, ◌≡◌, refl, true, false, not, ◌&&◌, some, [], arith, ◌==◌, if◌then◌else◌,
}
use cse.Fs.{Disk, block_is_free, alloc_block, ok}
use cse.Base.{◌%◌, ◌≢◌}
use cse.Fs.{File}
use cse.Base.{◌+◌, ◌*◌, ltb}
use cse.Fs.Files.{file_read}
use cse.Fs.Writing.{file_write}
use cse.Fs.Writing.InPlace.{Apart, file_read-file_write}
use cse.Fs.Files.Read.{block_no, byte_of, NoHoles, file_read_lem}
use cse.Fs.Alloc.{alloc_block-first}

-- Only block 5 is free.
abbrev five_free : ℕ → ℕ → ℕ
five_free b w = if (b == 2) && (w == 0) then 2 ^ 5 else 0

abbrev disk : Disk
disk = record { s_nblocks = 8; words = five_free; flushed = [] }

below_five : (c : ℕ) → 0 < c → c < 5 → block_is_free c disk ≡ false
unfolding block_is_free
below_five zero p h = refl
below_five (suc zero) p h = refl
below_five (suc (suc zero)) p h = refl
below_five (suc (suc (suc zero))) p h = refl
below_five (suc (suc (suc (suc zero)))) p h = refl
below_five (suc (suc (suc (suc (suc c))))) p h = absurd (omega arith)

five : block_is_free 5 disk ≡ true
unfolding block_is_free
five = refl

alloc_block-first_example :
    (d' : Disk) × (alloc_block disk ≡ some (ok 5, d'))
    × ((c : ℕ) → block_is_free c d' ≡ (not (5 == c) && block_is_free c disk))
alloc_block-first_example = alloc_block-first 5 disk (ground arith) (ground arith) below_five five

-- A file of five bytes in block 3.
abbrev short_file : File
short_file = record { f_size = 5; f_direct = λ i. if i == 0 then 3 else 0; f_indirect = 0 }

abbrev file_disk : Disk
file_disk = record { s_nblocks = 8; words = λ b w. b * 65536 + w; flushed = [] }

short_file-NoHoles : NoHoles short_file file_disk
short_file-NoHoles = record {
  size = omega arith;
  blocks = inside;
  indirect = λ h. absurd (omega (arith, h));
}
  where
    inside :
        (n : ℕ)
        → n * 4096 < 5
        → (0 < block_no short_file file_disk n) × (block_no short_file file_disk n < 8)
    inside zero h = (omega arith, omega arith)
    inside (suc n) h = absurd (omega (arith, h))

file_read_lem_example :
    (buf' : ℕ → ℕ) × (file_read 100 2 short_file (λ i. 9) file_disk
      ≡ some (ok 3, short_file, buf', file_disk))
    × ((k : ℕ) → buf' k ≡ (if ltb k 3 then byte_of short_file file_disk (2 + k) else 9))
file_read_lem_example = file_read_lem 100 2 short_file (λ i. 9) file_disk short_file-NoHoles

short_file-Apart : Apart short_file file_disk
short_file-Apart = record {
  blocks = λ m n h g ne. absurd (omega (arith, h, g, ne));
  indirect = nowhere;
}
  where
    nowhere : (n : ℕ) → n * 4096 < 5 → 0 ≢ block_no short_file file_disk n
    nowhere zero h e = omega (arith, e)
    nowhere (suc n) h e = omega (arith, h)

file_read-file_write_example :
    (d' : Disk) × (out' : ℕ → ℕ) × (file_write 1 3 2 (λ i. 65 + i) short_file file_disk
      ≡ some (ok 3, short_file, d'))
    × (file_read 3 2 short_file (λ i. 0) d' ≡ some (ok 3, short_file, out', d'))
    × (out' 1 ≡ (65 + 1) % 256)
file_read-file_write_example =
    file_read-file_write 1 3 2 1 (λ i. 65 + i) (λ i. 0) short_file file_disk short_file-NoHoles
      short_file-Apart (omega arith) (omega arith)
