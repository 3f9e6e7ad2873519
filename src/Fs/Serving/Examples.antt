-- ===== src/Fs/Serving/Examples.antt =====
-- The theorems on the requests of lab/fs/serv.c at a server whose open file has five bytes.
use cse.Base.{
  ℕ, zero, suc, ◌+◌, ◌*◌, ◌/◌, ◌^◌, ◌<◌, ◌&&◌, some, [], ◌==◌, if◌then◌else◌, ◌≡◌, refl, arith,
}
use cse.Base.Cells.{update}
use cse.Fs.{Disk}
use cse.Fs.Files.Read.{block_no, NoHoles}
use cse.Fs.Directory.{file_in, load}
use cse.Fs.OpenFiles
use cse.Fs.OpenFiles.{Memory, OpenFile, pageref, openfile_lookup}
use cse.Fs.Serving.{State, fd_offset, serve_read}
use cse.Fs.Serving.Read.{moved, ReadsFrom, serve_read-serve_read}

-- Every word of `vpd` is present, and page `p` is mapped `p` times: a fresh page is page 1. A
-- `Store` is the contents of `vpt`.
abbrev memory : Memory
memory = record {
  Store = ℕ → ℕ;
  vpd = λ i s. 7;
  vpt = λ i s. s i;
  pp_ref = λ p s. p;
  sys_page_alloc = λ va s. some (update s (va / 4096) (4096 + 7));
}

-- The `struct File` is the first of block 3, and its bytes are in block 4.
abbrev words : ℕ → ℕ → ℕ
words b w =
    if (b == 3) && (w == 32)
    then 5
    else if (b == 3) && (w == 34)
    then 4
    else if b == 4
    then 65 + w * 256
    else 0

abbrev disk : Disk
disk = record { s_nblocks = 8; words = words; flushed = [] }

abbrev file_at : OpenFile
file_at = record {
  o_fileid = 7;
  o_file = 2 ^ 28 + 3 * 4096;
  o_mode = 0;
  o_fd = 13 * 2 ^ 28 + 7 * 4096;
}

abbrev state : State memory
state = record {
  server = record { opentab = λ i. file_at; bytes = λ a. 0; store = λ i. 2 * 4096 + 7 };
  disk = disk;
}

found : openfile_lookup memory 1 7 state.server ≡ OpenFiles.ok 7
unfolding openfile_lookup pageref
found = refl

whole : NoHoles (load (file_in 3 0) disk) disk
whole = record { size = omega arith; blocks = inside; indirect = λ h. absurd (omega (arith, h)) }
  where
    inside :
        (n : ℕ)
        → n * 4096 < 5
        → (0 < block_no (load (file_in 3 0) disk) disk n)
          × (block_no (load (file_in 3 0) disk) disk n < 8)
    inside zero h = (omega arith, omega arith)
    inside (suc n) h = absurd (omega (arith, h))

serve_read-serve_read_example :
    ReadsFrom memory 3 file_at 0 state (serve_read memory 1 7 3 (λ i. 0) state)
    × ReadsFrom memory 9 file_at 3
        (moved memory file_at 3 state)
        (serve_read memory 1 7 9 (λ i. 1) (moved memory file_at 3 state))
    × (fd_offset file_at.o_fd (moved memory file_at 3 state).server.bytes ≡ 3)
serve_read-serve_read_example =
    serve_read-serve_read memory 1 7 3 9 7 (λ i. 0) (λ i. 1) state found whole (ground arith)
      (ground arith)
