-- ===== src/Library/Examples.antt =====
-- The theorems on lab/lib at small inputs.
use cse.Base.{◌||◌, Bool, ℕ, ◌%◌, ◌≡◌, refl, false, none, some, [], ◌∷◌, arith, ◌==◌, if◌then◌else◌}
use cse.Library.Strings.{Mem, memmove, memset, pos}
use cse.Base.Cells.{update}
use cse.Library.Strings.{strtol}
use cse.Library.Printing.{printnum, printnum_from}
use cse.Library.Printing.ReadBack.{strtol-printnum}
use cse.Library.Strings.Move.{memmove_lem}
use cse.Library.Pipe.{Pipe}
use cse.Library.Pipe.Ring.{contents}
use cse.Library.Fd.{Process, Dev, e_inval, e_device, err, index2fd, fd_lookup, close}
use cse.Library.Fd.Table.{fd_lookup-close}
use cse.Library.Strings.Loops.{memset_loop, memmove_loop, memmove_loop-eq-memmove}
use cse.Library.Pipe.Queue.{
  IsRing, Call, write_call, read_call, ring_answers, queue_answers, ring_answers-refines,
}
use cse.Base.{List}

abbrev memory : Mem
memory a = a % 256

-- An overlapping move upwards by four, in words.
memmove_lem_example : memmove 104 100 8 memory 107 ≡ 103
memmove_lem_example = memmove_lem 104 100 8 memory 107

abbrev empty_pipe : Pipe
empty_pipe = record { p_rpos = 30; p_wpos = 30; p_buf = λ i. 0 }

-- Descriptor 0 is open on device 112, the others are closed.
abbrev process : Process (Unit {0})
process = record {
  page_at = λ va. if va == index2fd 0 then some 1 else none;
  fd_in = λ x. record { fd_dev_id = 112; fd_offset = 0; fd_omode = 0 };
  world = tt;
}

-- A device that only fails to close.
abbrev device : Dev (Unit {0})
device = record {
  dev_id = 112;
  dev_read = none;
  dev_write = none;
  dev_close = some (λ fd a n p. (err (e_device 5), p));
  dev_stat = none;
  dev_trunc = none;
}

fd_lookup-close_example :
    (fd_lookup (pos 0) (close (device ∷ []) (pos 0) process).1 ≡ err e_inval)
    × (close (device ∷ []) (pos 0) (close (device ∷ []) (pos 0) process).1
        ≡ (err e_inval, (close (device ∷ []) (pos 0) process).1))
fd_lookup-close_example = fd_lookup-close (device ∷ []) 0 process

abbrev with_room : ℕ → Process (Unit {0}) → Bool
with_room va p = false

-- Descriptor 1 has been made a duplicate of descriptor 0.
abbrev duplicated : Process (Unit {0})
duplicated = record process { page_at = update process.page_at (index2fd 1) (some 1) }

-- Two bytes 7 at the addresses 100 and 101, and a 0.
abbrev two_bytes : Mem
two_bytes a = if (a == 100) || (a == 101) then 7 else 0

-- The text "  ff" at address 200.
abbrev hex_text : Mem
hex_text a = if (a == 200) || (a == 201) then 32 else if (a == 202) || (a == 203) then 102 else 0

strtol-printnum_example :
    (printnum 255 16 4 32 ≡ some (32 ∷ 32 ∷ 102 ∷ 102 ∷ []))
    × (strtol 9 200 16 hex_text ≡ some (204, pos 255))
unfolding printnum printnum_from
strtol-printnum_example =
    strtol-printnum 255 16 4 9 200 hex_text (omega arith) (omega arith) (omega arith)
      (refl, (refl, (refl, (refl, refl)))) (omega arith)

memmove_loop-eq-memmove_example :
    (memset_loop 104 257 8 memory ≡ memset 104 257 8 memory)
    × (memmove_loop 104 100 8 memory ≡ memmove 104 100 8 memory)
memmove_loop-eq-memmove_example = memmove_loop-eq-memmove 104 100 257 8 memory (omega arith)

empty_pipe-IsRing : IsRing empty_pipe
empty_pipe-IsRing = record { order = omega arith; bound = omega arith; room = omega arith }

-- A reader finds nothing and yields, a writer leaves three bytes, and the reader gets them.
abbrev calls : List Call
calls = read_call false 5 memory ∷ write_call false 3 0 memory ∷ read_call false 5 memory ∷ []

ring_answers-refines_example :
    ring_answers calls empty_pipe ≡ queue_answers calls (contents empty_pipe)
ring_answers-refines_example =
    ring_answers-refines calls empty_pipe empty_pipe-IsRing (ground arith)
