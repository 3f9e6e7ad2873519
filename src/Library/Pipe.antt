-- ===== src/Library/Pipe.antt =====
-- lab/lib/pipe.c: the ring of a pipe, as its readers and writers see it in shared memory. The
-- positions are 32-bit integers, and an increment past 2^31 - 1 is an overflow. A call runs up to
-- its return or its yield without a step of another environment in between.
pub mod Queue
pub mod Ring
use cse.Base.{ℕ, zero, suc, ◌+◌, ◌-◌, ◌%◌, ◌^◌, Bool, leb, ltb, ◌==◌, if◌then◌else◌}
use cse.Base.Cells.{update}

abbrev pub pipebufsiz : ℕ
pipebufsiz = 32

pub record Pipe : Type 0 where
  pub p_rpos : ℕ
  pub p_wpos : ℕ
  pub p_buf : ℕ → ℕ

-- How a call goes on: it returns, or it calls `sys_yield` after `i` bytes and then looks at the
-- pipe again, which another environment may have changed meanwhile; or it increments the largest
-- `off_t`.
pub data Outcome : Type 0 where
  returned yields : ℕ → Outcome
  overflows : Outcome

-- The largest `off_t`.
abbrev pub off_max : ℕ
off_max = 2 ^ 31 - 1

abbrev pub take_byte : Pipe → Pipe
take_byte p = record p { p_rpos = p.p_rpos + 1 }

abbrev pub store_byte : ℕ → Pipe → Pipe
store_byte c p = record p {
  p_buf = update p.p_buf (p.p_wpos % pipebufsiz) c;
  p_wpos = p.p_wpos + 1;
}

-- The loop of `devpipe_read` at index `i` with `rounds` bytes to go, up to its return or yield, and
-- `buf`; `closed` is the answer of `_pipeisclosed`.
unfoldable pub read_from : Bool → ℕ → ℕ → (ℕ → ℕ) → Pipe → Outcome × ((ℕ → ℕ) × Pipe)
read_from closed zero i buf p = (returned i, (buf, p))
read_from closed (suc rounds) i buf p =
    let rest =
      read_from closed rounds (i + 1) (update buf i (p.p_buf (p.p_rpos % pipebufsiz)))
        (take_byte p) in
    if p.p_rpos == p.p_wpos
    then ((if ltb 0 i then returned i else if closed then returned 0 else yields i), (buf, p))
    else if p.p_rpos == off_max
    then (overflows, (buf, p))
    else rest

-- A call, and its continuation after a yield: no byte has been taken then.
abbrev pub devpipe_read : Bool → ℕ → (ℕ → ℕ) → Pipe → Outcome × ((ℕ → ℕ) × Pipe)
devpipe_read closed n buf p = read_from closed n 0 buf p

-- The loop of `devpipe_write`, which goes on at `i` after a yield.
unfoldable pub write_from : Bool → ℕ → ℕ → (ℕ → ℕ) → Pipe → Outcome × Pipe
write_from closed zero i buf p = (returned i, p)
write_from closed (suc rounds) i buf p =
    let rest = write_from closed rounds (i + 1) buf (store_byte (buf i) p) in
    if leb (p.p_rpos + pipebufsiz) p.p_wpos
    then ((if closed then returned 0 else yields i), p)
    else if p.p_wpos == off_max
    then (overflows, p)
    else rest

abbrev pub devpipe_write : Bool → ℕ → (ℕ → ℕ) → Pipe → Outcome × Pipe
devpipe_write closed n buf p = write_from closed n 0 buf p
