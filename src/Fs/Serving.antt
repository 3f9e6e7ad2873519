-- ===== src/Fs/Serving.antt =====
-- The requests of the file system server, lab/fs/serv.c, over the table of open files and the disk.
-- The blocks of the disk are mapped at DISKMAP, so that an `o_file` is an address in a block.
pub mod Dispatch
pub mod Read
mod Examples
use cse.Base.{
  leb, ℕ, zero, suc, ◌+◌, ◌-◌, ◌*◌, ◌/◌, ◌%◌, ◌^◌, min, Bool, not, ◌&&◌, Option, none, some, List,
  [], ◌∷◌, ◌==◌, if◌then◌else◌,
}
use cse.Base.Cells.{update}
use cse.Library.Strings.{Mem, store_word}
use cse.Fs
use cse.Fs.{Disk, File, D, Result, ok, err, file_set_size}
use cse.Fs.Files.{Reading, file_read, file_flush, fs_sync}
use cse.Fs.Writing.{Writing, file_write}
use cse.Fs.Directory.{FilePtr, f_name, f_type, load, store}
use cse.Fs.Path.{file_open, file_create, file_remove}
use cse.Fs.OpenFiles.{Memory, OpenFile, Server, openfile_alloc, openfile_lookup}
use cse.Fs.OpenFiles

abbrev pub diskmap : ℕ
diskmap = 2 ^ 28

abbrev pub file_of : ℕ → FilePtr
file_of a = record { block = (a - diskmap) / 4096; word = (a - diskmap) % 4096 / 4 }

abbrev pub address_of : FilePtr → ℕ
address_of p = diskmap + p.block * 4096 + p.word * 4

-- A non-negative result, or an error by its number in lab/inc/error.h.
pub data Reply : Type 0 where
  done : ℕ → Reply
  failed : ℕ → Reply

abbrev pub disk_error : cse.Fs.Error → ℕ
disk_error cse.Fs.e_no_disk = 9
disk_error cse.Fs.e_not_found = 11
disk_error cse.Fs.e_inval = 3
disk_error cse.Fs.e_bad_path = 12
disk_error cse.Fs.e_file_exists = 13

abbrev pub table_error : cse.Fs.OpenFiles.Error → ℕ
table_error cse.Fs.OpenFiles.e_no_mem = 4
table_error cse.Fs.OpenFiles.e_max_open = 10
table_error cse.Fs.OpenFiles.e_inval = 3

-- The 32-bit word at an address, and the fields of a `struct Fd`.
abbrev pub load_word : ℕ → Mem → ℕ
load_word a m = m a + m (a + 1) * 256 + m (a + 2) * 65536 + m (a + 3) * 16777216

abbrev pub fd_offset : ℕ → Mem → ℕ
fd_offset fd m = load_word (fd + 4) m

-- `set_size` to `stat` have the file id first; a path is a C string of less than 1024 characters.
pub data Request : Type 0 where
  open_path : List ℕ → ℕ → Request
  set_size : ℕ → ℕ → Request
  read : ℕ → ℕ → Request
  write : ℕ → ℕ → (ℕ → ℕ) → Request
  stat : ℕ → Request
  flush_file : ℕ → Request
  remove : List ℕ → Request
  sync : Request
  unknown : ℕ → Request

-- What a request leaves in the page that it shares with the client, and the page that is sent.
pub record Answer : Type 0 where
  pub reply : Reply
  pub ret_buf : ℕ → ℕ
  pub stat_of : Option ((ℕ → ℕ) × ℕ × Bool)
  pub page : ℕ

abbrev pub plain : Reply → Answer
plain r = record { reply = r; ret_buf = λ i. 0; stat_of = none; page = 0 }

module _ (M : Memory) where
  pub record State : Type 0 where
    pub server : Server M
    pub disk : Disk

  -- A request ends with its answer; `none` is a panic, or an access that the model does not follow.
  abbrev pub Served : Type 0
  Served = Option (Answer × State)

  abbrev pub answer : Reply → State → Served
  answer r st = some (plain r, st)

  abbrev pub with_disk : Disk → State → State
  with_disk d st = record st { disk = d }

  -- `of->o_fd->fd_offset = v`.
  abbrev pub set_offset : ℕ → ℕ → State → State
  set_offset fd v st = record st {
    server = record st.server { bytes = store_word (fd + 4) v st.server.bytes };
  }

  -- The lookup that the requests on an open file start with.
  unfoldable pub on_open_file : ℕ → ℕ → (OpenFile → State → Served) → State → Served
  on_open_file envid fileid go_on st = elim (openfile_lookup M envid fileid st.server) [
    | OpenFiles.err e ↦ answer (failed (table_error e)) st
    | OpenFiles.ok i ↦ go_on (st.server.opentab i) st
  ]

  -- A seek position from 2^31 on is negative. The loops of `file_read` and `file_write` would then
  -- copy to or from addresses in front of a block, which the model does not follow: `none`.
  abbrev pub at_position : ℕ → Served → Served
  at_position off served = if leb (2 ^ 31) off then none else served

  abbrev pub resized : FilePtr → State → Option (File × Disk) → Served
  resized p st none = none
  resized p st (some (f, d)) = answer (done 0) (with_disk (store p f d) st)

  unfoldable pub serve_set_size : ℕ → ℕ → ℕ → State → Served
  unfolding on_open_file
  serve_set_size envid fileid size = on_open_file envid fileid λ o st.
      (let p = file_of o.o_file in
        resized p st (file_set_size p.block size (load p st.disk) st.disk))

  -- The seek position is moved behind what was read.
  abbrev pub have_read : OpenFile → State → Reading → Served
  have_read o st none = none
  have_read o st (some (err e, f, buf, d)) = some (
    record (plain (failed (disk_error e))) { ret_buf = buf },
    with_disk (store (file_of o.o_file) f d) st,
  )
  have_read o st (some (ok n, f, buf, d)) = some (
    record (plain (done n)) { ret_buf = buf },
    set_offset o.o_fd ((fd_offset o.o_fd st.server.bytes + n) % 2 ^ 32)
        (with_disk (store (file_of o.o_file) f d) st),
  )

  -- `ipc` is the shared page before the request.
  unfoldable pub serve_read : ℕ → ℕ → ℕ → (ℕ → ℕ) → State → Served
  unfolding on_open_file
  serve_read envid fileid n ipc = on_open_file envid fileid λ o st.
      at_position (fd_offset o.o_fd st.server.bytes) (
        have_read o st (
          file_read (min n 4096) (fd_offset o.o_fd st.server.bytes)
            (load (file_of o.o_file) st.disk) ipc st.disk))

  -- The size of `req_buf`.
  abbrev pub req_buf_size : ℕ
  req_buf_size = 4084

  -- The seek position is moved by the result, an error included.
  abbrev pub have_written : OpenFile → State → Writing → Served
  have_written o st none = none
  have_written o st (some (err e, f, d)) = some (
    plain (failed (disk_error e)),
    set_offset o.o_fd ((fd_offset o.o_fd st.server.bytes + (2 ^ 32 - disk_error e)) % 2 ^ 32)
        (with_disk (store (file_of o.o_file) f d) st),
  )
  have_written o st (some (ok n, f, d)) = some (
    plain (done n),
    set_offset o.o_fd ((fd_offset o.o_fd st.server.bytes + n) % 2 ^ 32)
        (with_disk (store (file_of o.o_file) f d) st),
  )

  unfoldable pub serve_write : ℕ → ℕ → ℕ → (ℕ → ℕ) → State → Served
  unfolding on_open_file
  serve_write envid fileid n req_buf = on_open_file envid fileid λ o st.
      (let p = file_of o.o_file in
        at_position (fd_offset o.o_fd st.server.bytes) (
          have_written o st (
            file_write p.block (min n req_buf_size) (fd_offset o.o_fd st.server.bytes) req_buf
              (load p st.disk) st.disk)))

  unfoldable pub serve_stat : ℕ → ℕ → State → Served
  unfolding on_open_file
  serve_stat envid fileid = on_open_file envid fileid λ o st.
      (let p = file_of o.o_file in
        some (
          record (plain (done 0)) {
            stat_of = some (f_name p st.disk, (load p st.disk).f_size, f_type p st.disk == 1);
          },
          st,
        ))

  abbrev pub after_unit : State → Option (Unit {0} × Disk) → Served
  after_unit st none = none
  after_unit st (some (u, d)) = answer (done 0) (with_disk d st)

  unfoldable pub serve_flush : ℕ → ℕ → State → Served
  unfolding on_open_file
  serve_flush envid fileid = on_open_file envid fileid λ o st.
      (let p = file_of o.o_file in after_unit st (file_flush p.block (load p st.disk) st.disk))

  abbrev pub removed : State → Option (Result (Unit {0}) × Disk) → Served
  removed st none = none
  removed st (some (err e, d)) = answer (failed (disk_error e)) (with_disk d st)
  removed st (some (ok u, d)) = answer (done 0) (with_disk d st)

  unfoldable pub serve_remove : List ℕ → State → Served
  serve_remove path st = removed st (file_remove path st.disk)

  unfoldable pub serve_sync : State → Served
  serve_sync st = after_unit st (fs_sync st.disk)
