-- ===== src/Fs/Serving/Dispatch.antt =====
-- Opening a file, and the choice of the handler, in the file system server, lab/fs/serv.c.
use Prim.Native.Nat.{bit_and}
use cse.Base.{ℕ, ◌+◌, ◌-◌, ◌^◌, leb, Option, none, some, List, ◌==◌, if◌then◌else◌}
use cse.Base.Cells.{update}
use cse.Library.Strings.{store_word}
use cse.Fs
use cse.Fs.{Disk, File, Result, ok, err, file_set_size}
use cse.Fs.Directory.{FilePtr, load, store}
use cse.Fs.Path.{file_open, file_create}
use cse.Fs.OpenFiles
use cse.Fs.OpenFiles.{Memory, Server, openfile_alloc}
use cse.Fs.Serving.{
  address_of, done, failed, disk_error, table_error, Request, open_path, set_size, read, write,
  stat, flush_file, remove, sync, unknown, Answer, plain, State, Served, answer, with_disk,
  serve_set_size, serve_read, serve_write, serve_stat, serve_flush, serve_remove, serve_sync,
}

module _ (M : Memory) where
  -- The entry of the table, its page and the file that it leads to, once the file is open.
  abbrev pub fill_entry : ℕ → ℕ → FilePtr → State M → Served M
  fill_entry i omode p st =
      let o = st.server.opentab i in
      let bytes =
        store_word (o.o_fd + 12) o.o_fileid
          (store_word (o.o_fd + 8) (bit_and omode 3) (store_word o.o_fd 102 st.server.bytes)) in
      some (
        record (plain (done 0)) { page = o.o_fd },
        record st {
          server = record st.server {
            opentab =
                update st.server.opentab i (record o { o_file = address_of p; o_mode = omode });
            bytes = bytes;
          };
        },
      )

  -- `file_set_size(f, 0)`, if O_TRUNC is set.
  abbrev pub truncated : ℕ → ℕ → FilePtr → State M → Served M
  truncated i omode p st =
      if bit_and omode 512 == 0
      then fill_entry i omode p st
      else elim (file_set_size p.block 0 (load p st.disk) st.disk) [
        | none ↦ none
        | some (f, d) ↦ fill_entry i omode p (with_disk M (store p f d) st)
      ]

  abbrev pub opened : ℕ → ℕ → State M → Option (Result FilePtr × Disk) → Served M
  opened i omode st none = none
  opened i omode st (some (err e, d)) = answer M (failed (disk_error e)) (with_disk M d st)
  opened i omode st (some (ok p, d)) = truncated i omode p (with_disk M d st)

  -- With O_CREAT, a file that exists is opened unless O_EXCL is set.
  abbrev pub created : ℕ → ℕ → List ℕ → State M → Option (Result FilePtr × Disk) → Served M
  created i omode path st (some (err Fs.e_file_exists, d)) =
      if bit_and omode 1024 == 0
      then opened i omode (with_disk M d st) (file_open path d)
      else answer M (failed 13) (with_disk M d st)
  created i omode path st o = opened i omode st o

  -- An id of `openfile_alloc` from 2^31 on is a negative result, and returned.
  abbrev pub open_at : ℕ → List ℕ → OpenFiles.Result (ℕ × ℕ) × Server M → State M → Served M
  open_at omode path (OpenFiles.err e, srv) st =
      answer M (failed (table_error e)) (record st { server = srv })
  open_at omode path (OpenFiles.ok (i, id), srv) st =
      let st' = record st { server = srv } in
      if leb (2 ^ 31) id
      then answer M (failed (2 ^ 32 - id)) st'
      else if bit_and omode 256 == 0
      then opened i omode st' (file_open path st'.disk)
      else created i omode path st' (file_create path st'.disk)

  unfoldable pub serve_open : ℕ → List ℕ → ℕ → State M → Served M
  serve_open envid path omode st = open_at omode path (openfile_alloc M st.server) st

  -- The choice of the handler by the request code.
  unfoldable pub dispatch : ℕ → Request → (ℕ → ℕ) → State M → Served M
  unfolding serve_open
  dispatch whom (open_path path omode) ipc = serve_open whom path omode
  dispatch whom (set_size fileid size) ipc = serve_set_size M whom fileid size
  dispatch whom (read fileid n) ipc = serve_read M whom fileid n ipc
  dispatch whom (write fileid n buf) ipc = serve_write M whom fileid n buf
  dispatch whom (stat fileid) ipc = serve_stat M whom fileid
  dispatch whom (flush_file fileid) ipc = serve_flush M whom fileid
  dispatch whom (remove path) ipc = serve_remove M path
  dispatch whom sync ipc = serve_sync M
  dispatch whom (unknown code) ipc = answer M (failed 3)

  abbrev pub sent : Option (Answer × State M) → Option (Option Answer × State M)
  sent none = none
  sent (some (a, st)) = some (some a, st)

  -- One round of `serve`: the answer that is sent, if any. `perm` is that of the page with the
  -- request; the page is unmapped after the answer, and only then.
  unfoldable pub serve_round :
      ℕ → ℕ → Request → (ℕ → ℕ) → State M → Option (Option Answer × State M)
  unfolding dispatch
  serve_round whom perm req ipc st =
      if bit_and perm 1 == 0 then some (none, st) else sent (dispatch whom req ipc st)
