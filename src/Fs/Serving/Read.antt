-- ===== src/Fs/Serving/Read.antt =====
-- `serve_read` of lab/fs/serv.c: what the client gets, and the seek position.
use mathlib.Core.Path.{subst}
use cse.Base.{ℕ, false, leb, ◌+◌, ◌-◌, ◌^◌, ◌<◌, min, some, ◌≡◌, refl, sym, ap, ◌∙◌, arith, lt→ltb}
use cse.Library.Strings.{Mem, store_word}
use cse.Fs.{File}
use cse.Fs.Files.{file_read}
use cse.Fs.Files.Read.{byte_of, NoHoles, file_read_lem}
use cse.Fs.Directory.{load}
use cse.Fs.Directory.Lookup.{store-load}
use cse.Fs.OpenFiles
use cse.Fs.OpenFiles.{Memory, OpenFile, Server, openfile_lookup}
use cse.Fs.Serving.{
  file_of, done, Answer, State, Served, load_word, fd_offset, plain, at_position, have_read,
  on_open_file, serve_read,
}

load_word-store_word : (a w : ℕ) (m : Mem) → w < 2 ^ 32 → load_word a (store_word a w m) ≡ w
load_word-store_word a w m small = ground arith

le→leb-false : (off : ℕ) → off < 2 ^ 31 → leb (2 ^ 31) off ≡ false
le→leb-false off low = ground arith

module _ (M : Memory) where
  -- The bytes that a read of at most `n` bytes gives at offset `off` of a file: how many they are.
  abbrev pub available : ℕ → ℕ → File → ℕ
  available n off f = min (min n 4096) (f.f_size - off)

  -- The state with the seek position of an open file at `off`.
  abbrev pub moved : OpenFile → ℕ → State M → State M
  moved o off st = record st {
    server = record st.server { bytes = store_word (o.o_fd + 4) off st.server.bytes };
  }

  lookup-moved :
      (envid fileid : ℕ) (o : OpenFile) (off : ℕ) (st : State M)
      → openfile_lookup M envid fileid (moved o off st).server
        ≡ openfile_lookup M envid fileid st.server
  unfolding openfile_lookup
  lookup-moved envid fileid o off st = refl

  on_open_file-ok :
      (envid fileid i : ℕ) (go_on : OpenFile → State M → Served M) (st : State M)
      → openfile_lookup M envid fileid st.server ≡ OpenFiles.ok i
      → on_open_file M envid fileid go_on st ≡ go_on (st.server.opentab i) st
  unfolding on_open_file
  on_open_file-ok envid fileid i go_on st found = rw (on_open_file, found) refl

  serve_read-eq :
      (envid fileid n i : ℕ) (ipc : ℕ → ℕ) (st : State M)
      → openfile_lookup M envid fileid st.server ≡ OpenFiles.ok i
      → let o = st.server.opentab i in
        let f = load (file_of o.o_file) st.disk in
        let off = fd_offset o.o_fd st.server.bytes in
        NoHoles f st.disk
        → off < 2 ^ 31
        → off + available n off f < 2 ^ 31
        → (a : Answer) × (serve_read M envid fileid n ipc st
            ≡ some (a, moved o (off + available n off f) st))
          × (a.reply ≡ done (available n off f))
          × ((k : ℕ) → k < available n off f → a.ret_buf k ≡ byte_of f st.disk (off + k))
  unfolding serve_read
  serve_read-eq envid fileid n i ipc st found whole low small =
      let (buf, run, bytes) = file_read_lem (min n 4096) off f ipc st.disk whole in
      (
        record (plain (done (available n off f))) { ret_buf = buf },
        on_open_file-ok envid fileid i reading st found
            ∙ rw (le→leb-false off low) (
                rw (run, store-load (file_of o.o_file) st.disk)
                  (ap
                    (λ x.
                      some
                        (record (plain (done (available n off f))) { ret_buf = buf }, moved o x st))
                    (omega (arith, small)))),
        refl,
        λ k h. bytes k ∙ rw (lt→ltb k (available n off f) h) refl,
      )
    where
      reading : OpenFile → State M → Served M
      reading o st = at_position M (fd_offset o.o_fd st.server.bytes) (
          have_read M o st (
            file_read (min n 4096) (fd_offset o.o_fd st.server.bytes)
              (load (file_of o.o_file) st.disk) ipc st.disk))

      o : OpenFile
      o = st.server.opentab i

      f : File
      f = load (file_of o.o_file) st.disk

      off : ℕ
      off = fd_offset o.o_fd st.server.bytes

  -- A reading from offset `off` on: the answer, and the state that it leaves.
  abbrev pub ReadsFrom : ℕ → OpenFile → ℕ → State M → Served M → Type 0
  ReadsFrom n o off st served =
      let f = load (file_of o.o_file) st.disk in
      (a : Answer) × (served ≡ some (a, moved o (off + available n off f) st))
      × (a.reply ≡ done (available n off f))
      × ((k : ℕ) → k < available n off f → a.ret_buf k ≡ byte_of f st.disk (off + k))

  -- On an open file without holes, of less than 2^31 bytes and with a seek position below 2^31, two
  -- reads by its id give bytes that follow each other: the first from the seek position on, the
  -- second from where the first one stopped. Each gives as many as were asked for, at most a page,
  -- and are there, and leaves the seek position behind them; nothing else of the server and nothing
  -- of the disk changes.
  pub serve_read-serve_read :
      (envid fileid n m i : ℕ) (ipc ipc' : ℕ → ℕ) (st : State M)
      → openfile_lookup M envid fileid st.server ≡ OpenFiles.ok i
      → let o = st.server.opentab i in
        let f = load (file_of o.o_file) st.disk in
        let off = fd_offset o.o_fd st.server.bytes in
        let next = off + available n off f in
        NoHoles f st.disk
        → f.f_size < 2 ^ 31
        → off < 2 ^ 31
        → ReadsFrom n o off st (serve_read M envid fileid n ipc st)
          × ReadsFrom m o next
              (moved o next st)
              (serve_read M envid fileid m ipc' (moved o next st))
          × (fd_offset o.o_fd (moved o next st).server.bytes ≡ next)
  serve_read-serve_read envid fileid n m i ipc ipc' st found whole short low = (
    serve_read-eq envid fileid n i ipc st found whole low room,
    subst
        (λ x.
          ReadsFrom m o x (moved o next st) (serve_read M envid fileid m ipc' (moved o next st)))
        at_next
        (serve_read-eq envid fileid m i ipc' (moved o next st)
          (lookup-moved envid fileid o next st ∙ found) whole
          (subst (λ x. x < 2 ^ 31) (sym at_next) room)
          (subst (λ x. x + available m x f < 2 ^ 31) (sym at_next) room')),
    at_next,
  )
    where
      o : OpenFile
      o = st.server.opentab i

      f : File
      f = load (file_of o.o_file) st.disk

      off : ℕ
      off = fd_offset o.o_fd st.server.bytes

      next : ℕ
      next = off + available n off f

      room : off + available n off f < 2 ^ 31
      room = omega (arith, short, low)

      room' : next + available m next f < 2 ^ 31
      room' = omega (arith, short, room)

      at_next : fd_offset o.o_fd (moved o next st).server.bytes ≡ next
      at_next = load_word-store_word (o.o_fd + 4) next st.server.bytes (omega (arith, room))
