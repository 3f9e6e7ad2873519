-- ===== src/Fs/OpenFiles.antt =====
-- The file server's table of open files, lab/fs/serv.c, and `pageref` of lab/lib/pageref.c. The
-- server's address space is an interface: the reads of the page tables and the `pages` array
-- through their windows, and the call `sys_page_alloc`.
mod Examples
pub mod Ids
pub mod Lookup
use Prim.Native.Nat.{bit_and}
use cse.Base.{
  ℕ, zero, suc, ◌+◌, ◌*◌, ◌/◌, ◌%◌, ◌^◌, ◌<◌, ◌≡◌, ◌≢◌, Bool, ◌||◌, not, Option, none, some, ◌==◌,
  if◌then◌else◌,
}
use cse.Base.Cells.{update}
use cse.Library.Strings.{Mem, memset}

abbrev pub maxopen : ℕ
maxopen = 1024

abbrev pub fileva : ℕ
fileva = 13 * 2 ^ 28

-- The words of `vpd` and `vpt`, the counts of `pages`, and a fresh zeroed page at an address,
-- `none` for an error.
pub record Memory : Type 1 where
  pub Store : Type 0
  pub vpd : ℕ → Store → ℕ
  pub vpt : ℕ → Store → ℕ
  pub pp_ref : ℕ → Store → ℕ
  pub sys_page_alloc : ℕ → Store → Option Store

-- How many mappings the page has that `v` lies in, 0 where none is mapped.
unfoldable pub pageref : (M : Memory) → ℕ → M.Store → ℕ
pageref M v s =
    if bit_and (M.vpd (v / 2 ^ 21) s) 1 == 0
    then 0
    else let pte = M.vpt (v / 2 ^ 12) s in
      if bit_and pte 1 == 0 then 0 else M.pp_ref (pte / 2 ^ 12) s

-- The page of the `struct Fd` of entry `i`.
abbrev pub fd_page : ℕ → ℕ
fd_page i = fileva + i * 4096

-- What `sys_page_alloc` does at the page of an entry where none is mapped: the page there is mapped
-- once then, and the pages of the other entries are mapped as often as before.
pub record Allocates (M : Memory) : Type 0 where
  pub fresh :
      (i : ℕ) (s s' : M.Store)
      → i < maxopen
      → pageref M (fd_page i) s ≡ 0
      → M.sys_page_alloc (fd_page i) s ≡ some s'
      → pageref M (fd_page i) s' ≡ 1
  pub kept :
      (i j : ℕ) (s s' : M.Store)
      → i < maxopen
      → j < maxopen
      → j ≢ i
      → pageref M (fd_page i) s ≡ 0
      → M.sys_page_alloc (fd_page i) s ≡ some s'
      → pageref M (fd_page j) s' ≡ pageref M (fd_page j) s

-- `o_file` is the address of the `struct File`, 0 for NULL, and `o_fd` that of the `struct Fd`.
pub record OpenFile : Type 0 where
  pub o_fileid : ℕ
  pub o_file : ℕ
  pub o_mode : ℕ
  pub o_fd : ℕ

pub data Error : Type 0 where
  e_no_mem e_max_open e_inval : Error

pub data Result {ℓ} (A : Type ℓ) : Type ℓ where
  ok : A → Result A
  err : Error → Result A

-- The static table: the first entry has mode 1, all else is 0.
abbrev pub initial_opentab : ℕ → OpenFile
initial_opentab =
    update (λ i. record { o_fileid = 0; o_file = 0; o_mode = 0; o_fd = 0 }) 0
      record { o_fileid = 0; o_file = 0; o_mode = 1; o_fd = 0 }

-- The loop of `serve_init` with `rounds` rounds left.
unfoldable pub init_from : ℕ → ℕ → ℕ → (ℕ → OpenFile) → ℕ → OpenFile
init_from zero i va tab = tab
init_from (suc rounds) i va tab =
    init_from rounds (i + 1) ((va + 4096) % 2 ^ 32)
      (update tab i (record (tab i) { o_fileid = i; o_fd = va }))

unfoldable pub serve_init : (ℕ → OpenFile) → ℕ → OpenFile
unfolding init_from
serve_init tab = init_from maxopen 0 fileva tab

module _ (M : Memory) where
  -- `opentab`, the bytes of the memory that the server writes, and the address space.
  pub record Server : Type 0 where
    pub opentab : ℕ → OpenFile
    pub bytes : Mem
    pub store : M.Store

  abbrev pub refs : Server → ℕ → ℕ
  refs srv i = pageref M (srv.opentab i).o_fd srv.store

  -- `case 1`: the entry gets its next id and its page is cleared. The result is the index of the
  -- entry, for `*o`, and the 32 bits of the `int` returned, which is negative from 2^31 on.
  unfoldable pub take_entry : ℕ → Server → Result (ℕ × ℕ) × Server
  take_entry i srv =
      let o = srv.opentab i in
      let id = (o.o_fileid + maxopen) % 2 ^ 32 in
      (
        ok (i, id),
        record srv {
          opentab = update srv.opentab i (record o { o_fileid = id });
          bytes = memset o.o_fd 0 4096 srv.bytes;
        },
      )

  -- `case 0`: the page of the entry is allocated first.
  unfoldable pub take_fresh : ℕ → Server → Option M.Store → Result (ℕ × ℕ) × Server
  unfolding take_entry
  take_fresh i srv none = (err e_no_mem, srv)
  take_fresh i srv (some store) = take_entry i (record srv { store = store })

  -- The loop of `openfile_alloc` with `rounds` rounds left.
  unfoldable pub openfile_alloc_from : ℕ → ℕ → Server → Result (ℕ × ℕ) × Server
  openfile_alloc_from zero i srv = (err e_max_open, srv)
  openfile_alloc_from (suc rounds) i srv =
      let rest = openfile_alloc_from rounds (i + 1) srv in
      if refs srv i == 0
      then take_fresh i srv (M.sys_page_alloc (srv.opentab i).o_fd srv.store)
      else if refs srv i == 1
      then take_entry i srv
      else rest

  unfoldable pub openfile_alloc : Server → Result (ℕ × ℕ) × Server
  unfolding openfile_alloc_from
  openfile_alloc srv = openfile_alloc_from maxopen 0 srv

  -- The index of the entry for `*po`; `envid` is not used.
  unfoldable pub openfile_lookup : ℕ → ℕ → Server → Result ℕ
  openfile_lookup envid fileid srv =
      let i = fileid % maxopen in
      if (refs srv i == 1) || not ((srv.opentab i).o_fileid == fileid) then err e_inval else ok i
