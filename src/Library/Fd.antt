-- ===== src/Library/Fd.antt =====
-- lab/lib/fd.c: the table of file descriptors. A descriptor page is known by its address; two
-- addresses may map the same page, and then share its `struct Fd`. The device functions stand in
-- other files and are parameters, with the state `W` that they work on.
pub mod Sharing
pub mod Table
use cse.Base.{
  ℕ, zero, suc, ◌+◌, ◌-◌, ◌*◌, ◌/◌, ◌%◌, ◌^◌, Bool, true, false, ◌&&◌, Option, none, some, List, [],
  ◌∷◌, leb, ◌==◌, if◌then◌else◌,
}
use cse.Base.Cells.{update}
use cse.Library.Strings.{ℤ, pos, negsuc}

abbrev pub maxfd : ℕ
maxfd = 32

abbrev pub pgsize : ℕ
pgsize = 4096

abbrev pub fdtable : ℕ
fdtable = 13 * 16 ^ 7

abbrev pub filedata : ℕ
filedata = fdtable + maxfd * pgsize

abbrev pub index2fd : ℕ → ℕ
index2fd i = fdtable + i * pgsize

abbrev pub index2data : ℕ → ℕ
index2data i = filedata + i * pgsize

abbrev pub fd2num : ℕ → ℕ
fd2num fd = (fd - fdtable) / pgsize

abbrev pub fd2data : ℕ → ℕ
fd2data fd = index2data (fd2num fd)

pub record Fd : Type 0 where
  pub fd_dev_id : ℕ
  pub fd_offset : ℕ
  pub fd_omode : ℕ

-- `page_at` is what `vpd` and `vpt` show of a page: whether it is mapped, and to which page.
pub record Process (W : Type 0) : Type 0 where
  pub page_at : ℕ → Option ℕ
  pub fd_in : ℕ → Fd
  pub world : W

pub data Error : Type 0 where
  e_inval e_max_open e_not_supp e_no_mem : Error
  e_device : ℕ → Error

pub data Result {ℓ} (A : Type ℓ) : Type ℓ where
  ok : A → Result A
  err : Error → Result A

-- A device function gets the descriptor's address and two more arguments.
abbrev pub DevOp : Type 0 → Type 0
DevOp W = ℕ → ℕ → ℕ → Process W → Result ℕ × Process W

-- A null function pointer is `none`; `dev_stat` fills the buffer at its first argument.
pub record Dev (W : Type 0) : Type 0 where
  pub dev_id : ℕ
  pub dev_read : Option (DevOp W)
  pub dev_write : Option (DevOp W)
  pub dev_close : Option (DevOp W)
  pub dev_stat : Option (DevOp W)
  pub dev_trunc : Option (DevOp W)

module _ {W : Type 0} where
  abbrev pub is_mapped : ℕ → Process W → Bool
  is_mapped va p = elim (p.page_at va) [ none ↦ false | some x ↦ true ]

  -- The loop of `fd_alloc` at index `i`, with `rounds` rounds left.
  unfoldable pub fd_alloc_from : ℕ → ℕ → Process W → Result ℕ
  fd_alloc_from zero i p = err e_max_open
  fd_alloc_from (suc rounds) i p =
      let rest = fd_alloc_from rounds (i + 1) p in
      if is_mapped (index2fd i) p then rest else ok (index2fd i)

  unfoldable pub fd_alloc : Process W → Result ℕ
  unfolding fd_alloc_from
  fd_alloc p = fd_alloc_from maxfd 0 p

  unfoldable pub fd_lookup : ℤ → Process W → Result ℕ
  fd_lookup (negsuc k) p = err e_inval
  fd_lookup (pos i) p =
      if leb maxfd i
      then err e_inval
      else if is_mapped (index2fd i) p
      then ok (index2fd i)
      else err e_inval

  -- The `struct Fd` at an address.
  abbrev pub fd_in_page : Process W → Option ℕ → Fd
  fd_in_page p none = record { fd_dev_id = 0; fd_offset = 0; fd_omode = 0 }
  fd_in_page p (some x) = p.fd_in x

  abbrev pub fd_at : ℕ → Process W → Fd
  fd_at va p = fd_in_page p (p.page_at va)

  unfoldable pub dev_lookup : List (Dev W) → ℕ → Result (Dev W)
  dev_lookup [] id = err e_inval
  dev_lookup (d ∷ devtab) id =
      let rest = dev_lookup devtab id in if d.dev_id == id then ok d else rest

  abbrev pub unmap : ℕ → Process W → Process W
  unmap va p = record p { page_at = update p.page_at va none }

  abbrev pub map_at :
      (ℕ → Process W → Bool) → ℕ → Process W → Option ℕ → Result (Unit {0}) × Process W
  map_at no_room dstva p none = (err e_inval, p)
  map_at no_room dstva p (some x) =
      if no_room dstva p
      then (err e_no_mem, p)
      else (ok tt, record p { page_at = update p.page_at dstva (some x) })

  -- `sys_page_map(0, srcva, 0, dstva, …)`; `no_room` tells when the kernel is out of memory.
  abbrev pub page_map : (ℕ → Process W → Bool) → ℕ → ℕ → Process W → Result (Unit {0}) × Process W
  page_map no_room srcva dstva p = map_at no_room dstva p (p.page_at srcva)

  -- A call of a device function through a pointer that may be null.
  abbrev pub call : Result ℕ → Option (DevOp W) → DevOp W
  call otherwise none fd a n p = (otherwise, p)
  call otherwise (some op) fd a n p = op fd a n p

  abbrev pub close_dev : Result (Dev W) → ℕ → Process W → Result ℕ × Process W
  close_dev (err e) fd p = (err e, p)
  close_dev (ok d) fd p = call (ok 0) d.dev_close fd 0 0 p

  abbrev pub then_unmap : ℕ → Result ℕ × Process W → Result ℕ × Process W
  then_unmap fd (r, p) = (r, unmap fd p)

  abbrev pub close_found : List (Dev W) → ℕ → Bool → Result ℕ → Process W → Result ℕ × Process W
  close_found devtab fd must_exist (err e) p = ((if must_exist then err e else ok 0), p)
  close_found devtab fd must_exist (ok fd2) p =
      if fd == fd2
      then then_unmap fd (close_dev (dev_lookup devtab (fd_at fd p).fd_dev_id) fd p)
      else (ok 0, p)

  unfoldable pub fd_close : List (Dev W) → ℕ → Bool → Process W → Result ℕ × Process W
  unfolding fd_lookup
  fd_close devtab fd must_exist p =
      close_found devtab fd must_exist (fd_lookup (pos (fd2num fd)) p) p

  abbrev pub close_at : List (Dev W) → Result ℕ → Process W → Result ℕ × Process W
  close_at devtab (err e) p = (err e, p)
  close_at devtab (ok fd) p = fd_close devtab fd true p

  unfoldable pub close : List (Dev W) → ℤ → Process W → Result ℕ × Process W
  unfolding fd_lookup
  close devtab fdnum p = close_at devtab (fd_lookup fdnum p) p

  unfoldable pub close_all_from : List (Dev W) → ℕ → ℕ → Process W → Process W
  unfolding close
  close_all_from devtab zero i p = p
  close_all_from devtab (suc rounds) i p =
      close_all_from devtab rounds (i + 1) (close devtab (pos i) p).1

  abbrev pub close_all : List (Dev W) → Process W → Process W
  close_all devtab p = close_all_from devtab maxfd 0 p

  -- What `dup` does at its label `err`.
  abbrev pub undo : ℕ → ℕ → Error → Process W → Result ℤ × Process W
  undo newfd nva e p = (err e, unmap nva (unmap newfd p))

  abbrev pub finish_dup : ℕ → ℕ → ℕ → Result (Unit {0}) × Process W → Result ℤ × Process W
  finish_dup i newfd nva (err e, p) = undo newfd nva e p
  finish_dup i newfd nva (ok u, p) = (ok (pos i), p)

  abbrev pub share_fd :
      (ℕ → Process W → Bool) → ℕ → ℕ → ℕ → ℕ → Result (Unit {0}) × Process W → Result ℤ × Process W
  share_fd no_room i oldfd newfd nva (err e, p) = undo newfd nva e p
  share_fd no_room i oldfd newfd nva (ok u, p) =
      finish_dup i newfd nva (page_map no_room oldfd newfd p)

  abbrev pub share_data : (ℕ → Process W → Bool) → ℕ → ℕ → Process W → Result (Unit {0}) × Process W
  share_data no_room ova nva p = if is_mapped ova p then page_map no_room ova nva p else (ok tt, p)

  -- `dup` to the non-negative number `i`.
  abbrev pub dup_at :
      List (Dev W) → (ℕ → Process W → Bool) → ℕ → Result ℕ → Process W → Result ℤ × Process W
  dup_at devtab no_room i (err e) p = (err e, p)
  dup_at devtab no_room i (ok oldfd) p =
      let p' = (close devtab (pos i) p).1 in
      share_fd no_room i oldfd (index2fd i) (index2data i)
        (share_data no_room (fd2data oldfd) (index2data i) p')

  unfoldable pub dup :
      List (Dev W) → (ℕ → Process W → Bool) → ℤ → ℕ → Process W → Result ℤ × Process W
  unfolding fd_lookup
  dup devtab no_room oldfdnum i p = dup_at devtab no_room i (fd_lookup oldfdnum p) p

  -- The device of an open descriptor.
  abbrev pub dev_at : List (Dev W) → Result ℕ → Process W → Result (ℕ × Dev W)
  dev_at devtab (err e) p = err e
  dev_at devtab (ok fd) p = elim (dev_lookup devtab (fd_at fd p).fd_dev_id) [
    | err e ↦ err e
    | ok d ↦ ok (fd, d)
  ]

  -- `fd_omode & O_ACCMODE`; O_RDONLY is 0 and O_WRONLY is 1.
  abbrev pub accmode : ℕ → Process W → ℕ
  accmode fd p = (fd_at fd p).fd_omode % 4

  abbrev pub read_at : Result (ℕ × Dev W) → ℕ → ℕ → Process W → Result ℕ × Process W
  read_at (err e) buf n p = (err e, p)
  read_at (ok (fd, d)) buf n p =
      if accmode fd p == 1 then (err e_inval, p) else call (err e_not_supp) d.dev_read fd buf n p

  unfoldable pub read : List (Dev W) → ℤ → ℕ → ℕ → Process W → Result ℕ × Process W
  unfolding fd_lookup
  read devtab fdnum buf n p = read_at (dev_at devtab (fd_lookup fdnum p) p) buf n p

  -- The loop of `readn` at `tot`, with `fuel` calls of `read` at most; `none` is a loop cut off.
  unfoldable pub readn_from :
      ℕ → List (Dev W) → ℤ → ℕ → ℕ → ℕ → Process W → Option (Result ℕ × Process W)
  readn_from zero devtab fdnum buf tot n p = none
  readn_from (suc fuel) devtab fdnum buf tot n p =
      if leb n tot
      then some (ok tot, p)
      else (let (r, p') = read devtab fdnum (buf + tot) (n - tot) p in
          elim r [
            | err e ↦ some (err e, p')
            | ok m ↦
                if m == 0
                then some (ok tot, p')
                else readn_from fuel devtab fdnum buf (tot + m) n p'
          ])

  abbrev pub write_at : Result (ℕ × Dev W) → ℕ → ℕ → Process W → Result ℕ × Process W
  write_at (err e) buf n p = (err e, p)
  write_at (ok (fd, d)) buf n p =
      if accmode fd p == 0 then (err e_inval, p) else call (err e_not_supp) d.dev_write fd buf n p

  unfoldable pub write : List (Dev W) → ℤ → ℕ → ℕ → Process W → Result ℕ × Process W
  unfolding fd_lookup
  write devtab fdnum buf n p = write_at (dev_at devtab (fd_lookup fdnum p) p) buf n p

  abbrev pub offset_in_page : ℕ → Process W → Option ℕ → Process W
  offset_in_page offset p none = p
  offset_in_page offset p (some x) = record p {
    fd_in = update p.fd_in x (record (p.fd_in x) { fd_offset = offset });
  }

  abbrev pub set_offset : ℕ → ℕ → Process W → Process W
  set_offset fd offset p = offset_in_page offset p (p.page_at fd)

  abbrev pub seek_at : Result ℕ → ℕ → Process W → Result ℕ × Process W
  seek_at (err e) offset p = (err e, p)
  seek_at (ok fd) offset p = (ok 0, set_offset fd offset p)

  unfoldable pub seek : ℤ → ℕ → Process W → Result ℕ × Process W
  unfolding fd_lookup
  seek fdnum offset p = seek_at (fd_lookup fdnum p) offset p

  abbrev pub trunc_at : Result (ℕ × Dev W) → ℕ → Process W → Result ℕ × Process W
  trunc_at (err e) newsize p = (err e, p)
  trunc_at (ok (fd, d)) newsize p =
      if accmode fd p == 0
      then (err e_inval, p)
      else call (err e_not_supp) d.dev_trunc fd newsize 0 p

  unfoldable pub ftruncate : List (Dev W) → ℤ → ℕ → Process W → Result ℕ × Process W
  unfolding fd_lookup
  ftruncate devtab fdnum newsize p = trunc_at (dev_at devtab (fd_lookup fdnum p) p) newsize p
