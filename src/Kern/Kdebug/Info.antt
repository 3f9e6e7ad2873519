-- ===== src/Kern/Kdebug/Info.antt =====
-- `debuginfo_rip` of lab/kern/kdebug.c. The table of stabs and the string table are those of the
-- kernel or of the user program, whichever the address is in.
use cse.Base.{
  ℕ, zero, suc, ◌+◌, ◌-◌, ◌%◌, ◌^◌, Bool, true, false, not, ◌&&◌, ◌||◌, Option, none, some, ltb,
  leb, ◌==◌, if◌then◌else◌, ◌≡◌, ◌<◌, ◌≤◌, ap, arith,
}
use cse.Library.Strings.{Mem, strfind}
use cse.Kern.UserMem.{ulim}
use cse.Kern.Kdebug.{Stab, stab_binsearch}
use cse.Kern.Kdebug.Scan.{Typed}
use cse.Kern.Kdebug.Bracket.{InOrder, NextFree}
use cse.Kern.Kdebug.Found.{stab_binsearch-above}

-- `count` is `stab_end - stabs`; `stabstr` is at address 0 of its own, and `str_size` is the
-- difference of its ends.
pub record Symbols : Type 0 where
  pub stabs : ℕ → Stab
  pub count : ℕ
  pub stabstr : Mem
  pub str_size : ℕ

-- A name is an index into the string table, or "<unknown>".
pub record Info : Type 0 where
  pub rip_file : Option ℕ
  pub rip_line : ℕ
  pub rip_fn_name : Option ℕ
  pub rip_fn_namelen : ℕ
  pub rip_fn_addr : ℕ
  pub rip_fn_narg : ℕ

abbrev pub unknown_info : ℕ → Info
unknown_info addr = record {
  rip_file = none;
  rip_line = 0;
  rip_fn_name = none;
  rip_fn_namelen = 9;
  rip_fn_addr = addr;
  rip_fn_narg = 0;
}

-- The result 0 or -1 with `*info`, or a read of `stabs[-1]`.
pub data Outcome : Type 0 where
  found : Info → Outcome
  not_found : Info → Outcome
  out_of_bounds : Outcome

abbrev pub n_so : ℕ
n_so = 0x64

abbrev pub n_fun : ℕ
n_fun = 0x24

abbrev pub n_sline : ℕ
n_sline = 0x44

abbrev pub n_sol : ℕ
n_sol = 0x84

abbrev pub n_psym : ℕ
n_psym = 0xa0

module _ (syms : Symbols) where
  -- Whether the search for the file name stops at a stab.
  abbrev pub names_file : Stab → Bool
  names_file s = (s.n_type == n_sol) || ((s.n_type == n_so) && not (s.n_value == 0))

  -- `while (lline >= lfile && …) lline--` over the `n` stabs from `lfile` on.
  unfoldable pub file_stab : ℕ → ℕ → Option ℕ
  file_stab lfile zero = none
  file_stab lfile (suc n) =
      let rest = file_stab lfile n in
      if names_file (syms.stabs (lfile + n)) then some (lfile + n) else rest

  -- The count of the parameter stabs from `i` on, at most `rounds`.
  unfoldable pub count_args : ℕ → ℕ → ℕ
  count_args zero i = 0
  count_args (suc rounds) i =
      let rest = count_args rounds (i + 1) in
      if (syms.stabs i).n_type == n_psym then rest + 1 else 0

  abbrev pub name_at : ℕ → Option ℕ → Option ℕ
  name_at i old =
      if ltb (syms.stabs i).n_strx syms.str_size then some (syms.stabs i).n_strx else old

  -- `strfind(info->rip_fn_name, ':') - info->rip_fn_name`; ':' is 58 and not in "<unknown>".
  abbrev pub name_length : Option ℕ → Option ℕ
  name_length none = some 9
  name_length (some x) = elim (strfind (syms.str_size + 1) x 58 syms.stabstr) [
    | none ↦ none
    | some e ↦ some (e - x)
  ]

  abbrev pub file_name : Option ℕ → Option ℕ → Option ℕ
  file_name none old = old
  file_name (some i) old = name_at i old

  -- The rest of the function, with the line's stab `lline` and the file from `lfile` on; `lfun` and
  -- `rfun_end` are those of the search for the function, as `stab_binsearch` gives them.
  abbrev pub with_line : ℕ → ℕ → ℕ → ℕ → Info → Outcome
  with_line lfile lfun_next rfun_end lline info = found (record info {
    rip_line = (syms.stabs lline).n_desc;
    rip_file = file_name (file_stab lfile (lline + 1 - lfile)) info.rip_file;
    rip_fn_narg =
        if ltb lfun_next rfun_end then count_args (rfun_end - 1 - lfun_next) lfun_next else 0;
  })

  -- What follows the search for the line: `lline_next` and `rline_end` are one higher than `lline`
  -- and `rline`.
  abbrev pub after_line : ℕ → ℕ → ℕ → Info → Option (ℕ × ℕ) → Option Outcome
  after_line lfile lfun_next rfun_end info none = none
  after_line lfile lfun_next rfun_end info (some (lline_next, rline_end)) =
      if ltb rline_end lline_next
      then some (not_found info)
      else if lline_next == 0
      then some out_of_bounds
      else some (with_line lfile lfun_next rfun_end (lline_next - 1) info)

  -- The search for the line in a range, at an address.
  abbrev pub search_line : ℕ → ℕ → ℕ → ℕ → ℕ → ℕ → Info → Option Outcome
  search_line lfile lfun_next rfun_end left right_end addr info =
      elim (name_length info.rip_fn_name) [
        | none ↦ none
        | some n ↦
            (let info' = record info { rip_fn_namelen = n } in
              after_line lfile lfun_next rfun_end info'
                (stab_binsearch syms.stabs n_sline left right_end addr))
      ]

  -- What follows the search for the function.
  abbrev pub after_function : ℕ → ℕ → ℕ → Info → Option (ℕ × ℕ) → Option Outcome
  after_function addr lfile rfile_end info none = none
  after_function addr lfile rfile_end info (some (lfun_next, rfun_end)) =
      if ltb rfun_end lfun_next
      then search_line lfile lfun_next rfun_end lfile rfile_end addr
          (record info { rip_fn_addr = addr })
      else if lfun_next == 0
      then some out_of_bounds
      else let fn = syms.stabs (lfun_next - 1) in
        search_line lfile lfun_next rfun_end (lfun_next - 1) rfun_end
          ((addr + 2 ^ 64 - fn.n_value) % 2 ^ 64)
          (record info {
            rip_fn_name = name_at (lfun_next - 1) info.rip_fn_name;
            rip_fn_addr = fn.n_value;
          })

  -- What follows the search for the source file.
  abbrev pub after_file : ℕ → Info → Option (ℕ × ℕ) → Option Outcome
  after_file addr info none = none
  after_file addr info (some (lfile_next, rfile_end)) =
      if lfile_next == 1
      then some (not_found info)
      else if lfile_next == 0
      then some out_of_bounds
      else after_function addr (lfile_next - 1) rfile_end info
          (stab_binsearch syms.stabs n_fun (lfile_next - 1) rfile_end addr)

  -- `none` is a loop that is cut off.
  unfoldable pub debuginfo_in : ℕ → Option Outcome
  debuginfo_in addr =
      let info = unknown_info addr in
      if (syms.str_size == 0) || not (syms.stabstr (syms.str_size - 1) == 0)
      then some (not_found info)
      else after_file addr info (stab_binsearch syms.stabs n_so 0 syms.count addr)

-- The symbols of the kernel and, behind USTABDATA, of the user program.
unfoldable pub debuginfo_rip : Symbols → Symbols → ℕ → Option Outcome
unfolding debuginfo_in
debuginfo_rip kernel user addr =
    if leb ulim addr then debuginfo_in kernel addr else debuginfo_in user addr

-- Let the stabs of source files in the kernel's table be in order, the first of all stabs be one
-- of them and lie above a kernel address, and the string table be valid. Then the search for the
-- source file leaves -1 for its index, which is not 0, and `debuginfo_rip` goes on to read the
-- stab in front of the table.
pub debuginfo_rip-below :
    (kernel user : Symbols) (addr : ℕ)
    → ulim ≤ addr
    → addr + 1 < 2 ^ 64
    → InOrder kernel.stabs n_so 0 kernel.count addr
    → NextFree kernel.stabs n_so 0 kernel.count addr
    → 0 < kernel.count
    → Typed kernel.stabs n_so 0
    → addr < (kernel.stabs 0).n_value
    → 0 < kernel.str_size
    → kernel.stabstr (kernel.str_size - 1) ≡ 0
    → debuginfo_rip kernel user addr ≡ some out_of_bounds
unfolding debuginfo_rip debuginfo_in
debuginfo_rip-below kernel user addr high small ordered free some_stab so above some_string ended =
    rw (in_kernel) (
      rw (not_empty, ap (λ n. n == 0) ended)
        (ap (after_file kernel addr (unknown_info addr)) (
          stab_binsearch-above kernel.stabs n_so 0 kernel.count addr ordered free small
            (omega arith) 0 (omega arith) some_stab so above (λ i a b. absurd (omega (arith, b))))))
  where
    in_kernel : leb ulim addr ≡ true
    in_kernel = ground (arith, high)

    not_empty : (kernel.str_size == 0) ≡ false
    not_empty = ground (arith, some_string)
