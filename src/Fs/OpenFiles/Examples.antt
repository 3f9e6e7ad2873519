-- ===== src/Fs/OpenFiles/Examples.antt =====
-- The theorems on the open files of lab/fs/serv.c in a memory that never runs out.
use mathlib.Core.Path.{subst}
use cse.Base.{ℕ, ◌/◌, ◌*◌, ◌+◌, ◌%◌, ◌≡◌, ◌≢◌, refl, some, arith, ◌==◌, if◌then◌else◌}
use cse.Base.Cells.{update, update_self, update_ne}
use cse.Fs.OpenFiles.{
  maxopen, fileva, Memory, pageref, fd_page, Allocates, OpenFile, e_inval, ok, err, Server,
  take_entry, take_fresh, openfile_alloc_from, openfile_alloc, openfile_lookup,
}
use cse.Fs.OpenFiles.Ids.{IsTable, Outcome, openfile_alloc_lem}
use cse.Fs.OpenFiles.Lookup.{openfile_lookup-openfile_alloc}

some-inj : {A : Type 0} {a b : A} → some a ≡ some b → a ≡ b
some-inj e = cc e

-- Every word of `vpd` is present, and page `p` is mapped `p` times: a fresh page is page 1. A
-- `Store` is the contents of `vpt`.
abbrev memory : Memory
memory = record {
  Store = ℕ → ℕ;
  vpd = λ i s. 7;
  vpt = λ i s. s i;
  pp_ref = λ p s. p;
  sys_page_alloc = λ va s. some (update s (va / 4096) (4096 + 7));
}

allocates : Allocates memory
unfolding pageref
allocates = record {
  fresh = λ i s s' h z e.
      subst (λ t. pageref memory (fd_page i) t ≡ 1) (some-inj e)
        (rw (update_self s (fd_page i / 4096) (4096 + 7)) refl);
  kept = λ i j s s' h g ne z e.
      subst (λ t. pageref memory (fd_page j) t ≡ pageref memory (fd_page j) s) (some-inj e)
        (rw
          (update_ne s (fd_page i / 4096) (fd_page j / 4096) (4096 + 7)
            (λ p. ne (omega (arith, p))))
          refl);
}

-- Nothing is open; entry 0 had id 4096 before.
abbrev table : ℕ → OpenFile
table i = record {
  o_fileid = if i == 0 then 4096 else i;
  o_file = 0;
  o_mode = 0;
  o_fd = fileva + i * 4096;
}

table-IsTable : IsTable table
table-IsTable = record { ids = λ i h. ground (arith, h); fds = λ i h. refl }

abbrev server : Server memory
server = record { opentab = table; bytes = λ a. 1; store = λ i. 0 }

openfile_alloc_lem_example : Outcome memory 0 maxopen server (openfile_alloc memory server)
openfile_alloc_lem_example = openfile_alloc_lem memory server allocates table-IsTable

unfoldable opened : Server memory
opened = (openfile_alloc memory server).1

opening : openfile_alloc memory server ≡ (ok (0, 5120), opened)
unfolding opened pageref openfile_alloc openfile_alloc_from take_fresh take_entry
opening = refl

-- A client has mapped the page too.
abbrev two_mappings : ℕ → ℕ
two_mappings i = 2 * 4096 + 7

two_refs : pageref memory (opened.opentab 0).o_fd two_mappings ≢ 1
unfolding pageref
two_refs e = omega (arith, e)

openfile_lookup-openfile_alloc_example :
    (openfile_lookup memory 7 4096 (record opened { store = two_mappings }) ≡ (
      if 4096 % maxopen == 0
      then if 5120 == 4096 then ok 0 else err e_inval
      else openfile_lookup memory 7 4096 (record server { store = two_mappings })))
    × (5120 % maxopen ≡ 0)
    × IsTable opened.opentab
openfile_lookup-openfile_alloc_example =
    openfile_lookup-openfile_alloc memory allocates server table-IsTable 0 5120 opened opening
      two_mappings 7 4096 two_refs
