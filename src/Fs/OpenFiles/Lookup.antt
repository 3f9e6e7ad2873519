-- ===== src/Fs/OpenFiles/Lookup.antt =====
-- Which file ids `openfile_lookup` of lab/fs/serv.c accepts once `openfile_alloc` has opened a
-- file.
use mathlib.Core.Path.{subst}
use native.Mathlib.Decide.{ℕ_discrete}
use cse.Base.{
  ℕ, ◌+◌, ◌*◌, ◌%◌, ◌^◌, ◌<◌, ◌≡◌, ◌≢◌, inl, inr, refl, sym, ap, ◌∙◌, Bool, true, false, not, ◌||◌,
  ◌==◌, if◌then◌else◌, arith, ==_refl,
}
use cse.Fs.OpenFiles.{
  maxopen, fileva, Memory, pageref, Allocates, OpenFile, e_inval, ok, err, initial_opentab,
  serve_init, Server, refs, openfile_alloc, openfile_lookup,
}
use cse.Fs.OpenFiles.Ids.{IsTable, Opened, openfile_alloc_lem, ne→==, serve_init-eq}

no_file : (i : ℕ) → (initial_opentab i).o_file ≡ 0
no_file i = ground arith

lookup-eq :
    (M : Memory) (srv : Server M) (envid fileid i : ℕ)
    → fileid % maxopen ≡ i
    → openfile_lookup M envid fileid srv ≡ (
        if (refs M srv i == 1) || not ((srv.opentab i).o_fileid == fileid)
        then err e_inval
        else ok i)
unfolding openfile_lookup
lookup-eq M srv envid fileid i slot = rw slot refl

module _ (M : Memory) (laws : Allocates M) (srv : Server M) (good : IsTable srv.opentab) (k id : ℕ)
    (srv' : Server M) (got : openfile_alloc M srv ≡ (ok (k, id), srv')) where
  slot_of :
      (j l : ℕ) {m : ℕ} {s : Server M}
      → openfile_alloc M srv ≡ (ok (j, m), s)
      → (openfile_alloc M srv ≡ (ok (l, id), srv'))
      → j ≡ l
  slot_of j l e f = cc (e, f)

  server_of : {j m : ℕ} (s : Server M) → openfile_alloc M srv ≡ (ok (j, m), s) → s ≡ srv'
  server_of s e = cc (e, got)

  facts : (k < maxopen) × (id ≡ (srv'.opentab k).o_fileid) × Opened M srv k srv'
  facts = elim (openfile_alloc_lem M srv laws good) [
    | inl (all, e) ↦ cc (e, got)
    | inr (inl (j, first, e)) ↦ cc (e.0, got)
    | inr (inr (j, s, first, e, opened)) ↦
        let same = slot_of j k e got in
        let after = server_of s e in
        (
          subst (λ x. x < maxopen) same first.1,
          cc (e, got, same, after),
          subst (λ x. Opened M srv x srv') same (subst (λ x. Opened M srv j x) after opened),
        )
  ]

  abbrev own : ℕ
  own = (srv.opentab k).o_fileid

  id-eq : id ≡ (own + maxopen) % 2 ^ 32
  id-eq = facts.1 ∙ ap (λ o. o.o_fileid) (facts.2.next)

  id-slot : id % maxopen ≡ k
  id-slot = omega (arith, id-eq, good.ids k facts.0)

  pub openfile_alloc-IsTable : IsTable srv'.opentab
  openfile_alloc-IsTable = record {
    ids = λ i h. elim (ℕ_discrete i k) [
      | yes e ↦
          subst (λ x. (srv'.opentab x).o_fileid % maxopen ≡ x) (sym e)
            (ap (λ n. n % maxopen) (sym facts.1) ∙ id-slot)
      | no ne ↦ rw (facts.2.others i ne) (good.ids i h)
    ];
    fds = λ i h. elim (ℕ_discrete i k) [
      | yes e ↦
          subst (λ x. (srv'.opentab x).o_fd ≡ fileva + x * 4096) (sym e)
            (ap (λ o. o.o_fd) facts.2.next ∙ good.fds k facts.0)
      | no ne ↦ rw (facts.2.others i ne) (good.fds i h)
    ];
  }

  -- When `openfile_alloc`, on a table whose entries have ids of their index and pages of their own,
  -- returned the id `id` of entry `k`, where `sys_page_alloc` maps the page of an entry once and
  -- leaves those of the others, and a client has mapped the page since, in the address space `t`:
  -- `id` is the only id of the entry that `openfile_lookup` accepts, for every caller, and gives
  -- the entry; the ids of the other entries are accepted and refused as by the table before the
  -- call. The entries still have ids of their index and pages of their own.
  pub openfile_lookup-openfile_alloc :
      (t : M.Store) (envid other : ℕ)
      → pageref M (srv'.opentab k).o_fd t ≢ 1
      → (openfile_lookup M envid other (record srv' { store = t }) ≡ (
          if other % maxopen == k
          then if id == other then ok k else err e_inval
          else openfile_lookup M envid other (record srv { store = t })))
        × (id % maxopen ≡ k)
        × IsTable srv'.opentab
  openfile_lookup-openfile_alloc t envid other shared = (
    elim (ℕ_discrete (other % maxopen) k) [
      | yes slot ↦
          rw (slot, ==_refl k)
            (lookup-eq M (record srv' { store = t }) envid other k slot
              ∙ rw (ne→== _ _ shared) (rw (sym facts.1) (not_if (id == other))))
      | no slot ↦ rw (ne→== _ _ slot) (
          lookup-eq M (record srv' { store = t }) envid other (other % maxopen) refl
          ∙ ap
              (λ (o : OpenFile).
                if (pageref M o.o_fd t == 1) || not (o.o_fileid == other)
                then err e_inval
                else ok (other % maxopen))
              (facts.2.others (other % maxopen) slot)
          ∙ sym (lookup-eq M (record srv { store = t }) envid other (other % maxopen) refl))
    ],
    id-slot,
    openfile_alloc-IsTable,
  )
    where
      not_if :
          (b : Bool) → (if not b then err e_inval else ok k) ≡ (if b then ok k else err e_inval)
      not_if true = refl
      not_if false = refl

-- After `serve_init` of the table that the program starts with, `openfile_lookup` accepts each of
-- the first 1024 numbers whose page nobody has mapped, though no file was opened: the entry it
-- gives has the NULL file.
pub openfile_lookup-serve_init :
    (M : Memory) (srv : Server M) (envid fileid : ℕ)
    → srv.opentab ≡ serve_init initial_opentab
    → fileid < maxopen
    → refs M srv fileid ≡ 0
    → (openfile_lookup M envid fileid srv ≡ ok fileid) × ((srv.opentab fileid).o_file ≡ 0)
unfolding openfile_lookup
openfile_lookup-serve_init M srv envid fileid start small unmapped =
    let entry : (srv.opentab fileid
        ≡ record (initial_opentab fileid) { o_fileid = fileid; o_fd = fileva + fileid * 4096 }) =
      rw start (serve_init-eq initial_opentab fileid small) in
    (
      lookup-eq M srv envid fileid fileid (omega (arith, small))
          ∙ rw unmapped (rw entry (rw (==_refl fileid) refl)),
      rw entry (no_file fileid),
    )
