-- ===== src/Fs/OpenFiles/Ids.antt =====
-- The ids of open files of lab/fs/serv.c: what `openfile_alloc` does in every case, and which ids
-- `openfile_lookup` accepts afterwards.
use mathlib.Core.Path.{subst}
use native.Mathlib.Decide.{ℕ_discrete}
use cse.Base.{
  ℕ, zero, suc, ◌+◌, ◌*◌, ◌%◌, ◌^◌, ◌≤◌, ◌<◌, ◌≡◌, ◌≢◌, ◌⊎◌, inl, inr, refl, sym, ap, ◌∙◌, false,
  ◌&&◌, none, some, ◌==◌, ltb, leb, if◌then◌else◌, arith, Option-cases,
}
use cse.Base.Cells.{update_self, update_ne}
use cse.Library.Strings.Move.{memset_lem}
use cse.Fs.OpenFiles.{
  maxopen, fileva, Memory, pageref, fd_page, Allocates, OpenFile, e_no_mem, e_max_open, Result, ok,
  err, init_from, serve_init, Server, refs, take_entry, take_fresh, openfile_alloc_from,
  openfile_alloc,
}

-- Each entry keeps ids of its own index, and its own page.
pub record IsTable (tab : ℕ → OpenFile) : Type 0 where
  pub ids : (i : ℕ) → i < maxopen → (tab i).o_fileid % maxopen ≡ i
  pub fds : (i : ℕ) → i < maxopen → (tab i).o_fd ≡ fileva + i * 4096

abbrev ready : (ℕ → OpenFile) → ℕ → OpenFile
ready tab j = record (tab j) { o_fileid = j; o_fd = fileva + j * 4096 }

init_from-before :
    (rounds i va : ℕ) (tab : ℕ → OpenFile) (j : ℕ) → j < i → init_from rounds i va tab j ≡ tab j
unfolding init_from
init_from-before zero i va tab j h = refl
init_from-before (suc rounds) i va tab j h =
    init_from-before rounds (i + 1) ((va + 4096) % 2 ^ 32) _ j (omega (arith, h))
    ∙ update_ne tab i j _ (λ e. omega (arith, e, h))

init_from-at :
    (rounds i va : ℕ) (tab : ℕ → OpenFile) (j : ℕ)
    → va ≡ fileva + i * 4096
    → i + rounds ≤ maxopen
    → i ≤ j
    → j < i + rounds
    → init_from rounds i va tab j ≡ ready tab j
unfolding init_from
init_from-at zero i va tab j at room from below = absurd (omega (arith, from, below))
init_from-at (suc rounds) i va tab j at room from below = elim (ℕ_discrete j i) [
  | yes e ↦
      subst (λ x. init_from (suc rounds) i va tab x ≡ ready tab x) (sym e)
        (init_from-before rounds (i + 1) ((va + 4096) % 2 ^ 32) _ i (omega arith)
          ∙ update_self tab i _
          ∙ ap (λ x. record (tab i) { o_fileid = i; o_fd = x }) at)
  | no ne ↦
      init_from-at rounds (i + 1) ((va + 4096) % 2 ^ 32) _ j (omega (arith, at, room))
        (omega (arith, room)) (omega (arith, ne, from)) (omega (arith, below))
      ∙ ap (λ (o : OpenFile). record o { o_fileid = j; o_fd = fileva + j * 4096 })
          (update_ne tab i j _ ne)
]

pub serve_init-eq : (tab : ℕ → OpenFile) (j : ℕ) → j < maxopen → serve_init tab j ≡ ready tab j
unfolding serve_init
serve_init-eq tab j h =
    init_from-at maxopen 0 fileva tab j (omega arith) (omega arith) (omega arith) (omega (arith, h))

pub serve_init-IsTable : (tab : ℕ → OpenFile) → IsTable (serve_init tab)
serve_init-IsTable tab = record {
  ids = λ i h. rw (serve_init-eq tab i h) (omega (arith, h));
  fds = λ i h. rw (serve_init-eq tab i h) refl;
}

pub ne→== : (a b : ℕ) → a ≢ b → (a == b) ≡ false
ne→== a b ne = ground arith

module _ (M : Memory) where
  -- What `openfile_alloc` has done when it returns entry `k`, which no client had mapped: the entry
  -- has its next id and a page of its own, cleared, and nothing else has changed.
  pub record Opened (srv : Server M) (k : ℕ) (srv' : Server M) : Type 0 where
    pub unshared : refs M srv k < 2
    pub next :
        srv'.opentab k
        ≡ record (srv.opentab k) { o_fileid = ((srv.opentab k).o_fileid + maxopen) % 2 ^ 32 }
    pub others : (j : ℕ) → j ≢ k → srv'.opentab j ≡ srv.opentab j
    pub mapped : pageref M (srv.opentab k).o_fd srv'.store ≡ 1
    pub unmoved :
        (j : ℕ)
        → j < maxopen
        → j ≢ k
        → pageref M (srv.opentab j).o_fd srv'.store ≡ pageref M (srv.opentab j).o_fd srv.store
    pub cleared :
        (a : ℕ)
        → srv'.bytes a ≡ (
            if leb (srv.opentab k).o_fd a && ltb a ((srv.opentab k).o_fd + 4096)
            then 0
            else srv.bytes a)

  -- Where the loop of `openfile_alloc` stops: at the first entry below the bound that no client has
  -- mapped.
  abbrev pub First : ℕ → ℕ → ℕ → Server M → Type 0
  First from bound k srv =
      (from ≤ k)
      × (k < bound)
      × (refs M srv k < 2)
      × ((j : ℕ) → from ≤ j → j < k → 2 ≤ refs M srv j)

  -- The three results of the loop from `from` on: -E_MAX_OPEN where there is no such entry,
  -- -E_NO_MEM where the entry has no page and none is left, and otherwise the entry and its new id.
  abbrev pub Outcome : ℕ → ℕ → Server M → Result (ℕ × ℕ) × Server M → Type 0
  Outcome from bound srv r =
      (((j : ℕ) → from ≤ j → j < bound → 2 ≤ refs M srv j) × (r ≡ (err e_max_open, srv)))
      ⊎ ((k : ℕ) × First from bound k srv
          × ((r ≡ (err e_no_mem, srv))
              × (refs M srv k ≡ 0)
              × (M.sys_page_alloc (srv.opentab k).o_fd srv.store ≡ none)))
      ⊎ ((k : ℕ) × (srv' : Server M) × First from bound k srv
          × (r ≡ (ok (k, (srv'.opentab k).o_fileid), srv'))
          × Opened srv k srv')

  take_entry-Opened :
      (k : ℕ) (srv : Server M) (store : M.Store)
      → refs M srv k < 2
      → pageref M (srv.opentab k).o_fd store ≡ 1
      → ((j : ℕ)
          → j < maxopen
          → j ≢ k
          → pageref M (srv.opentab j).o_fd store ≡ pageref M (srv.opentab j).o_fd srv.store)
      → (srv' : Server M) × (take_entry M k (record srv { store = store })
          ≡ (ok (k, (srv'.opentab k).o_fileid), srv'))
        × Opened srv k srv'
  unfolding take_entry
  take_entry-Opened k srv store few one same =
      let o = srv.opentab k in
      let taken = record o { o_fileid = (o.o_fileid + maxopen) % 2 ^ 32 } in
      let srv' = (take_entry M k (record srv { store = store })).1 in
      (
        srv',
        ap (λ (x : OpenFile). (ok (k, x.o_fileid), srv')) (sym (update_self srv.opentab k taken)),
        record {
          unshared = few;
          next = update_self srv.opentab k taken;
          others = λ j ne. update_ne srv.opentab k j taken ne;
          mapped = one;
          unmoved = same;
          cleared = λ a. memset_lem o.o_fd 0 4096 srv.bytes a;
        },
      )

  First-here : (i n : ℕ) (srv : Server M) → refs M srv i < 2 → First i (i + suc n) i srv
  First-here i n srv few =
      (omega arith, omega arith, few, λ j from below. absurd (omega (arith, from, below)))

  First-later :
      (i n k : ℕ) (srv : Server M)
      → 2 ≤ refs M srv i
      → First (i + 1) (i + 1 + n) k srv
      → First i (i + suc n) k srv
  First-later i n k srv busy (from, below, few, before) = (
    omega (arith, from),
    omega (arith, below),
    few,
    λ j at until. elim (ℕ_discrete j i) [
      | yes e ↦ subst (λ x. 2 ≤ refs M srv x) (sym e) busy
      | no ne ↦ before j (omega (arith, at, ne)) until
    ],
  )

  Outcome-later :
      (i n : ℕ) (srv : Server M) (r : Result (ℕ × ℕ) × Server M)
      → 2 ≤ refs M srv i
      → Outcome (i + 1) (i + 1 + n) srv r
      → Outcome i (i + suc n) srv r
  Outcome-later i n srv r busy out = elim out [
    | inl (all, e) ↦ inl (
      λ j at until. elim (ℕ_discrete j i) [
        | yes same ↦ subst (λ x. 2 ≤ refs M srv x) (sym same) busy
        | no ne ↦ all j (omega (arith, at, ne)) (omega (arith, until))
      ],
      e,
    )
    | inr (inl (k, first, e)) ↦ inr (inl (k, First-later i n k srv busy first, e))
    | inr (inr (k, srv', first, e, opened)) ↦
        inr (inr (k, srv', First-later i n k srv busy first, e, opened))
  ]

  openfile_alloc_from-Outcome :
      (laws : Allocates M) (rounds i : ℕ) (srv : Server M)
      → IsTable srv.opentab
      → i + rounds ≤ maxopen
      → Outcome i (i + rounds) srv (openfile_alloc_from M rounds i srv)
  unfolding openfile_alloc_from take_fresh
  openfile_alloc_from-Outcome laws zero i srv good room =
      inl ((λ j from below. absurd (omega (arith, from, below))), refl)
  openfile_alloc_from-Outcome laws (suc rounds) i srv good room =
      elim (ℕ_discrete (refs M srv i) 0) [
        | yes z ↦
            rw (ap (λ n. n == 0) z)
              (elim (Option-cases (M.sys_page_alloc (srv.opentab i).o_fd srv.store)) [
                | inl e ↦
                    rw e (inr (inl (i, First-here i rounds srv (omega (arith, z)), (refl, z, e))))
                | inr (store, e) ↦ rw e (
                    let (srv', got, opened) =
                      take_entry-Opened i srv store (omega (arith, z)) (now store z e)
                        (others store z e) in
                    inr (inr (i, srv', First-here i rounds srv (omega (arith, z)), got, opened)))
              ])
        | no nz ↦ elim (ℕ_discrete (refs M srv i) 1) [
          | yes o ↦ rw (ap (λ n. n == 0) o) (
              rw (ap (λ n. n == 1) o) (
                let (srv', got, opened) =
                  take_entry-Opened i srv srv.store (omega (arith, o)) o (λ j h ne. refl) in
                inr (inr (i, srv', First-here i rounds srv (omega (arith, o)), got, opened))))
          | no ne ↦
              rw (ne→== _ _ nz, ne→== _ _ ne)
                (Outcome-later i rounds srv _ (omega (arith, nz, ne))
                  (openfile_alloc_from-Outcome laws rounds (i + 1) srv good (omega (arith, room))))
        ]
      ]
    where
      here : i < maxopen
      here = omega (arith, room)

      own_page : (srv.opentab i).o_fd ≡ fd_page i
      own_page = good.fds i here

      was : refs M srv i ≡ 0 → pageref M (fd_page i) srv.store ≡ 0
      was z = ap (λ a. pageref M a srv.store) (sym own_page) ∙ z

      got_at :
          (store : M.Store)
          → M.sys_page_alloc (srv.opentab i).o_fd srv.store ≡ some store
          → M.sys_page_alloc (fd_page i) srv.store ≡ some store
      got_at store e = ap (λ a. M.sys_page_alloc a srv.store) (sym own_page) ∙ e

      now :
          (store : M.Store)
          → refs M srv i ≡ 0
          → M.sys_page_alloc (srv.opentab i).o_fd srv.store ≡ some store
          → pageref M (srv.opentab i).o_fd store ≡ 1
      now store z e =
          ap (λ a. pageref M a store) own_page
          ∙ laws.fresh i srv.store store here (was z) (got_at store e)

      others :
          (store : M.Store)
          → refs M srv i ≡ 0
          → M.sys_page_alloc (srv.opentab i).o_fd srv.store ≡ some store
          → (j : ℕ) → j < maxopen
          → j ≢ i
          → pageref M (srv.opentab j).o_fd store ≡ pageref M (srv.opentab j).o_fd srv.store
      others store z e j h ne =
          ap (λ a. pageref M a store) (good.fds j h)
          ∙ laws.kept i j srv.store store here h ne (was z) (got_at store e)
          ∙ ap (λ a. pageref M a srv.store) (sym (good.fds j h))

  -- On a table whose entries have ids of their index and pages of their own, where
  -- `sys_page_alloc` maps the page of an entry once and leaves those of the others:
  -- `openfile_alloc` takes the first of the 1024 entries whose page no client has mapped. It
  -- reports -E_MAX_OPEN if there is none and -E_NO_MEM if that entry has no page and none can be
  -- had, both without a change; otherwise that entry, and no other, has its next id, whose 32 bits
  -- are returned, and a page of its own, cleared.
  pub openfile_alloc_lem :
      (srv : Server M)
      → Allocates M
      → IsTable srv.opentab
      → Outcome 0 maxopen srv (openfile_alloc M srv)
  unfolding openfile_alloc
  openfile_alloc_lem srv laws good =
      openfile_alloc_from-Outcome laws maxopen 0 srv good (omega arith)
