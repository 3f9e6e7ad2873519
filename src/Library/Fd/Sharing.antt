-- ===== src/Library/Fd/Sharing.antt =====
-- `dup` of lab/lib/fd.c shares the descriptor page: the two descriptors have one offset.
use mathlib.Core.Path.{subst}
use native.Mathlib.Decide.{ℕ_discrete}
use cse.Base.{
  ℕ, ◌<◌, ◌≡◌, refl, sym, ap, ◌∙◌, Bool, true, false, Option, none, some, List, arith, inl, inr,
  Bool-cases,
}
use cse.Base.Cells.{update, update_self, update_ne}
use cse.Library.Strings.{ℤ, pos}
use cse.Library.Fd.{
  Process, Fd, Dev, e_inval, Result, ok, err, maxfd, index2fd, is_mapped, fd_at, page_map, map_at,
  finish_dup, share_fd, share_data, dup_at, fd2data, close, seek, seek_at, offset_in_page,
  fd_in_page, dup, index2data,
}
use cse.Library.Fd.Table.{fd_lookup-open, fd_lookup-cases}

module _ {W : Type 0} (no_room : ℕ → Process W → Bool) where
  mapped_both :
      (s d x : ℕ) (q : Process W)
      → q.page_at s ≡ some x
      → (update q.page_at d (some x) s ≡ some x) × (update q.page_at d (some x) d ≡ some x)
  mapped_both s d x q at = (
    elim (ℕ_discrete s d) [
      | yes e ↦
          subst (λ y. update q.page_at d (some x) y ≡ some x) (sym e)
            (update_self q.page_at d (some x))
      | no ne ↦ update_ne q.page_at d s (some x) ne ∙ at
    ],
    update_self q.page_at d (some x),
  )

  map_at-shares :
      (s d : ℕ) (q p' : Process W) (o : Option ℕ)
      → q.page_at s ≡ o
      → map_at no_room d q o ≡ (ok tt, p')
      → (x : ℕ) × (p'.page_at s ≡ some x) × (p'.page_at d ≡ some x)
  map_at-shares s d q p' none at e = ground arith
  map_at-shares s d q p' (some x) at e = elim (Bool-cases (no_room d q)) [
    | inl full ↦ ground arith
    | inr room ↦
        let (source, target) = mapped_both s d x q at in
        (
          x,
          subst (λ r. r.page_at s ≡ some x) (made room) source,
          subst (λ r. r.page_at d ≡ some x) (made room) target,
        )
  ]
    where
      after : Process W
      after = record q { page_at = update q.page_at d (some x) }

      stored : no_room d q ≡ false → map_at no_room d q (some x) ≡ (ok tt, after)
      stored room = rw room refl

      made : no_room d q ≡ false → after ≡ p'
      made room = ap (λ r. r.1) (sym (stored room) ∙ e)

  finish_dup-ok :
      (i newfd nva : ℕ) (r : Result (Unit {0}) × Process W) (z : ℤ) (p' : Process W)
      → finish_dup i newfd nva r ≡ (ok z, p')
      → r ≡ (ok tt, p')
  finish_dup-ok i newfd nva (err e, p) z p' h = ground arith
  finish_dup-ok i newfd nva (ok u, p) z p' h = ground arith

  share_fd-ok :
      (i oldfd newfd nva : ℕ) (r : Result (Unit {0}) × Process W) (z : ℤ) (p' : Process W)
      → share_fd no_room i oldfd newfd nva r ≡ (ok z, p')
      → (x : ℕ) × (p'.page_at oldfd ≡ some x) × (p'.page_at newfd ≡ some x)
  share_fd-ok i oldfd newfd nva (err e, p) z p' h = ground arith
  share_fd-ok i oldfd newfd nva (ok u, p) z p' h =
      map_at-shares oldfd newfd p p' (p.page_at oldfd) refl
        (finish_dup-ok i newfd nva (page_map no_room oldfd newfd p) z p' h)

  dup_at-ok :
      (devtab : List (Dev W)) (i j : ℕ) (z : ℤ) (p p' : Process W)
      → dup devtab no_room (pos i) j p ≡ (ok z, p')
      → (x : ℕ) × (p'.page_at (index2fd i) ≡ some x) × (p'.page_at (index2fd j) ≡ some x)
  unfolding dup
  dup_at-ok devtab i j z p p' e = elim (fd_lookup-cases i p) [
    | inl found ↦
        share_fd-ok j (index2fd i) (index2fd j) (index2data j)
          (share_data no_room (fd2data (index2fd i)) (index2data j) (close devtab (pos j) p).1) z p'
          (subst (λ r. dup_at devtab no_room j r p ≡ (ok z, p')) found e)
    | inr none_there ↦ refused (subst (λ r. dup_at devtab no_room j r p ≡ (ok z, p')) none_there e)
  ]
    where
      refused :
          dup_at devtab no_room j (err e_inval) p ≡ (ok z, p')
          → (x : ℕ) × (p'.page_at (index2fd i) ≡ some x) × (p'.page_at (index2fd j) ≡ some x)
      refused h = ground arith

  -- After a successful `dup` a `seek` on the new descriptor, one of the 32, moves the offset that
  -- the old one has.
  pub seek-dup :
      (devtab : List (Dev W)) (i j offset : ℕ) (z : ℤ) (p p' : Process W)
      → j < maxfd
      → dup devtab no_room (pos i) j p ≡ (ok z, p')
      → (q : Process W) × (seek (pos j) offset p' ≡ (ok 0, q))
        × ((fd_at (index2fd i) q).fd_offset ≡ offset)
  unfolding seek
  seek-dup devtab i j offset z p p' h e =
      let (x, old_at, new_at) = dup_at-ok devtab i j z p p' e in
      let moved : Fd = record (p'.fd_in x) { fd_offset = offset } in
      let q : Process W = record p' { fd_in = update p'.fd_in x moved } in
      let here : is_mapped (index2fd j) p' ≡ true = ap present new_at in
      (
        q,
        ap (λ r. seek_at r offset p') (fd_lookup-open j p' h here)
            ∙ ap (λ o. (ok 0, offset_in_page offset p' o)) new_at,
        ap (λ o. (fd_in_page q o).fd_offset) old_at
            ∙ ap (λ v. v.fd_offset) (update_self p'.fd_in x moved),
      )
    where
      present : Option ℕ → Bool
      present o = elim o [ none ↦ false | some x ↦ true ]
