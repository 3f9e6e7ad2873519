-- ===== src/Library/Fd/Table.antt =====
-- The descriptor table of lab/lib/fd.c: allocation, closing, and the sharing that `dup` sets up.
use mathlib.Core.Path.{subst}
use cse.Base.{
  ℕ, zero, suc, ◌+◌, ◌<◌, ◌≡◌, refl, ap, ◌∙◌, Bool, true, false, Option, none, some, List, arith,
  ◌⊎◌, ==_refl, inl, inr,
}
use cse.Base.Cells.{update_self}
use cse.Library.Strings.{pos}
use cse.Library.Fd.{
  Process, Dev, e_inval, ok, err, maxfd, index2fd, fd2num, is_mapped, fd_alloc_from, fd_alloc,
  fd_lookup, unmap, fd_close, close,
}

fd2num-index2fd : (i : ℕ) → fd2num (index2fd i) ≡ i
fd2num-index2fd i = omega arith

module _ {W : Type 0} where
  fd_alloc_from-first :
      (rounds i k : ℕ) (p : Process W)
      → k < rounds
      → ((j : ℕ) → j < k → is_mapped (index2fd (i + j)) p ≡ true)
      → is_mapped (index2fd (i + k)) p ≡ false
      → fd_alloc_from rounds i p ≡ ok (index2fd (i + k))
  unfolding fd_alloc_from
  fd_alloc_from-first zero i k p h before at = absurd (omega arith)
  fd_alloc_from-first (suc rounds) i zero p h before at =
      rw (here at) (ap (λ x. ok (index2fd x)) (omega arith))
    where
      here : is_mapped (index2fd (i + 0)) p ≡ false → is_mapped (index2fd i) p ≡ false
      here e = subst (λ x. is_mapped (index2fd x) p ≡ false) (omega arith) e
  fd_alloc_from-first (suc rounds) i (suc k) p h before at = rw (here (before 0 (omega arith))) (
      fd_alloc_from-first rounds (i + 1) k p (omega arith)
        (λ j l.
          subst (λ x. is_mapped (index2fd x) p ≡ true) (omega arith) (before (suc j) (omega arith)))
        (subst (λ x. is_mapped (index2fd x) p ≡ false) (omega arith) at)
      ∙ ap (λ x. ok (index2fd x)) (omega arith))
    where
      here : is_mapped (index2fd (i + 0)) p ≡ true → is_mapped (index2fd i) p ≡ true
      here e = subst (λ x. is_mapped (index2fd x) p ≡ true) (omega arith) e

  -- `fd_alloc` gives the lowest of the 32 descriptors whose page is not mapped.
  pub fd_alloc-first :
      (k : ℕ) (p : Process W)
      → k < maxfd
      → ((j : ℕ) → j < k → is_mapped (index2fd j) p ≡ true)
      → is_mapped (index2fd k) p ≡ false
      → fd_alloc p ≡ ok (index2fd k)
  unfolding fd_alloc
  fd_alloc-first k p h before at =
      fd_alloc_from-first maxfd 0 k p h
        (λ j l. subst (λ x. is_mapped (index2fd x) p ≡ true) (omega arith) (before j l))
        (subst (λ x. is_mapped (index2fd x) p ≡ false) (omega arith) at)
      ∙ ap (λ x. ok (index2fd x)) (omega arith)

  pub fd_lookup-open :
      (i : ℕ) (p : Process W)
      → i < maxfd
      → is_mapped (index2fd i) p ≡ true
      → fd_lookup (pos i) p ≡ ok (index2fd i)
  unfolding fd_lookup
  fd_lookup-open i p h opened = rw opened (ground arith)

  fd_lookup-closed :
      (i : ℕ) (p : Process W) → is_mapped (index2fd i) p ≡ false → fd_lookup (pos i) p ≡ err e_inval
  unfolding fd_lookup
  fd_lookup-closed i p shut = rw shut (ground arith)

  close_closed :
      (devtab : List (Dev W)) (i : ℕ) (p : Process W)
      → fd_lookup (pos i) p ≡ err e_inval
      → close devtab (pos i) p ≡ (err e_inval, p)
  unfolding close
  close_closed devtab i p shut = rw shut refl

  is_mapped-unmap : (va : ℕ) (p : Process W) → is_mapped va (unmap va p) ≡ false
  is_mapped-unmap va p = ap present (update_self p.page_at va none)
    where
      present : Option ℕ → Bool
      present o = elim o [ none ↦ false | some x ↦ true ]

  close_open :
      (devtab : List (Dev W)) (i : ℕ) (p : Process W)
      → fd_lookup (pos i) p ≡ ok (index2fd i)
      → (q : Process W) × ((close devtab (pos i) p).1 ≡ unmap (index2fd i) q)
  unfolding close fd_close
  close_open devtab i p found =
      rw found (rw (fd2num-index2fd i) (rw (found, ==_refl (index2fd i)) (_, refl)))

  pub fd_lookup-cases :
      (i : ℕ) (p : Process W)
      → (fd_lookup (pos i) p ≡ ok (index2fd i)) ⊎ (fd_lookup (pos i) p ≡ err e_inval)
  unfolding fd_lookup
  fd_lookup-cases i p = ground arith

  -- Whatever the devices' close functions do, no descriptor number is open after it was closed, and
  -- a second `close` of it gives -E_INVAL and changes nothing.
  pub fd_lookup-close :
      (devtab : List (Dev W)) (i : ℕ) (p : Process W)
      → (fd_lookup (pos i) (close devtab (pos i) p).1 ≡ err e_inval)
        × (close devtab (pos i) (close devtab (pos i) p).1
            ≡ (err e_inval, (close devtab (pos i) p).1))
  fd_lookup-close devtab i p = (shut, close_closed devtab i (close devtab (pos i) p).1 shut)
    where
      shut : fd_lookup (pos i) (close devtab (pos i) p).1 ≡ err e_inval
      shut = elim (fd_lookup-cases i p) [
        | inl found ↦
            let (q, closed) = close_open devtab i p found in
            rw closed (fd_lookup-closed i (unmap (index2fd i) q) (is_mapped-unmap (index2fd i) q))
        | inr none_there ↦ rw (close_closed devtab i p none_there) none_there
      ]
