-- ===== src/Library/Fork/Fault.antt =====
-- The page fault handler of lab/lib/fork.c: a write to a copy-on-write page gets the environment a
-- page of its own with the same contents.
use Prim.Native.Nat.{bit_or}
use cse.Base.{ℕ, ◌*◌, ◌/◌, ◌<◌, true, false, some, leb, ◌≡◌, ◌≢◌, refl, sym, ap, ◌∙◌, arith}
use cse.Base.Cells.{update, update_self, update_ne}
use cse.Library.Fork.{pgsize, pte_cow, has, Spaces, entry, utop, pftemp, fec_wr, own_copy, pgfault}
use cse.Library.Fork.CopyOnWrite.{entry-page}

lt→leb : (a b : ℕ) → b < a → leb a b ≡ false
lt→leb a b h = ground arith

-- The environment with page `page` of its own at `pn`.
pub record Own (s : Spaces) (pn page : ℕ) (s' : Spaces) : Type 0 where
  pub own : s'.vpt pn ≡ entry (page * pgsize) 7
  pub copied : (w : ℕ) → s'.frames page w ≡ s.frames (s.vpt pn / pgsize) w
  pub others : (f : ℕ) → f ≢ page → s'.frames f ≡ s.frames f
  pub unmapped : s'.vpt (pftemp / pgsize) ≡ 0
  pub kept : (j : ℕ) → j ≢ pn → j ≢ pftemp / pgsize → s'.vpt j ≡ s.vpt j
  pub child : s'.child ≡ s.child

own_copy-Own :
    (pn page : ℕ) (s : Spaces)
    → pn ≢ pftemp / pgsize
    → page ≢ s.vpt pn / pgsize
    → pn * pgsize < utop
    → (s' : Spaces) × (own_copy pn (some page) s ≡ some s') × Own s pn page s'
own_copy-Own pn page s apart fresh below = rw (lt→leb utop (pn * pgsize) below) (
  _,
  refl,
  record {
    own =
        update_ne (update (update s.vpt temp fresh_entry) pn (entry fresh_entry 7)) temp pn 0 apart
        ∙ update_self (update s.vpt temp fresh_entry) pn (entry fresh_entry 7)
        ∙ again;
    copied = λ w. rw (page_of, update_self zeroed page old) (ap (λ f. f w) source);
    others =
        λ f ne. rw page_of (update_ne zeroed page f old ne ∙ update_ne s.frames page f (λ w. 0) ne);
    unmapped = refl;
    kept = λ j ne ne'.
        update_ne (update (update s.vpt temp fresh_entry) pn (entry fresh_entry 7)) temp j 0 ne'
        ∙ update_ne (update s.vpt temp fresh_entry) pn j (entry fresh_entry 7) ne
        ∙ update_ne s.vpt temp j fresh_entry ne';
    child = refl;
  },
)
  where
    temp : ℕ
    temp = pftemp / pgsize

    fresh_entry : ℕ
    fresh_entry = entry (page * pgsize) 7

    zeroed : ℕ → ℕ → ℕ
    zeroed = update s.frames page (λ w. 0)

    old : ℕ → ℕ
    old = zeroed (update s.vpt temp fresh_entry pn / pgsize)

    page_of : fresh_entry / pgsize ≡ page
    page_of = omega (arith, entry-page (page * pgsize) 7 (omega arith))

    again : entry fresh_entry 7 ≡ fresh_entry
    again = ap (λ p. bit_or (p * pgsize) 7) (page_of ∙ omega arith)

    source : old ≡ s.frames (s.vpt pn / pgsize)
    source =
        ap (λ x. zeroed (x / pgsize)) (update_ne s.vpt temp pn fresh_entry apart)
        ∙ update_ne s.frames page (s.vpt pn / pgsize) (λ w. 0) (λ e. fresh (sym e))

-- A write to a copy-on-write page below UTOP, other than that at PFTEMP, when the kernel has a page
-- that is not the old one:
-- `pgfault` gives the caller that page at the address, writable, with the contents of the old page;
-- no other page frame changes, PFTEMP is unmapped again, and all other entries and the child's stay
-- as they were.
pub pgfault-Own :
    (err addr page : ℕ) (s : Spaces)
    → has err fec_wr ≡ true
    → has (s.vpt (addr / pgsize)) pte_cow ≡ true
    → addr < utop
    → addr / pgsize ≢ pftemp / pgsize
    → page ≢ s.vpt (addr / pgsize) / pgsize
    → (s' : Spaces) × (pgfault err addr (some page) s ≡ some s') × Own s (addr / pgsize) page s'
unfolding pgfault
pgfault-Own err addr page s write cow below apart fresh =
    rw (write, cow) (own_copy-Own (addr / pgsize) page s apart fresh (omega (arith, below)))
