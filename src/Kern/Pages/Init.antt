-- ===== src/Kern/Pages/Init.antt =====
-- Which pages `page_init` of lab/kern/pmap.c puts on the free list.
use cse.Base.{
  ℕ, zero, suc, ◌+◌, ◌*◌, ◌%◌, ◌^◌, ◌≤◌, ◌<◌, ◌≡◌, refl, Bool, true, false, not, ◌&&◌, ◌||◌, none,
  List, [], ◌∷◌, arith, ltb, leb, ◌==◌, if◌then◌else◌, inl, inr, ◌⊎◌, elem, Bool-cases,
}
use mathlib.Core.Path.{subst, subst₂, sym}
use mathlib.Core.Logic.{◌↔◌, ◌≢◌}
use cse.Kern.Pages.{
  Phys, pgsize, is_reserved, init_page, push_free, page_init_from, page_init, set_ref,
}
use cse.Kern.Pages.FreeList.{IsValid, push_free-IsValid, set_ref-IsValid}

-- The pages that nothing else uses, by number: not page 0, nor the application processors' entry
-- page 7, nor the boot page tables in [8, 14), nor the hole for devices in [160, 256), nor the
-- kernel and what `boot_alloc` gave out, from 256 up to `kernel_end`.
unfoldable pub is_usable : ℕ → ℕ → Bool
is_usable kernel_end i =
    not (i == 0)
    && not (i == 7)
    && not (leb 8 i && ltb i 14)
    && (ltb i 160 || (leb 256 i && leb kernel_end (i * pgsize)))

-- The usable pages below `i`, the highest first.
pub usable_pages : ℕ → ℕ → List ℕ
usable_pages kernel_end zero = []
usable_pages kernel_end (suc i) =
    let rest = usable_pages kernel_end i in if is_usable kernel_end i then i ∷ rest else rest

pub elem-usable_pages :
    (kernel_end i j : ℕ) → elem j (usable_pages kernel_end i) ≡ (ltb j i && is_usable kernel_end j)
unfolding usable_pages
elem-usable_pages kernel_end zero j = ground arith
elem-usable_pages kernel_end (suc i) j = elim (Bool-cases (is_usable kernel_end i)) [
  | inl e ↦ rw e (ground (arith, elem-usable_pages kernel_end i j))
  | inr e ↦ rw e (ground (arith, elem-usable_pages kernel_end i j))
]

is_reserved-eq-not :
    (kernel_end i : ℕ)
    → kernel_end % pgsize ≡ 0
    → is_reserved kernel_end i (i * pgsize) (i * pgsize + 4095) ≡ not (is_usable kernel_end i)
unfolding is_reserved is_usable
is_reserved-eq-not kernel_end i aligned = ground arith

init_page-IsValid :
    (kernel_end i : ℕ) (s : Phys)
    → kernel_end % pgsize ≡ 0
    → i < s.npages
    → IsValid s (usable_pages kernel_end i)
    → IsValid
        (init_page kernel_end i (i * pgsize) (i * pgsize + 4095) s)
        (usable_pages kernel_end (suc i))
unfolding init_page usable_pages
init_page-IsValid kernel_end i s aligned h v =
    rw (is_reserved-eq-not kernel_end i aligned) (added (Bool-cases (is_usable kernel_end i)))
  where
    fresh : elem i (usable_pages kernel_end i) ≡ false
    fresh = ground (arith, elem-usable_pages kernel_end i i)

    cleared : IsValid (set_ref i 0 s) (usable_pages kernel_end i)
    cleared = set_ref-IsValid i 0 s (usable_pages kernel_end i) fresh v

    added :
        (is_usable kernel_end i ≡ true) ⊎ (is_usable kernel_end i ≡ false)
        → IsValid
            (if not (is_usable kernel_end i) then set_ref i 0 s else push_free i (set_ref i 0 s))
            (if is_usable kernel_end i
              then i ∷ usable_pages kernel_end i
              else usable_pages kernel_end i)
    added (inl e) = rw e (
        push_free-IsValid i (set_ref i 0 s) (usable_pages kernel_end i) cleared h (ground arith)
          fresh)
    added (inr e) = rw e cleared

npages-init_page :
    (kernel_end i start end : ℕ) (s : Phys) → (init_page kernel_end i start end s).npages ≡ s.npages
unfolding init_page
npages-init_page kernel_end i start end s = ground arith

page_init_from-IsValid :
    (rounds i start end n kernel_end : ℕ) (s : Phys)
    → start ≡ i * pgsize
    → end ≡ i * pgsize + 4095
    → i + rounds ≡ n
    → n ≡ s.npages
    → n * pgsize < 2 ^ 32
    → kernel_end % pgsize ≡ 0
    → IsValid s (usable_pages kernel_end i)
    → IsValid (page_init_from kernel_end rounds i start end s) (usable_pages kernel_end n)
unfolding page_init_from
page_init_from-IsValid zero i start end n kernel_end s es ee e en small aligned v =
    subst (λ k. IsValid s (usable_pages kernel_end k)) (omega arith) v
page_init_from-IsValid (suc rounds) i start end n kernel_end s es ee e en small aligned v =
    page_init_from-IsValid rounds (i + 1) ((start + pgsize) % 2 ^ 32) ((end + pgsize) % 2 ^ 32) n
      kernel_end (init_page kernel_end i start end s) (omega arith) (omega arith) (omega arith)
      (omega (arith, npages-init_page kernel_end i start end s)) small aligned
      (subst₂ (λ a b. IsValid (init_page kernel_end i a b s) (usable_pages kernel_end (i + 1)))
        (sym es) (sym ee)
        (subst
          (λ k.
            IsValid (init_page kernel_end i (i * pgsize) (i * pgsize + 4095) s)
              (usable_pages kernel_end k))
          (omega arith) (init_page-IsValid kernel_end i s aligned (omega arith) v)))

-- After `page_init`, started with an empty list on less than 4 GB of memory, the free list is
-- valid and holds exactly the usable pages below `npages`, the highest first.
pub page_init-IsValid :
    (kernel_end : ℕ) (s : Phys)
    → s.page_free_list ≡ none
    → s.npages * pgsize < 2 ^ 32
    → kernel_end % pgsize ≡ 0
    → IsValid (page_init kernel_end s) (usable_pages kernel_end s.npages)
unfolding page_init usable_pages
page_init-IsValid kernel_end s empty small aligned =
    page_init_from-IsValid s.npages 0 0 4095 s.npages kernel_end s (omega arith) (omega arith)
      (omega arith) refl small aligned
      (record { chain = empty; distinct = tt; in_range = tt; unused = tt })

-- `page_init` never offers page 0, the entry page 7, the boot page tables, the device hole or a
-- page below the end of the kernel in extended memory, and offers every other page.
pub elem-page_init :
    (kernel_end n j : ℕ)
    → (elem j (usable_pages kernel_end n) ≡ true) ↔ (
        (j < n)
        × (j ≢ 0)
        × (j ≢ 7)
        × ((j < 8) ⊎ (14 ≤ j))
        × ((j < 160) ⊎ ((256 ≤ j) × (kernel_end ≤ j * pgsize))))
unfolding is_usable
elem-page_init kernel_end n j =
    rw (elem-usable_pages kernel_end n j) (λ h. ground arith, λ h. ground arith)
