-- ===== src/Library/Strings/Loops.antt =====
-- The other build of lab/lib/string.c, without the string instructions (`ASM` is 0): `memset` and
-- `memmove` by loops over the bytes, and that they do what the instructions do.
use mathlib.Core.Path.{fun_ext}
use native.Mathlib.Decide.{ℕ_discrete}
use cse.Base.{
  ℕ, zero, suc, ◌+◌, ◌-◌, ◌%◌, ◌^◌, ◌<◌, ◌≡◌, false, leb, refl, sym, ap, ◌∙◌, ◌&&◌, arith, ltb,
  if◌then◌else◌, Bool-cases, inl, inr,
}
use cse.Base.Cells.{update}
use cse.Library.Strings.{Mem, copy_unit, movs_up, movs_down, memmove, rep_stosb, memset}
use cse.Library.Strings.Move.{up_lem, down_lem, memmove_lem, rep_stosb_lem, memset_lem}

-- `while (--m >= 0) *p++ = c`, with `m` rounds to go.
unfoldable pub fill_bytes : ℕ → ℕ → ℕ → Mem → Mem
fill_bytes zero p c m = m
fill_bytes (suc n) p c m = fill_bytes n (p + 1) c (update m p (c % 256))

-- `m = n`, an int: from 2^31 on it is negative, and nothing is written.
unfoldable pub memset_loop : ℕ → ℕ → ℕ → Mem → Mem
unfolding fill_bytes
memset_loop v c n m = if leb (2 ^ 31) (n % 2 ^ 32) then m else fill_bytes (n % 2 ^ 32) v c m

-- `while (n-- > 0) *--d = *--s` and `while (n-- > 0) *d++ = *s++`.
unfoldable pub copy_down : ℕ → ℕ → ℕ → Mem → Mem
copy_down zero d s m = m
copy_down (suc n) d s m = copy_down n (d - 1) (s - 1) (update m (d - 1) (m (s - 1)))

unfoldable pub copy_up : ℕ → ℕ → ℕ → Mem → Mem
copy_up zero d s m = m
copy_up (suc n) d s m = copy_up n (d + 1) (s + 1) (update m d (m s))

unfoldable pub memmove_loop : ℕ → ℕ → ℕ → Mem → Mem
unfolding copy_down copy_up
memmove_loop dst src n m =
    if ltb src dst && ltb dst (src + n)
    then copy_down n (dst + n) (src + n) m
    else copy_up n dst src m

one_byte : (d s : ℕ) (m : Mem) → copy_unit 1 d s m ≡ update m d (m s)
one_byte d s m = fun_ext λ a. elim (ℕ_discrete a d) [
  | yes here ↦ ground (arith, ap (λ x. m (s + (x - d))) here)
  | no away ↦ ground arith
]

copy_up-eq : (n d s : ℕ) (m : Mem) → copy_up n d s m ≡ movs_up 1 n d s m
unfolding copy_up movs_up
copy_up-eq zero d s m = refl
copy_up-eq (suc n) d s m =
    copy_up-eq n (d + 1) (s + 1) (update m d (m s))
    ∙ ap (movs_up 1 n (d + 1) (s + 1)) (sym (one_byte d s m))

copy_down-eq : (n d s : ℕ) (m : Mem) → copy_down n d s m ≡ movs_down 1 n (d - 1) (s - 1) m
unfolding copy_down movs_down
copy_down-eq zero d s m = refl
copy_down-eq (suc n) d s m =
    copy_down-eq n (d - 1) (s - 1) (update m (d - 1) (m (s - 1)))
    ∙ ap (movs_down 1 n (d - 1 - 1) (s - 1 - 1)) (sym (one_byte (d - 1) (s - 1) m))

fill_bytes-eq : (n p c : ℕ) (m : Mem) → fill_bytes n p c m ≡ rep_stosb n p c m
unfolding fill_bytes rep_stosb
fill_bytes-eq zero p c m = refl
fill_bytes-eq (suc n) p c m = fill_bytes-eq n (p + 1) c (update m p (c % 256))

memset_loop-eq : (v c n : ℕ) (m : Mem) → n < 2 ^ 31 → memset_loop v c n m ≡ rep_stosb n v c m
unfolding memset_loop
memset_loop-eq v c n m h = rw whole (rw not_negative (fill_bytes-eq n v c m))
  where
    whole : n % 2 ^ 32 ≡ n
    whole = omega (arith, h)

    not_negative : leb (2 ^ 31) n ≡ false
    not_negative = ground (arith, h)

-- Both builds of `memset` and of `memmove` leave the same memory for sizes below 2^31, whatever the
-- alignment of the pointers and the overlap.
pub memmove_loop-eq-memmove :
    (dst src c n : ℕ) (m : Mem)
    → n < 2 ^ 31
    → (memset_loop dst c n m ≡ memset dst c n m) × (memmove_loop dst src n m ≡ memmove dst src n m)
unfolding memmove_loop
memmove_loop-eq-memmove dst src c n m small = (
  memset_loop-eq dst c n m small
      ∙ fun_ext (λ a. rep_stosb_lem n dst c m a ∙ sym (memset_lem dst c n m a)),
  elim (Bool-cases (ltb src dst && ltb dst (src + n))) [
    | inl behind ↦ rw behind (
        copy_down-eq n (dst + n) (src + n) m
        ∙ fun_ext
            λ a. down_lem dst src n m a 1 n (omega arith) behind ∙ sym (memmove_lem dst src n m a))
    | inr apart ↦ rw apart (
        copy_up-eq n dst src m
        ∙ fun_ext
            λ a. up_lem dst src n m a 1 n (omega arith) apart ∙ sym (memmove_lem dst src n m a))
  ],
)
