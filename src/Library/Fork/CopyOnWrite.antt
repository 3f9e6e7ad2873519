-- ===== src/Library/Fork/CopyOnWrite.antt =====
-- What fork of lab/lib/fork.c makes of a page: shared, copy-on-write in both spaces, or read-only,
-- and never a private page that both can write.
use Prim.Native.Nat.{bit_and, bit_or, bit_and-bitwise}
use cse.Base.{
  ℕ, zero, suc, ◌*◌, ◌/◌, ◌%◌, ◌^◌, ◌≤◌, ◌<◌, max, Bool, true, false, not, ◌||◌, ◌==◌,
  if◌then◌else◌, ◌≡◌, ◌≢◌, ◌⊎◌, inl, inr, refl, ap, ◌∙◌, arith, Bool-cases,
}
use cse.Base.Bits.{bit_or-eq-add, bit_or-lt}
use cse.Base.TestBit.{bit_at, bit_at-lt, bit_and-pow, bit_at-bit_or, bit_and_digit, bit_at-bit_and}
use cse.Library.Fork.{pgsize, pte_p, pte_w, pte_share, pte_cow, pte_user, has, entry, cow_perm}

has_w : (x : ℕ) → has x pte_w ≡ (bit_at x 1 == 1)
has_w x = ground (arith, bit_and-pow x 1, bit_at-lt x 1)

has_share : (x : ℕ) → has x pte_share ≡ (bit_at x 10 == 1)
has_share x = ground (arith, bit_and-pow x 10, bit_at-lt x 10)

bit_and-le_below : (n a b : ℕ) → a ≤ n → bit_and a b ≤ b
bit_and-le_below n zero b h = omega (arith, bit_and-bitwise 0 b)
bit_and-le_below zero (suc a) b h = absurd (omega arith)
bit_and-le_below (suc n) (suc a) b h =
    omega (arith, bit_and_digit (suc a) b, bit_and-le_below n (suc a / 2) (b / 2) (omega arith))

bit_at-entry :
    (pte perm i : ℕ)
    → bit_at (entry pte perm) i
      ≡ max (bit_at (pte / pgsize * pgsize) i) (max (bit_at perm i) (bit_at 1 i))
bit_at-entry pte perm i =
    bit_at-bit_or (pte / pgsize * pgsize) (bit_or perm pte_p) i
    ∙ ap (λ n. max (bit_at (pte / pgsize * pgsize) i) n) (bit_at-bit_or perm pte_p i)

pub entry-page : (pte perm : ℕ) → perm < 4096 → entry pte perm / pgsize ≡ pte / pgsize
entry-page pte perm h = omega (arith, bit_or-eq-add 12 (pte / pgsize) (bit_or perm 1) small, small)
  where
    small : bit_or perm 1 < 2 ^ 12
    small = bit_or-lt 12 perm 1 (omega (arith, h)) (omega arith)

-- Writable only if shared.
abbrev pub Guarded : ℕ → Type 0
Guarded x = (not (has x pte_w) || has x pte_share) ≡ true

-- `pte` is writable or copy-on-write.
abbrev pub changes : ℕ → Bool
changes pte = has (pte % 2 ^ 12) pte_w || has (pte % 2 ^ 12) pte_cow

-- What becomes of an entry of the caller, and what the child gets.
abbrev pub own_entry : ℕ → ℕ
own_entry pte =
    if has (bit_and pte pte_user) pte_share
    then pte
    else if changes pte
    then entry pte cow_perm
    else pte

abbrev pub child_entry : ℕ → ℕ
child_entry pte =
    if has (bit_and pte pte_user) pte_share
    then entry pte (bit_and pte pte_user)
    else if changes pte
    then entry pte cow_perm
    else entry pte (pte % 2 ^ 12)

abbrev Careful : ℕ → Type 0
Careful x = has x pte_w ≡ true → has x pte_share ≡ true

guard : (x : ℕ) → Careful x → Guarded x
guard x h = elim (Bool-cases (has x pte_w)) [ inl w ↦ rw (w, h w) refl | inr n ↦ rw n refl ]

-- What `fork` makes of an entry `pte`: the caller's new entry `v` and the child's `c`. A page that
-- is there is left out only if `Full`, the kernel's memory running out, can be shown.
pub data Dup (Full : Type 0) : ℕ → ℕ → ℕ → Type 0 where
  left_out : (pte : ℕ) → (has pte pte_p ≡ false) ⊎ Full → Dup Full pte pte 0
  shared :
      (pte : ℕ)
      → has (bit_and pte pte_user) pte_share ≡ true
      → Dup Full pte pte (entry pte (bit_and pte pte_user))
  copy_on_write :
      (pte : ℕ)
      → has (bit_and pte pte_user) pte_share ≡ false
      → changes pte ≡ true
      → Dup Full pte (entry pte cow_perm) (entry pte cow_perm)
  read_only :
      (pte : ℕ)
      → has (bit_and pte pte_user) pte_share ≡ false
      → has (pte % 2 ^ 12) pte_w ≡ false
      → has (pte % 2 ^ 12) pte_cow ≡ false
      → Dup Full pte pte (entry pte (pte % 2 ^ 12))

Careful-shared : (pte perm : ℕ) → has perm pte_share ≡ true → Careful (entry pte perm)
Careful-shared pte perm h w = ground (
  arith,
  has_share (entry pte perm),
  has_share perm,
  bit_at-entry pte perm 10,
  bit_at-lt (entry pte perm) 10,
  h,
)

Careful-cow : (pte : ℕ) → Careful (entry pte cow_perm)
unfolding bit_at
Careful-cow pte w = absurd (ground (arith, has_w (entry pte cow_perm), no_bit, w))
  where
    no_bit : entry pte cow_perm / 2 % 2 ≡ 0
    no_bit = omega (arith, bit_or-eq-add 12 (pte / pgsize) 2053 (omega arith))

Careful-read_only :
    (pte : ℕ) → has (pte % 2 ^ 12) pte_w ≡ false → Careful (entry pte (pte % 2 ^ 12))
unfolding bit_at
Careful-read_only pte h w = absurd (
    ground (
      arith,
      has_w (entry pte (pte % 2 ^ 12)),
      has_w (pte % 2 ^ 12),
      bit_at-entry pte (pte % 2 ^ 12) 1,
      no_bit,
      h,
      w,
    ))
  where
    no_bit : pte / pgsize * pgsize / 2 % 2 ≡ 0
    no_bit = omega arith

user_small : (pte : ℕ) → bit_and pte pte_user < 4096
user_small pte = omega (arith, bit_and-le_below pte pte pte_user (omega arith))

no_write : (x : ℕ) → has (x % 2 ^ 12) pte_w ≡ false → has x pte_w ≡ true → ⊥
unfolding bit_at
no_write x m w = ground (arith, has_w x, has_w (x % 2 ^ 12), low_bit, m, w)
  where
    low_bit : x % 2 ^ 12 / 2 % 2 ≡ x / 2 % 2
    low_bit = omega arith

-- A page that the child has is the caller's page still, and neither can write it unless it is
-- shared.
pub Dup-isolated :
    {Full : Type 0} {pte v c : ℕ}
    → Dup Full pte v c
    → c ≢ 0
    → Guarded v × Guarded c × (v / pgsize ≡ pte / pgsize) × (c / pgsize ≡ pte / pgsize)
Dup-isolated (left_out pte why) ne = absurd (ne refl)
Dup-isolated (shared pte h) ne = (
  guard pte (λ w. share_of pte h),
  guard (entry pte (bit_and pte pte_user)) (Careful-shared pte (bit_and pte pte_user) h),
  refl,
  entry-page pte (bit_and pte pte_user) (user_small pte),
)
  where
    share_of : (x : ℕ) → has (bit_and x pte_user) pte_share ≡ true → has x pte_share ≡ true
    share_of x m = ground (
      arith,
      has_share x,
      has_share (bit_and x pte_user),
      bit_at-bit_and x pte_user 10,
      bit_at-lt x 10,
      m,
    )
Dup-isolated (copy_on_write pte private change) ne =
    let careful = guard (entry pte cow_perm) (Careful-cow pte) in
    let page = entry-page pte cow_perm (omega arith) in (careful, careful, page, page)
Dup-isolated (read_only pte private h no_cow) ne = (
  guard pte (λ w. absurd (no_write pte h w)),
  guard (entry pte (pte % 2 ^ 12)) (Careful-read_only pte h),
  refl,
  entry-page pte (pte % 2 ^ 12) (omega arith),
)

-- A page that is there and was not left out for want of memory.
pub Dup-present :
    {Full : Type 0} {pte v c : ℕ}
    → Dup Full pte v c
    → (Full → ⊥)
    → has pte pte_p ≡ true
    → (v ≡ own_entry pte) × (c ≡ child_entry pte)
Dup-present (left_out pte (inl absent)) room here = absurd (cc (absent, here))
Dup-present (left_out pte (inr full)) room here = absurd (room full)
Dup-present (shared pte h) room here = (rw h refl, rw h refl)
Dup-present (copy_on_write pte private change) room here =
    (rw (private, change) refl, rw (private, change) refl)
Dup-present (read_only pte private h no_cow) room here =
    (rw (private, h, no_cow) refl, rw (private, h, no_cow) refl)
