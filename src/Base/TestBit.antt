-- ===== src/Base/TestBit.antt =====
-- Single bits of words, and what the bit operations do to them.
use Prim.Native.Nat.{
  ℕ, zero, suc, ◌+◌, ◌-◌, ◌*◌, ◌/◌, ◌%◌, ◌^◌, ◌≤◌, ◌<◌, min, max, bit_and, bit_or, bit_xor, digits,
  differ, bit_and-bitwise, bit_xor-bitwise,
}
use mathlib.Core.Path.{◌≡◌, refl, ap, ◌∙◌}
use native.Mathlib.Omega.{arith}
use native.Mathlib.Nat.{pow-suc}
use cse.Base.Tests.{◌==◌, if◌then◌else◌}
use cse.Base.Bits.{bit_or_digit}

-- The count of digits to go may be any bound of the first number, if nothing is left after it.
module _ (z : ℕ → ℕ) (f : ℕ → ℕ → ℕ) where
  digits_count : (n m a b : ℕ) → a ≤ n → a ≤ m → digits z f n a b ≡ digits z f m a b
  digits_count zero zero a b p q = refl
  digits_count zero (suc m) zero b p q = refl
  digits_count zero (suc m) (suc a) b p q = absurd (omega arith)
  digits_count (suc n) zero zero b p q = refl
  digits_count (suc n) zero (suc a) b p q = absurd (omega arith)
  digits_count (suc n) (suc m) zero b p q = refl
  digits_count (suc n) (suc m) (suc a) b p q =
      ap (λ t. t * 2 + f (suc a % 2) (b % 2))
        (digits_count n m (suc a / 2) (b / 2) (omega arith) (omega arith))

pub bit_and_digit : (a b : ℕ) → bit_and a b ≡ bit_and (a / 2) (b / 2) * 2 + min (a % 2) (b % 2)
bit_and_digit zero b = omega (arith, bit_and-bitwise 0 b, bit_and-bitwise 0 (b / 2))
bit_and_digit (suc a) b = omega (
  arith,
  bit_and-bitwise (suc a) b,
  bit_and-bitwise (suc a / 2) (b / 2),
  digits_count (λ c. zero) min a (suc a / 2) (suc a / 2) (b / 2) (omega arith) (omega arith),
)

bit_xor_digit : (a b : ℕ) → bit_xor a b ≡ bit_xor (a / 2) (b / 2) * 2 + differ (a % 2) (b % 2)
bit_xor_digit zero b = omega (arith, bit_xor-bitwise 0 b, bit_xor-bitwise 0 (b / 2))
bit_xor_digit (suc a) b = omega (
  arith,
  bit_xor-bitwise (suc a) b,
  bit_xor-bitwise (suc a / 2) (b / 2),
  digits_count (λ c. c) differ a (suc a / 2) (suc a / 2) (b / 2) (omega arith) (omega arith),
)

-- The `i`-th bit of a word, 0 or 1.
unfoldable pub bit_at : ℕ → ℕ → ℕ
bit_at a zero = a % 2
bit_at a (suc i) = bit_at (a / 2) i

differ_lt : (a b : ℕ) → a < 2 → b < 2 → differ a b < 2
differ_lt zero b h k = k
differ_lt (suc zero) zero h k = h
differ_lt (suc zero) (suc zero) h k = omega arith
differ_lt (suc zero) (suc (suc b)) h k = absurd (omega arith)
differ_lt (suc (suc a)) b h k = absurd (omega arith)

pub bit_at-bit_or : (a b i : ℕ) → bit_at (bit_or a b) i ≡ max (bit_at a i) (bit_at b i)
unfolding bit_at
bit_at-bit_or a b zero = omega (arith, bit_or_digit a b)
bit_at-bit_or a b (suc i) = ap (λ t. bit_at t i) halved ∙ bit_at-bit_or (a / 2) (b / 2) i
  where
    halved : bit_or a b / 2 ≡ bit_or (a / 2) (b / 2)
    halved = omega (arith, bit_or_digit a b)

bit_at-bit_xor : (a b i : ℕ) → bit_at (bit_xor a b) i ≡ differ (bit_at a i) (bit_at b i)
unfolding bit_at
bit_at-bit_xor a b zero =
    omega (arith, bit_xor_digit a b, differ_lt (a % 2) (b % 2) (omega arith) (omega arith))
bit_at-bit_xor a b (suc i) = ap (λ t. bit_at t i) halved ∙ bit_at-bit_xor (a / 2) (b / 2) i
  where
    halved : bit_xor a b / 2 ≡ bit_xor (a / 2) (b / 2)
    halved = omega (arith, bit_xor_digit a b, differ_lt (a % 2) (b % 2) (omega arith) (omega arith))

bit_at-zero : (i : ℕ) → bit_at 0 i ≡ 0
unfolding bit_at
bit_at-zero zero = refl
bit_at-zero (suc i) = bit_at-zero i

bit_at-pow : (i j : ℕ) → bit_at (2 ^ i) j ≡ (if i == j then 1 else 0)
unfolding bit_at
bit_at-pow zero zero = refl
bit_at-pow zero (suc j) = bit_at-zero j ∙ ground arith
bit_at-pow (suc i) zero = rw pow-suc (ground arith)
bit_at-pow (suc i) (suc j) = ap (λ t. bit_at t j) halved ∙ bit_at-pow i j ∙ ground arith
  where
    halved : 2 ^ suc i / 2 ≡ 2 ^ i
    halved = rw pow-suc (omega arith)

pub bit_at-lt : (a i : ℕ) → bit_at a i < 2
unfolding bit_at
bit_at-lt a zero = omega arith
bit_at-lt a (suc i) = bit_at-lt (a / 2) i

bit_and-zero_below : (n a : ℕ) → a ≤ n → bit_and a 0 ≡ 0
bit_and-zero_below n zero h = bit_and-bitwise 0 0
bit_and-zero_below zero (suc a) h = absurd (omega arith)
bit_and-zero_below (suc n) (suc a) h =
    omega (arith, bit_and_digit (suc a) 0, bit_and-zero_below n (suc a / 2) (omega arith))

-- Masking one bit.
pub bit_and-pow : (a i : ℕ) → bit_and a (2 ^ i) ≡ bit_at a i * 2 ^ i
unfolding bit_at
bit_and-pow a zero = omega (arith, bit_and_digit a 1, bit_and-zero_below (a / 2) (a / 2))
bit_and-pow a (suc i) = rw pow-suc (
    bit_and_digit a (2 ^ i * 2) ∙ omega (arith, ap (bit_and (a / 2)) halved, bit_and-pow (a / 2) i))
  where
    halved : 2 ^ i * 2 / 2 ≡ 2 ^ i
    halved = omega arith

-- `|= 1 << i` sets bit `i` and keeps the others.
pub bit_at-set : (a i j : ℕ) → bit_at (bit_or a (2 ^ i)) j ≡ (if i == j then 1 else bit_at a j)
bit_at-set a i j = bit_at-bit_or a (2 ^ i) j ∙ rw (bit_at-pow i j) (ground (arith, bit_at-lt a j))

differ-one : (a : ℕ) → a < 2 → differ a 1 ≡ 1 - a
differ-one zero h = refl
differ-one (suc zero) h = refl
differ-one (suc (suc a)) h = absurd (omega arith)

differ-zero : (a : ℕ) → differ a 0 ≡ a
differ-zero zero = refl
differ-zero (suc a) = refl

-- `^= 1 << i` turns bit `i` over and keeps the others.
pub bit_at-flip :
    (a i j : ℕ) → bit_at (bit_xor a (2 ^ i)) j ≡ (if i == j then 1 - bit_at a j else bit_at a j)
bit_at-flip a i j =
    bit_at-bit_xor a (2 ^ i) j
    ∙ rw (bit_at-pow i j)
        (ground (arith, differ-one (bit_at a j) (bit_at-lt a j), differ-zero (bit_at a j)))

pub bit_at-bit_and : (a b i : ℕ) → bit_at (bit_and a b) i ≡ min (bit_at a i) (bit_at b i)
unfolding bit_at
bit_at-bit_and a b zero = omega (arith, bit_and_digit a b)
bit_at-bit_and a b (suc i) = ap (λ t. bit_at t i) halved ∙ bit_at-bit_and (a / 2) (b / 2) i
  where
    halved : bit_and a b / 2 ≡ bit_and (a / 2) (b / 2)
    halved = omega (arith, bit_and_digit a b)
