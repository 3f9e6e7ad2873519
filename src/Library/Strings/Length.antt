-- ===== src/Library/Strings/Length.antt =====
-- `strlen` and `strnlen` of lab/lib/string.c on strings that end.
use mathlib.Core.Path.{subst}
use cse.Base.{ℕ, zero, suc, ◌+◌, ◌<◌, ◌≡◌, ◌≢◌, ap, ◌∙◌, true, false, some, min, arith, ◌==◌}
use cse.Library.Strings.{Mem, strlen_from, strlen, strnlen_from, strnlen}

-- At `s` stand `n` bytes other than 0, and then a 0.
pub record IsString (m : Mem) (s n : ℕ) : Type 0 where
  pub bytes : (i : ℕ) → i < n → m (s + i) ≢ 0
  pub ends : m (s + n) ≡ 0

module _ (m : Mem) where
  rest_of : (s n : ℕ) → IsString m s (suc n) → IsString m (s + 1) n
  rest_of s n v = record {
    bytes = λ i h. subst (λ a. m a ≢ 0) (omega arith) (v.bytes (suc i) (omega arith));
    ends = subst (λ a. m a ≡ 0) (omega arith) v.ends;
  }

  ends_here : (s : ℕ) → IsString m s 0 → (m s == 0) ≡ true
  ends_here s v = ground (arith, last)
    where
      last : m s ≡ 0
      last = subst (λ a. m a ≡ 0) (omega arith) v.ends

  goes_on : (s n : ℕ) → IsString m s (suc n) → (m s == 0) ≡ false
  goes_on s n v = ground (arith, first)
    where
      first : m s ≢ 0
      first = subst (λ a. m a ≢ 0) (omega arith) (v.bytes 0 (omega arith))

  strlen_from_lem :
      (fuel n k s : ℕ) → IsString m s n → n < fuel → strlen_from fuel k s m ≡ some (k + n)
  unfolding strlen_from
  strlen_from_lem zero n k s v h = absurd (omega arith)
  strlen_from_lem (suc fuel) zero k s v h = rw (ends_here s v) (ap (λ x. some x) (omega arith))
  strlen_from_lem (suc fuel) (suc n) k s v h = rw (goes_on s n v) (
      strlen_from_lem fuel n (k + 1) (s + 1) (rest_of s n v) (omega arith)
      ∙ ap (λ x. some x) (omega arith))

  strnlen_from_lem : (size n k s : ℕ) → IsString m s n → strnlen_from k s size m ≡ k + min size n
  unfolding strnlen_from
  strnlen_from_lem zero n k s v = omega arith
  strnlen_from_lem (suc size) zero k s v = rw (ends_here s v) (omega arith)
  strnlen_from_lem (suc size) (suc n) k s v =
      rw (goes_on s n v) (strnlen_from_lem size n (k + 1) (s + 1) (rest_of s n v) ∙ omega arith)

  -- On a string of `n` bytes, with more than `n` rounds allowed, `strlen` ends and gives `n`, and
  -- `strnlen` gives the smaller of `n` and its bound.
  pub strlen-strnlen :
      (fuel size n s : ℕ)
      → IsString m s n
      → n < fuel
      → (strlen fuel s m ≡ some n) × (strnlen s size m ≡ min size n)
  unfolding strlen strnlen
  strlen-strnlen fuel size n s v h = (
    strlen_from_lem fuel n 0 s v h ∙ ap (λ x. some x) (omega arith),
    strnlen_from_lem size n 0 s v ∙ omega arith,
  )
