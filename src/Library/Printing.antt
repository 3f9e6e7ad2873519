-- ===== src/Library/Printing.antt =====
-- `printnum` of lab/lib/printfmt.c: what it passes to `putch`, in order.
pub mod ReadBack
use cse.Base.{
  ℕ, zero, suc, ◌+◌, ◌-◌, ◌/◌, ◌%◌, Option, none, some, List, [], ◌∷◌, ◌++◌, ltb, leb,
  if◌then◌else◌, replicate,
}

-- `"0123456789abcdef"[d]`.
abbrev pub hex_digit : ℕ → ℕ
hex_digit d = if ltb d 10 then 48 + d else 87 + d

-- The rest of a call, after the one for the more significant digits.
abbrev pub then_digit : ℕ → Option (List ℕ) → Option (List ℕ)
then_digit d none = none
then_digit d (some out) = some (out ++ hex_digit d ∷ [])

-- A width of 0 or less pads as little as a width of 1. `none` is a recursion deeper than its fuel.
unfoldable pub printnum_from : ℕ → ℕ → ℕ → ℕ → ℕ → Option (List ℕ)
printnum_from zero num base width padc = none
printnum_from (suc fuel) num base width padc =
    let more = then_digit (num % base) (printnum_from fuel (num / base) base (width - 1) padc) in
    if leb base num then more else some (replicate (width - 1) padc ++ hex_digit (num % base) ∷ [])

-- A number of 64 bits has at most 64 digits.
unfoldable pub printnum : ℕ → ℕ → ℕ → ℕ → Option (List ℕ)
unfolding printnum_from
printnum num base width padc = printnum_from 64 num base width padc
