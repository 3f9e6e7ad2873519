-- ===== src/Library/Printing/ReadBack.antt =====
-- `strtol` of lab/lib/string.c reads back what `printnum` of lab/lib/printfmt.c prints.
use mathlib.Core.Path.{subst, ap₂}
use mathlib.Core.List.{append_assoc}
use native.Mathlib.Nat.{pow-suc, div-add-mod', mod-lt, mod-eq_of_lt, div-lt_iff_lt-mul}
use cse.Base.{
  ℕ, zero, suc, ◌+◌, ◌-◌, ◌*◌, ◌/◌, ◌%◌, ◌^◌, ◌≤◌, ◌<◌, ◌≡◌, refl, sym, ap, ◌∙◌, true, false,
  Option, none, some, List, [], ◌∷◌, ◌++◌, map, arith, leb, length, length-append, length-replicate,
  All, replicate, Bool-cases, inl, inr,
}
use cse.Library.Strings.{
  Mem, pos, is_space, skip_space, skip_sign, skip_prefix, digit_of, next_digit, digits_from, strtol,
  after_sign,
}
use cse.Library.Printing.{hex_digit, printnum_from, printnum}

-- The number that digits stand for, after those that make up `acc`.
abbrev value : ℕ → ℕ → List ℕ → ℕ
value base acc [] = acc
value base acc (d ∷ ds) = value base (acc * base + d) ds

value-append :
    (base acc : ℕ) (ds : List ℕ) (d : ℕ)
    → value base acc (ds ++ d ∷ []) ≡ value base acc ds * base + d
value-append base acc [] d = refl
value-append base acc (x ∷ ds) d = value-append base (acc * base + x) ds d

map-hex_digit-append :
    (ds : List ℕ) (d : ℕ) → map hex_digit (ds ++ d ∷ []) ≡ map hex_digit ds ++ hex_digit d ∷ []
map-hex_digit-append [] d = refl
map-hex_digit-append (x ∷ ds) d = ap (λ r. hex_digit x ∷ r) (map-hex_digit-append ds d)

All-append :
    (b : ℕ) (ds : List ℕ) (d : ℕ) → All (λ x. x < b) ds → d < b → All (λ x. x < b) (ds ++ d ∷ [])
All-append b [] d h p = (p, tt)
All-append b (x ∷ ds) d h p = (h.0, All-append b ds d h.1 p)

-- What `printnum` prints: padding, and then the digits of the number.
record Printed (base padc num : ℕ) (out : List ℕ) : Type 0 where
  pads : ℕ
  first : ℕ
  digits : List ℕ
  shape : out ≡ replicate pads padc ++ map hex_digit (first ∷ digits)
  below : All (λ d. d < base) (first ∷ digits)
  means : value base 0 (first ∷ digits) ≡ num

Printed-then_digit :
    (base padc num d : ℕ) (out : List ℕ)
    → d < base
    → Printed base padc num out
    → Printed base padc (num * base + d) (out ++ hex_digit d ∷ [])
Printed-then_digit base padc num d out h p = record {
  pads = p.pads;
  first = p.first;
  digits = p.digits ++ d ∷ [];
  shape = rw (p.shape) (
      append_assoc (replicate p.pads padc) (map hex_digit (p.first ∷ p.digits)) (hex_digit d ∷ [])
      ∙ ap (λ r. replicate p.pads padc ++ r) (sym (map-hex_digit-append (p.first ∷ p.digits) d)));
  below = All-append base (p.first ∷ p.digits) d p.below h;
  means = value-append base 0 (p.first ∷ p.digits) d ∙ ap (λ n. n * base + d) p.means;
}

printnum_from-Printed :
    (fuel num base width padc : ℕ)
    → 2 ≤ base
    → 0 < fuel
    → num < 2 ^ fuel
    → (out : List ℕ) × (printnum_from fuel num base width padc ≡ some out)
      × Printed base padc num out
unfolding printnum_from
printnum_from-Printed zero num base width padc b f h = absurd (omega arith)
printnum_from-Printed (suc fuel) num base width padc b f h = elim (Bool-cases (leb base num)) [
  | inl more ↦
      let (out, printed, p) =
        printnum_from-Printed fuel (num / base) base (width - 1) padc b (enough fuel more h)
          (fewer fuel h) in
      (
        out ++ hex_digit (num % base) ∷ [],
        rw (more, printed) refl,
        subst (λ n. Printed base padc n (out ++ hex_digit (num % base) ∷ []))
            (div-add-mod' num base)
            (Printed-then_digit base padc (num / base) (num % base) out (mod-lt num (omega arith))
              p),
      )
  | inr last ↦ (
    replicate (width - 1) padc ++ hex_digit (num % base) ∷ [],
    rw last refl,
    record {
      pads = width - 1;
      first = num % base;
      digits = [];
      shape = refl;
      below = (mod-lt num (omega arith), tt);
      means = omega (arith, small last);
    },
  )
]
  where
    small : leb base num ≡ false → num % base ≡ num
    small last = mod-eq_of_lt (ground arith)

    enough : (fuel : ℕ) → leb base num ≡ true → num < 2 ^ suc fuel → 0 < fuel
    enough zero more h = ground arith
    enough (suc fuel) more h = omega arith

    fewer : (fuel : ℕ) → num < 2 ^ suc fuel → num / base < 2 ^ fuel
    fewer fuel h = (div-lt_iff_lt-mul (omega arith)).1 (grind (arith, pow-suc))

-- At `s` stand the characters `cs` and a null character.
abbrev pub Holds : Mem → ℕ → List ℕ → Type 0
Holds m s [] = m s ≡ 0
Holds m s (c ∷ cs) = (m s ≡ c) × Holds m (s + 1) cs

skip_space-replicate :
    (k fuel s c : ℕ) (cs : List ℕ) (m : Mem)
    → Holds m s (replicate k 32 ++ c ∷ cs)
    → is_space c ≡ false
    → k < fuel
    → (skip_space fuel s m ≡ some (s + k)) × Holds m (s + k) (c ∷ cs)
unfolding skip_space
skip_space-replicate k zero s c cs m h solid enough = absurd (omega arith)
skip_space-replicate zero (suc fuel) s c cs m h solid enough =
    let here : s + 0 ≡ s = omega arith in rw here (rw (h.0, solid) refl, h)
skip_space-replicate (suc k) (suc fuel) s c cs m h solid enough =
    let there : s + 1 + k ≡ s + suc k = omega arith in
    let (skipped, rest) = skip_space-replicate k fuel (s + 1) c cs m h.1 solid (omega arith) in
    (rw h.0 (skipped ∙ ap (λ a. some a) there), subst (λ a. Holds m a (c ∷ cs)) there rest)

next_digit-hex_digit : (base d : ℕ) → d < base → base ≤ 16 → next_digit base (hex_digit d) ≡ some d
unfolding next_digit digit_of
next_digit-hex_digit base d h b = ground arith

next_digit-null : (base : ℕ) → next_digit base 0 ≡ none
unfolding next_digit digit_of
next_digit-null base = refl

digits_from-digits :
    (fuel base s acc : ℕ) (ds : List ℕ) (m : Mem)
    → Holds m s (map hex_digit ds)
    → All (λ d. d < base) ds
    → base ≤ 16
    → length ds < fuel
    → digits_from fuel base s acc m ≡ some (s + length ds, value base acc ds)
unfolding digits_from
digits_from-digits zero base s acc ds m h below b enough = absurd (omega arith)
digits_from-digits (suc fuel) base s acc [] m h below b enough =
    rw (stops h, digits_from) (ap (λ a. some (a, acc)) (omega arith))
  where
    stops : m s ≡ 0 → next_digit base (m s) ≡ none
    stops e = ap (next_digit base) e ∙ next_digit-null base
digits_from-digits (suc fuel) base s acc (d ∷ ds) m h below b enough =
    rw (goes_on h.0 below.0, digits_from)
      (digits_from-digits fuel base (s + 1) (acc * base + d) ds m h.1 below.1 b (omega arith)
        ∙ ap (λ a. some (a, value base (acc * base + d) ds)) (omega arith))
  where
    goes_on : m s ≡ hex_digit d → d < base → next_digit base (m s) ≡ some d
    goes_on e l = ap (next_digit base) e ∙ next_digit-hex_digit base d l b

-- A digit ends the padding, is no sign, and no 'x' follows it.
module _ (base d : ℕ) (small : d < base) (b : base ≤ 16) where
  hex_digit-solid : is_space (hex_digit d) ≡ false
  hex_digit-solid = ground arith

  skip_sign-digit : (s : ℕ) (m : Mem) → m s ≡ hex_digit d → skip_sign s m ≡ (s, false)
  unfolding skip_sign
  skip_sign-digit s m e = rw e (ground arith)

skip_prefix-digits :
    (base s : ℕ) (ds : List ℕ) (m : Mem)
    → 0 < base
    → base ≤ 16
    → All (λ d. d < base) ds
    → Holds m (s + 1) (map hex_digit ds)
    → skip_prefix s base m ≡ (s, base)
unfolding skip_prefix
skip_prefix-digits base s [] m ne b below h = ground arith
skip_prefix-digits base s (d ∷ ds) m ne b below h = ground arith

length-map : (ds : List ℕ) → length (map hex_digit ds) ≡ length ds
length-map [] = refl
length-map (d ∷ ds) = ap suc (length-map ds)

printnum-Printed :
    (num base width padc : ℕ) (out : List ℕ)
    → 2 ≤ base
    → num < 2 ^ 63
    → printnum num base width padc ≡ some out
    → Printed base padc num out
unfolding printnum
printnum-Printed num base width padc out b small printed =
    let (out', found, p) =
      printnum_from-Printed 64 num base width padc b (omega arith) (omega arith) in
    subst (λ cs. Printed base padc num cs) (some_eq out' (sym found ∙ printed)) p
  where
    some_eq : (out' : List ℕ) → some out' ≡ some out → out' ≡ out
    some_eq out' e = cc

module _ (num base fuel s : ℕ) (m : Mem) (out : List ℕ) (p : Printed base 32 num out) (b : 2 ≤ base)
    (c : base ≤ 16) (h : Holds m s out) (enough : length out < fuel) where
  total : length out ≡ p.pads + suc (length p.digits)
  total =
      ap length p.shape
      ∙ length-append (replicate p.pads 32) (map hex_digit (p.first ∷ p.digits))
      ∙ omega (arith, length-replicate {A = ℕ} p.pads 32, length-map p.digits)

  skip :
      (skip_space fuel s m ≡ some (s + p.pads))
      × Holds m (s + p.pads) (map hex_digit (p.first ∷ p.digits))
  skip =
      skip_space-replicate p.pads fuel s (hex_digit p.first) (map hex_digit p.digits) m
        (subst (λ cs. Holds m s cs) p.shape h) (hex_digit-solid base p.first p.below.0 c)
        (omega (arith, total))

  prefix : skip_prefix (s + p.pads) base m ≡ (s + p.pads, base)
  prefix = skip_prefix-digits base (s + p.pads) p.digits m (omega arith) c p.below.1 skip.1.1

  reads : digits_from fuel base (s + p.pads) 0 m ≡ some (s + length out, num)
  reads =
      digits_from-digits fuel base (s + p.pads) 0 (p.first ∷ p.digits) m skip.1 p.below c
        (omega (arith, total))
      ∙ ap₂ (λ a v. some (a, v)) (omega (arith, total)) p.means

  strtol-Printed : strtol fuel s base m ≡ some (s + length out, pos num)
  unfolding strtol
  strtol-Printed =
      rw (skip.0, strtol)
        (rw (skip_sign-digit base p.first p.below.0 c (s + p.pads) m skip.1.0, after_sign)
          (rw (prefix, reads) refl))

abbrev pub text_of : Option (List ℕ) → List ℕ
text_of none = []
text_of (some out) = out

printnum-total :
    (num base width padc : ℕ)
    → 2 ≤ base
    → num < 2 ^ 63
    → printnum num base width padc ≡ some (text_of (printnum num base width padc))
unfolding printnum
printnum-total num base width padc b small =
    let (out, found, p) =
      printnum_from-Printed 64 num base width padc b (omega arith) (omega arith) in
    found ∙ ap (λ o. some (text_of o)) (sym found)

-- A number below 2^63, in a base from 2 to 16, with any width and padded with spaces: `printnum`
-- ends, and `strtol` in that base, with more rounds than characters, reads the number back from the
-- text that was printed, up to its end.
pub strtol-printnum :
    (num base width fuel s : ℕ) (m : Mem)
    → 2 ≤ base
    → base ≤ 16
    → num < 2 ^ 63
    → let out = text_of (printnum num base width 32) in
      Holds m s out
      → length out < fuel
      → (printnum num base width 32 ≡ some out)
        × (strtol fuel s base m ≡ some (s + length out, pos num))
strtol-printnum num base width fuel s m b c small h enough =
    let done = printnum-total num base width 32 b small in
    (
      done,
      strtol-Printed num base fuel s m (text_of (printnum num base width 32))
          (printnum-Printed num base width 32 (text_of (printnum num base width 32)) b small done) b
          c h enough,
    )
