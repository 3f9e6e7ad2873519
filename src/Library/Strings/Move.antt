-- ===== src/Library/Strings/Move.antt =====
-- `memmove` and `memset` of lab/lib/string.c: the string instructions in either direction and of
-- either width move the whole range.
use mathlib.Core.Path.{subst, subst₂}
use Prim.Native.Nat.{bit_or}
use cse.Base.{
  ℕ, zero, suc, ◌+◌, ◌-◌, ◌*◌, ◌/◌, ◌%◌, ◌≤◌, ◌<◌, ◌≡◌, refl, ap, ◌∙◌, Bool, true, false, ◌&&◌, ◌⊎◌,
  inl, inr, arith, ltb, leb, ◌==◌, if◌then◌else◌, Bool-cases,
}
use cse.Base.Bits.{bit_or-eq-add}
use cse.Base.Cells.{update}
use cse.Library.Strings.{
  Mem, copy_unit, movs_up, movs_down, memmove, store_word, rep_stosl, rep_stosb, four_times, memset,
}

-- A unit moved while the rest of the range is already, or still to be, moved.
movs_up_lem :
    (u k t d s : ℕ) (m : Mem) (a : ℕ)
    → t ≡ k * u
    → (d ≤ s) ⊎ (s + t ≤ d)
    → movs_up u k d s m a ≡ (if leb d a && ltb a (d + t) then m (s + (a - d)) else m a)
unfolding movs_up
movs_up_lem u zero t d s m a e apart = ground arith
movs_up_lem u (suc k) t d s m a e apart =
    movs_up_lem u k (k * u) (d + u) (s + u) (copy_unit u d s m) a refl
      (elim apart [ inl h ↦ inl (omega arith) | inr h ↦ inr (omega arith) ])
    ∙ elim apart [ inl h ↦ ground (arith, ahead) | inr h ↦ ground (arith, ahead) ]
  where
    ahead : d + u ≤ a → m (s + u + (a - (d + u))) ≡ m (s + (a - d))
    ahead h = ap m (omega arith)

movs_down_lem :
    (u k t g s : ℕ) (m : Mem) (a : ℕ)
    → t ≡ k * u
    → movs_down u k (s + g + t - u) (s + t - u) m a
      ≡ (if leb (s + g) a && ltb a (s + g + t) then m (a - g) else m a)
unfolding movs_down
movs_down_lem u zero t g s m a e = ground arith
movs_down_lem u (suc k) t g s m a e =
    subst₂ (λ p q. movs_down u k p q stepped a ≡ moved) (omega arith) (omega arith)
      (movs_down_lem u k (k * u) g s stepped a refl ∙ ground (arith, last))
  where
    stepped : Mem
    stepped = copy_unit u (s + g + t - u) (s + t - u) m

    moved : ℕ
    moved = if leb (s + g) a && ltb a (s + g + t) then m (a - g) else m a

    last : s + g + t - u ≤ a → m (s + t - u + (a - (s + g + t - u))) ≡ m (a - g)
    last h = ap m (omega arith)

-- Both widths of an instruction with the same outcome at `a`.
either_width :
    (t : Bool) (wide narrow : Mem) (a r : ℕ)
    → (t ≡ true → wide a ≡ r)
    → narrow a ≡ r
    → (if t then wide else narrow) a ≡ r
either_width true wide narrow a r w n = w refl
either_width false wide narrow a r w n = n

module _ (dst src n : ℕ) (m : Mem) (a : ℕ) where
  abbrev pub after_move : ℕ
  after_move = if leb dst a && ltb a (dst + n) then m (src + (a - dst)) else m a

  pub up_lem :
      (u k : ℕ)
      → n ≡ k * u
      → (ltb src dst && ltb dst (src + n)) ≡ false
      → movs_up u k dst src m a ≡ after_move
  up_lem u k e apart = movs_up_lem u k n dst src m a e side
    where
      side : (dst ≤ src) ⊎ (src + n ≤ dst)
      side = ground arith

  pub down_lem :
      (u k : ℕ)
      → n ≡ k * u
      → (ltb src dst && ltb dst (src + n)) ≡ true
      → movs_down u k (dst + n - u) (src + n - u) m a ≡ after_move
  down_lem u k e behind =
      subst (λ d. movs_down u k (d + n - u) (src + n - u) m a ≡ after_move) gap
        (movs_down_lem u k n (dst - src) src m a e ∙ ground (arith, gap, source))
    where
      below : src < dst
      below = ground arith

      gap : src + (dst - src) ≡ dst
      gap = omega (arith, below)

      source : dst ≤ a → m (a - (dst - src)) ≡ m (src + (a - dst))
      source h = ap m (omega (arith, below))

  -- `memmove` moves the `n` bytes as they were before the call, whether or not the ranges overlap,
  -- and keeps every other byte.
  pub memmove_lem :
      memmove dst src n m a ≡ (if leb dst a && ltb a (dst + n) then m (src + (a - dst)) else m a)
  unfolding memmove
  memmove_lem = elim (Bool-cases (ltb src dst && ltb dst (src + n))) [
    | inl behind ↦ rw behind (
        either_width (((src + n) % 4 == 0) && ((dst + n) % 4 == 0) && (n % 4 == 0)) _ _ a _
          (λ t. down_lem 4 (n / 4) (ground arith) behind) (down_lem 1 n (omega arith) behind))
    | inr apart ↦ rw apart (
        either_width ((src % 4 == 0) && (dst % 4 == 0) && (n % 4 == 0)) _ _ a _
          (λ t. up_lem 4 (n / 4) (ground arith) apart) (up_lem 1 n (omega arith) apart))
  ]

four_times_lem : (c : ℕ) → c < 256 → four_times c ≡ c * 16777216 + c * 65536 + c * 256 + c
four_times_lem c h =
    ap (λ x. bit_or (bit_or x (c * 256)) c) (bit_or-eq-add 24 c (c * 65536) (omega arith))
    ∙ ap (λ x. bit_or x c) second
    ∙ third
  where
    second : bit_or (c * 16777216 + c * 65536) (c * 256) ≡ c * 16777216 + c * 65536 + c * 256
    second =
        ap (λ x. bit_or x (c * 256)) (omega arith)
        ∙ bit_or-eq-add 16 (c * 256 + c) (c * 256) (omega arith)
        ∙ omega arith

    third : bit_or (c * 16777216 + c * 65536 + c * 256) c ≡ c * 16777216 + c * 65536 + c * 256 + c
    third =
        ap (λ x. bit_or x c) (omega arith)
        ∙ bit_or-eq-add 8 (c * 65536 + c * 256 + c) c (omega arith)
        ∙ omega arith

store_word_lem :
    (v c : ℕ) (m : Mem) (a : ℕ)
    → c < 256
    → store_word v (four_times c) m a ≡ (if leb v a && ltb a (v + 4) then c else m a)
store_word_lem v c m a h = rw (four_times_lem c h) (ground arith)

rep_stosl_lem :
    (k v c t : ℕ) (m : Mem) (a : ℕ)
    → c < 256
    → t ≡ k * 4
    → rep_stosl k v (four_times c) m a ≡ (if leb v a && ltb a (v + t) then c else m a)
unfolding rep_stosl
rep_stosl_lem zero v c t m a h e = ground arith
rep_stosl_lem (suc k) v c t m a h e =
    rep_stosl_lem k (v + 4) c (k * 4) (store_word v (four_times c) m) a h refl
    ∙ rw (store_word_lem v c m a h) (ground arith)

pub rep_stosb_lem :
    (k v c : ℕ) (m : Mem) (a : ℕ)
    → rep_stosb k v c m a ≡ (if leb v a && ltb a (v + k) then c % 256 else m a)
unfolding rep_stosb
rep_stosb_lem zero v c m a = ground arith
rep_stosb_lem (suc k) v c m a = rep_stosb_lem k (v + 1) c (update m v (c % 256)) a ∙ ground arith

nonzero : (n : ℕ) → (suc n == 0) ≡ false
nonzero n = ground arith

-- `memset` writes the low byte of `c` to the `n` bytes at `v` and to no other, by words or by
-- bytes.
pub memset_lem :
    (v c n : ℕ) (m : Mem) (a : ℕ)
    → memset v c n m a ≡ (if leb v a && ltb a (v + n) then c % 256 else m a)
unfolding memset
memset_lem v c zero m a = ground arith
memset_lem v c (suc n) m a = rw (nonzero n) (
    either_width ((v % 4 == 0) && (suc n % 4 == 0))
      (rep_stosl (suc n / 4) v (four_times (c % 256)) m) (rep_stosb (suc n) v c m) a
      (if leb v a && ltb a (v + suc n) then c % 256 else m a)
      (λ t. rep_stosl_lem (suc n / 4) v (c % 256) (suc n) m a (omega arith) (ground arith))
      (rep_stosb_lem (suc n) v c m a))
