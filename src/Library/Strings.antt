-- ===== src/Library/Strings.antt =====
-- lab/lib/string.c. Memory is a function from addresses to bytes; the addresses of an object do not
-- wrap around. A loop that runs up to a null character takes fuel, and `none` is a loop that did
-- not end within it.
pub mod Compare
mod Examples
pub mod Length
pub mod Loops
pub mod Move
use Prim.Native.Nat.{bit_or}
use mathlib.Core.Option
use cse.Base.{
  ℕ, zero, suc, ◌+◌, ◌-◌, ◌*◌, ◌/◌, ◌%◌, ◌^◌, Bool, true, false, not, ◌&&◌, ◌||◌, Option, none,
  some, ltb, leb, ◌==◌, if◌then◌else◌,
}
use cse.Base.Cells.{update}

abbrev pub Mem : Type 0
Mem = ℕ → ℕ

-- A difference of two bytes or a number with a sign.
pub data ℤ : Type 0 where
  pos negsuc : ℕ → ℤ

unfoldable pub sub : ℕ → ℕ → ℤ
sub a b = if ltb a b then negsuc (b - a - 1) else pos (a - b)

unfoldable pub strlen_from : ℕ → ℕ → ℕ → Mem → Option ℕ
strlen_from zero n s m = none
strlen_from (suc fuel) n s m =
    let rest = strlen_from fuel (n + 1) (s + 1) m in if m s == 0 then some n else rest

unfoldable pub strlen : ℕ → ℕ → Mem → Option ℕ
unfolding strlen_from
strlen fuel s m = strlen_from fuel 0 s m

unfoldable pub strnlen_from : ℕ → ℕ → ℕ → Mem → ℕ
strnlen_from n s zero m = n
strnlen_from n s (suc size) m =
    let rest = strnlen_from (n + 1) (s + 1) size m in if m s == 0 then n else rest

unfoldable pub strnlen : ℕ → ℕ → Mem → ℕ
unfolding strnlen_from
strnlen s size m = strnlen_from 0 s size m

-- The memory after `strcpy`, whose result is `dst`.
unfoldable pub strcpy : ℕ → ℕ → ℕ → Mem → Option Mem
strcpy zero dst src m = none
strcpy (suc fuel) dst src m =
    let m' = update m dst (m src) in
    let rest = strcpy fuel (dst + 1) (src + 1) m' in if m src == 0 then some m' else rest

abbrev pub strcpy_behind : ℕ → ℕ → ℕ → Mem → Option ℕ → Option Mem
strcpy_behind fuel dst src m none = none
strcpy_behind fuel dst src m (some len) = strcpy fuel (dst + len) src m

unfoldable pub strcat : ℕ → ℕ → ℕ → Mem → Option Mem
strcat fuel dst src m = strcpy_behind fuel dst src m (strlen fuel dst m)

unfoldable pub strncpy : ℕ → ℕ → ℕ → Mem → Mem
strncpy dst src zero m = m
strncpy dst src (suc size) m =
    strncpy (dst + 1) (if m src == 0 then src else src + 1) size (update m dst (m src))

-- The loop of `strlcpy`, with `size` counted down to the room that is left.
unfoldable pub strlcpy_from : ℕ → ℕ → ℕ → Mem → ℕ × Mem
strlcpy_from dst src zero m = (dst, m)
strlcpy_from dst src (suc size) m =
    let rest = strlcpy_from (dst + 1) (src + 1) size (update m dst (m src)) in
    if m src == 0 then (dst, m) else rest

abbrev pub terminate : ℕ → ℕ × Mem → ℕ × Mem
terminate dst_in (dst, m) = (dst - dst_in, update m dst 0)

unfoldable pub strlcpy : ℕ → ℕ → ℕ → Mem → ℕ × Mem
unfolding strlcpy_from
strlcpy dst src zero m = (0, m)
strlcpy dst src (suc size) m = terminate dst (strlcpy_from dst src size m)

unfoldable pub strcmp : ℕ → ℕ → ℕ → Mem → Option ℤ
unfolding sub
strcmp zero p q m = none
strcmp (suc fuel) p q m =
    let rest = strcmp fuel (p + 1) (q + 1) m in
    if not (m p == 0) && (m p == m q) then rest else some (sub (m p) (m q))

unfoldable pub strncmp : ℕ → ℕ → ℕ → Mem → ℤ
unfolding sub
strncmp p q zero m = pos 0
strncmp p q (suc n) m =
    let rest = strncmp (p + 1) (q + 1) n m in
    if not (m p == 0) && (m p == m q) then rest else sub (m p) (m q)

-- A null pointer is 0. `none` is a loop that is cut off.
unfoldable pub strchr : ℕ → ℕ → ℕ → Mem → Option ℕ
strchr zero s c m = none
strchr (suc fuel) s c m =
    let rest = strchr fuel (s + 1) c m in
    if m s == 0 then some 0 else if m s == c then some s else rest

unfoldable pub strfind : ℕ → ℕ → ℕ → Mem → Option ℕ
strfind zero s c m = none
strfind (suc fuel) s c m =
    let rest = strfind fuel (s + 1) c m in
    if m s == 0 then some s else if m s == c then some s else rest

-- A store of a 32-bit word, its low byte first.
abbrev pub store_word : ℕ → ℕ → Mem → Mem
store_word a w m =
    update
      (update (update (update m a (w % 256)) (a + 1) (w / 256 % 256)) (a + 2) (w / 65536 % 256))
      (a + 3) (w / 16777216 % 256)

-- `cld; rep stosl` and `cld; rep stosb`.
unfoldable pub rep_stosl : ℕ → ℕ → ℕ → Mem → Mem
rep_stosl zero v w m = m
rep_stosl (suc k) v w m = rep_stosl k (v + 4) w (store_word v w m)

unfoldable pub rep_stosb : ℕ → ℕ → ℕ → Mem → Mem
rep_stosb zero v c m = m
rep_stosb (suc k) v c m = rep_stosb k (v + 1) c (update m v (c % 256))

-- `(c<<24)|(c<<16)|(c<<8)|c`.
abbrev pub four_times : ℕ → ℕ
four_times c = bit_or (bit_or (bit_or (c * 2 ^ 24) (c * 2 ^ 16)) (c * 2 ^ 8)) c

-- `c` is the 32-bit pattern of the argument.
unfoldable pub memset : ℕ → ℕ → ℕ → Mem → Mem
unfolding rep_stosl rep_stosb
memset v c n m =
    if n == 0
    then m
    else if (v % 4 == 0) && (n % 4 == 0)
    then rep_stosl (n / 4) v (four_times (c % 256)) m
    else rep_stosb n v c m

-- One step of `movsb` (`u` is 1) or `movsl` (`u` is 4): the unit is read whole, then written.
abbrev pub copy_unit : ℕ → ℕ → ℕ → Mem → Mem
copy_unit u d s m a = if leb d a && ltb a (d + u) then m (s + (a - d)) else m a

-- `cld; rep movs` and `std; rep movs`.
unfoldable pub movs_up : ℕ → ℕ → ℕ → ℕ → Mem → Mem
movs_up u zero d s m = m
movs_up u (suc k) d s m = movs_up u k (d + u) (s + u) (copy_unit u d s m)

unfoldable pub movs_down : ℕ → ℕ → ℕ → ℕ → Mem → Mem
movs_down u zero d s m = m
movs_down u (suc k) d s m = movs_down u k (d - u) (s - u) (copy_unit u d s m)

unfoldable pub memmove : ℕ → ℕ → ℕ → Mem → Mem
unfolding movs_up movs_down
memmove dst src n m =
    if ltb src dst && ltb dst (src + n)
    then if ((src + n) % 4 == 0) && ((dst + n) % 4 == 0) && (n % 4 == 0)
      then movs_down 4 (n / 4) (dst + n - 4) (src + n - 4) m
      else movs_down 1 n (dst + n - 1) (src + n - 1) m
    else if (src % 4 == 0) && (dst % 4 == 0) && (n % 4 == 0)
    then movs_up 4 (n / 4) dst src m
    else movs_up 1 n dst src m

abbrev pub memcpy : ℕ → ℕ → ℕ → Mem → Mem
memcpy = memmove

unfoldable pub memcmp : ℕ → ℕ → ℕ → Mem → ℤ
unfolding sub
memcmp s1 s2 zero m = pos 0
memcmp s1 s2 (suc n) m =
    let rest = memcmp (s1 + 1) (s2 + 1) n m in if m s1 == m s2 then rest else sub (m s1) (m s2)

unfoldable pub memfind : ℕ → ℕ → ℕ → Mem → ℕ
memfind s c zero m = s
memfind s c (suc n) m = let rest = memfind (s + 1) c n m in if m s == c % 256 then s else rest

abbrev pub is_space : ℕ → Bool
is_space c = (c == 32) || (c == 9)

unfoldable pub skip_space : ℕ → ℕ → Mem → Option ℕ
skip_space zero s m = none
skip_space (suc fuel) s m =
    let rest = skip_space fuel (s + 1) m in if is_space (m s) then rest else some s

-- The pointer after a sign, and `neg`.
unfoldable pub skip_sign : ℕ → Mem → ℕ × Bool
skip_sign s m =
    if m s == 43 then (s + 1, false) else if m s == 45 then (s + 1, true) else (s, false)

-- The pointer after a base prefix, and the base; '0' is 48 and 'x' is 120.
unfoldable pub skip_prefix : ℕ → ℕ → Mem → ℕ × ℕ
skip_prefix s base m =
    if ((base == 0) || (base == 16)) && ((m s == 48) && (m (s + 1) == 120))
    then (s + 2, 16)
    else if (base == 0) && (m s == 48)
    then (s + 1, 8)
    else if base == 0
    then (s, 10)
    else (s, base)

unfoldable pub digit_of : ℕ → Option ℕ
digit_of c =
    if leb 48 c && leb c 57
    then some (c - 48)
    else if leb 97 c && leb c 122
    then some (c - 97 + 10)
    else if leb 65 c && leb c 90
    then some (c - 65 + 10)
    else none

-- One round of the digit loop: the digit that is used, if any.
unfoldable pub next_digit : ℕ → ℕ → Option ℕ
unfolding digit_of
next_digit base c = elim (digit_of c) [
  | none ↦ none
  | some dig ↦ if leb base dig then none else some dig
]

-- The digit loop: the end pointer and `val`, which does not overflow.
unfoldable pub digits_from : ℕ → ℕ → ℕ → ℕ → Mem → Option (ℕ × ℕ)
digits_from zero base s val m = none
digits_from (suc fuel) base s val m = elim (next_digit base (m s)) [
  | none ↦ some (s, val)
  | some dig ↦ digits_from fuel base (s + 1) (val * base + dig) m
]

abbrev pub negate : ℕ → ℤ
negate zero = pos 0
negate (suc n) = negsuc n

abbrev pub with_sign : Bool → ℕ × ℕ → ℕ × ℤ
with_sign neg (s, val) = (s, if neg then negate val else pos val)

abbrev pub after_sign : ℕ → ℕ → Mem → ℕ × Bool → Option (ℕ × ℤ)
after_sign fuel base m (s, neg) =
    (let (s', base') = skip_prefix s base m in
      Option.map (with_sign neg) (digits_from fuel base' s' 0 m))

-- The end pointer and the value, of base 0 or more.
unfoldable pub strtol : ℕ → ℕ → ℕ → Mem → Option (ℕ × ℤ)
strtol fuel s base m = elim (skip_space fuel s m) [
  | none ↦ none
  | some s' ↦ after_sign fuel base m (skip_sign s' m)
]
