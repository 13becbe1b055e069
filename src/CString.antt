-- ===== src/CString.antt =====
-- The string functions of the C library that the sources use, on strings without their terminator:
-- strcasecmp, strstr, strchr, strtol at base 0, and atoi.
pub mod Laws
use netperf_copilot.Common.{
  ℕ, zero, suc, ◌+◌, ◌*◌, ◌-◌, ◌/◌, ◌%◌, ◌^◌, Bool, true, false, not, ◌&&◌, ◌||◌, List, [], ◌∷◌,
  Option, none, some, ltb, leb, ◌==◌, if◌then◌else◌, ℤ, pos, negsuc, Bytes, to_lower, min,
}

-- `strcasecmp(s, t) == 0`
unfoldable pub same_nocase : Bytes → Bytes → Bool
same_nocase [] [] = true
same_nocase [] (d ∷ t) = false
same_nocase (c ∷ s) [] = false
same_nocase (c ∷ s) (d ∷ t) = to_lower c == to_lower d && same_nocase s t

-- Whether `s` begins with `t`.
unfoldable pub begins : Bytes → Bytes → Bool
begins s [] = true
begins [] (d ∷ t) = false
begins (c ∷ s) (d ∷ t) = c == d && begins s t

-- `strstr(s, t) != NULL`
unfoldable pub contains : Bytes → Bytes → Bool
unfolding begins
contains [] t = begins [] t
contains (c ∷ s) t = begins (c ∷ s) t || contains s t

-- strchr: what stands before the first `sep`, and what stands behind it if there is one.
unfoldable pub cut : ℕ → Bytes → Bytes × Option Bytes
cut sep [] = ([], none)
cut sep (c ∷ s) =
    let (before, behind) = cut sep s in if c == sep then ([], some s) else (c ∷ before, behind)

-- The value of a digit in bases up to 16; 16 for what is none.
unfoldable pub digit : ℕ → ℕ
digit c =
    if leb b'0' c && leb c b'9'
    then c - b'0'
    else if leb b'a' (to_lower c) && leb (to_lower c) b'f'
    then to_lower c - b'a' + 10
    else 16

-- The digits at the front: the value behind `acc`, and the rest.
unfoldable pub scan : ℕ → ℕ → Bytes → ℕ × Bytes
unfolding digit
scan base acc [] = (acc, [])
scan base acc (c ∷ s) =
    let rest = scan base (acc * base + digit c) s in
    if ltb (digit c) base then rest else (acc, c ∷ s)

abbrev pub is_space : ℕ → Bool
is_space c = c == 32 || (leb 9 c && leb c 13)

unfoldable pub skip_space : Bytes → Bytes
skip_space [] = []
skip_space (c ∷ s) = if is_space c then skip_space s else c ∷ s

-- Whether a digit of the base stands in front.
unfoldable pub starts_digit : ℕ → Bytes → Bool
unfolding digit
starts_digit base [] = false
starts_digit base (c ∷ s) = ltb (digit c) base

-- strtol at base 0 behind the sign: hexadecimal behind `0x` if a digit follows, octal behind `0`,
-- else decimal. `none`: there is no number.
unfoldable pub magnitude : Bytes → Option (ℕ × Bytes)
unfolding scan starts_digit
magnitude [] = none
magnitude (c ∷ []) = if starts_digit 10 (c ∷ []) then some (scan 10 0 (c ∷ [])) else none
magnitude (c ∷ x ∷ s) =
    if c == b'0' && to_lower x == b'x' && starts_digit 16 s
    then some (scan 16 0 s)
    else if c == b'0'
    then some (scan 8 0 (c ∷ x ∷ s))
    else if starts_digit 10 (c ∷ x ∷ s)
    then some (scan 10 0 (c ∷ x ∷ s))
    else none

-- A `long` is 64 bits wide; a value out of range becomes the nearest in range.
abbrev pub long_max : ℕ
long_max = 2 ^ 63 - 1

abbrev pub negated : ℕ → ℤ
negated zero = pos 0
negated (suc n) = negsuc (min n long_max)

unfoldable pub signed : Bool → Bytes → Bytes → ℤ × Bytes
unfolding magnitude
signed minus whole s = elim (magnitude s) [
  | none ↦ (pos 0, whole)
  | some (n, rest) ↦ if minus then (negated n, rest) else (pos (min n long_max), rest)
]

-- `strtol(s, &end, 0)`: the value, and what `end` points to.
unfoldable pub strtol : Bytes → ℤ × Bytes
unfolding skip_space signed
strtol s = after_space (skip_space s)
  where
    after_space : Bytes → ℤ × Bytes
    after_space [] = (pos 0, s)
    after_space (c ∷ t) =
        if c == b'-'
        then signed true s t
        else if c == b'+'
        then signed false s t
        else signed false s (c ∷ t)

-- `(unsigned int) atoi(s)`, that is the low 32 bits of `strtol(s, NULL, 10)`.
unfoldable pub word_of : ℤ → ℕ
word_of (pos n) = n % 2 ^ 32
word_of (negsuc n) = 2 ^ 32 - 1 - n % 2 ^ 32

unfoldable pub decimal : Bool → Bytes → ℤ
unfolding scan
decimal true s = negated (scan 10 0 s).0
decimal false s = pos (min (scan 10 0 s).0 long_max)

unfoldable pub atoi : Bytes → ℕ
unfolding skip_space decimal word_of
atoi s = word_of (after_space (skip_space s))
  where
    after_space : Bytes → ℤ
    after_space [] = pos 0
    after_space (c ∷ t) =
        if c == b'-'
        then decimal true t
        else if c == b'+'
        then decimal false t
        else decimal false (c ∷ t)

-- `%d`
abbrev pub digits : ℕ → ℕ → Bytes → Bytes
digits zero n acc = acc
digits (suc fuel) n acc =
    if ltb n 10 then (b'0' + n) ∷ acc else digits fuel (n / 10) ((b'0' + n % 10) ∷ acc)

unfoldable pub print_nat : ℕ → Bytes
print_nat n = digits (suc n) n []

unfoldable pub print_int : ℤ → Bytes
unfolding print_nat
print_int (pos n) = print_nat n
print_int (negsuc n) = b'-' ∷ print_nat (suc n)
