-- ===== src/Common/Int.antt =====
-- Signed integers over the native numbers, for `int` values that can be negative.
use Prim.Native.Nat.{ℕ, suc, ◌+◌, ◌-◌, ◌*◌, ◌/◌, ◌%◌, ◌^◌, ◌≤◌}
use mathlib.Core.Bool.{Bool}
use mathlib.Core.Path.{◌≡◌, refl, sym}
use native.Mathlib.Omega.{arith}
use netperf_copilot.Common.Tests.{ltb, leb, if◌then◌else◌}

-- `negsuc n` is -(n + 1).
pub data ℤ : Type 0 where
  pos : ℕ → ℤ
  negsuc : ℕ → ℤ

abbrev pub pos_part : ℤ → ℕ
pos_part (pos n) = n
pos_part (negsuc n) = 0

abbrev pub neg_part : ℤ → ℕ
neg_part (pos n) = 0
neg_part (negsuc n) = suc n

-- a - b, as an integer.
abbrev pub sub_ℕ : ℕ → ℕ → ℤ
sub_ℕ a b = if leb b a then pos (a - b) else negsuc (b - a - 1)

infixl 65 ◌+ℤ◌ ◌-ℤ◌
unfoldable pub ◌+ℤ◌ : ℤ → ℤ → ℤ
a +ℤ b = sub_ℕ (pos_part a + pos_part b) (neg_part a + neg_part b)

unfoldable pub ◌-ℤ◌ : ℤ → ℤ → ℤ
a -ℤ b = sub_ℕ (pos_part a + neg_part b) (neg_part a + pos_part b)

infix 50 ◌≤ℤ◌
abbrev pub ◌≤ℤ◌ : ℤ → ℤ → Type 0
a ≤ℤ b = pos_part a + neg_part b ≤ pos_part b + neg_part a

abbrev pub ltb_ℤ : ℤ → ℤ → Bool
ltb_ℤ a b = ltb (pos_part a + neg_part b) (pos_part b + neg_part a)

-- One lemma for each operation lets `omega` work with the operations shut, at any depth.
pub +ℤ_parts :
    (a b : ℤ)
    → pos_part (a +ℤ b) + neg_part a + neg_part b ≡ neg_part (a +ℤ b) + pos_part a + pos_part b
unfolding ◌+ℤ◌
+ℤ_parts a b = ground arith

pub -ℤ_parts :
    (a b : ℤ)
    → pos_part (a -ℤ b) + neg_part a + pos_part b ≡ neg_part (a -ℤ b) + pos_part a + neg_part b
unfolding ◌-ℤ◌
-ℤ_parts a b = ground arith

pub eq_of_parts : (a b : ℤ) → pos_part a + neg_part b ≡ pos_part b + neg_part a → a ≡ b
eq_of_parts a b h = ground arith

pub pos_sub : (a b : ℕ) → b ≤ a → pos a -ℤ pos b ≡ pos (a - b)
unfolding ◌-ℤ◌
pos_sub a b h = ground arith

pub ruleset int_laws = (arith, +ℤ_parts, -ℤ_parts, eq_of_parts)

-- An integer as an `int`, where C makes it one or where a sum or a product of two overflows: the low
-- 32 bits.
unfoldable pub to_int : ℤ → ℤ
to_int (pos n) =
    let low = n % 2 ^ 32 in if ltb low (2 ^ 31) then pos low else negsuc (2 ^ 32 - 1 - low)
to_int (negsuc n) =
    let low = n % 2 ^ 32 in if ltb low (2 ^ 31) then negsuc low else pos (2 ^ 32 - 1 - low)

-- Two integers that differ by a multiple of 2^32.
abbrev pub IsCongruent : ℤ → ℤ → Type 0
IsCongruent y z =
    (a : ℕ) × (b : ℕ) × (pos_part y + neg_part z + 2 ^ 32 * a
      ≡ neg_part y + pos_part z + 2 ^ 32 * b)

pub to_int-IsCongruent : (z : ℤ) → IsCongruent (to_int z) z
unfolding to_int
to_int-IsCongruent (pos n) =
    (n / 2 ^ 32 + (if ltb (n % 2 ^ 32) (2 ^ 31) then 0 else 1), 0, ground arith)
to_int-IsCongruent (negsuc n) =
    (0, n / 2 ^ 32 + (if ltb (n % 2 ^ 32) (2 ^ 31) then 0 else 1), ground arith)

apart :
    (l h : ℕ)
    → l + h + 1 ≡ 2 ^ 32
    → (if ltb l (2 ^ 31) then pos l else negsuc (2 ^ 32 - 1 - l))
      ≡ (if ltb h (2 ^ 31) then negsuc h else pos (2 ^ 32 - 1 - h))
apart l h e = ground arith

pub to_int_same : (y z : ℤ) → IsCongruent y z → to_int y ≡ to_int z
unfolding to_int
to_int_same (pos m) (pos n) (a, b, e) =
    let same : m % 2 ^ 32 ≡ n % 2 ^ 32 = omega (arith, e) in rw (same) refl
to_int_same (pos m) (negsuc n) (a, b, e) =
    let other : m % 2 ^ 32 + n % 2 ^ 32 + 1 ≡ 2 ^ 32 = omega (arith, e) in
    apart (m % 2 ^ 32) (n % 2 ^ 32) other
to_int_same (negsuc m) (pos n) (a, b, e) =
    let other : n % 2 ^ 32 + m % 2 ^ 32 + 1 ≡ 2 ^ 32 = omega (arith, e) in
    sym (apart (n % 2 ^ 32) (m % 2 ^ 32) other)
to_int_same (negsuc m) (negsuc n) (a, b, e) =
    let same : m % 2 ^ 32 ≡ n % 2 ^ 32 = omega (arith, e) in rw (same) refl
