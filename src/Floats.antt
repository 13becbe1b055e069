-- ===== src/Floats.antt =====
-- The float and double arithmetic that src/netlib.c uses in HIST_add and HIST_get_percentile.
-- It is a parameter: the machine's IEEE arithmetic rounds, and the laws below hold of it, since
-- rounding is monotone and the end points named in them are exact. `exact` is one instance, by
-- arithmetic without rounding.
use netperf_copilot.Common.{
  ℕ, ◌+◌, ◌*◌, ◌/◌, ◌≤◌, ◌<◌, ◌≡◌, refl, Bool, true, ltb, ltb→lt, arith, ℤ, pos,
}

pub record Floats : Type 1 where
  -- `float`, of which HIST_add only uses values that are not negative
  pub Single : Type 0
  -- `(float) time_delta`
  pub of_int : ℕ → Single
  -- `val /= 10`
  pub div_ten : Single → Single
  -- `val < 10`
  pub is_lt_ten : Single → Bool
  -- `(int)(val * base)` at `base` 10
  pub bucket_of : Single → ℕ
  -- `double`
  pub Double : Type 0
  pub zero_double : Double
  -- `sumsquare + pow(time_delta, 2)`
  pub add_square : Double → ℕ → Double
  -- `(int)(percentile * (double) total)`
  pub quota : Double → ℕ → ℕ
  -- `(int)((i + (double)(num - last)/(current - last)) * scale/base)` at `i`, `num - last`,
  -- `current - last` and `scale`; nothing is known of it where the divisor is zero
  pub interpolate : ℕ → ℤ → ℕ → ℕ → ℤ
  -- a float below ten times ten, cut to an integer, is below a hundred
  pub bucket_bound : (v : Single) → is_lt_ten v ≡ true → bucket_of v < 100
  -- a fraction above 0 and up to 1 puts the value inside the bucket's tenth of the scale
  pub interpolate_bound :
      (i a b scale : ℕ)
      → 0 < a
      → a ≤ b
      → (k : ℕ) × (interpolate i (pos a) b scale ≡ pos k)
        × (i * scale < 10 * k + 10)
        × (10 * k ≤ (i + 1) * scale)

cancel_le : (x y b : ℕ) → 0 < b → x * b ≤ y * b → x ≤ y
cancel_le x y b pb h = grind arith

cancel_lt : (x y b : ℕ) → x * b < y * b → x < y
cancel_lt x y b h = grind arith

mul_mono : (x y b : ℕ) → x ≤ y → x * b ≤ y * b
mul_mono x y b h = grind arith

div_bounds : (n d : ℕ) → 0 < d → (n / d * d ≤ n) × (n < (n / d + 1) * d)
div_bounds n d h = grind arith

abbrev pub exact_interpolate : ℕ → ℤ → ℕ → ℕ → ℤ
exact_interpolate i (pos a) b scale = pos ((i * b + a) * scale / (b * 10))
exact_interpolate i _ b scale = pos 0

pub exact_bound :
    (i a b scale : ℕ)
    → 0 < a
    → a ≤ b
    → (k : ℕ) × (exact_interpolate i (pos a) b scale ≡ pos k)
      × (i * scale < 10 * k + 10)
      × (10 * k ≤ (i + 1) * scale)
exact_bound i a b scale ha hb =
    let n = (i * b + a) * scale in
    let k = n / (b * 10) in
    let d = div_bounds n (b * 10) (omega arith) in
    let m = mul_mono a b scale hb in
    (
      k,
      refl,
      cancel_lt (i * scale) (10 * k + 10) b (omega arith),
      cancel_le (10 * k) ((i + 1) * scale) b (omega arith) (omega arith),
    )

abbrev is_below : ℕ × ℕ → Bool
is_below v = ltb v.0 (10 * v.1)

pub exact_bucket : (v : ℕ × ℕ) → is_below v ≡ true → v.0 * 10 / v.1 < 100
exact_bucket (n, d) h =
    let l = ltb→lt n (10 * d) h in
    cancel_lt (n * 10 / d) 100 d (omega (arith, (div_bounds (n * 10) d (omega arith)).0))

-- A value `n / d` is the pair of `n` and `d`; a `double` is a whole number of hundredths.
abbrev pub exact : Floats
exact = record {
  Single = ℕ × ℕ;
  of_int = λ t. (t, 1);
  div_ten = λ v. (v.0, v.1 * 10);
  is_lt_ten = is_below;
  bucket_of = λ v. v.0 * 10 / v.1;
  Double = ℕ;
  zero_double = 0;
  add_square = λ s t. s + t * t;
  quota = λ p n. p * n / 100;
  interpolate = exact_interpolate;
  bucket_bound = exact_bucket;
  interpolate_bound = exact_bound;
}
