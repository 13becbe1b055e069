-- ===== src/Buffers/Align.antt =====
-- Where a buffer of allocate_buffer_ring() in src/netlib.c lies in the memory that malloc() gave.
use netperf_copilot.Common.{
  ℕ, zero, suc, ◌+◌, ◌*◌, ◌-◌, ◌/◌, ◌%◌, ◌^◌, ◌≤◌, ◌<◌, ◌≡◌, ◌∙◌, ap, sym, ◌&&◌, ◌==◌,
  if◌then◌else◌, arith, List, [], ◌∷◌, none, some, All, le→ltb,
}
use mathlib.Core.Option.{some-injective}
use native.Mathlib.Nat.{div-div-eq-div-mul}
use netperf_copilot.Buffers.{
  and_bits, aligned, malloc_size, Element, default_loop, ring_loop, close_ring,
  allocate_buffer_ring,
}

pow_pos : (k : ℕ) → 0 < 2 ^ k
pow_pos zero = omega arith
pow_pos (suc k) = omega (arith, pow_pos k)

pow_le : (k w : ℕ) → k ≤ w → 2 ^ k ≤ 2 ^ w
pow_le zero w l = pow_pos w
pow_le (suc k) zero l = absurd (omega arith)
pow_le (suc k) (suc w) l = omega (arith, pow_le k w (omega arith))

and_even : (w x m : ℕ) → and_bits (suc w) x (2 * m) ≡ 2 * and_bits w (x / 2) m
unfolding and_bits
and_even w x m = even ((2 * m) % 2) ((2 * m) / 2) (omega arith) (omega arith)
  where
    even :
        (r h : ℕ)
        → r ≡ 0
        → h ≡ m
        → (if x % 2 == 1 && r == 1 then 1 else 0) + 2 * and_bits w (x / 2) h
          ≡ 2 * and_bits w (x / 2) m
    even r h er eh = rw (er, eh) (ground arith)

and_odd : (w x m : ℕ) → and_bits (suc w) x (2 * m + 1) ≡ x % 2 + 2 * and_bits w (x / 2) m
unfolding and_bits
and_odd w x m = odd ((2 * m + 1) % 2) ((2 * m + 1) / 2) (omega arith) (omega arith)
  where
    odd :
        (r h : ℕ)
        → r ≡ 1
        → h ≡ m
        → (if x % 2 == 1 && r == 1 then 1 else 0) + 2 * and_bits w (x / 2) h
          ≡ x % 2 + 2 * and_bits w (x / 2) m
    odd r h er eh = rw (er, eh) (ground arith)

pow_suc : (k : ℕ) → 2 ^ suc k ≡ 2 * 2 ^ k
pow_suc k = omega arith

twice : (q p : ℕ) → 2 * (q * p) ≡ q * (2 * p)
twice q p = grind arith

mask_all : (w : ℕ) → 2 ^ suc w - 1 ≡ 2 * (2 ^ w - 1) + 1
mask_all w = omega (arith, pow_pos w)

mask_twice : (w k : ℕ) → 2 ^ suc w - 2 ^ suc k ≡ 2 * (2 ^ w - 2 ^ k)
mask_twice w k = omega arith

and_mask : (w k x : ℕ) → k ≤ w → x < 2 ^ w → and_bits w x (2 ^ w - 2 ^ k) ≡ x / 2 ^ k * 2 ^ k
unfolding and_bits
and_mask zero zero x l h = omega arith
and_mask zero (suc k) x l h = absurd (omega arith)
and_mask (suc w) zero x l h =
    ap (and_bits (suc w) x) (mask_all w)
    ∙ and_odd w x (2 ^ w - 1)
    ∙ omega (arith, and_mask w zero (x / 2) (omega arith) (omega arith))
and_mask (suc w) (suc k) x l h =
    ap (and_bits (suc w) x) (mask_twice w k)
    ∙ and_even w x (2 ^ w - 2 ^ k)
    ∙ ap (λ r. 2 * r) (and_mask w k (x / 2) (omega arith) (omega arith))
    ∙ ap (λ r. 2 * (r * 2 ^ k)) (div-div-eq-div-mul x 2 (2 ^ k))
    ∙ twice (x / (2 * 2 ^ k)) (2 ^ k)
    ∙ ap (λ p. x / p * p) (sym (pow_suc k))

div_bounds : (n d : ℕ) → 0 < d → (n / d * d ≤ n) × (n < n / d * d + d) × (n / d * d % d ≡ 0)
div_bounds n d h = (grind arith, grind arith, grind arith)

aligned_lem :
    (k base : ℕ)
    → k ≤ 64
    → base + 2 ^ k ≤ 2 ^ 64
    → (base ≤ aligned base (2 ^ k))
      × (aligned base (2 ^ k) < base + 2 ^ k)
      × (aligned base (2 ^ k) % 2 ^ k ≡ 0)
unfolding aligned
aligned_lem k base l room = rw (and_mask 64 k (base + 2 ^ k - 1) l (omega (arith, pow_pos k))) (
    let (low, high, even) = div_bounds (base + 2 ^ k - 1) (2 ^ k) (pow_pos k) in
    (omega (arith, pow_pos k), omega (arith, pow_pos k), even))

malloc_size_fits :
    (size alignment offset : ℕ)
    → size + alignment + offset < 2 ^ 31
    → malloc_size size alignment offset ≡ size + alignment + offset
unfolding malloc_size
malloc_size_fits size alignment offset small = ground arith

-- Where an element's buffer lies: in the memory that malloc() gave for the size it was asked for,
-- with room for its bytes, and `offset` behind a multiple of the alignment.
abbrev pub IsInside : ℕ → ℕ → ℕ → Element → Type 0
IsInside buffer_size alignment offset el =
    (el.buffer_base ≤ el.buffer_ptr)
    × (el.buffer_ptr + buffer_size ≤ el.buffer_base + el.memory)
    × ((el.buffer_ptr - offset) % alignment ≡ 0)

add_sub : (a b : ℕ) → a + b - b ≡ a
add_sub a b = omega arith

ring_loop-IsInside :
    (malloc : ℕ → ℕ → ℕ) (k size offset i left cursor : ℕ)
    → k ≤ 64
    → size + 2 ^ k + offset < 2 ^ 31
    → ((r n : ℕ) → r < i + left → malloc r n + 2 ^ k ≤ 2 ^ 64)
    → All (IsInside size (2 ^ k) offset) (ring_loop malloc size (2 ^ k) offset i left cursor)
unfolding ring_loop
ring_loop-IsInside malloc k size offset i zero cursor l small room = tt
ring_loop-IsInside malloc k size offset i (suc left) cursor l small room =
    let memory = malloc_size size (2 ^ k) offset in
    let (low, high, even) = aligned_lem k (malloc i memory) l (room i memory (omega arith)) in
    (
      (
        omega arith,
        omega (arith, malloc_size_fits size (2 ^ k) offset small),
        ap (λ v. v % 2 ^ k) (add_sub (aligned (malloc i memory) (2 ^ k)) offset) ∙ even,
      ),
      ring_loop-IsInside malloc k size offset (i + 1) left (default_loop size cursor).1 l small
          (λ r n h. room r n (omega arith)),
    )

close_ring-IsInside :
    (size alignment offset width : ℕ) (ring : List Element)
    → All (IsInside size alignment offset) ring
    → All (IsInside size alignment offset) (close_ring width ring)
close_ring-IsInside size alignment offset width [] all = tt
close_ring-IsInside size alignment offset width (el ∷ ring) all = all

pub allocate_is :
    (malloc : ℕ → ℕ → ℕ) (left size alignment offset : ℕ)
    → allocate_buffer_ring malloc (suc left) size alignment offset
      ≡ some (close_ring (suc left) (ring_loop malloc size alignment offset 1 (suc left) 0))
unfolding allocate_buffer_ring
allocate_is malloc left size alignment offset =
    ap
      (λ b.
        if b
        then none
        else some (close_ring (suc left) (ring_loop malloc size alignment offset 1 (suc left) 0)))
      (le→ltb (suc left) 1 (omega arith))

-- Each buffer of allocate_buffer_ring() starts behind the base of its own memory and ends within
-- the size that malloc() was asked for, and is aligned as asked for, where each malloc() succeeds,
-- for an alignment that is a power of two, sizes that add up to an int and memory that ends the
-- alignment below 2^64.
pub allocate_buffer_ring-IsInside :
    (malloc : ℕ → ℕ → ℕ) (k width size offset : ℕ) (ring : List Element)
    → k ≤ 64
    → size + 2 ^ k + offset < 2 ^ 31
    → ((r n : ℕ) → r ≤ width → malloc r n + 2 ^ k ≤ 2 ^ 64)
    → allocate_buffer_ring malloc width size (2 ^ k) offset ≡ some ring
    → All (IsInside size (2 ^ k) offset) ring
unfolding allocate_buffer_ring
allocate_buffer_ring-IsInside malloc k zero size offset ring l small room made = absurd (cc)
allocate_buffer_ring-IsInside malloc k (suc left) size offset ring l small room made =
    rw (← some-injective _ _ (sym (allocate_is malloc left size (2 ^ k) offset) ∙ made)) (
      close_ring-IsInside size (2 ^ k) offset (suc left)
        (ring_loop malloc size (2 ^ k) offset 1 (suc left) 0)
        (ring_loop-IsInside malloc k size offset 1 (suc left) 0 l small
          (λ r n h. room r n (omega arith))))
