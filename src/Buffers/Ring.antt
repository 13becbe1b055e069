-- ===== src/Buffers/Ring.antt =====
-- allocate_buffer_ring() of src/netlib.c makes one circle of all its elements.
use mathlib.Core.Path.{subst}
use mathlib.Core.Option.{some-injective}
use netperf_copilot.Common.{
  ℕ, zero, suc, ◌+◌, ◌-◌, ◌≤◌, ◌<◌, ◌≡◌, ◌∙◌, refl, ap, sym, arith, List, [], ◌∷◌, some,
}
use netperf_copilot.Buffers.{Element, default_loop, ring_loop, close_ring, allocate_buffer_ring}
use netperf_copilot.Buffers.Align.{allocate_is}

-- The next element of the one at an index.
abbrev pub next_at : List Element → ℕ → ℕ
next_at [] j = 0
next_at (el ∷ ring) zero = el.next
next_at (el ∷ ring) (suc j) = next_at ring j

-- From one element on for a number of links; element `n` stands at index `n - 1`.
abbrev pub follow : List Element → ℕ → ℕ → ℕ
follow ring zero n = n
follow ring (suc m) n = follow ring m (next_at ring (n - 1))

next_at-ring_loop :
    (malloc : ℕ → ℕ → ℕ) (size alignment offset i left cursor j : ℕ)
    → j < left
    → next_at (ring_loop malloc size alignment offset i left cursor) j ≡ i + j - 1
unfolding ring_loop
next_at-ring_loop malloc size alignment offset i zero cursor j l = absurd (omega arith)
next_at-ring_loop malloc size alignment offset i (suc left) cursor zero l = omega arith
next_at-ring_loop malloc size alignment offset i (suc left) cursor (suc j) l =
    next_at-ring_loop malloc size alignment offset (i + 1) left (default_loop size cursor).1 j
      (omega arith)
    ∙ omega arith

module _ (malloc : ℕ → ℕ → ℕ) (left size alignment offset : ℕ) where
  abbrev ring_of : List Element
  ring_of = close_ring (suc left) (ring_loop malloc size alignment offset 1 (suc left) 0)

  next_of_first : next_at ring_of 0 ≡ suc left
  unfolding ring_loop
  next_of_first = refl

  next_of_later : (j : ℕ) → 0 < j → j < suc left → next_at ring_of j ≡ j
  unfolding ring_loop
  next_of_later zero p l = absurd (omega arith)
  next_of_later (suc j) p l =
      next_at-ring_loop malloc size alignment offset 2 left (default_loop size 0).1 j (omega arith)
      ∙ omega arith

  follow_down : (m n : ℕ) → m < n → n ≤ suc left → follow ring_of m n ≡ n - m
  follow_down zero n l h = omega arith
  follow_down (suc m) n l h =
      ap (follow ring_of m) (next_of_later (n - 1) (omega arith) (omega arith))
      ∙ follow_down m (n - 1) (omega arith) (omega arith)
      ∙ omega arith

-- From the first element of allocate_buffer_ring(), `m + 1` links lead to element `width - m`: the
-- ring goes through every element once and is back at the first after `width` links.
pub follow-allocate_buffer_ring :
    (malloc : ℕ → ℕ → ℕ) (width size alignment offset m : ℕ) (ring : List Element)
    → m < width
    → allocate_buffer_ring malloc width size alignment offset ≡ some ring
    → follow ring (suc m) 1 ≡ width - m
follow-allocate_buffer_ring malloc zero size alignment offset m ring l made = absurd (omega arith)
follow-allocate_buffer_ring malloc (suc left) size alignment offset m ring l made =
    subst (λ r. follow r (suc m) 1 ≡ suc left - m)
      (some-injective _ _ (sym (allocate_is malloc left size alignment offset) ∙ made))
      (ap (follow (ring_of malloc left size alignment offset) m)
          (next_of_first malloc left size alignment offset)
        ∙ follow_down malloc left size alignment offset m (suc left) l (omega arith))
