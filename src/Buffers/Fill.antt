-- ===== src/Buffers/Fill.antt =====
-- What allocate_buffer_ring() of src/netlib.c puts into its buffers, and what access_buffer()
-- changes in one.
use mathlib.Core.Option.{some-injective}
use netperf_copilot.Common.{
  ℕ, zero, suc, ◌+◌, ◌*◌, ◌%◌, ◌<◌, ◌≡◌, ◌∙◌, refl, ap, sym, arith, List, [], ◌∷◌, some, Bytes,
  get_or, length, ltb, if◌then◌else◌,
}
use netperf_copilot.Buffers.{
  Element, default_fill, default_loop, ring_loop, close_ring, allocate_buffer_ring, dirty_loop,
  access_buffer,
}
use netperf_copilot.Buffers.Align.{allocate_is}

abbrev next_cursor : ℕ → ℕ
next_cursor c = if ltb 7 (c + 1) then 0 else c + 1

next_cursor_lem : (c : ℕ) → c < 8 → next_cursor c ≡ (c + 1) % 8
next_cursor_lem c l = ground arith

cursor_after : (left c : ℕ) → c < 8 → (default_loop left c).1 ≡ (c + left) % 8
unfolding default_loop
cursor_after zero c l = omega arith
cursor_after (suc left) c l =
    ap (λ n. (default_loop left n).1) (next_cursor_lem c l)
    ∙ cursor_after left ((c + 1) % 8) (omega arith)
    ∙ omega arith

byte_at :
    (left c j : ℕ)
    → c < 8
    → j < left
    → get_or (default_loop left c).0 j 0 ≡ get_or default_fill ((c + j) % 8) 0
unfolding default_loop
byte_at zero c j l h = absurd (omega arith)
byte_at (suc left) c zero l h = ap (λ n. get_or default_fill n 0) (omega arith)
byte_at (suc left) c (suc j) l h =
    ap (λ n. get_or (default_loop left n).0 j 0) (next_cursor_lem c l)
    ∙ byte_at left ((c + 1) % 8) j (omega arith) (omega arith)
    ∙ ap (λ n. get_or default_fill n 0) (omega arith)

-- The bytes of the element at an index.
abbrev pub contents_at : List Element → ℕ → Bytes
contents_at [] r = []
contents_at (el ∷ ring) zero = el.contents
contents_at (el ∷ ring) (suc r) = contents_at ring r

contents_at-ring_loop :
    (malloc : ℕ → ℕ → ℕ) (size alignment offset i left c r : ℕ)
    → c < 8
    → r < left
    → contents_at (ring_loop malloc size alignment offset i left c) r
      ≡ (default_loop size ((c + r * size) % 8)).0
unfolding ring_loop
contents_at-ring_loop malloc size alignment offset i zero c r l h = absurd (omega arith)
contents_at-ring_loop malloc size alignment offset i (suc left) c zero l h =
    ap (λ n. (default_loop size n).0) (omega arith)
contents_at-ring_loop malloc size alignment offset i (suc left) c (suc r) l h =
    ap (λ n. contents_at (ring_loop malloc size alignment offset (i + 1) left n) r)
      (cursor_after size c l)
    ∙ contents_at-ring_loop malloc size alignment offset (i + 1) left ((c + size) % 8) r
        (omega arith) (omega arith)
    ∙ ap (λ n. (default_loop size n).0) (grind arith)

contents_at-close_ring :
    (width : ℕ) (ring : List Element) (r : ℕ)
    → contents_at (close_ring width ring) r ≡ contents_at ring r
contents_at-close_ring width [] r = refl
contents_at-close_ring width (el ∷ ring) zero = refl
contents_at-close_ring width (el ∷ ring) (suc r) = refl

-- Byte `j` of buffer `r` of a ring with the default fill is the next of the eight bytes of
-- `default_fill`, the zero byte behind its letters included: the buffers carry the letters on
-- from one to the next.
pub contents_at-allocate_buffer_ring :
    (malloc : ℕ → ℕ → ℕ) (width size alignment offset r j : ℕ) (ring : List Element)
    → r < width
    → j < size
    → allocate_buffer_ring malloc width size alignment offset ≡ some ring
    → get_or (contents_at ring r) j 0 ≡ get_or default_fill ((r * size + j) % 8) 0
contents_at-allocate_buffer_ring malloc zero size alignment offset r j ring l h made =
    absurd (omega arith)
contents_at-allocate_buffer_ring malloc (suc left) size alignment offset r j ring l h made =
    rw (← some-injective _ _ (sym (allocate_is malloc left size alignment offset) ∙ made)) (
      ap (λ b. get_or b j 0)
        (contents_at-close_ring (suc left) (ring_loop malloc size alignment offset 1 (suc left) 0) r
          ∙ contents_at-ring_loop malloc size alignment offset 1 (suc left) 0 r (omega arith) l)
      ∙ byte_at size ((0 + r * size) % 8) j (omega arith) h
      ∙ ap (λ n. get_or default_fill n 0) (omega arith))

dirty_at :
    (i count j : ℕ) (buffer : Bytes)
    → j < length buffer
    → get_or (dirty_loop i count buffer) j 0
      ≡ (if ltb (i + j) count then (get_or buffer j 0 + (i + j)) % 256 else get_or buffer j 0)
unfolding dirty_loop
dirty_at i count j [] l = absurd (omega arith)
dirty_at i count zero (b ∷ buffer) l = ground arith
dirty_at i count (suc j) (b ∷ buffer) l =
    ground (arith, dirty_at (i + 1) count j buffer (omega arith))

-- access_buffer() adds its index, in eight bits, to each of the first `dirty_count` bytes, and
-- leaves every other byte as it was.
pub access_buffer_lem :
    (buffer : Bytes) (dirty_count j : ℕ)
    → j < length buffer
    → get_or (access_buffer buffer dirty_count) j 0
      ≡ (if ltb j dirty_count then (get_or buffer j 0 + j) % 256 else get_or buffer j 0)
unfolding access_buffer
access_buffer_lem buffer dirty_count j l = dirty_at 0 dirty_count j buffer l ∙ ground arith
