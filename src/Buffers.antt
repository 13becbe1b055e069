-- ===== src/Buffers.antt =====
-- The numbers with a suffix, and the rings of send and receive buffers of src/netlib.c: convert,
-- convert_timespec, allocate_buffer_ring and access_buffer.
pub mod Align
pub mod Fill
pub mod FromFile
pub mod Ring
mod Tests
use netperf_copilot.Common.{
  ℕ, zero, suc, ◌+◌, ◌*◌, ◌-◌, ◌/◌, ◌%◌, ◌^◌, Bool, true, false, ◌&&◌, List, [], ◌∷◌, ◌++◌, Option,
  none, some, ltb, leb, ◌==◌, if◌then◌else◌, length, get_or, take, drop, min, Bytes, codes,
}
use netperf_copilot.CString.{contains, atoi}

-- `base *= n` of an unsigned int, if the text has the suffix
abbrev pub scaled : Bytes → Bytes → ℕ → ℕ → ℕ
scaled string suffix n base = if contains string suffix then base * n % 2 ^ 32 else base

-- convert
unfoldable pub convert : Bytes → ℕ
convert string = scaled string (codes "g") (1000 * 1000 * 1000) (
    scaled string (codes "m") (1000 * 1000) (
      scaled string (codes "k") 1000 (
        scaled string (codes "G") (1024 * 1024 * 1024) (
          scaled string (codes "M") (1024 * 1024) (scaled string (codes "K") 1024 (atoi string))))))

-- convert_timespec
pub convert_timespec : Bytes → ℕ
convert_timespec string =
    if contains string (codes "m")
    then atoi string * 1000 % 2 ^ 32
    else if contains string (codes "u")
    then atoi string
    else if contains string (codes "s")
    then atoi string * (1000 * 1000) % 2 ^ 32
    else atoi string * 1000 % 2 ^ 32

-- `default_fill` as an array, its terminator included
abbrev pub default_fill : Bytes
default_fill = codes "netperf" ++ 0 ∷ []

-- The loop of the default fill over the `left` bytes of a buffer: the bytes, and `fill_cursor`.
pub default_loop : ℕ → ℕ → Bytes × ℕ
default_loop zero fill_cursor = ([], fill_cursor)
default_loop (suc left) fill_cursor =
    let next = if ltb 7 (fill_cursor + 1) then 0 else fill_cursor + 1 in
    let rest = default_loop left next in (get_or default_fill fill_cursor 0 ∷ rest.0, rest.1)

-- `while (bytes_left)` over a file of which `position` bytes are read; fread() gives what is left
-- in the file up to `bytes_left`. `none`: it takes more rounds than `fuel`.
pub file_loop : ℕ → Bytes → ℕ → ℕ → Option (Bytes × ℕ)
file_loop zero file position bytes_left = if bytes_left == 0 then some ([], position) else none
file_loop (suc fuel) file position bytes_left =
    let bytes_read = min bytes_left (length file - position) in
    let next = if bytes_read == 0 then 0 else position + bytes_read in
    let rest = file_loop fuel file next (bytes_left - bytes_read) in
    if bytes_left == 0 then some ([], position) else elim rest [
      | none ↦ none
      | some (bytes, end) ↦ some (take bytes_read (drop position file) ++ bytes, end)
    ]

-- A ring element; elements are named by the round that makes them, from 1 on. `memory` is the size
-- of the memory at its base, that malloc() has been asked for.
pub record Element : Type 0 where
  pub memory : ℕ
  pub buffer_base : ℕ
  pub buffer_ptr : ℕ
  pub contents : Bytes
  pub next : ℕ

-- `a & b` of the `bits` low bits.
pub and_bits : ℕ → ℕ → ℕ → ℕ
and_bits zero a b = 0
and_bits (suc bits) a b =
    (if a % 2 == 1 && b % 2 == 1 then 1 else 0) + 2 * and_bits bits (a / 2) (b / 2)

-- `(base + alignment - 1) & ~(alignment - 1)` of a 64-bit `long`, for an alignment that is not 0
pub aligned : ℕ → ℕ → ℕ
aligned base alignment = and_bits 64 (base + alignment - 1) (2 ^ 64 - alignment)

-- `malloc_size`, an int, as the size_t that malloc() makes of it.
pub malloc_size : ℕ → ℕ → ℕ → ℕ
malloc_size buffer_size alignment offset =
    let low = (buffer_size + alignment + offset) % 2 ^ 32 in
    if ltb low (2 ^ 31) then low else low + 2 ^ 64 - 2 ^ 32

-- The loop of allocate_buffer_ring from round `i` on, `left` rounds, with the default fill; `malloc`
-- gives the base of a round's buffer, for its size. The next element of the first is set behind the
-- loop.
pub ring_loop : (ℕ → ℕ → ℕ) → ℕ → ℕ → ℕ → ℕ → ℕ → ℕ → List Element
ring_loop malloc buffer_size alignment offset i zero fill_cursor = []
ring_loop malloc buffer_size alignment offset i (suc left) fill_cursor =
    let filled = default_loop buffer_size fill_cursor in
    let memory = malloc_size buffer_size alignment offset in
    record {
      memory = memory;
      buffer_base = malloc i memory;
      buffer_ptr = aligned (malloc i memory) alignment + offset;
      contents = filled.0;
      next = i - 1;
    }
    ∷ ring_loop malloc buffer_size alignment offset (i + 1) left filled.1

-- `first_link->next = temp_link`
abbrev pub close_ring : ℕ → List Element → List Element
close_ring width [] = []
close_ring width (first ∷ rest) = record first { next = width } ∷ rest

-- allocate_buffer_ring where each malloc() succeeds; `none`: the assertion fails.
pub allocate_buffer_ring : (ℕ → ℕ → ℕ) → ℕ → ℕ → ℕ → ℕ → Option (List Element)
allocate_buffer_ring malloc width buffer_size alignment offset =
    if ltb width 1
    then none
    else some (close_ring width (ring_loop malloc buffer_size alignment offset 1 width 0))

-- The first loop of access_buffer, from `i` on: `*temp_buffer += (char)i`.
pub dirty_loop : ℕ → ℕ → Bytes → Bytes
dirty_loop i dirty_count [] = []
dirty_loop i dirty_count (b ∷ buffer) =
    let rest = dirty_loop (i + 1) dirty_count buffer in
    if ltb i dirty_count then (b + i) % 256 ∷ rest else b ∷ buffer

-- access_buffer: what it leaves in the buffer. The second loop only reads.
pub access_buffer : Bytes → ℕ → Bytes
access_buffer buffer dirty_count = dirty_loop 0 dirty_count buffer
