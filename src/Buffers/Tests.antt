-- ===== src/Buffers/Tests.antt =====
-- Concrete runs of the buffer routines of src/netlib.c.
use netperf_copilot.Common.{
  ℕ, ◌+◌, ◌*◌, ◌^◌, ◌≤◌, ◌≡◌, refl, List, [], ◌∷◌, some, none, codes, All, arith,
}
use netperf_copilot.CString.{contains, begins, atoi, skip_space, decimal, word_of, scan, digit}
use netperf_copilot.Buffers.{
  convert, convert_timespec, default_loop, file_loop, Element, and_bits, aligned, malloc_size,
  ring_loop, allocate_buffer_ring,
}
use netperf_copilot.Buffers.Align.{IsInside, allocate_buffer_ring-IsInside}
use netperf_copilot.Buffers.Ring.{follow, follow-allocate_buffer_ring}
use netperf_copilot.Buffers.FromFile.{cycle, file_loop-cycle}

kilo : convert (codes "32K") ≡ 32768
unfolding convert contains begins atoi skip_space decimal word_of scan digit
kilo = refl

milli : convert_timespec (codes "5") ≡ 5000
unfolding convert_timespec contains begins atoi skip_space decimal word_of scan digit
milli = refl

abbrev malloc : ℕ → ℕ → ℕ
malloc i size = 1000 * i + 3

abbrev ring : List Element
ring =
    record {
      memory = 15;
      buffer_base = 1003;
      buffer_ptr = 1010;
      contents = codes "netpe";
      next = 2;
    }
    ∷ record {
      memory = 15;
      buffer_base = 2003;
      buffer_ptr = 2010;
      contents = b'r' ∷ b'f' ∷ 0 ∷ b'n' ∷ b'e' ∷ [];
      next = 1;
    }
    ∷ []

made : allocate_buffer_ring malloc 2 5 8 2 ≡ some ring
unfolding allocate_buffer_ring ring_loop malloc_size default_loop aligned and_bits
made = refl

allocate_buffer_ring-IsInside_example : All (IsInside 5 (2 ^ 3) 2) ring
allocate_buffer_ring-IsInside_example =
    allocate_buffer_ring-IsInside malloc 3 2 5 2 ring (omega arith) (omega arith)
      (λ r n h. omega arith) made

follow-allocate_buffer_ring_example : follow ring 2 1 ≡ 1
follow-allocate_buffer_ring_example =
    follow-allocate_buffer_ring malloc 2 5 8 2 1 ring (omega arith) made

file_loop-cycle_example :
    (end : ℕ) × (file_loop 11 (codes "abc") 2 5 ≡ some (cycle (codes "abc") 2 5, end)) × (end ≤ 3)
file_loop-cycle_example =
    file_loop-cycle 11 (codes "abc") 2 5 (omega arith) (omega arith) (omega arith)

again : cycle (codes "abc") 2 5 ≡ codes "cabca"
again = refl

never : file_loop 20 [] 0 5 ≡ none
unfolding file_loop
never = refl
