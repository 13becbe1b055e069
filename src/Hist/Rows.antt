-- ===== src/Hist/Rows.antt =====
-- The rows of a histogram: sum_row() and output_row() of src/netlib.c over an increment.
use netperf_copilot.Common.{
  ℕ, zero, suc, ◌+◌, ◌*◌, ◌≤◌, ◌<◌, ◌≡◌, refl, List, [], ◌∷◌, arith, get_or, length,
  get_or-set_self, get_or-set_ne, Bool-cases, inl, inr, ◌==◌,
}
use native.Mathlib.Nat.{zero-add, add-zero}
use Prim.Native.Nat.add
use netperf_copilot.Hist.{num_of_bucket, bump, sum_loop, sum_row, output_row}

pub sum_loop_shift : (row : List ℕ) (i n s : ℕ) → sum_loop row i n s ≡ s + sum_loop row i n 0
unfolding sum_loop
sum_loop_shift row i zero s = omega arith
sum_loop_shift row i (suc n) s = omega (
  arith,
  sum_loop_shift row (i + 1) n (s + get_or row i 0),
  sum_loop_shift row (i + 1) n (0 + get_or row i 0),
)

-- The sum of `m + n` counters is that of the first `m` and the next `n`.
pub sum_loop_split :
    (row : List ℕ) (i m n s : ℕ)
    → sum_loop row i (m + n) s ≡ sum_loop row (i + m) n (sum_loop row i m s)
unfolding sum_loop
sum_loop_split row i zero n s = rw (zero-add, add-zero)
sum_loop_split row i (suc m) n s =
    rw (add.suc m n, ← shift) (sum_loop_split row (i + 1) m n (s + get_or row i 0))
  where
    shift : i + 1 + m ≡ i + suc m
    shift = omega arith

-- A counter outside the range read does not change the sum.
sum_loop-bump_before :
    (row : List ℕ) (j i n s : ℕ) → j < i → sum_loop (bump row j) i n s ≡ sum_loop row i n s
unfolding sum_loop
sum_loop-bump_before row j i zero s h = refl
sum_loop-bump_before row j i (suc n) s h = ground (
  arith,
  get_or-set_ne row j i (get_or row j 0 + 1) 0,
  sum_loop-bump_before row j (i + 1) n (s + get_or row i 0),
)

sum_loop-bump :
    (row : List ℕ) (j i n s : ℕ)
    → i ≤ j
    → j < i + n
    → j < length row
    → sum_loop (bump row j) i n s ≡ sum_loop row i n s + 1
unfolding sum_loop
sum_loop-bump row j i zero s h k l = absurd (omega arith)
sum_loop-bump row j i (suc n) s h k l = elim (Bool-cases (i == j)) [
  | inl e ↦ ground (
    arith,
    get_or-set_self row j (get_or row j 0 + 1) 0 l,
    sum_loop-bump_before row j (i + 1) n (s + (get_or row j 0 + 1)),
    sum_loop_shift row (i + 1) n (s + (get_or row j 0 + 1)),
    sum_loop_shift row (i + 1) n (s + get_or row j 0),
  )
  | inr e ↦ ground (
    arith,
    get_or-set_ne row j i (get_or row j 0 + 1) 0,
    sum_loop-bump row j (i + 1) n (s + get_or row i 0),
  )
]

-- One more sample in a bucket of a full row makes its sum one more.
pub sum_row-bump :
    (row : List ℕ) (j : ℕ)
    → length row ≡ num_of_bucket
    → j < num_of_bucket
    → sum_row (bump row j) ≡ sum_row row + 1
unfolding sum_row
sum_row-bump row j full h =
    sum_loop-bump row j 0 num_of_bucket 0 (omega arith) (omega arith) (omega arith)

-- The sum of a list of counters.
abbrev pub sum_list : List ℕ → ℕ
sum_list [] = 0
sum_list (x ∷ xs) = x + sum_list xs

sum_list-output_row :
    (row : List ℕ) (i left : ℕ)
    → sum_list (output_row i left row) ≡ sum_loop row (i * 10) (left * 10) 0
unfolding output_row
sum_list-output_row row i zero = unfold sum_loop in refl
sum_list-output_row row i (suc left) = ground (
  arith,
  sum_list-output_row row (i + 1) left,
  sum_loop_split row (i * 10) 10 (left * 10) 0,
  sum_loop_shift row ((i + 1) * 10) (left * 10) (sum_loop row (i * 10) 10 0),
)

-- The ten figures that HIST_report prints for a row add up to sum_row() of it.
pub sum_list-output_row_eq : (row : List ℕ) → sum_list (output_row 0 10 row) ≡ sum_row row
unfolding sum_row
sum_list-output_row_eq row = sum_list-output_row row 0 10
