-- ===== src/Ticks.antt =====
-- The processor time of src/netcpu_procstat.c: ten 64-bit counters of a processor at the start and at
-- the end of a test.
pub mod Differences
mod Tests
use netperf_copilot.Common.{
  ℕ, zero, suc, ◌+◌, ◌-◌, ◌/◌, ◌%◌, ◌^◌, Bool, true, false, ◌||◌, not, List, [], ◌∷◌, leb, ◌==◌,
  if◌then◌else◌,
}

abbrev pub long_long_mod : ℕ
long_long_mod = 2 ^ 64

-- `end - start` of uint64_t
abbrev pub wrapped : ℕ → ℕ → ℕ
wrapped end start = (end + (long_long_mod - start)) % long_long_mod

-- tick_subtract
pub tick_subtract : ℕ → ℕ → ℕ
tick_subtract start end =
    if leb start end || not (start / 2 ^ 32 % 2 ^ 32 == 0)
    then wrapped end start
    else (wrapped end start + 0xffffffff00000000) % long_long_mod

-- The differences of calc_cpu_util_internal in all the states of one processor.
pub differences : List ℕ → List ℕ → List ℕ
unfolding tick_subtract
differences (start ∷ starts) (end ∷ ends) = tick_subtract start end ∷ differences starts ends
differences _ _ = []

-- `total_ticks`
pub total_ticks : List ℕ → ℕ
total_ticks [] = 0
total_ticks (d ∷ ds) = (d + total_ticks ds) % long_long_mod
