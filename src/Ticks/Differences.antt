-- ===== src/Ticks/Differences.antt =====
-- What tick_subtract() of src/netcpu_procstat.c gives on each of its branches.
use netperf_copilot.Common.{
  ℕ, zero, suc, ◌+◌, ◌-◌, ◌%◌, ◌^◌, ◌≤◌, ◌<◌, ◌≡◌, refl, List, [], ◌∷◌, arith, get_or,
}
use netperf_copilot.Ticks.{long_long_mod, tick_subtract, differences, total_ticks}

-- For a 64-bit counter that starts at 2^32 or above, tick_subtract() gives the ticks in between,
-- whether it has wrapped or not, if they are fewer than 2^64.
pub tick_subtract_wide :
    (start ticks : ℕ)
    → start < long_long_mod
    → ticks < long_long_mod
    → 2 ^ 32 ≤ start
    → tick_subtract start ((start + ticks) % long_long_mod) ≡ ticks
unfolding tick_subtract
tick_subtract_wide start ticks s t high = ground arith

-- For a counter that has not gone back, it gives the difference.
pub tick_subtract_forward :
    (start end : ℕ) → end < long_long_mod → start ≤ end → tick_subtract start end ≡ end - start
unfolding tick_subtract
tick_subtract_forward start end e le = ground arith

-- A 32-bit counter that has wrapped once does not give the ticks in between, which are 2^32 less
-- `start - end`: the result is 2^64 less 2^32 less `start - end`.
pub tick_subtract_narrow :
    (start end : ℕ)
    → start < 2 ^ 32
    → end < start
    → tick_subtract start end + 2 ^ 32 + (start - end) ≡ long_long_mod
unfolding tick_subtract
tick_subtract_narrow start end s lt = ground arith

abbrev pub sum : List ℕ → ℕ
sum [] = 0
sum (x ∷ xs) = x + sum xs

-- Every counter of the second list is at least that of the first.
abbrev pub Advances : List ℕ → List ℕ → Type 0
Advances [] [] = Unit
Advances (s ∷ starts) (e ∷ ends) = (s ≤ e) × Advances starts ends
Advances _ _ = ⊥

sum-Advances : (starts ends : List ℕ) → Advances starts ends → sum starts ≤ sum ends
sum-Advances [] [] a = omega arith
sum-Advances [] (e ∷ ends) a = absurd a
sum-Advances (s ∷ starts) [] a = absurd a
sum-Advances (s ∷ starts) (e ∷ ends) (le, a) = omega (arith, sum-Advances starts ends a)

-- For counters that have not gone back and that together are below 2^64 at the end, the total of
-- the differences is the difference of the totals: no tick is lost or counted twice.
pub total_ticks-differences :
    (starts ends : List ℕ)
    → Advances starts ends
    → sum ends < long_long_mod
    → total_ticks (differences starts ends) + sum starts ≡ sum ends
unfolding total_ticks differences
total_ticks-differences [] [] a l = refl
total_ticks-differences [] (e ∷ ends) a l = absurd a
total_ticks-differences (s ∷ starts) [] a l = absurd a
total_ticks-differences (s ∷ starts) (e ∷ ends) (le, a) l = omega (
  arith,
  total_ticks-differences starts ends a (omega arith),
  tick_subtract_forward s e (omega arith) le,
  sum-Advances starts ends a,
)

-- Under the same conditions no state has more than all ticks, so its share is at most a hundred
-- percent.
pub share_of_total :
    (starts ends : List ℕ) (i : ℕ)
    → Advances starts ends
    → sum ends < long_long_mod
    → get_or (differences starts ends) i 0 ≤ total_ticks (differences starts ends)
unfolding total_ticks differences
share_of_total [] [] i a l = omega arith
share_of_total [] (e ∷ ends) i a l = absurd a
share_of_total (s ∷ starts) [] i a l = absurd a
share_of_total (s ∷ starts) (e ∷ ends) zero (le, a) l = omega (
  arith,
  total_ticks-differences starts ends a (omega arith),
  tick_subtract_forward s e (omega arith) le,
)
share_of_total (s ∷ starts) (e ∷ ends) (suc i) (le, a) l = omega (
  arith,
  share_of_total starts ends i a (omega arith),
  total_ticks-differences starts ends a (omega arith),
  tick_subtract_forward s e (omega arith) le,
)
