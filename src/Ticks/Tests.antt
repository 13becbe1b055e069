-- ===== src/Ticks/Tests.antt =====
-- Concrete runs of the tick counters of src/netcpu_procstat.c.
use netperf_copilot.Common.{◌+◌, ◌≡◌, [], ◌∷◌, arith}
use netperf_copilot.Ticks.{differences, total_ticks}
use netperf_copilot.Ticks.Differences.{sum, total_ticks-differences}

total_ticks-differences_example :
    total_ticks (differences (5 ∷ 7 ∷ []) (9 ∷ 20 ∷ [])) + sum (5 ∷ 7 ∷ []) ≡ sum (9 ∷ 20 ∷ [])
total_ticks-differences_example =
    total_ticks-differences (5 ∷ 7 ∷ []) (9 ∷ 20 ∷ []) (omega arith, (omega arith, tt))
      (omega arith)
