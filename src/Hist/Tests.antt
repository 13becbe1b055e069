-- ===== src/Hist/Tests.antt =====
-- Runs of the histogram of src/netlib.c, with arithmetic that does not round, and the theorems at
-- concrete inputs.
use netperf_copilot.Common.{
  to_int, ℕ, zero, suc, ◌-◌, ◌^◌, ◌+◌, ◌*◌, ◌≤◌, ◌<◌, ◌≡◌, refl, true, List, [], ◌∷◌, some, arith,
  get_or, set, replicate, ℤ, pos, negsuc, ◌-ℤ◌, ◌+ℤ◌,
}
use netperf_copilot.Floats.{Floats, exact, exact_interpolate, exact_bound}
use netperf_copilot.Hist.{
  Timeval, Histogram, delta_micro, sum_loop, sum_row, clear, place, note_sample, add, search_loop,
  search_bucket, search_rows, get_percentile, timestamp_start, timestamp_stop_add,
}
use netperf_copilot.Hist.History.{add_all}
use netperf_copilot.Hist.Percentile.{Bracket, get_percentile-Bracket}
use netperf_copilot.Hist.Stamps.{Holds, timestamp_start-Holds, stopped, timestamp_stop_add-Holds}

abbrev at_time : ℕ → ℕ → Timeval
at_time s u = record { tv_sec = pos s; tv_usec = pos u }

abbrev blank : Histogram exact
blank = record {
  unit_usec = replicate 100 0;
  ten_usec = replicate 100 0;
  hundred_usec = replicate 100 0;
  unit_msec = replicate 100 0;
  ten_msec = replicate 100 0;
  hundred_msec = replicate 100 0;
  unit_sec = replicate 100 0;
  ten_sec = replicate 100 0;
  ridiculous = 0;
  total = 0;
  sum = 0;
  sumsquare = 0;
  hmin = 0;
  hmax = 0;
  limit = 3;
  count = 0;
  producer = 0;
  consumer = 0;
  time_ones = replicate 3 (at_time 0 0);
  time_two = at_time 0 0;
}

-- 250 microseconds, 7 milliseconds, a step back of the clock, 250 microseconds.
abbrev samples : List ℤ
samples = pos 250 ∷ negsuc 3 ∷ pos 7000 ∷ pos 250 ∷ []

buckets_filled :
    (get_or (add_all exact true blank samples).hundred_usec 25 0 ≡ 2)
    × (get_or (add_all exact true blank samples).unit_msec 70 0 ≡ 1)
    × ((add_all exact true blank samples).ridiculous ≡ 1)
    × ((add_all exact true blank samples).hmin ≡ 250)
    × ((add_all exact true blank samples).hmax ≡ 7000)
unfolding add_all add place note_sample clear
buckets_filled = (refl, refl, refl, refl, refl)

-- Three samples of 25 microseconds and one of 42.
abbrev four : Histogram exact
four = record blank { ten_usec = set (set (replicate 100 0) 25 3) 42 1; total = 4; sum = 117 }

-- The median lies in the tenth of the scale from 25 to 26 microseconds.
median : get_percentile exact four 50 ≡ pos 25
unfolding get_percentile search_rows search_bucket search_loop ◌-ℤ◌
median = refl

get_percentile-Bracket_example :
    (b : Bracket exact ((replicate 100 0, 1) ∷ []) four.ten_usec 10 2 0) × (get_percentile exact
        four 50
      ≡ pos b.k)
unfolding sum_row sum_loop
get_percentile-Bracket_example =
    get_percentile-Bracket exact four 50 ((four.unit_usec, 1) ∷ [])
      ((four.hundred_usec, 100)
        ∷ (four.unit_msec, 1000)
        ∷ (four.ten_msec, 10000)
        ∷ (four.hundred_msec, 100000)
        ∷ (four.unit_sec, 1000000)
        ∷ (four.ten_sec, 10000000)
        ∷ [])
      four.ten_usec 10 10 refl (omega arith) (omega arith) (omega arith)

-- One sample counted in `total` and found in no row.
abbrev beyond : Histogram exact
beyond = record blank { ridiculous = 1; total = 1 }

-- The conversion of a division by zero to `int`, as on a machine that gives the least `int`.
abbrev machine_interpolate : ℕ → ℤ → ℕ → ℕ → ℤ
machine_interpolate i a zero scale = negsuc (2 ^ 31 - 1)
machine_interpolate i a (suc b) scale = exact_interpolate i a (suc b) scale

machine_bound :
    (i a b scale : ℕ)
    → 0 < a
    → a ≤ b
    → (k : ℕ) × (machine_interpolate i (pos a) b scale ≡ pos k)
      × (i * scale < 10 * k + 10)
      × (10 * k ≤ (i + 1) * scale)
machine_bound i a zero scale ha hb = absurd (omega arith)
machine_bound i a (suc b) scale ha hb = exact_bound i a (suc b) scale ha hb

abbrev machine : Floats
machine = record exact { interpolate = machine_interpolate; interpolate_bound = machine_bound }

-- Five samples of less than a microsecond.
abbrev instant : Histogram machine
instant = record {
  unit_usec = set (replicate 100 0) 0 5;
  ten_usec = replicate 100 0;
  hundred_usec = replicate 100 0;
  unit_msec = replicate 100 0;
  ten_msec = replicate 100 0;
  hundred_msec = replicate 100 0;
  unit_sec = replicate 100 0;
  ten_sec = replicate 100 0;
  ridiculous = 0;
  total = 5;
  sum = 0;
  sumsquare = 0;
  hmin = 0;
  hmax = 0;
  limit = 1;
  count = 0;
  producer = 0;
  consumer = 0;
  time_ones = at_time 0 0 ∷ [];
  time_two = at_time 0 0;
}

-- Two outstanding timestamps round the end of a ring of three.
abbrev waiting : Histogram exact
waiting = record blank {
  count = 2;
  consumer = 2;
  producer = 1;
  time_ones = at_time 10 999900 ∷ at_time 0 0 ∷ at_time 10 999000 ∷ [];
}

abbrev queue : List Timeval
queue = at_time 10 999000 ∷ at_time 10 999900 ∷ []

waiting-Holds : Holds exact waiting queue
waiting-Holds = record {
  size = refl;
  consumer_in = omega arith;
  not_full = omega arith;
  producer_at = refl;
  stamps = refl;
}

-- A borrow from the seconds: 200 microseconds.
delta_micro_borrows : (delta_micro (at_time 10 999900) (at_time 11 100)).0 ≡ pos 200
unfolding delta_micro ◌-ℤ◌ ◌+ℤ◌ to_int
delta_micro_borrows = refl

-- Beyond 2147 seconds the int has wrapped.
delta_micro_wraps : (delta_micro (at_time 10 0) (at_time 2158 0)).0 ≡ negsuc 2146967295
unfolding delta_micro ◌-ℤ◌ ◌+ℤ◌ to_int
delta_micro_wraps = refl

timestamp_stop_add-Holds_example :
    (timestamp_stop_add exact true waiting (at_time 11 100)
      ≡ some (stopped exact true waiting (at_time 10 999000) (at_time 11 100)))
    × Holds exact
        (stopped exact true waiting (at_time 10 999000) (at_time 11 100))
        (at_time 10 999900 ∷ [])
timestamp_stop_add-Holds_example =
    timestamp_stop_add-Holds exact true waiting (at_time 10 999000) (at_time 10 999900 ∷ [])
      (at_time 11 100) waiting-Holds

abbrev one_waiting : Histogram exact
one_waiting = record waiting { count = 1; producer = 0 }

one_waiting-Holds : Holds exact one_waiting (at_time 10 999000 ∷ [])
one_waiting-Holds = record {
  size = refl;
  consumer_in = omega arith;
  not_full = omega arith;
  producer_at = refl;
  stamps = refl;
}

timestamp_start-Holds_example :
    (h : Histogram exact) × (timestamp_start exact one_waiting (at_time 12 5) ≡ some h)
    × Holds exact h (at_time 10 999000 ∷ at_time 12 5 ∷ [])
timestamp_start-Holds_example =
    timestamp_start-Holds exact one_waiting (at_time 10 999000 ∷ []) (at_time 12 5)
      one_waiting-Holds (omega arith)
