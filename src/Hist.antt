-- ===== src/Hist.antt =====
-- src/hist.h, `struct histogram_struct`, and src/netlib.c from HIST_new_n to
-- HIST_timestamp_stop_add, on a platform whose clock is gettimeofday().
pub mod Rows
pub mod Add
pub mod History
pub mod Search
pub mod Percentile
pub mod Stamps
mod Tests
use netperf_copilot.Common.{
  ℕ, zero, suc, ◌+◌, ◌*◌, ◌-◌, ◌%◌, ◌≡◌, Bool, true, false, List, [], ◌∷◌, Option, none, some, ltb,
  leb, ◌==◌, if◌then◌else◌, ◌||◌, get_or, set, replicate, min, max, ℤ, pos, negsuc, ◌+ℤ◌, ◌-ℤ◌,
  ltb_ℤ, to_int,
}
use netperf_copilot.Floats.{Floats}

-- HIST_NUM_OF_BUCKET
abbrev pub num_of_bucket : ℕ
num_of_bucket = 100

-- `struct timeval`
pub record Timeval : Type 0 where
  pub tv_sec : ℤ
  pub tv_usec : ℤ

abbrev pub times_million : ℤ → ℤ
times_million (pos n) = pos (n * 1000000)
times_million (negsuc n) = negsuc (n * 1000000 + 999999)

-- The difference in microseconds, and what the borrow leaves in `*end`. The difference of two longs
-- becomes an int, and so do the product and the sum.
pub delta_micro : Timeval → Timeval → ℤ × Timeval
delta_micro begin end =
    let end' : Timeval =
      if ltb_ℤ end.tv_usec begin.tv_usec
      then record { tv_sec = end.tv_sec -ℤ pos 1; tv_usec = end.tv_usec +ℤ pos 1000000 }
      else end in
    let usecs : ℤ = to_int (end'.tv_usec -ℤ begin.tv_usec) in
    let secs : ℤ = to_int (end'.tv_sec -ℤ begin.tv_sec) in
    (to_int (usecs +ℤ to_int (times_million secs)), end')

-- One more in the counter at `i`.
abbrev pub bump : List ℕ → ℕ → List ℕ
bump row i = set row i (get_or row i 0 + 1)

-- `sum += row[i]` for `left` rounds from `i`.
pub sum_loop : List ℕ → ℕ → ℕ → ℕ → ℕ
sum_loop row i zero sum = sum
sum_loop row i (suc left) sum = sum_loop row (i + 1) left (sum + get_or row i 0)

pub sum_row : List ℕ → ℕ
sum_row row = sum_loop row 0 num_of_bucket 0

-- The ten sums that output_row() prints: `base` counters each, from `i * base`.
pub output_row : ℕ → ℕ → List ℕ → List ℕ
output_row i zero row = []
output_row i (suc left) row = sum_loop row (i * 10) 10 0 ∷ output_row (i + 1) left row

abbrev pub is_zero_ℤ : ℤ → Bool
is_zero_ℤ (pos zero) = true
is_zero_ℤ _ = false

module _ (F : Floats) where
  open F use {
    Single, of_int, div_ten, is_lt_ten, bucket_of, Double, zero_double, add_square, quota,
    interpolate,
  }

  pub record Histogram : Type 0 where
    pub unit_usec : List ℕ
    pub ten_usec : List ℕ
    pub hundred_usec : List ℕ
    pub unit_msec : List ℕ
    pub ten_msec : List ℕ
    pub hundred_msec : List ℕ
    pub unit_sec : List ℕ
    pub ten_sec : List ℕ
    pub ridiculous : ℕ
    pub total : ℕ
    pub sum : ℕ
    pub sumsquare : Double
    pub hmin : ℕ
    pub hmax : ℕ
    pub limit : ℕ
    pub count : ℕ
    pub producer : ℕ
    pub consumer : ℕ
    pub time_ones : List Timeval
    pub time_two : Timeval

  abbrev zero_time : Timeval
  zero_time = record { tv_sec = pos 0; tv_usec = pos 0 }

  -- HIST_clear: every counter to zero, and no room for timestamps.
  pub clear : Histogram → Histogram
  clear h = record h {
    unit_usec = replicate num_of_bucket 0;
    ten_usec = replicate num_of_bucket 0;
    hundred_usec = replicate num_of_bucket 0;
    unit_msec = replicate num_of_bucket 0;
    ten_msec = replicate num_of_bucket 0;
    hundred_msec = replicate num_of_bucket 0;
    unit_sec = replicate num_of_bucket 0;
    ten_sec = replicate num_of_bucket 0;
    ridiculous = 0;
    total = 0;
    sum = 0;
    sumsquare = zero_double;
    hmin = 0;
    hmax = 0;
    limit = 0;
    count = 0;
    producer = 0;
    consumer = 0;
    time_ones = [];
  }

  -- HIST_new_n: `block` is what malloc() gives for the structure, `stamps n` what it gives for `n`
  -- timestamps; `none` where it gives NULL, and then the process exits.
  pub new_n : Option Histogram → (ℕ → Option (List Timeval)) → ℕ → Option Histogram
  unfolding clear
  new_n none stamps max_outstanding = none
  new_n (some block) stamps max_outstanding = elim (stamps (max_outstanding + 1)) [
    | none ↦ none
    | some ones ↦ some (record (clear block) { limit = max_outstanding + 1; time_ones = ones })
  ]

  -- HIST_purge
  pub purge : Histogram → Histogram
  purge h = record h { count = 0; producer = 0; consumer = 0 }

  -- The ladder of HIST_add, from `val = (float) time_delta` on.
  pub place : Histogram → Single → Histogram
  place h v0 =
      let v1 = div_ten v0 in
      let v2 = div_ten v1 in
      let v3 = div_ten v2 in
      let v4 = div_ten v3 in
      let v5 = div_ten v4 in
      let v6 = div_ten v5 in
      let v7 = div_ten v6 in
      if is_lt_ten v0
      then record h { unit_usec = bump h.unit_usec (bucket_of v0) }
      else if is_lt_ten v1
      then record h { ten_usec = bump h.ten_usec (bucket_of v1) }
      else if is_lt_ten v2
      then record h { hundred_usec = bump h.hundred_usec (bucket_of v2) }
      else if is_lt_ten v3
      then record h { unit_msec = bump h.unit_msec (bucket_of v3) }
      else if is_lt_ten v4
      then record h { ten_msec = bump h.ten_msec (bucket_of v4) }
      else if is_lt_ten v5
      then record h { hundred_msec = bump h.hundred_msec (bucket_of v5) }
      else if is_lt_ten v6
      then record h { unit_sec = bump h.unit_sec (bucket_of v6) }
      else if is_lt_ten v7
      then record h { ten_sec = bump h.ten_sec (bucket_of v7) }
      else record h { ridiculous = h.ridiculous + 1 }

  -- The statistics that HIST_add keeps of a sample that is not negative.
  pub note_sample : Bool → Histogram → ℕ → Histogram
  note_sample keep_statistics h t =
      let low = if h.total == 0 then t else h.hmin in
      let high = if h.total == 0 then t else h.hmax in
      record h {
        total = h.total + 1;
        sum = h.sum + t;
        sumsquare = if keep_statistics then add_square h.sumsquare t else h.sumsquare;
        hmin = if ltb low t then low else t;
        hmax = if ltb t high then high else t;
      }

  -- HIST_add, with the flag `keep_statistics`.
  pub add : Bool → Histogram → ℤ → Histogram
  add keep_statistics h (negsuc d) = record h { ridiculous = h.ridiculous + 1 }
  add keep_statistics h (pos t) = place (note_sample keep_statistics h t) (of_int t)

  -- HIST_search_bucket: the loop from `i`, with `last` and `current`; it returns the result and
  -- both counters. At the end of the row the result is 0.
  pub search_loop : List ℕ → ℕ → ℕ → ℕ → ℕ → ℕ → ℕ → ℤ × ℕ × ℕ
  search_loop row num scale i zero last current = (pos 0, last, current)
  search_loop row num scale i (suc left) last current =
      let reached = current + get_or row i 0 in
      let rest = search_loop row num scale (i + 1) left current reached in
      if leb num reached
      then (interpolate i (pos num -ℤ pos current) (reached - current) scale, current, reached)
      else rest

  pub search_bucket : List ℕ → ℕ → ℕ → ℕ → ℕ → ℤ × ℕ × ℕ
  search_bucket row num last current scale = search_loop row num scale 0 num_of_bucket last current

  -- One row after another, as long as the result is 0.
  pub search_rows : List (List ℕ × ℕ) → ℕ → ℕ → ℕ → ℤ
  search_rows [] num last current = pos 100000000
  search_rows ((row, scale) ∷ rows) num last current =
      let (result, last', current') = search_bucket row num last current scale in
      let rest = search_rows rows num last' current' in if is_zero_ℤ result then rest else result

  abbrev pub scaled_rows : Histogram → List (List ℕ × ℕ)
  scaled_rows h =
      (h.unit_usec, 1)
      ∷ (h.ten_usec, 10)
      ∷ (h.hundred_usec, 100)
      ∷ (h.unit_msec, 1000)
      ∷ (h.ten_msec, 10000)
      ∷ (h.hundred_msec, 100000)
      ∷ (h.unit_sec, 1000000)
      ∷ (h.ten_sec, 10000000)
      ∷ []

  -- HIST_get_percentile
  pub get_percentile : Histogram → Double → ℤ
  get_percentile h percentile =
      let num = quota percentile h.total in
      if num == 0 then pos 0 else search_rows (scaled_rows h) num 0 0

  -- HIST_timestamp_start: `now` is what gettimeofday() gives. A full ring is only reported.
  -- `none`: a remainder by a zero limit.
  pub timestamp_start : Histogram → Timeval → Option Histogram
  timestamp_start h now =
      if h.limit == 0
      then none
      else some (record h {
        time_ones = set h.time_ones h.producer now;
        producer = (h.producer + 1) % h.limit;
        count = h.count + 1;
      })

  -- HIST_timestamp_stop_add. `none`: the process exits, since there is no timestamp,
  -- or a remainder by a zero limit.
  pub timestamp_stop_add : Bool → Histogram → Timeval → Option Histogram
  timestamp_stop_add keep_statistics h now =
      let (micros, stamp) = delta_micro (get_or h.time_ones h.consumer zero_time) now in
      let h' = add keep_statistics (record h { time_two = stamp }) micros in
      if h.consumer == h.producer || h.limit == 0
      then none
      else some (record h' { consumer = (h'.consumer + 1) % h'.limit; count = h'.count - 1 })
