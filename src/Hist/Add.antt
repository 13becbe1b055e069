-- ===== src/Hist/Add.antt =====
-- HIST_add() of src/netlib.c: which counters one sample changes.
use netperf_copilot.Common.{
  ℕ, ◌+◌, ◌≡◌, refl, Bool, List, arith, length, length-set, get_or, ℤ, pos, negsuc,
}
use netperf_copilot.Floats.{Floats}
use netperf_copilot.Hist.{Histogram, num_of_bucket, bump, sum_row, place, note_sample, add}
use netperf_copilot.Hist.Rows.{sum_row-bump}

length-bump : (row : List ℕ) (i : ℕ) → length (bump row i) ≡ length row
length-bump row i = length-set row i (get_or row i 0 + 1)

module _ (F : Floats) where
  -- Every row has its hundred counters.
  pub record IsFull (h : Histogram F) : Type 0 where
    pub unit_usec_full : length h.unit_usec ≡ num_of_bucket
    pub ten_usec_full : length h.ten_usec ≡ num_of_bucket
    pub hundred_usec_full : length h.hundred_usec ≡ num_of_bucket
    pub unit_msec_full : length h.unit_msec ≡ num_of_bucket
    pub ten_msec_full : length h.ten_msec ≡ num_of_bucket
    pub hundred_msec_full : length h.hundred_msec ≡ num_of_bucket
    pub unit_sec_full : length h.unit_sec ≡ num_of_bucket
    pub ten_sec_full : length h.ten_sec ≡ num_of_bucket

  -- All counters together, the overflow counter `ridiculous` included.
  abbrev pub counted : Histogram F → ℕ
  counted h =
      sum_row h.unit_usec
      + sum_row h.ten_usec
      + sum_row h.hundred_usec
      + sum_row h.unit_msec
      + sum_row h.ten_msec
      + sum_row h.hundred_msec
      + sum_row h.unit_sec
      + sum_row h.ten_sec
      + h.ridiculous

  pub place-IsFull : (h : Histogram F) (v : F.Single) → IsFull h → IsFull (place F h v)
  unfolding place
  place-IsFull h v0 full =
      let v1 = F.div_ten v0 in
      let v2 = F.div_ten v1 in
      let v3 = F.div_ten v2 in
      let v4 = F.div_ten v3 in
      let v5 = F.div_ten v4 in
      let v6 = F.div_ten v5 in
      let v7 = F.div_ten v6 in
      ground (
        arith,
        length-bump h.unit_usec (F.bucket_of v0),
        length-bump h.ten_usec (F.bucket_of v1),
        length-bump h.hundred_usec (F.bucket_of v2),
        length-bump h.unit_msec (F.bucket_of v3),
        length-bump h.ten_msec (F.bucket_of v4),
        length-bump h.hundred_msec (F.bucket_of v5),
        length-bump h.unit_sec (F.bucket_of v6),
        length-bump h.ten_sec (F.bucket_of v7),
      )

  pub counted-place :
      (h : Histogram F) (v : F.Single) → IsFull h → counted (place F h v) ≡ counted h + 1
  unfolding place
  counted-place h v0 full =
      let v1 = F.div_ten v0 in
      let v2 = F.div_ten v1 in
      let v3 = F.div_ten v2 in
      let v4 = F.div_ten v3 in
      let v5 = F.div_ten v4 in
      let v6 = F.div_ten v5 in
      let v7 = F.div_ten v6 in
      ground (
        arith,
        sum_row-bump h.unit_usec (F.bucket_of v0) full.unit_usec_full,
        F.bucket_bound v0,
        sum_row-bump h.ten_usec (F.bucket_of v1) full.ten_usec_full,
        F.bucket_bound v1,
        sum_row-bump h.hundred_usec (F.bucket_of v2) full.hundred_usec_full,
        F.bucket_bound v2,
        sum_row-bump h.unit_msec (F.bucket_of v3) full.unit_msec_full,
        F.bucket_bound v3,
        sum_row-bump h.ten_msec (F.bucket_of v4) full.ten_msec_full,
        F.bucket_bound v4,
        sum_row-bump h.hundred_msec (F.bucket_of v5) full.hundred_msec_full,
        F.bucket_bound v5,
        sum_row-bump h.unit_sec (F.bucket_of v6) full.unit_sec_full,
        F.bucket_bound v6,
        sum_row-bump h.ten_sec (F.bucket_of v7) full.ten_sec_full,
        F.bucket_bound v7,
      )

  -- What the ladder of HIST_add leaves alone.
  pub record SameStats (h k : Histogram F) : Type 0 where
    pub same_total : k.total ≡ h.total
    pub same_sum : k.sum ≡ h.sum
    pub same_hmin : k.hmin ≡ h.hmin
    pub same_hmax : k.hmax ≡ h.hmax
    pub same_limit : k.limit ≡ h.limit
    pub same_count : k.count ≡ h.count
    pub same_producer : k.producer ≡ h.producer
    pub same_consumer : k.consumer ≡ h.consumer
    pub same_time_ones : k.time_ones ≡ h.time_ones

  pub place-SameStats : (h : Histogram F) (v : F.Single) → SameStats h (place F h v)
  unfolding place
  place-SameStats h v = ground arith

  note_sample-IsFull :
      (keep_statistics : Bool) (h : Histogram F) (t : ℕ)
      → IsFull h
      → IsFull (note_sample F keep_statistics h t)
  unfolding note_sample
  note_sample-IsFull keep_statistics h t full = ground arith

  counted-note_sample :
      (keep_statistics : Bool) (h : Histogram F) (t : ℕ)
      → counted (note_sample F keep_statistics h t) ≡ counted h
  unfolding note_sample
  counted-note_sample keep_statistics h t = refl

  pub add-IsFull :
      (keep_statistics : Bool) (h : Histogram F) (d : ℤ)
      → IsFull h
      → IsFull (add F keep_statistics h d)
  unfolding add
  add-IsFull keep_statistics h (negsuc d) full = ground arith
  add-IsFull keep_statistics h (pos t) full =
      place-IsFull _ (F.of_int t) (note_sample-IsFull keep_statistics h t full)

  -- A sample of any sign and size lands in one counter.
  pub counted-add :
      (keep_statistics : Bool) (h : Histogram F) (d : ℤ)
      → IsFull h
      → counted (add F keep_statistics h d) ≡ counted h + 1
  unfolding add
  counted-add keep_statistics h (negsuc d) full = omega arith
  counted-add keep_statistics h (pos t) full =
      rw (← counted-note_sample keep_statistics h t)
        (counted-place _ (F.of_int t) (note_sample-IsFull keep_statistics h t full))
