-- ===== src/Hist/Percentile.antt =====
-- HIST_get_percentile() of src/netlib.c, over all the rows.
use netperf_copilot.Common.{
  ℕ, suc, ◌+◌, ◌*◌, ◌-◌, ◌≤◌, ◌<◌, ◌≡◌, ◌∙◌, ap, refl, false, List, [], ◌∷◌, ◌++◌, arith, get_or,
  ne→==, pos, ◌-ℤ◌,
}
use native.Mathlib.Nat.{le_trans}
use native.Mathlib.Decide.{dec_le}
use netperf_copilot.Floats.{Floats}
use netperf_copilot.Hist.{
  Histogram, num_of_bucket, sum_loop, sum_row, search_loop, search_bucket, search_rows, scaled_rows,
  get_percentile, is_zero_ℤ,
}
use netperf_copilot.Hist.Search.{
  le→leb, sum_loop_mono, scale_mono, search_loop_stop, search_bucket-RowHit, search_bucket-RowMiss,
}

module _ (F : Floats) where
  -- The samples in the rows.
  abbrev pub rows_sum : List (List ℕ × ℕ) → ℕ
  rows_sum [] = 0
  rows_sum ((row, scale) ∷ rows) = sum_row row + rows_sum rows

  search_rows_skip :
      (row : List ℕ) (scale : ℕ) (rows : List (List ℕ × ℕ)) (num last current : ℕ)
      → current + sum_row row < num
      → (last' : ℕ) × (search_rows F ((row, scale) ∷ rows) num last current
          ≡ search_rows F rows num last' (current + sum_row row))
  unfolding search_rows
  search_rows_skip row scale rows num last current lt =
      let m = search_bucket-RowMiss F row num scale last current lt in (m.0, ground (arith, m.1))

  -- The percentile's bucket is found in `row`, behind rows that hold too few samples.
  pub record Bracket (before : List (List ℕ × ℕ)) (row : List ℕ) (scale num current : ℕ)
      : Type 0 where
    pub j : ℕ
    pub k : ℕ
    pub inside : j < num_of_bucket
    pub below : current + rows_sum before + sum_loop row 0 j 0 < num
    pub reached : num ≤ current + rows_sum before + sum_loop row 0 (suc j) 0
    pub low : j * scale < 10 * k + 10
    pub high : 10 * k ≤ (j + 1) * scale

  search_rows-Bracket :
      (before after : List (List ℕ × ℕ)) (row : List ℕ) (scale num last current : ℕ)
      → current + rows_sum before < num
      → num ≤ current + rows_sum before + sum_row row
      → (b : Bracket before row scale num current) × (10 ≤ b.j * scale
          → search_rows F (before ++ ((row, scale) ∷ after)) num last current ≡ pos b.k)
  search_rows-Bracket [] after row scale num last current lt le =
      let h = search_bucket-RowHit F row num scale last current (omega arith) (omega arith) in
      (
        record {
          j = h.j;
          k = h.k;
          inside = h.inside;
          below = omega (arith, h.below);
          reached = omega (arith, h.reached);
          low = h.low;
          high = h.high;
        },
        λ big. unfold search_rows in ground (arith, h.found, h.low),
      )
  search_rows-Bracket ((first, s) ∷ before) after row scale num last current lt le =
      let m =
        search_rows_skip first s (before ++ ((row, scale) ∷ after)) num last current
          (omega arith) in
      let r =
        search_rows-Bracket before after row scale num m.0 (current + sum_row first) (omega arith)
          (omega arith) in
      (
        record {
          j = r.0.j;
          k = r.0.k;
          inside = r.0.inside;
          below = omega (arith, r.0.below);
          reached = omega (arith, r.0.reached);
          low = r.0.low;
          high = r.0.high;
        },
        λ big. m.1 ∙ r.1 big,
      )

  -- HIST_get_percentile() where `num`, the number of samples that the percentile asks for, is
  -- reached in the row at `scale`, but not in the rows before it nor in the first `skip` counters of
  -- that row, which cover at least a microsecond: there is a counter `j` of the row up to which
  -- fewer than `num` samples lie, and with which at least `num` do, and the result is an integer in
  -- that counter's tenth of the scale, cut.
  pub get_percentile-Bracket :
      (h : Histogram F) (percentile : F.Double) (before after : List (List ℕ × ℕ)) (row : List ℕ)
      (scale skip : ℕ)
      → scaled_rows F h ≡ before ++ ((row, scale) ∷ after)
      → 10 ≤ skip * scale
      → rows_sum before + sum_loop row 0 skip 0 < F.quota percentile h.total
      → F.quota percentile h.total ≤ rows_sum before + sum_row row
      → (b : Bracket before row scale (F.quota percentile h.total) 0) × (get_percentile F h
            percentile
          ≡ pos b.k)
  unfolding get_percentile
  get_percentile-Bracket h percentile before after row scale skip split far lt le =
      let num = F.quota percentile h.total in
      let r = search_rows-Bracket before after row scale num 0 0 (omega arith) (omega arith) in
      let big : 10 ≤ r.0.j * scale = le_trans far (scale_mono skip r.0.j scale (skip_le r.0)) in
      (
        r.0,
        rw (ne→== num 0 (omega arith)) (ap (λ rows. search_rows F rows num 0 0) split ∙ r.1 big),
      )
    where
      skip_le : (b : Bracket before row scale (F.quota percentile h.total) 0) → skip ≤ b.j
      skip_le b = elim (dec_le skip b.j) [
        | yes p ↦ p
        | no p ↦ absurd (omega (arith, b.reached, sum_loop_mono row (suc b.j) skip (omega arith)))
      ]

  search_rows_past :
      (rows : List (List ℕ × ℕ)) (num last current : ℕ)
      → current + rows_sum rows < num
      → search_rows F rows num last current ≡ pos 100000000
  search_rows_past [] num last current lt = unfold search_rows in refl
  search_rows_past ((row, scale) ∷ rows) num last current lt =
      let m = search_rows_skip row scale rows num last current (omega arith) in
      m.1 ∙ search_rows_past rows num m.0 (current + sum_row row) (omega arith)

  -- Where the rows together hold fewer samples than the percentile asks for (the rest lies beyond
  -- a hundred seconds), the result is a hundred seconds.
  pub get_percentile_past :
      (h : Histogram F) (percentile : F.Double)
      → rows_sum (scaled_rows F h) < F.quota percentile h.total
      → get_percentile F h percentile ≡ pos 100000000
  unfolding get_percentile
  get_percentile_past h percentile lt =
      rw (ne→== (F.quota percentile h.total) 0 (omega arith))
        (search_rows_past (scaled_rows F h) (F.quota percentile h.total) 0 0 (omega arith))

  -- The ten microsecond row, searched after a result 0.
  zero_hit :
      (row : List ℕ) (num : ℕ)
      → 0 < num
      → num ≤ get_or row 0 0
      → search_bucket F row num 0 0 1 ≡ (pos 0, 0, get_or row 0 0)
  unfolding search_bucket
  zero_hit row num ps le =
      let bound = F.interpolate_bound 0 num (get_or row 0 0) 1 ps le in
      let k_zero : bound.0 ≡ 0 = ground (arith, bound.3) in
      ground (arith, search_loop_stop F row num 1 0 99 0 0, bound.1, k_zero)

  next_row_hit :
      (row : List ℕ) (num current : ℕ)
      → num ≤ current
      → get_or row 0 0 ≡ 0
      → (search_bucket F row num 0 current 10).0 ≡ F.interpolate 0 (pos num -ℤ pos current) 0 10
  unfolding search_bucket search_loop
  next_row_hit row num current le z =
      let same : current + 0 ≡ current = omega arith in
      let none_more : current - current ≡ 0 = omega arith in
      rw (z, same, none_more, le→leb num current le)

  -- Where the samples of zero microseconds alone reach the number that the percentile asks for, and
  -- none is counted between 10 and 11 microseconds, HIST_get_percentile() does not return 0: it goes
  -- on to the next row, divides there by a zero count, and returns what that gives unless it is 0.
  pub get_percentile_zero :
      (h : Histogram F) (percentile : F.Double)
      → 0 < F.quota percentile h.total
      → F.quota percentile h.total ≤ get_or h.unit_usec 0 0
      → get_or h.ten_usec 0 0 ≡ 0
      → is_zero_ℤ
          (F.interpolate 0 (pos (F.quota percentile h.total) -ℤ pos (get_or h.unit_usec 0 0)) 0 10)
        ≡ false
      → get_percentile F h percentile
        ≡ F.interpolate 0 (pos (F.quota percentile h.total) -ℤ pos (get_or h.unit_usec 0 0)) 0 10
  unfolding get_percentile search_rows
  get_percentile_zero h percentile ps le z nz =
      let num = F.quota percentile h.total in
      let next = next_row_hit h.ten_usec num (get_or h.unit_usec 0 0) le z in
      rw (ne→== num 0 (omega arith), zero_hit h.unit_usec num ps le, next, nz)
