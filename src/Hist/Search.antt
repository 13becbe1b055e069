-- ===== src/Hist/Search.antt =====
-- HIST_search_bucket() of src/netlib.c: the search of one row for a running count.
use netperf_copilot.Common.{
  ℕ, zero, suc, ◌+◌, ◌*◌, ◌-◌, ◌≤◌, ◌<◌, ◌≡◌, refl, true, false, List, arith, leb, get_or,
  Bool-cases, inl, inr, pos, pos_sub,
}
use netperf_copilot.Floats.{Floats}
use netperf_copilot.Hist.{num_of_bucket, sum_loop, sum_row, search_loop, search_bucket}
use netperf_copilot.Hist.Rows.{sum_loop_shift, sum_loop_split}

pub le→leb : (a b : ℕ) → a ≤ b → leb a b ≡ true
le→leb a b h = ground arith

lt→leb : (a b : ℕ) → b < a → leb a b ≡ false
lt→leb a b h = ground arith

leb→lt : (a b : ℕ) → leb a b ≡ false → b < a
leb→lt a b h = ground arith

leb→le : (a b : ℕ) → leb a b ≡ true → a ≤ b
leb→le a b h = ground arith

sum_loop-suc :
    (row : List ℕ) (i n : ℕ) → sum_loop row i (suc n) 0 ≡ get_or row i 0 + sum_loop row (i + 1) n 0
unfolding sum_loop
sum_loop-suc row i n = omega (arith, sum_loop_shift row (i + 1) n (0 + get_or row i 0))

pub sum_loop_mono : (row : List ℕ) (m n : ℕ) → m ≤ n → sum_loop row 0 m 0 ≤ sum_loop row 0 n 0
sum_loop_mono row m n h =
    let e : m + (n - m) ≡ n = omega arith in
    rw (← e) (
      omega (
        arith,
        sum_loop_split row 0 m (n - m) 0,
        sum_loop_shift row (0 + m) (n - m) (sum_loop row 0 m 0),
      ))

pub scale_mono : (a b s : ℕ) → a ≤ b → a * s ≤ b * s
scale_mono a b s h = grind arith

module _ (F : Floats) where
  -- Where the running count reaches `num`: in the `j`-th counter read from `i`, and the result `k`
  -- lies in that counter's tenth of the scale.
  record Hit (row : List ℕ) (num scale i left last current : ℕ) : Type 0 where
    j : ℕ
    k : ℕ
    inside : j < left
    found :
        search_loop F row num scale i left last current
        ≡ (pos k, current + sum_loop row i j 0, current + sum_loop row i (suc j) 0)
    below : current + sum_loop row i j 0 < num
    reached : num ≤ current + sum_loop row i (suc j) 0
    low : (i + j) * scale < 10 * k + 10
    high : 10 * k ≤ (i + j + 1) * scale

  pub search_loop_stop :
      (row : List ℕ) (num scale i left last current : ℕ)
      → current ≤ num
      → num ≤ current + get_or row i 0
      → search_loop F row num scale i (suc left) last current ≡ (
        F.interpolate i (pos (num - current)) (get_or row i 0) scale,
        current,
        current + get_or row i 0,
      )
  unfolding search_loop
  search_loop_stop row num scale i left last current lt le =
      let d : current + get_or row i 0 - current ≡ get_or row i 0 = omega arith in
      rw (le→leb num (current + get_or row i 0) le, pos_sub num current lt, d)

  search_loop_step :
      (row : List ℕ) (num scale i left last current : ℕ)
      → current + get_or row i 0 < num
      → search_loop F row num scale i (suc left) last current
        ≡ search_loop F row num scale (i + 1) left current (current + get_or row i 0)
  unfolding search_loop
  search_loop_step row num scale i left last current lt =
      rw (lt→leb num (current + get_or row i 0) lt)

  search_loop-Hit :
      (row : List ℕ) (num scale i left last current : ℕ)
      → current < num
      → num ≤ current + sum_loop row i left 0
      → Hit row num scale i left last current
  search_loop-Hit row num scale i zero last current lt le = absurd (unfold sum_loop in omega arith)
  search_loop-Hit row num scale i (suc left) last current lt le =
      let x = get_or row i 0 in
      elim (Bool-cases (leb num (current + x))) [
        | inl e ↦
            let reach = leb→le num (current + x) e in
            let bound = F.interpolate_bound i (num - current) x scale (omega arith) (omega arith) in
            let at = sum_loop-suc row i 0 in
            let none_yet : sum_loop row i 0 0 ≡ 0 = unfold sum_loop in refl in
            let none_after : sum_loop row (i + 1) 0 0 ≡ 0 = unfold sum_loop in refl in
            record {
              j = 0;
              k = bound.0;
              inside = omega arith;
              found = ground (arith, search_loop_stop row num scale i left last current, bound.1);
              below = omega arith;
              reached = omega arith;
              low = ground (arith, bound.2);
              high = ground (arith, bound.3);
            }
        | inr e ↦
            let short = leb→lt num (current + x) e in
            let h =
              search_loop-Hit row num scale (i + 1) left current (current + x) short
                (omega (arith, sum_loop-suc row i left)) in
            record {
              j = suc h.j;
              k = h.k;
              inside = omega (arith, h.inside);
              found = ground (
                arith,
                search_loop_step row num scale i left last current,
                h.found,
                sum_loop-suc row i h.j,
                sum_loop-suc row i (suc h.j),
              );
              below = omega (arith, h.below, sum_loop-suc row i h.j);
              reached = omega (arith, h.reached, sum_loop-suc row i (suc h.j));
              low = ground (arith, h.low);
              high = ground (arith, h.high);
            }
      ]

  search_loop-Miss :
      (row : List ℕ) (num scale i left last current : ℕ)
      → current + sum_loop row i left 0 < num
      → (last' : ℕ) × (search_loop F row num scale i left last current
          ≡ (pos 0, last', current + sum_loop row i left 0))
  search_loop-Miss row num scale i zero last current lt =
      (last, unfold search_loop sum_loop in ground arith)
  search_loop-Miss row num scale i (suc left) last current lt =
      let s = sum_loop-suc row i left in
      let m =
        search_loop-Miss row num scale (i + 1) left current (current + get_or row i 0)
          (omega arith) in
      (m.0, ground (arith, m.1, search_loop_step row num scale i left last current))

  -- What the search of a whole row gives, where the running count is below `num` before it.
  pub record RowHit (row : List ℕ) (num scale last current : ℕ) : Type 0 where
    pub j : ℕ
    pub k : ℕ
    pub inside : j < num_of_bucket
    pub found :
        search_bucket F row num last current scale
        ≡ (pos k, current + sum_loop row 0 j 0, current + sum_loop row 0 (suc j) 0)
    pub below : current + sum_loop row 0 j 0 < num
    pub reached : num ≤ current + sum_loop row 0 (suc j) 0
    pub low : j * scale < 10 * k + 10
    pub high : 10 * k ≤ (j + 1) * scale

  pub search_bucket-RowHit :
      (row : List ℕ) (num scale last current : ℕ)
      → current < num
      → num ≤ current + sum_row row
      → RowHit row num scale last current
  unfolding search_bucket sum_row
  search_bucket-RowHit row num scale last current lt le =
      let h = search_loop-Hit row num scale 0 num_of_bucket last current lt le in
      record {
        j = h.j;
        k = h.k;
        inside = h.inside;
        found = h.found;
        below = h.below;
        reached = h.reached;
        low = ground (arith, h.low);
        high = ground (arith, h.high);
      }

  pub search_bucket-RowMiss :
      (row : List ℕ) (num scale last current : ℕ)
      → current + sum_row row < num
      → (last' : ℕ) × (search_bucket F row num last current scale
          ≡ (pos 0, last', current + sum_row row))
  unfolding search_bucket sum_row
  search_bucket-RowMiss row num scale last current lt =
      search_loop-Miss row num scale 0 num_of_bucket last current lt
