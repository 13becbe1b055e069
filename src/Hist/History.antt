-- ===== src/Hist/History.antt =====
-- HIST_add() of src/netlib.c against the list of all samples that it was given since HIST_clear().
use netperf_copilot.Common.{ℕ, ◌≤◌, ◌≡◌, Bool, List, [], ◌∷◌, ◌⊎◌, length, All, ℤ, pos, negsuc}
use netperf_copilot.Floats.{Floats}
use netperf_copilot.Hist.{Histogram, clear, add}
use netperf_copilot.Hist.Rows.{sum_list}
use netperf_copilot.Hist.Add.{IsFull, counted}

-- The samples that are not negative.
abbrev pub kept : List ℤ → List ℕ
kept [] = []
kept (pos t ∷ ds) = t ∷ kept ds
kept (negsuc n ∷ ds) = kept ds

abbrev pub Occurs : ℕ → List ℕ → Type 0
Occurs x [] = ⊥
Occurs x (y ∷ ys) = (x ≡ y) ⊎ Occurs x ys

module _ (F : Floats) where
  -- The histogram after the samples, the newest first, starting from HIST_clear().
  unfoldable pub add_all : Bool → Histogram F → List ℤ → Histogram F
  add_all keep_statistics h [] = clear F h
  add_all keep_statistics h (d ∷ ds) = add F keep_statistics (add_all keep_statistics h ds) d

  -- What the counters say of the samples.
  pub record Summary (h : Histogram F) (ds : List ℤ) : Type 0 where
    pub full : IsFull F h
    pub counted_all : counted F h ≡ length ds
    pub total_kept : h.total ≡ length (kept ds)
    pub sum_kept : h.sum ≡ sum_list (kept ds)
    pub hmin_below : All (λ t. h.hmin ≤ t) (kept ds)
    pub hmax_above : All (λ t. t ≤ h.hmax) (kept ds)
    pub extremes_occur : (kept ds ≡ []) ⊎ (Occurs h.hmin (kept ds) × Occurs h.hmax (kept ds))

  -- The statistics alone, for one sample that is kept.
  record Noted (h : Histogram F) (t : ℕ) (ts : List ℕ) : Type 0 where
    total_is : h.total ≡ length (t ∷ ts)
    sum_is : h.sum ≡ sum_list (t ∷ ts)
    hmin_is : All (λ u. h.hmin ≤ u) (t ∷ ts)
    hmax_is : All (λ u. u ≤ h.hmax) (t ∷ ts)
    extremes_are : Occurs h.hmin (t ∷ ts) × Occurs h.hmax (t ∷ ts)
