-- ===== src/Selection/Match.antt =====
-- match_string_to_output_mnenomic() of src/nettest_omni.c finds each selector by its name.
use netperf_copilot.Common.{
  ℕ, zero, suc, ◌+◌, ◌≤◌, ◌<◌, ◌≡◌, refl, sym, ◌∙◌, arith, Bool, true, false, not, ◌&&◌, ◌||◌, List,
  [], ◌∷◌, length, get_or, Bytes, codes, if_cases, and_true,
}
use netperf_copilot.CString.{same_nocase}
use netperf_copilot.CString.Laws.{same_nocase_trans}
use netperf_copilot.Selection.{
  output_none, netperf_output_max, netperf_output_enum_to_str, match_from,
  match_string_to_output_mnenomic,
}
use netperf_copilot.Selection.Names.{mnemonics}

-- Whether a name is among others, case ignored, and whether none is there twice.
abbrev among : Bytes → List Bytes → Bool
among s [] = false
among s (m ∷ ms) = same_nocase s m || among s ms

abbrev all_differ : List Bytes → Bool
all_differ [] = true
all_differ (m ∷ ms) = not (among m ms) && all_differ ms

mnemonics_differ : all_differ mnemonics ≡ true
unfolding same_nocase
mnemonics_differ = refl

among_at :
    (m d : Bytes) (ms : List Bytes) (k : ℕ)
    → among m ms ≡ false
    → k < length ms
    → same_nocase m (get_or ms k d) ≡ false
among_at m d [] k none_same h = absurd (omega arith)
among_at m d (x ∷ ms) zero none_same h = ground arith
among_at m d (x ∷ ms) (suc k) none_same h = among_at m d ms k (ground arith) (omega arith)

match_from_at :
    (s d : Bytes) (ms : List Bytes) (base k : ℕ)
    → all_differ ms ≡ true
    → k < length ms
    → same_nocase s (get_or ms k d) ≡ true
    → match_from s base ms ≡ base + k
unfolding match_from
match_from_at s d [] base k differ h same = absurd (omega arith)
match_from_at s d (m ∷ ms) base zero differ h same = rw (same) (omega arith)
match_from_at s d (m ∷ ms) base (suc k) differ h same =
    if_cases (λ n. n ≡ base + suc k) (same_nocase s m) _ _
      (λ first. absurd (
        cc (
          sym (same_nocase_trans s m (get_or ms k d) first) ∙ same,
          among_at m d ms k (ground arith) (omega arith),
        )))
      (λ later.
        match_from_at s d ms (suc base) k (and_true (not (among m ms)) (all_differ ms) differ).1
          (omega arith) same
        ∙ omega arith)

abbrev tail : List Bytes → List Bytes
tail [] = []
tail (m ∷ ms) = ms

-- Each selector is found by its own name, in capitals or not: the string that
-- netperf_output_enum_to_str() gives for a name of the enum below NETPERF_OUTPUT_MAX other than
-- NETPERF_OUTPUT_UNKNOWN is matched to that name again, and to no earlier one.
pub match_string_to_output_mnenomic-enum_to_str :
    (name : ℕ) (candidate : Bytes)
    → 1 ≤ name
    → name < netperf_output_max
    → same_nocase candidate (netperf_output_enum_to_str name) ≡ true
    → match_string_to_output_mnenomic candidate ≡ name
unfolding match_string_to_output_mnenomic netperf_output_enum_to_str
match_string_to_output_mnenomic-enum_to_str zero candidate some_name known same =
    absurd (omega arith)
match_string_to_output_mnenomic-enum_to_str (suc k) candidate some_name known same =
    match_from_at candidate (codes "!UNKNOWN OUTPUT SELECTOR!") (tail mnemonics) output_none k
      (and_true _ (all_differ (tail mnemonics)) mnemonics_differ).1 (omega arith) same
    ∙ omega arith
