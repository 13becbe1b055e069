-- ===== src/Selection/Direct.antt =====
-- parse_output_selection_direct() of src/nettest_omni.c takes a selection apart into its lines.
use netperf_copilot.Common.{
  ℕ, zero, suc, ◌+◌, ◌<◌, ◌≡◌, refl, sym, ap, ◌∙◌, arith, Bool, List, [], ◌∷◌, ◌++◌, ==→eq, Option,
  some, ◌==◌, if◌then◌else◌, length, length-append, All, Bytes, if_cases,
}
use netperf_copilot.CString.Laws.{Lacks, cut-append, cut-Lacks}
use netperf_copilot.Args.{explicit_args, break_args_explicit_sep}
use netperf_copilot.Selection.{
  Selected, parse_output_selection_line, direct_loop, parse_output_selection_direct,
}

-- The lines with `;` between them. Every string is such a text, of lines without `;`.
abbrev pub join_lines : Bytes → List Bytes → Bytes
join_lines first [] = first
join_lines first (next ∷ more) = first ++ b';' ∷ join_lines next more

-- A line that is not empty is parsed for the block of its place.
abbrev pub one_line : Bool → ℕ → Bytes → Selected → Selected
one_line debug i line s = if length line == 0 then s else parse_output_selection_line debug i line s

abbrev pub each_line : Bool → ℕ → Bytes → List Bytes → Selected → Selected
each_line debug i first [] s = one_line debug i first s
each_line debug i first (next ∷ more) s =
    each_line debug (i + 1) next more (one_line debug i first s)

-- What direct_loop does with the parts that the separator gives.
abbrev round : Bool → ℕ → ℕ → Bytes × Bytes × Bytes → Selected → Option Selected
round debug fuel i parts s =
    if length parts.1 == 0
    then some (one_line debug i parts.0 s)
    else direct_loop debug fuel (i + 1) parts.1 (one_line debug i parts.0 s)

direct_loop-round :
    (debug : Bool) (fuel i : ℕ) (source : Bytes) (s : Selected)
    → direct_loop debug (suc fuel) i source s
      ≡ round debug fuel i (break_args_explicit_sep source b';') s
unfolding direct_loop
direct_loop-round debug fuel i source s = refl

rest_empty :
    (debug : Bool) (i : ℕ) (next : Bytes) (more : List Bytes) (s : Selected)
    → length (join_lines next more) ≡ 0
    → each_line debug i next more s ≡ s
rest_empty debug i [] [] s h = refl
rest_empty debug i (c ∷ next) [] s h = absurd (omega arith)
rest_empty debug i next (then_one ∷ more) s h =
    absurd (omega (arith, length-append next (b';' ∷ join_lines then_one more)))

direct_loop_lines :
    (debug : Bool) (fuel i : ℕ) (first : Bytes) (more : List Bytes) (s : Selected)
    → All (Lacks b';') (first ∷ more)
    → length (join_lines first more) < fuel
    → direct_loop debug fuel i (join_lines first more) s ≡ some (each_line debug i first more s)
unfolding break_args_explicit_sep
direct_loop_lines debug zero i first more s lacks l = absurd (omega arith)
direct_loop_lines debug (suc fuel) i first [] s (lack, lacks) l =
    direct_loop-round debug fuel i first s
    ∙ ap (λ c. round debug fuel i (explicit_args first c) s) (cut-Lacks b';' first lack)
direct_loop_lines debug (suc fuel) i first (next ∷ more) s (lack, lacks) l =
    direct_loop-round debug fuel i (first ++ b';' ∷ join_lines next more) s
    ∙ ap (λ c. round debug fuel i (explicit_args (first ++ b';' ∷ join_lines next more) c) s)
        (cut-append b';' first (join_lines next more) lack)
    ∙ if_cases (λ o. o ≡ some (each_line debug (i + 1) next more (one_line debug i first s)))
        (length (join_lines next more) == 0) _ _
        (λ h. ap some (sym (rest_empty debug (i + 1) next more _ (==→eq _ _ h))))
        (λ h.
          direct_loop_lines debug fuel (i + 1) next more (one_line debug i first s) lacks
            (omega (arith, length-append first (b';' ∷ join_lines next more), l)))

-- A selection whose lines stand between semicolons is parsed line by line, each for the block of its
-- place, empty lines left out; and the loop always ends.
pub parse_output_selection_direct-join :
    (debug : Bool) (first : Bytes) (more : List Bytes) (s : Selected)
    → All (Lacks b';') (first ∷ more)
    → parse_output_selection_direct debug (join_lines first more) s
      ≡ some (each_line debug 0 first more s)
unfolding parse_output_selection_direct
parse_output_selection_direct-join debug first more s lacks =
    direct_loop_lines debug (length (join_lines first more) + 1) 0 first more s lacks (omega arith)
