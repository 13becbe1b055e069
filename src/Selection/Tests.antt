-- ===== src/Selection/Tests.antt =====
-- Concrete runs of the choice of output in src/nettest_omni.c.
use netperf_copilot.Common.{
  ℕ, zero, suc, ◌<◌, ◌≡◌, ◌≢◌, refl, arith, true, false, [], ◌∷◌, Option, none, some, codes, get_or,
  length,
}
use netperf_copilot.CString.{same_nocase}
use netperf_copilot.Selection.{
  Selected, nothing, netperf_output_enum_to_str, match_string_to_output_mnenomic, header_text,
  match_header_from, match_string_to_output, store, tokens, parse_output_selection_line,
  parse_output_selection_direct,
}
use netperf_copilot.Selection.Match.{match_string_to_output_mnenomic-enum_to_str}
use netperf_copilot.Selection.Lines.{cell, kept, parse_output_selection_line_cells}
use netperf_copilot.Selection.Direct.{each_line, parse_output_selection_direct-join}
use netperf_copilot.Selection.File.{file_loop}

match_string_to_output_mnenomic-enum_to_str_example :
    match_string_to_output_mnenomic (codes "Throughput") ≡ 6
unfolding netperf_output_enum_to_str same_nocase
match_string_to_output_mnenomic-enum_to_str_example =
    match_string_to_output_mnenomic-enum_to_str 6 (codes "Throughput") (omega arith) (omega arith)
      refl

by_header : match_string_to_output (codes "elapsed time (sec)") ≡ 5
unfolding match_string_to_output match_header_from header_text same_nocase
by_header = refl

two_tokens : tokens (codes "UUID, ,PROTOCOL") ≡ codes "UUID" ∷ codes "PROTOCOL" ∷ []
unfolding tokens
two_tokens = refl

parse_output_selection_line_cells_example :
    ((column : ℕ)
      → column < 180
      → cell (parse_output_selection_line true 1 (codes "UUID,none,PROTOCOL") nothing) 1 column
        ≡ get_or (kept true (tokens (codes "UUID,none,PROTOCOL"))) column (cell nothing 1 column))
    × ((row column : ℕ)
        → row ≢ 1
        → cell (parse_output_selection_line true 1 (codes "UUID,none,PROTOCOL") nothing) row column
          ≡ cell nothing row column)
parse_output_selection_line_cells_example =
    parse_output_selection_line_cells true 1 (omega arith) (codes "UUID,none,PROTOCOL") nothing
      (refl, rows_long)
  where
    rows_long : (row : ℕ) → row < 4 → length (get_or nothing.output_list row []) ≡ 180
    rows_long zero h = refl
    rows_long (suc zero) h = refl
    rows_long (suc (suc zero)) h = refl
    rows_long (suc (suc (suc zero))) h = refl
    rows_long (suc (suc (suc (suc row)))) h = absurd (omega arith)

parse_output_selection_direct-join_example :
    parse_output_selection_direct false (codes "UUID;;PROTOCOL") nothing
    ≡ some (each_line false 0 (codes "UUID") ([] ∷ codes "PROTOCOL" ∷ []) nothing)
parse_output_selection_direct-join_example =
    parse_output_selection_direct-join false (codes "UUID") ([] ∷ codes "PROTOCOL" ∷ []) nothing
      (omega arith, (tt, (omega arith, tt)))

-- Where a row is full, one more selector at the end of its line lands in the next row.
abbrev next_row : Option Selected → ℕ
next_row none = 0
next_row (some s) = cell s 1 0

past_the_row : next_row (file_loop 0 180 [] (codes "PROTOCOL\n") nothing) ≡ 3
unfolding file_loop match_string_to_output match_header_from header_text same_nocase store
past_the_row = refl
