-- ===== src/Selection/File.antt =====
-- parse_output_selection_file() of src/nettest_omni.c, and the choice among the parsers.
use netperf_copilot.Common.{
  ℕ, ◌+◌, Bool, not, ◌&&◌, ◌||◌, List, [], ◌∷◌, ◌++◌, Option, none, some, ltb, leb, ◌==◌,
  if◌then◌else◌, length, take, Bytes, codes,
}
use netperf_copilot.CString.{same_nocase, contains}
use netperf_copilot.Selection.{
  netperf_output_unknown, netperf_output_max, netperf_max_blocks, Selected, store,
  match_string_to_output, match_string_to_output_mnenomic, set_output_list_all,
  parse_output_selection_direct,
}

-- isprint() of the C locale.
abbrev pub is_print : ℕ → Bool
is_print c = leb b' ' c && leb c b'~'

-- The loop over the characters of a file, and what follows it. `name` is what has been read of a
-- selector; `none`: the process exits.
unfoldable pub file_loop : ℕ → ℕ → Bytes → Bytes → Selected → Option Selected
file_loop line j name [] s =
    if length name == 0 then some s else some (store line j (match_string_to_output name) s)
file_loop line j name (c ∷ rest) s =
    let next = file_loop line (j + 1) [] rest (store line j (match_string_to_output name) s) in
    let below = file_loop (line + 1) 0 [] rest (store line j (match_string_to_output name) s) in
    let longer = file_loop line j (name ++ c ∷ []) rest s in
    let same = file_loop line j name rest s in
    if not (ltb line netperf_max_blocks)
    then some s
    else if length name == 80
    then none
    else if c == b','
    then if j == netperf_output_max then none else next
    else if c == 10
    then below
    else if is_print c
    then longer
    else same

-- The directories that hold presets.
abbrev pub preset_dirs : List Bytes
preset_dirs =
    codes "./dev/catalog/output-presets"
    ∷ codes "../dev/catalog/output-presets"
    ∷ codes "/usr/share/netperf/output-presets"
    ∷ codes "/usr/local/share/netperf/output-presets"
    ∷ []

-- snprintf() into `char candidate[256]`
abbrev pub cut_255 : Bytes → Bytes
cut_255 s = take 255 s

-- The search of the directories; `fopen` gives the contents of a file that can be opened.
unfoldable pub find_preset : (Bytes → Option Bytes) → Bytes → List Bytes → Option Bytes
find_preset fopen file [] = none
find_preset fopen file (dir ∷ dirs) =
    let rest = find_preset fopen file dirs in
    let plain = dir ++ b'/' ∷ file in
    let with_out =
      if contains file (codes ".out") then none else fopen (cut_255 (plain ++ codes ".out")) in
    elim (fopen (cut_255 plain)) [
      | some contents ↦ some contents
      | none ↦ elim with_out [ some contents ↦ some contents | none ↦ rest ]
    ]

-- parse_output_selection_file; `none`: the process exits.
unfoldable pub parse_output_selection_file :
    (Bytes → Option Bytes) → Bytes → Selected → Option Selected
parse_output_selection_file fopen selection_file s =
    let preset = find_preset fopen selection_file preset_dirs in
    let found = if contains selection_file (codes "/") then none else preset in
    elim (fopen selection_file) [
      | some contents ↦ file_loop 0 0 [] contents s
      | none ↦ elim found [ none ↦ none | some contents ↦ file_loop 0 0 [] contents s ]
    ]

-- parse_output_selection
unfoldable pub parse_output_selection :
    Bool → (Bytes → Option Bytes) → Bytes → Selected → Option Selected
parse_output_selection debug fopen output_selection s =
    if same_nocase output_selection (codes "all")
    then some (set_output_list_all s)
    else if contains output_selection (codes ",")
        || contains output_selection (codes ";")
        || not (match_string_to_output_mnenomic output_selection == netperf_output_unknown)
    then parse_output_selection_direct debug output_selection s
    else parse_output_selection_file fopen output_selection s
