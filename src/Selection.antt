-- ===== src/Selection.antt =====
-- The choice of output in src/nettest_omni.c: which selectors each of the four blocks of output_list
-- holds, from the name of a selector, a line, a list of lines, a file or the kind of test, and the
-- groups of information that are then asked for.
pub mod Names
pub mod Source
pub mod File
pub mod ByTest
pub mod Match
pub mod Lines
pub mod Direct
mod Tests
use Prim.Native.Nat.{bit_or}
use netperf_copilot.Common.{
  ℕ, zero, suc, ◌+◌, ◌-◌, Bool, true, false, not, ◌&&◌, ◌||◌, List, [], ◌∷◌, ◌++◌, Option, none,
  some, ltb, leb, ◌==◌, if◌then◌else◌, length, get_elem?, get_or, set, replicate, Bytes, codes,
}
use netperf_copilot.CString.{same_nocase, contains}
use netperf_copilot.Args.{break_args_explicit_sep}
use netperf_copilot.Selection.Names.{mnemonics}
use netperf_copilot.Selection.Source.{OutputElt, netperf_output_source}

-- The enum's first names and its last two, NETPERF_OUTPUT_MAX being past the end.
abbrev pub netperf_output_unknown : ℕ
netperf_output_unknown = 0

abbrev pub output_none : ℕ
output_none = 1

abbrev pub output_end : ℕ
output_end = 179

abbrev pub netperf_output_max : ℕ
netperf_output_max = 180

abbrev pub netperf_max_blocks : ℕ
netperf_max_blocks = 4

-- What the parsers write: output_list and desired_output_groups.
pub record Selected : Type 0 where
  pub output_list : List (List ℕ)
  pub desired_output_groups : ℕ

-- What print_omni_init starts from.
abbrev pub nothing : Selected
nothing = record {
  output_list = replicate netperf_max_blocks (replicate netperf_output_max output_end);
  desired_output_groups = 0;
}

-- `output_list[line][j] = name`. The rows lie one behind the other, so a column past the end is in
-- the next one; what lies behind the array is not modelled.
unfoldable pub store : ℕ → ℕ → ℕ → Selected → Selected
store line j name s =
    let row = if ltb j netperf_output_max then line else line + 1 in
    let column = if ltb j netperf_output_max then j else j - netperf_output_max in
    record s { output_list = set s.output_list row (set (get_or s.output_list row []) column name) }

abbrev pub group_of : ℕ → ℕ
group_of name = elim (get_elem? netperf_output_source name) [ none ↦ 0 | some e ↦ e.output_group ]

-- `output_list[line][j] = name`, and the group of the selector is desired.
unfoldable pub select : ℕ → ℕ → ℕ → Selected → Selected
select line j name s = record (store line j name s) {
  desired_output_groups = bit_or s.desired_output_groups (group_of name);
}

-- netperf_output_enum_to_str
pub netperf_output_enum_to_str : ℕ → Bytes
netperf_output_enum_to_str name = get_or mnemonics name (codes "!UNKNOWN OUTPUT SELECTOR!")

-- The loop of match_string_to_output_mnenomic, over the names that are left.
pub match_from : Bytes → ℕ → List Bytes → ℕ
match_from candidate name [] = netperf_output_unknown
match_from candidate name (m ∷ ms) =
    if same_nocase candidate m then name else match_from candidate (suc name) ms

-- match_string_to_output_mnenomic
unfoldable pub match_string_to_output_mnenomic : Bytes → ℕ
unfolding match_from
match_string_to_output_mnenomic candidate = elim mnemonics [
  | [] ↦ netperf_output_unknown
  | m ∷ ms ↦ match_from candidate output_none ms
]

-- The header text of a selector: its lines up to the first empty one, with blanks between them.
pub header_text : List Bytes → Bytes
header_text [] = []
header_text ([] ∷ lines) = []
header_text ((c ∷ line) ∷ lines) = elim (header_text lines) [
  | [] ↦ c ∷ line
  | d ∷ rest ↦ (c ∷ line) ++ b' ' ∷ d ∷ rest
]

-- The loop of match_string_to_output.
pub match_header_from : Bytes → ℕ → List Bytes → List OutputElt → ℕ
match_header_from candidate name (m ∷ ms) (e ∷ es) =
    if same_nocase candidate m || same_nocase candidate (header_text e.line)
    then name
    else match_header_from candidate (suc name) ms es
match_header_from candidate name _ _ = output_none

-- match_string_to_output
pub match_string_to_output : Bytes → ℕ
match_string_to_output candidate = elim mnemonics [
  | [] ↦ output_none
  | m ∷ ms ↦ elim netperf_output_source [
    | [] ↦ output_none
    | e ∷ es ↦ match_header_from candidate output_none ms es
  ]
]

-- `for (k = first; k <= last; k++)` of set_output_list_all, for so many names.
pub select_range : ℕ → ℕ → ℕ → ℕ → Selected → Selected
select_range line j name zero s = s
select_range line j name (suc n) s = select_range line (j + 1) (name + 1) n (select line j name s)

-- set_output_list_all
pub set_output_list_all : Selected → Selected
set_output_list_all s =
    select_range 3 0 117 62
      (select_range 2 0 55 62 (select_range 1 0 26 29 (select_range 0 0 2 24 s)))

abbrev pub is_separator : ℕ → Bool
is_separator c = c == b' ' || c == b','

-- strtok(list, " ,") until it gives no more; `token` is what has been read of one.
pub tokens_from : Bytes → Bytes → List Bytes
tokens_from [] [] = []
tokens_from (t ∷ token) [] = (t ∷ token) ∷ []
tokens_from [] (c ∷ s) = if is_separator c then tokens_from [] s else tokens_from (c ∷ []) s
tokens_from (t ∷ token) (c ∷ s) =
    let ended = (t ∷ token) ∷ tokens_from [] s in
    let longer = tokens_from ((t ∷ token) ++ c ∷ []) s in if is_separator c then ended else longer

unfoldable pub tokens : Bytes → List Bytes
unfolding tokens_from
tokens s = tokens_from [] s

-- The loop of parse_output_selection_line.
pub line_loop : Bool → ℕ → ℕ → List Bytes → Selected → Selected
line_loop debug line j [] s = s
line_loop debug line j (token ∷ rest) s =
    let name = match_string_to_output_mnenomic token in
    let ignored = line_loop debug line j rest s in
    let stored = line_loop debug line (j + 1) rest (select line j name s) in
    if ltb j netperf_output_max
    then if name == netperf_output_unknown && debug then ignored else stored
    else s

-- parse_output_selection_line, for a line that is not negative.
pub parse_output_selection_line : Bool → ℕ → Bytes → Selected → Selected
parse_output_selection_line debug line list s =
    if leb netperf_max_blocks line then s else line_loop debug line 0 (tokens list) s

-- The loop of parse_output_selection_direct: each round takes a part and its semicolon off the
-- source, so its length and one are rounds enough. `none`: there are more.
pub direct_loop : Bool → ℕ → ℕ → Bytes → Selected → Option Selected
direct_loop debug zero i source s = none
direct_loop debug (suc fuel) i source s =
    let (line, remainder, all) = break_args_explicit_sep source b';' in
    let s' = if length line == 0 then s else parse_output_selection_line debug i line s in
    let rest = direct_loop debug fuel (i + 1) remainder s' in
    if length remainder == 0 then some s' else rest

-- parse_output_selection_direct
pub parse_output_selection_direct : Bool → Bytes → Selected → Option Selected
parse_output_selection_direct debug output_selection s =
    direct_loop debug (length output_selection + 1) 0 output_selection s
