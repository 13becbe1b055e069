-- ===== src/Selection/ByTest/Known.antt =====
-- What print_omni_init() of src/nettest_omni.c selects where nothing is asked for.
use netperf_copilot.Common.{
  ◌≡◌, refl, ℕ, Bool, true, false, ◌||◌, List, [], ◌∷◌, ◌++◌, Option, none, some, if◌then◌else◌,
  Bytes, codes, map, take, get_or, length, replicate, ◌==◌, ◌/◌, ◌%◌, ◌^◌,
}
use netperf_copilot.CString.{same_nocase, cut}
use netperf_copilot.Args.{break_args_explicit_sep}
use netperf_copilot.Output.{has_xmit, has_recv}
use netperf_copilot.Selection.{
  Selected, nothing, select, store, tokens, line_loop, direct_loop, parse_output_selection_line,
  parse_output_selection_direct, match_from, match_string_to_output_mnenomic,
  netperf_output_enum_to_str, netperf_output_max, output_end,
}
use netperf_copilot.Selection.ByTest.{
  set_output_list_by_test, Printing, default_preset, default_preset_paths, print_omni_init,
  initialized,
}

abbrev pub throughput : List Bytes
throughput = codes "ELAPSED_TIME" ∷ codes "THROUGHPUT" ∷ codes "THROUGHPUT_UNITS" ∷ []

-- The figures of one host's processors.
abbrev pub of_host : Bytes → List Bytes
of_host host =
    map (λ figure. host ++ codes "_CPU_" ++ figure)
      (codes "UTIL"
        ∷ codes "PERCENT_USER"
        ∷ codes "PERCENT_SYSTEM"
        ∷ codes "PERCENT_IOWAIT"
        ∷ codes "PERCENT_IRQ"
        ∷ codes "PERCENT_SWINTR"
        ∷ codes "METHOD"
        ∷ [])

abbrev pub processors : List Bytes
processors =
    of_host (codes "LOCAL")
    ++ of_host (codes "REMOTE")
    ++ codes "LOCAL_SD" ∷ codes "REMOTE_SD" ∷ codes "SD_UNITS" ∷ []

-- The sizes that matter to a test that sends, that receives, or that does both or neither.
abbrev pub sizes : Bool → Bool → List Bytes
sizes true false = codes "LSS_SIZE_END" ∷ codes "RSR_SIZE_END" ∷ codes "LOCAL_SEND_SIZE" ∷ []
sizes false true = codes "RSS_SIZE_END" ∷ codes "LSR_SIZE_END" ∷ codes "REMOTE_SEND_SIZE" ∷ []
sizes _ _ =
    codes "LSS_SIZE_END"
    ∷ codes "LSR_SIZE_END"
    ∷ codes "RSR_SIZE_END"
    ∷ codes "RSS_SIZE_END"
    ∷ codes "REQUEST_SIZE"
    ∷ codes "RESPONSE_SIZE"
    ∷ []

abbrev pub default_names : Bool → Bool → Bool → List Bytes
default_names xmit recv cpu = sizes xmit recv ++ throughput ++ (if cpu then processors else [])

-- A report of one line with just these names, and without statistics of the latencies.
pub record Shows (names : List Bytes) (s : Selected) : Type 0 where
  pub shown :
      map netperf_output_enum_to_str (take (length names) (get_or s.output_list 0 [])) ≡ names
  pub ends : get_or (get_or s.output_list 0 []) (length names) 0 ≡ output_end
  pub one_line :
      s.output_list
      ≡ get_or s.output_list 0 [] ∷ replicate 3 (replicate netperf_output_max output_end)
  pub no_statistics :
      (s.desired_output_groups / 2 ^ 4 % 2 == 1 || s.desired_output_groups / 2 ^ 20 % 2 == 1)
      ≡ false

abbrev pub IsShown : List Bytes → Option Selected → Type 0
IsShown names none = ⊥
IsShown names (some s) = Shows names s

by_test :
    (debug xmit recv cpu : Bool)
    → IsShown (default_names xmit recv cpu) (set_output_list_by_test debug xmit recv cpu nothing)
unfolding set_output_list_by_test parse_output_selection_direct direct_loop
    parse_output_selection_line line_loop select store tokens match_string_to_output_mnenomic
    match_from netperf_output_enum_to_str same_nocase break_args_explicit_sep cut
by_test true true true true = record {
  shown = refl;
  ends = refl;
  one_line = refl;
  no_statistics = refl;
}
by_test true true true false = record {
  shown = refl;
  ends = refl;
  one_line = refl;
  no_statistics = refl;
}
by_test true true false true = record {
  shown = refl;
  ends = refl;
  one_line = refl;
  no_statistics = refl;
}
by_test true true false false = record {
  shown = refl;
  ends = refl;
  one_line = refl;
  no_statistics = refl;
}
by_test true false true true = record {
  shown = refl;
  ends = refl;
  one_line = refl;
  no_statistics = refl;
}
by_test true false true false = record {
  shown = refl;
  ends = refl;
  one_line = refl;
  no_statistics = refl;
}
by_test true false false true = record {
  shown = refl;
  ends = refl;
  one_line = refl;
  no_statistics = refl;
}
by_test true false false false = record {
  shown = refl;
  ends = refl;
  one_line = refl;
  no_statistics = refl;
}
by_test false true true true = record {
  shown = refl;
  ends = refl;
  one_line = refl;
  no_statistics = refl;
}
by_test false true true false = record {
  shown = refl;
  ends = refl;
  one_line = refl;
  no_statistics = refl;
}
by_test false true false true = record {
  shown = refl;
  ends = refl;
  one_line = refl;
  no_statistics = refl;
}
by_test false true false false = record {
  shown = refl;
  ends = refl;
  one_line = refl;
  no_statistics = refl;
}
by_test false false true true = record {
  shown = refl;
  ends = refl;
  one_line = refl;
  no_statistics = refl;
}
by_test false false true false = record {
  shown = refl;
  ends = refl;
  one_line = refl;
  no_statistics = refl;
}
by_test false false false true = record {
  shown = refl;
  ends = refl;
  one_line = refl;
  no_statistics = refl;
}
by_test false false false false = record {
  shown = refl;
  ends = refl;
  one_line = refl;
  no_statistics = refl;
}

abbrev pub IsPrinted : List Bytes → Option Printing → Type 0
IsPrinted names none = ⊥
IsPrinted names (some p) = (p.printing_initialized ≡ true) × Shows names p.selected

printed :
    (names : List Bytes) (m : Option Selected) → IsShown names m → IsPrinted names (initialized m)
printed names none h = h
printed names (some s) h = (refl, h)

-- Without a selection, and where none of the default presets can be opened, print_omni_init()
-- selects one line, of known names: the sizes that matter in the direction of the test, the
-- throughput, and the processors' figures if they are measured. It does not ask for statistics of
-- the latencies, and debugging makes no difference.
pub print_omni_init-default_names :
    (debug : Bool) (fopen : Bytes → Option Bytes) (direction : ℕ) (cpu : Bool)
    (list : List (List ℕ))
    → default_preset fopen default_preset_paths ≡ none
    → IsPrinted (default_names (has_xmit direction) (has_recv direction) cpu) (
        print_omni_init debug fopen direction cpu none (record {
          printing_initialized = false;
          selected = record { output_list = list; desired_output_groups = 0 };
        }))
unfolding print_omni_init
print_omni_init-default_names debug fopen direction cpu list missing =
    rw (missing) (printed _ _ (by_test debug (has_xmit direction) (has_recv direction) cpu))
