-- ===== src/Selection/ByTest.antt =====
-- The output of a test that asks for none: set_output_list_by_test() and print_omni_init() of
-- src/nettest_omni.c.
pub mod Known
mod Tests
use netperf_copilot.Common.{
  ℕ, Bool, true, false, not, ◌&&◌, ◌||◌, List, [], ◌∷◌, ◌++◌, Option, none, some, if◌then◌else◌,
  Bytes, codes,
}
use netperf_copilot.Output.{has_xmit, has_recv}
use netperf_copilot.Selection.{Selected, nothing, parse_output_selection_direct}
use netperf_copilot.Selection.File.{parse_output_selection, parse_output_selection_file}

abbrev pub netperf_tput : Bytes
netperf_tput = codes "ELAPSED_TIME,THROUGHPUT,THROUGHPUT_UNITS"

abbrev pub netperf_output_stream : Bytes
netperf_output_stream = codes "LSS_SIZE_END,RSR_SIZE_END,LOCAL_SEND_SIZE"

abbrev pub netperf_output_maerts : Bytes
netperf_output_maerts = codes "RSS_SIZE_END,LSR_SIZE_END,REMOTE_SEND_SIZE"

abbrev pub netperf_cpu : Bytes
netperf_cpu =
    codes "LOCAL_CPU_UTIL,LOCAL_CPU_PERCENT_USER,LOCAL_CPU_PERCENT_SYSTEM,"
    ++ codes "LOCAL_CPU_PERCENT_IOWAIT,LOCAL_CPU_PERCENT_IRQ,LOCAL_CPU_PERCENT_SWINTR,"
    ++ codes "LOCAL_CPU_METHOD,REMOTE_CPU_UTIL,REMOTE_CPU_PERCENT_USER,REMOTE_CPU_PERCENT_SYSTEM,"
    ++ codes "REMOTE_CPU_PERCENT_IOWAIT,REMOTE_CPU_PERCENT_IRQ,REMOTE_CPU_PERCENT_SWINTR,"
    ++ codes "REMOTE_CPU_METHOD,LOCAL_SD,REMOTE_SD,SD_UNITS"

abbrev pub netperf_rr : Bytes
netperf_rr = codes "LSS_SIZE_END,LSR_SIZE_END,RSR_SIZE_END,RSS_SIZE_END,REQUEST_SIZE,RESPONSE_SIZE"

-- The text for a kind of test, with the processors' figures if they are measured.
abbrev pub with_cpu : Bool → Bytes → Bytes
with_cpu cpu kind =
    if not cpu
    then kind ++ codes "," ++ netperf_tput
    else kind ++ codes "," ++ netperf_tput ++ codes "," ++ netperf_cpu

-- set_output_list_by_test; `xmit` and `recv` are the bits of the direction, and `cpu` is
-- `local_cpu_usage || remote_cpu_usage`.
pub set_output_list_by_test : Bool → Bool → Bool → Bool → Selected → Option Selected
set_output_list_by_test debug xmit recv cpu s =
    if xmit && not recv
    then parse_output_selection_direct debug (with_cpu cpu netperf_output_stream) s
    else if recv && not xmit
    then parse_output_selection_direct debug (with_cpu cpu netperf_output_maerts) s
    else if not xmit && not recv
    then parse_output_selection_direct debug (with_cpu cpu netperf_rr) s
    else if (xmit && recv) || not (xmit || recv)
    then parse_output_selection_direct debug (with_cpu cpu netperf_rr) s
    else parse_output_selection_direct debug (netperf_tput ++ codes "," ++ netperf_cpu) s

-- What print_omni_init() works on: `printing_initialized`, and the selection.
pub record Printing : Type 0 where
  pub printing_initialized : Bool
  pub selected : Selected

-- default_preset_paths
abbrev pub default_preset_paths : List Bytes
default_preset_paths =
    codes "./dev/catalog/output-presets/default.out"
    ∷ codes "../dev/catalog/output-presets/default.out"
    ∷ codes "/usr/share/netperf/output-presets/default.out"
    ∷ codes "/usr/local/share/netperf/output-presets/default.out"
    ∷ []

-- The search for a default preset: the first that can be opened.
pub default_preset : (Bytes → Option Bytes) → List Bytes → Option Bytes
default_preset fopen [] = none
default_preset fopen (path ∷ paths) = elim (fopen path) [
  | some contents ↦ some path
  | none ↦ default_preset fopen paths
]

abbrev pub initialized : Option Selected → Option Printing
initialized none = none
initialized (some s) = some (record { printing_initialized = true; selected = s })

-- print_omni_init of a selection `spec`; `none`: the process exits.
unfoldable pub print_omni_init :
    Bool → (Bytes → Option Bytes) → ℕ → Bool → Option Bytes → Printing → Option Printing
print_omni_init debug fopen direction cpu spec p =
    let cleared = record p.selected { output_list = nothing.output_list } in
    elim p.printing_initialized [
      | true ↦ some p
      | false ↦ initialized (elim spec [
        | some text ↦ parse_output_selection debug fopen text cleared
        | none ↦ elim (default_preset fopen default_preset_paths) [
          | some path ↦ parse_output_selection_file fopen path cleared
          | none ↦
              set_output_list_by_test debug (has_xmit direction) (has_recv direction) cpu cleared
        ]
      ])
    ]
