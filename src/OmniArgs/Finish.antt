-- ===== src/OmniArgs/Finish.antt =====
-- What scan_omni_args() of src/nettest_omni.c does behind its options, and the whole of it: the
-- direction of a test, its routing, sizes, format and port. The texts for the report are left out.
pub mod Settled
pub mod Legacy
mod Output
mod Tests
use netperf_copilot.Common.{
  ℕ, Bool, true, false, not, ◌&&◌, ◌||◌, List, [], ◌∷◌, Option, none, some, ltb, ◌==◌, ◌/◌, ◌%◌,
  ◌^◌, if◌then◌else◌, take, ℤ, pos, negsuc, Bytes, codes,
}
use netperf_copilot.Platform.{Platform}
use netperf_copilot.Output.{has_xmit, has_recv}
use netperf_copilot.CommandLine.Globals.{Options}
use netperf_copilot.Selection.{Selected, nothing}
use netperf_copilot.Selection.ByTest.{Printing, print_omni_init}
use netperf_copilot.OmniArgs.Globals.{OmniOptions, before_omni}
use netperf_copilot.OmniArgs.{OmniFlag, set_omni_defaults_by_legacy_testname, scan_omni_options}

-- NETPERF_IS_RR, NETPERF_CC, NETPERF_XMIT_ONLY and NETPERF_RECV_ONLY of src/netsh.h
unfoldable pub netperf_is_rr : ℕ → Bool
netperf_is_rr d = (has_xmit d && has_recv d) || not (has_xmit d || has_recv d)

abbrev pub netperf_cc : ℕ → Bool
netperf_cc d = not (has_xmit d) && not (has_recv d)

abbrev pub xmit_only : ℕ → Bool
xmit_only d = has_xmit d && not (has_recv d)

abbrev pub recv_only : ℕ → Bool
recv_only d = has_recv d && not (has_xmit d)

-- `uuid` is what get_uuid_string() gives.
pub finish_uuid : Bytes → OmniOptions → OmniOptions
finish_uuid uuid o = if o.have_uuid then o else record o { test_uuid = uuid }

pub finish_direction : OmniOptions → OmniOptions
finish_direction o =
    if o.direction == 0 && not o.connection_test then record o { direction = 2 } else o

-- The safety latch of UDP tests in one direction.
pub finish_routing : Platform → OmniOptions → OmniOptions
finish_routing p o =
    if not o.have_R_option && o.protocol == p.ipproto_udp && not (netperf_is_rr o.direction)
    then record o { routing_allowed = pos 0 }
    else o

pub finish_histogram : OmniOptions → OmniOptions
finish_histogram o = if ltb 1 o.verbosity then record o { keep_histogram = true } else o

-- `if (size == -1) size = 1;`
abbrev pub one_if_unset : ℤ → ℤ
one_if_unset (pos n) = pos n
one_if_unset (negsuc n) = if n == 0 then pos 1 else negsuc n

pub finish_sizes : OmniOptions → OmniOptions
finish_sizes o =
    if netperf_is_rr o.direction && not (netperf_cc o.direction)
    then record o { req_size = one_if_unset o.req_size; rsp_size = one_if_unset o.rsp_size }
    else o

pub finish_units : OmniOptions → OmniOptions
finish_units o =
    if o.libfmt == b'?'
    then record o { libfmt = if netperf_is_rr o.direction then b'x' else b'm' }
    else if o.libfmt == b'x'
    then if netperf_is_rr o.direction then o else record o { libfmt = b'm' }
    else o

-- `strcmp(port, "0") == 0`
abbrev pub is_port_0 : Bytes → Bool
is_port_0 [] = false
is_port_0 (c ∷ []) = c == b'0'
is_port_0 (c ∷ d ∷ s) = false

-- The port of a server that needs no netserver; `none`: there is none for the direction.
pub default_port : OmniOptions → Option OmniOptions
default_port o =
    if xmit_only o.direction
    then some (record o { remote_data_port = codes "discard"; recv_size = negsuc 0 })
    else if recv_only o.direction
    then some (record o { remote_data_port = codes "chargen"; send_size = negsuc 0 })
    else if netperf_is_rr o.direction || netperf_cc o.direction
    then some (record o { remote_data_port = codes "echo"; rsp_size = o.req_size })
    else none

abbrev pub no_remote : OmniOptions → OmniOptions
no_remote o = record o {
  remote_data_port = take 9 o.remote_data_port;
  rem_rcvavoid = negsuc 0;
  rem_sndavoid = negsuc 0;
  rss_size_req = negsuc 0;
  rsr_size_req = negsuc 0;
  rem_nodelay = negsuc 0;
}

abbrev pub and_no_remote : Option OmniOptions → Option OmniOptions
and_no_remote none = none
and_no_remote (some o) = some (no_remote o)

pub finish_port : OmniOptions → Option OmniOptions
finish_port o =
    if o.no_control
    then and_no_remote (if is_port_0 o.remote_data_port then default_port o else some o)
    else some o

-- What the selection of the output works on before print_omni_init() is first called.
abbrev pub unprinted : Printing
unprinted = record { printing_initialized = false; selected = nothing }

-- The call of print_omni_init(), which prints first where debugging is on; `none`: the process exits.
-- `fopen` gives the contents of a file that can be opened.
unfoldable pub choose_output : (Bytes → Option Bytes) → OmniOptions → Option Printing
choose_output fopen o =
    if o.legacy
    then some unprinted
    else print_omni_init (ltb 0 o.debug) fopen o.direction
        (ltb 0 o.local_cpu_usage || ltb 0 o.remote_cpu_usage) o.output_selection_spec unprinted

-- desired_output_groups & OMNI_WANT_STATS
abbrev pub wants_statistics : ℕ → Bool
wants_statistics groups = groups / 2 ^ 4 % 2 == 1 || groups / 2 ^ 20 % 2 == 1

abbrev pub with_statistics : ℕ → OmniOptions → OmniOptions
with_statistics groups o =
    if wants_statistics groups
    then record o { keep_statistics = true; keep_histogram = true }
    else o

pub finish_statistics : (Bytes → Option Bytes) → OmniOptions → Option OmniOptions
finish_statistics fopen o = elim (choose_output fopen o) [
  | none ↦ none
  | some p ↦ some (with_statistics p.selected.desired_output_groups o)
]

unfoldable pub finish_omni_args :
    Platform → Bytes → (Bytes → Option Bytes) → OmniOptions → Option OmniOptions
finish_omni_args p uuid fopen o =
    let settled = finish_units (
      finish_sizes (finish_histogram (finish_routing p (finish_direction (finish_uuid uuid o))))) in
    elim (finish_port settled) [ none ↦ none | some o' ↦ finish_statistics fopen o' ]

-- scan_omni_args
unfoldable pub scan_omni_args :
    Platform → Bytes → (Bytes → Option Bytes) → List OmniFlag → Options → Option OmniOptions
scan_omni_args p uuid fopen flags globals =
    elim (scan_omni_options p flags
      (set_omni_defaults_by_legacy_testname p (before_omni p globals))) [
        | none ↦ none
        | some o ↦ finish_omni_args p uuid fopen o
      ]
