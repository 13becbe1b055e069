-- ===== src/CommandLine.antt =====
-- scan_cmd_line() of src/netsh.c: the options of netperf, one after the other, and what follows them.
-- The build has demo mode, intervals, dirty buffers, IPv6, RDS and the omni tests in place of the
-- classic ones.
pub mod Globals
pub mod Handlers
pub mod Limits
pub mod Finish
mod Tests
use netperf_copilot.Common.{
  ℕ, zero, suc, ◌+◌, ◌-◌, ◌*◌, ◌/◌, ◌^◌, Bool, true, false, not, ◌&&◌, ◌||◌, List, [], ◌∷◌, ◌++◌,
  Option, none, some, ltb, leb, ◌==◌, if◌then◌else◌, length, take, map, ℤ, pos, negsuc, ltb_ℤ,
  Bytes, codes,
}
use netperf_copilot.CString.{same_nocase, contains, atoi}
use netperf_copilot.Platform.{Platform}
use netperf_copilot.Args.{break_args, break_args_explicit, parse_address_family, convert_to_upper}
use netperf_copilot.Buffers.{convert, convert_timespec}
use netperf_copilot.Dscp.{parse_ipqos}
use netperf_copilot.CommandLine.Globals.{Options}
use netperf_copilot.CommandLine.Handlers.{
  Reals, int_of, given, int_arg, at_least, at_most, width_is_zero, default_width, default_level,
  limit_iterations, set_iterations, is_level, if_one, set_confidence, set_demo, set_fill_files,
  set_length, set_test_length, set_affinity, set_wate, set_burst, set_host, set_local_host,
  set_passphrase, two,
}

-- What getopt() gives: an option and its argument. Behind -c and -C may stand a rate of their own.
pub data Flag : Type 0 where
  usage : Flag
  align_local align_remote : Bytes → Flag
  cpu_local cpu_remote : Option Bytes → Flag
  more_debug : Flag
  demo : Bytes → Flag
  format : Bytes → Flag
  fill_files : Bytes → Flag
  iterations : Bytes → Flag
  confidence : Bytes → Flag
  histogram : Flag
  dirty_local dirty_remote : Bytes → Flag
  cpus : Bytes → Flag
  without_control : Flag
  offset_local offset_remote : Bytes → Flag
  headers : Bytes → Flag
  result_only : Flag
  keepalive : Flag
  wait_first : Bytes → Flag
  test : Bytes → Flag
  affinity : Bytes → Flag
  width : Bytes → Flag
  priority : Bytes → Flag
  tos : Bytes → Flag
  phrase : Bytes → Flag
  test_length : Bytes → Flag
  verbose : Bytes → Flag
  port : Bytes → Flag
  host : Bytes → Flag
  local_host : Bytes → Flag
  omni : Flag
  wate : Bytes → Flag
  burst : Bytes → Flag
  brand : Bytes → Flag
  ipv4 : Flag
  ipv6 : Flag
  version : Flag

-- The switch of scan_cmd_line; `none`: the process exits, or reads past a copy of an argument.
pub scan_option : Platform → Reals → Flag → Options → Option Options
scan_option p r usage o = none
scan_option p r (align_local arg) o = some (
    two break_args arg (λ a o. record o { local_send_align = convert a })
      (λ a o. record o { local_recv_align = convert a }) o)
scan_option p r (align_remote arg) o = some (
    two break_args arg (λ a o. record o { remote_send_align = int_arg a })
      (λ a o. record o { remote_recv_align = int_arg a }) o)
scan_option p r (cpu_local none) o = some (record o { local_cpu_usage = o.local_cpu_usage + 1 })
scan_option p r (cpu_local (some rate)) o =
    some (record o { local_cpu_usage = o.local_cpu_usage + 1; local_cpu_rate = some rate })
scan_option p r (cpu_remote none) o = some (record o { remote_cpu_usage = o.remote_cpu_usage + 1 })
scan_option p r (cpu_remote (some rate)) o =
    some (record o { remote_cpu_usage = o.remote_cpu_usage + 1; remote_cpu_rate = some rate })
scan_option p r more_debug o = some (record o { debug = o.debug + 1 })
scan_option p r (demo arg) o = some (set_demo r arg o)
scan_option p r (format []) o = some (record o { libfmt = 0 })
scan_option p r (format (c ∷ arg)) o = some (record o { libfmt = c })
scan_option p r (fill_files arg) o = set_fill_files arg o
scan_option p r (iterations arg) o = some (set_iterations r arg o)
scan_option p r (confidence arg) o = set_confidence r arg o
scan_option p r histogram o = some (record o { keep_histogram = true; keep_statistics = true })
scan_option p r (dirty_local arg) o = some (
    two break_args arg (λ a o. record o { loc_dirty_count = convert a })
      (λ a o. record o { loc_clean_count = convert a }) o)
scan_option p r (dirty_remote arg) o = some (
    two break_args arg (λ a o. record o { rem_dirty_count = convert a })
      (λ a o. record o { rem_clean_count = convert a }) o)
scan_option p r (cpus arg) o = some (record o { shell_num_cpus = atoi arg })
scan_option p r without_control o = some (record o { no_control = true })
scan_option p r (offset_local arg) o = some (
    two break_args arg (λ a o. record o { local_send_offset = convert a })
      (λ a o. record o { local_recv_offset = convert a }) o)
scan_option p r (offset_remote arg) o = some (
    two break_args arg (λ a o. record o { remote_send_offset = int_arg a })
      (λ a o. record o { remote_recv_offset = int_arg a }) o)
scan_option p r (headers arg) o = some (record o { print_headers = convert arg })
scan_option p r result_only o = some (record o { result_confidence_only = true })
scan_option p r keepalive o = some (record o { want_keepalive = true })
scan_option p r (wait_first arg) o = some (record o { wait_time_secs = convert arg })
scan_option p r (test arg) o = some (record o { test_name = convert_to_upper (take 8191 arg) })
scan_option p r (affinity arg) o = some (set_affinity arg o)
scan_option p r (width arg) o = some (
    two break_args arg (λ a o. record o { send_width = convert a })
      (λ a o. record o { recv_width = convert a }) o)
scan_option p r (priority arg) o = some (
    two break_args arg (λ a o. record o { local_socket_prio = int_arg a })
      (λ a o. record o { remote_socket_prio = int_arg a }) o)
scan_option p r (tos arg) o = some (
    two break_args arg (λ a o. record o { local_socket_tos = parse_ipqos (some a) })
      (λ a o. record o { remote_socket_tos = parse_ipqos (some a) }) o)
scan_option p r (phrase arg) o = some (set_passphrase arg o)
scan_option p r (test_length arg) o = some (set_test_length arg o)
scan_option p r (verbose arg) o = some (record o { verbosity = convert arg })
scan_option p r (port arg) o = some (
    two break_args_explicit arg (λ a o. record o { test_port = take 10 a })
      (λ a o. record o { local_test_port = take 10 a }) o)
scan_option p r (host arg) o = set_host p arg o
scan_option p r (local_host arg) o = set_local_host p arg o
scan_option p r omni o = some (record o { test_name = codes "OMNI" })
scan_option p r (wate arg) o = some (set_wate arg o)
scan_option p r (burst arg) o = some (set_burst arg o)
scan_option p r (brand arg) o = some (record o { result_brand = some arg })
scan_option p r ipv4 o =
    some (record o { address_family = p.af_inet; local_address_family = p.af_inet })
scan_option p r ipv6 o =
    some (record o { address_family = p.af_inet6; local_address_family = p.af_inet6 })
scan_option p r version o = none

-- The loop of scan_cmd_line.
pub scan_options : Platform → Reals → List Flag → Options → Option Options
scan_options p r [] o = some o
scan_options p r (f ∷ flags) o = elim (scan_option p r f o) [
  | none ↦ none
  | some o' ↦ scan_options p r flags o'
]
