-- ===== src/CommandLine/Globals.antt =====
-- The globals that scan_cmd_line() of src/netsh.c sets, with their initial values.
use netperf_copilot.Common.{ℕ, Bool, false, Option, none, ℤ, pos, negsuc, Bytes, codes, []}
use netperf_copilot.Platform.{Platform}

-- `interval`: 0.0, five percent, or what strtod() makes of a text, in percent.
pub data Width : Type 0 where
  unset : Width
  five_percent : Width
  percent : Bytes → Width

pub record Options : Type 0 where
  pub host_name : Bytes
  pub local_host_name : Bytes
  pub test_name : Bytes
  pub test_port : Bytes
  pub local_test_port : Bytes
  pub address_family : ℕ
  pub local_address_family : ℕ
  pub local_fill_file : Bytes
  pub remote_fill_file : Bytes
  pub debug : ℕ
  pub print_headers : ℕ
  pub verbosity : ℕ
  pub keep_histogram : Bool
  pub keep_statistics : Bool
  pub result_brand : Option Bytes
  pub local_cpu_usage : ℕ
  pub remote_cpu_usage : ℕ
  pub local_cpu_rate : Option Bytes
  pub remote_cpu_rate : Option Bytes
  pub shell_num_cpus : ℕ
  pub test_time : ℤ
  pub test_bytes : ℤ
  pub test_trans : ℤ
  pub local_send_align : ℕ
  pub local_recv_align : ℕ
  pub local_send_offset : ℕ
  pub local_recv_offset : ℕ
  pub remote_send_align : ℤ
  pub remote_recv_align : ℤ
  pub remote_send_offset : ℤ
  pub remote_recv_offset : ℤ
  pub demo_mode : ℕ
  pub demo_interval : Option Bytes
  pub demo_units : ℕ
  pub libfmt : ℕ
  pub interval_usecs : ℕ
  pub interval_wate : ℕ
  pub interval_burst : ℕ
  pub remote_interval_usecs : ℕ
  pub remote_interval_burst : ℕ
  pub wait_time_secs : ℕ
  pub loc_dirty_count : ℕ
  pub loc_clean_count : ℕ
  pub rem_dirty_count : ℕ
  pub rem_clean_count : ℕ
  pub confidence_level : ℤ
  pub iteration_min : ℤ
  pub iteration_max : ℤ
  pub result_confidence_only : Bool
  pub interval : Width
  pub send_width : ℕ
  pub recv_width : ℕ
  pub local_socket_prio : ℤ
  pub remote_socket_prio : ℤ
  pub local_socket_tos : ℤ
  pub remote_socket_tos : ℤ
  pub local_proc_affinity : ℤ
  pub remote_proc_affinity : ℤ
  pub cpu_binding_requested : Bool
  pub no_control : Bool
  pub want_keepalive : Bool
  pub passphrase : Option Bytes

unfoldable pub initial : Platform → Options
initial p = record {
  host_name = [];
  local_host_name = [];
  test_name = codes "TCP_STREAM";
  test_port = codes "12865";
  local_test_port = codes "0";
  address_family = p.af_unspec;
  local_address_family = p.af_unspec;
  local_fill_file = [];
  remote_fill_file = [];
  debug = 0;
  print_headers = 1;
  verbosity = 1;
  keep_histogram = false;
  keep_statistics = false;
  result_brand = none;
  local_cpu_usage = 0;
  remote_cpu_usage = 0;
  local_cpu_rate = none;
  remote_cpu_rate = none;
  shell_num_cpus = 1;
  test_time = pos 10;
  test_bytes = pos 0;
  test_trans = pos 0;
  local_send_align = 8;
  local_recv_align = 8;
  local_send_offset = 0;
  local_recv_offset = 0;
  remote_send_align = pos 8;
  remote_recv_align = pos 8;
  remote_send_offset = pos 0;
  remote_recv_offset = pos 0;
  demo_mode = 0;
  demo_interval = none;
  demo_units = 0;
  libfmt = b'?';
  interval_usecs = 0;
  interval_wate = 0;
  interval_burst = 0;
  remote_interval_usecs = 0;
  remote_interval_burst = 0;
  wait_time_secs = 0;
  loc_dirty_count = 0;
  loc_clean_count = 0;
  rem_dirty_count = 0;
  rem_clean_count = 0;
  confidence_level = pos 0;
  iteration_min = pos 1;
  iteration_max = pos 1;
  result_confidence_only = false;
  interval = unset;
  send_width = 0;
  recv_width = 0;
  local_socket_prio = negsuc 0;
  remote_socket_prio = negsuc 0;
  local_socket_tos = negsuc 0;
  remote_socket_tos = negsuc 0;
  local_proc_affinity = negsuc 0;
  remote_proc_affinity = negsuc 0;
  cpu_binding_requested = false;
  no_control = false;
  want_keepalive = false;
  passphrase = none;
}
