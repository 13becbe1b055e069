-- ===== src/OmniArgs/Globals.antt =====
-- The globals that scan_omni_args() of src/nettest_omni.c sets, and what they are before it.
use netperf_copilot.Common.{ℕ, Bool, false, Option, none, ℤ, pos, negsuc, Bytes, codes, []}
use netperf_copilot.Platform.{Platform}
use netperf_copilot.CommandLine.Globals.{Options}

-- enum netperf_output_modes, src/netlib.h
pub data OutputMode : Type 0 where
  human csv keyval json : OutputMode

pub record OmniOptions : Type 0 where
  pub test_name : Bytes
  pub debug : ℕ
  pub verbosity : ℕ
  pub local_cpu_usage : ℕ
  pub remote_cpu_usage : ℕ
  pub no_control : Bool
  pub libfmt : ℕ
  pub keep_histogram : Bool
  pub keep_statistics : Bool
  pub send_width : ℕ
  pub protocol : ℕ
  pub socket_type : ℤ
  pub direction : ℕ
  pub connection_test : Bool
  pub was_legacy : Bool
  pub legacy : Bool
  pub implicit_direction : Bool
  pub req_size : ℤ
  pub rsp_size : ℤ
  pub send_size : ℤ
  pub recv_size : ℤ
  pub remote_send_size_req : ℤ
  pub remote_recv_size_req : ℤ
  pub remote_data_family : ℕ
  pub local_data_family : ℕ
  pub remote_data_address : Option Bytes
  pub local_data_address : Option Bytes
  pub remote_mask_len : ℤ
  pub local_mask_len : ℤ
  pub explicit_data_address : Bool
  pub local_data_port : Bytes
  pub remote_data_port : Bytes
  pub client_port_min : ℤ
  pub client_port_max : ℤ
  pub want_defer_accept : Bool
  pub want_use_pktinfo : Bool
  pub first_burst_size : ℤ
  pub loc_tcpcork : Bool
  pub rem_tcpcork : Bool
  pub loc_nodelay : ℤ
  pub rem_nodelay : ℤ
  pub use_mtu_discover : Bool
  pub use_fastopen : Bool
  pub use_zerocopy : Bool
  pub use_write : Bool
  pub receive_timeout : ℤ
  pub socket_debug : Bool
  pub transport_mss_req : ℤ
  pub parallel_connections : ℤ
  pub netperf_output_mode : OutputMode
  pub output_selection_spec : Option Bytes
  pub local_cong_control_req : Bytes
  pub remote_cong_control_req : Bytes
  pub multicast_ttl : ℤ
  pub local_connected : Bool
  pub remote_connected : Bool
  pub pacing_rate : ℤ
  pub routing_allowed : ℤ
  pub have_R_option : Bool
  pub have_uuid : Bool
  pub test_uuid : Bytes
  pub lss_size_req : ℤ
  pub lsr_size_req : ℤ
  pub rss_size_req : ℤ
  pub rsr_size_req : ℤ
  pub dont_give_up : Bool
  pub loc_sndavoid : ℤ
  pub loc_rcvavoid : ℤ
  pub rem_sndavoid : ℤ
  pub rem_rcvavoid : ℤ

-- What scan_cmd_line() has left, and the initial values of the rest; the ports of the data
-- connection are the first that scan_omni_args() sets.
unfoldable pub before_omni : Platform → Options → OmniOptions
before_omni p o = record {
  test_name = o.test_name;
  debug = o.debug;
  verbosity = o.verbosity;
  local_cpu_usage = o.local_cpu_usage;
  remote_cpu_usage = o.remote_cpu_usage;
  no_control = o.no_control;
  libfmt = o.libfmt;
  keep_histogram = o.keep_histogram;
  keep_statistics = o.keep_statistics;
  send_width = o.send_width;
  protocol = 0;
  socket_type = pos 0;
  direction = 0;
  connection_test = false;
  was_legacy = false;
  legacy = false;
  implicit_direction = false;
  req_size = pos 1;
  rsp_size = pos 1;
  send_size = pos 0;
  recv_size = pos 0;
  remote_send_size_req = negsuc 0;
  remote_recv_size_req = negsuc 0;
  remote_data_family = p.af_unspec;
  local_data_family = p.af_unspec;
  remote_data_address = none;
  local_data_address = none;
  remote_mask_len = pos 0;
  local_mask_len = pos 0;
  explicit_data_address = false;
  local_data_port = codes "0";
  remote_data_port = codes "0";
  client_port_min = pos 5000;
  client_port_max = pos 65535;
  want_defer_accept = false;
  want_use_pktinfo = false;
  first_burst_size = pos 0;
  loc_tcpcork = false;
  rem_tcpcork = false;
  loc_nodelay = pos 0;
  rem_nodelay = pos 0;
  use_mtu_discover = false;
  use_fastopen = false;
  use_zerocopy = false;
  use_write = false;
  receive_timeout = negsuc 0;
  socket_debug = false;
  transport_mss_req = negsuc 0;
  parallel_connections = pos 1;
  netperf_output_mode = keyval;
  output_selection_spec = none;
  local_cong_control_req = [];
  remote_cong_control_req = [];
  multicast_ttl = negsuc 0;
  local_connected = false;
  remote_connected = false;
  pacing_rate = pos 0;
  routing_allowed = pos 1;
  have_R_option = false;
  have_uuid = false;
  test_uuid = [];
  lss_size_req = negsuc 0;
  lsr_size_req = negsuc 0;
  rss_size_req = negsuc 0;
  rsr_size_req = negsuc 0;
  dont_give_up = false;
  loc_sndavoid = pos 0;
  loc_rcvavoid = pos 0;
  rem_sndavoid = pos 0;
  rem_rcvavoid = pos 0;
}
