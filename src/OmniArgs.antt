-- ===== src/OmniArgs.antt =====
-- scan_omni_args() of src/nettest_omni.c: the defaults by the name of the test, the options of an
-- omni test one after the other, and what follows them. The system has IPv6, TCP_CORK,
-- IP_MTU_DISCOVER, MSG_FASTOPEN and MSG_ZEROCOPY.
pub mod Globals
pub mod Handlers
pub mod Finish
pub mod Direction
use netperf_copilot.Common.{
  ℕ, Bool, true, false, not, ◌&&◌, ◌||◌, List, [], ◌∷◌, Option, none, some, ltb, ◌==◌,
  if◌then◌else◌, take, ℤ, pos, negsuc, Bytes, codes,
}
use netperf_copilot.CString.{same_nocase}
use netperf_copilot.Platform.{Platform}
use netperf_copilot.Buffers.{convert}
use netperf_copilot.Output.{has_xmit, has_recv}
use netperf_copilot.CommandLine.Globals.{Options}
use netperf_copilot.CommandLine.Handlers.{int_arg}
use netperf_copilot.OmniArgs.Globals.{OmniOptions, OutputMode, before_omni}
use netperf_copilot.OmniArgs.Handlers.{
  atoi_int, adds, set_direction, set_remote_address, set_local_address, set_output, set_congestion,
  set_send_sizes, set_recv_sizes, pair_of, set_socket_type, set_protocol,
}

-- What getopt() gives for OMNI_ARGS; an option that it does not know is `unknown`.
pub data OmniFlag : Type 0 where
  unknown ipv4 ipv6 usage : OmniFlag
  defer_accept pktinfo connection cork nodelay mtu_discover fastopen debug_socket : OmniFlag
  check_interval write local_connect remote_connect persist zerocopy avoid_copies : OmniFlag
  burst direction timeout segment parallel ttl pace route : Bytes → OmniFlag
  remote_address local_address : Bytes → OmniFlag
  output : OutputMode → Option Bytes → OmniFlag
  congestion : Bool → Bytes → OmniFlag
  send_sizes recv_sizes client_ports data_ports request_sizes : Bytes → OmniFlag
  local_socket remote_socket : Bytes → OmniFlag
  socket_kind transport uuid width : Bytes → OmniFlag

-- set_omni_defaults_by_legacy_testname, in front of the test names
abbrev pub uber_defaults : Platform → OmniOptions → OmniOptions
uber_defaults p o = record o {
  protocol = p.ipproto_tcp;
  socket_type = pos p.sock_stream;
  connection_test = false;
  req_size = negsuc 0;
  rsp_size = negsuc 0;
  was_legacy = true;
  legacy = true;
  implicit_direction = false;
}

-- set_omni_defaults_by_legacy_testname
pub set_omni_defaults_by_legacy_testname : Platform → OmniOptions → OmniOptions
set_omni_defaults_by_legacy_testname p o =
    let d = uber_defaults p o in
    if same_nocase o.test_name (codes "TCP_STREAM")
    then record d { direction = 2 }
    else if same_nocase o.test_name (codes "TCP_MAERTS")
    then record d { direction = 4 }
    else if same_nocase o.test_name (codes "TCP_RR")
    then record d { req_size = pos 1; rsp_size = pos 1; direction = 6 }
    else if same_nocase o.test_name (codes "UDP_STREAM")
    then record d { protocol = p.ipproto_udp; socket_type = pos p.sock_dgram }
    else if same_nocase o.test_name (codes "UDP_RR")
    then record d {
      protocol = p.ipproto_udp;
      socket_type = pos p.sock_dgram;
      direction = 6;
      req_size = pos 1;
      rsp_size = pos 1;
    }
    else if same_nocase o.test_name (codes "TCP_CC")
    then record d { direction = 0; connection_test = true }
    else if same_nocase o.test_name (codes "TCP_CRR")
    then record d { direction = 6; req_size = pos 1; rsp_size = pos 1; connection_test = true }
    else if same_nocase o.test_name (codes "omni")
    then record d { was_legacy = false; legacy = false; implicit_direction = true }
    else d

-- The switch of scan_omni_args; `none`: the process exits, or reads past a copy of an argument.
pub scan_omni_option : Platform → OmniFlag → OmniOptions → Option OmniOptions
scan_omni_option p unknown o =
    some (record o { remote_data_family = p.af_inet; local_data_family = p.af_inet })
scan_omni_option p ipv4 o =
    some (record o { remote_data_family = p.af_inet; local_data_family = p.af_inet })
scan_omni_option p ipv6 o =
    some (record o { remote_data_family = p.af_inet6; local_data_family = p.af_inet6 })
scan_omni_option p usage o = none
scan_omni_option p defer_accept o = some (record o { want_defer_accept = true })
scan_omni_option p pktinfo o = some (record o { want_use_pktinfo = true })
scan_omni_option p (burst arg) o = some (record o { first_burst_size = atoi_int arg })
scan_omni_option p connection o = some (record o { connection_test = true })
scan_omni_option p cork o = some (record o { loc_tcpcork = true; rem_tcpcork = true })
scan_omni_option p (direction arg) o = set_direction arg o
scan_omni_option p nodelay o = some (record o { loc_nodelay = pos 1; rem_nodelay = pos 1 })
scan_omni_option p mtu_discover o = some (record o { use_mtu_discover = true })
scan_omni_option p fastopen o = some (record o { use_fastopen = true })
scan_omni_option p (timeout arg) o = some (record o { receive_timeout = atoi_int arg })
scan_omni_option p debug_socket o = some (record o { socket_debug = true })
scan_omni_option p (segment arg) o = some (record o { transport_mss_req = atoi_int arg })
scan_omni_option p (remote_address arg) o = set_remote_address p arg o
scan_omni_option p check_interval o = some o
scan_omni_option p write o = some (record o { use_write = true })
scan_omni_option p (parallel arg) o = some (record o { parallel_connections = atoi_int arg })
scan_omni_option p (output mode spec) o = set_output mode spec o
scan_omni_option p (congestion beyond arg) o = some (set_congestion beyond arg o)
scan_omni_option p (ttl arg) o = some (record o { multicast_ttl = atoi_int arg })
scan_omni_option p (local_address arg) o = set_local_address p arg o
scan_omni_option p (send_sizes arg) o = some (set_send_sizes arg o)
scan_omni_option p (recv_sizes arg) o = some (set_recv_sizes arg o)
scan_omni_option p local_connect o = some (record o { local_connected = true })
scan_omni_option p remote_connect o = some (record o { remote_connected = true })
scan_omni_option p (client_ports arg) o = some (
    pair_of arg (λ a o. record o { client_port_min = atoi_int a })
      (λ a o. record o { client_port_max = atoi_int a }) o)
scan_omni_option p (data_ports arg) o = some (
    pair_of arg (λ a o. record o { local_data_port = take 10 a })
      (λ a o. record o { remote_data_port = take 10 a }) o)
scan_omni_option p (pace arg) o = some (record o { pacing_rate = atoi_int arg })
scan_omni_option p (request_sizes arg) o = some (
    pair_of arg (λ a o. record o { req_size = int_arg a })
      (λ a o. record o { rsp_size = int_arg a }) (adds 4 (adds 2 o)))
scan_omni_option p (route arg) o =
    some (record o { routing_allowed = atoi_int arg; have_R_option = true })
scan_omni_option p (local_socket arg) o = some (
    pair_of arg (λ a o. record o { lss_size_req = int_arg a })
      (λ a o. record o { lsr_size_req = int_arg a }) o)
scan_omni_option p (remote_socket arg) o = some (
    pair_of arg (λ a o. record o { rss_size_req = int_arg a })
      (λ a o. record o { rsr_size_req = int_arg a }) o)
scan_omni_option p (socket_kind arg) o = set_socket_type p arg o
scan_omni_option p (transport arg) o = some (set_protocol p arg o)
scan_omni_option p (uuid arg) o = some (record o { test_uuid = take 37 arg; have_uuid = true })
scan_omni_option p persist o = some (record o { dont_give_up = true })
scan_omni_option p (width arg) o = some (record o { send_width = convert arg })
scan_omni_option p zerocopy o = some (record o { use_zerocopy = true })
scan_omni_option p avoid_copies o = some (record o {
  loc_sndavoid = pos 1;
  loc_rcvavoid = pos 1;
  rem_sndavoid = pos 1;
  rem_rcvavoid = pos 1;
})

-- The loop of scan_omni_args.
pub scan_omni_options : Platform → List OmniFlag → OmniOptions → Option OmniOptions
scan_omni_options p [] o = some o
scan_omni_options p (f ∷ flags) o = elim (scan_omni_option p f o) [
  | none ↦ none
  | some o' ↦ scan_omni_options p flags o'
]
