-- ===== src/Lib.antt =====
-- netperf measures network performance: the program netperf asks netserver, over a control
-- connection, to run one side of a test, both move data, and netperf reports the results. These
-- modules model parts of the C code under src/, one module with its children for each part:
--
-- * Control (src/netlib.c, netlib.h): a control message is an array of 32-bit words. send_request_n,
--   send_response_n, recv_request_timed_n, recv_response_timed_n and fixup_request_n are functions on
--   the array, the host's byte order and what recv() delivers. Control/Doubles: ntohd and htond.
-- * Hist (src/netlib.c, hist.h): the latency histogram of HIST_new_n, HIST_add,
--   HIST_timestamp_start, HIST_timestamp_stop_add and HIST_get_percentile, as a record. Float and
--   double arithmetic is the parameter Floats, with the laws that are used and an exact instance.
-- * Output (src/nettest_omni.c): csv_escape_field, json_escape_string, direction_to_str.
-- * Args (src/netsh.c): break_args and its kin, parse_address_family, parse_socket_type,
--   parse_protocol, parse_direction, convert_to_upper.
-- * Sockets (src/nettest_bsd.c, netlib.c): the numbers and names of address families, socket types
--   and protocols. Sockets/Addresses: set_sockaddr_family_addr_port, get_sockaddr_family_addr_port,
--   set_port_number, inet_nton. The numbers of the system's headers are the parameter Platform.
-- * Dscp (src/dscp.c): parse_ipqos and iptos2str.
-- * Buffers (src/netlib.c): convert, convert_timespec, allocate_buffer_ring, access_buffer.
-- * Ticks (src/netcpu_procstat.c): tick_subtract and the sums of calc_cpu_util_internal.
-- * Server (src/netserver.c): set_fdset and the loop of accept_connections on an fd_set.
-- * Requests (src/netserver.c): the loop of process_requests over the types of the requests.
-- * Passphrase (src/netperf.c, src/netserver.c): the request with a passphrase and recv_passphrase,
--   on the messages of Control.
-- * Ports (src/nettest_omni.c): pick_next_port_number. Uuid (src/net_uuid.c): get_current_time on
--   the clock's readings, and format_uuid_v1.
-- * Omni (src/nettest_omni.c): connect_data_socket, send_data, recv_data, recv_data_no_copy and, in
--   Omni/Close, close_data_socket and disconnect_data_socket, on what the system calls give.
-- * RecvOmni and SendOmni (src/nettest_omni.c): the test loops of recv_omni, for netserver, and of
--   send_omni_inner, for netperf, as rounds on a record of the counters; Engine is what they share.
--   Of the histogram SendOmni keeps the places and the count of its ring, by which a test may end.
-- * Selection (src/nettest_omni.c): the output selectors with their names, headers and groups, and
--   the parsers from match_string_to_output_mnenomic to parse_output_selection; Selection/ByTest:
--   set_output_list_by_test and print_omni_init.
-- * OmniArgs (src/nettest_omni.c): scan_omni_args, on what CommandLine leaves, in the same way, with
--   set_omni_defaults_by_legacy_testname. Server/Options (src/netserver.c): scan_netserver_args,
--   check_if_inetd and the choice in main.
-- * CommandLine (src/netsh.c): scan_cmd_line. Globals is what it sets, Handlers what each option
--   does, Finish what follows the options.
-- * CString holds the string functions of the C library that these use, and Common the helpers.
--
-- The parts meet as in the program: netperf takes options apart (Args, Dscp), turns families and
-- types into netperf's numbers (Sockets), and sends them in a request (Control), of which the other
-- host makes its own numbers again; both run their test loops (SendOmni, RecvOmni) over data sockets
-- (Omni) on a ring of buffers (Buffers), and note each latency (Hist) and the processor's ticks
-- (Ticks); Selection says which figures are wanted, and Output writes them down.
--
-- A C int is a ℤ or, where only its bits count, a number below 2^32; wrap-around is written out.
-- A text is the list of its bytes without the terminator. A call that ends the process is `none` or a
-- constructor of the result. What system calls give is an argument: a list of results, or a record
-- for each round of a test loop. Loops recurse on their lists or counts. Four have fuel: parse_direction,
-- which calls itself once for each part, so the length of the text and one are enough; the loop that
-- fills a buffer from a file, for which two rounds for a byte and one more are enough; the loop of
-- accept_connections, for which two rounds for a descriptor are enough; and the loop of
-- parse_output_selection_direct, for which one round for a character and one more are enough.
--
-- Not modelled: netserver's processes and the contents of its responses; what send_omni_inner and
-- recv_omni do before and behind their loops, demo mode and paced sending; the classic tests of
-- src/nettest_bsd.c; the printing of the reports; the confidence intervals and CPU percentages
-- (double arithmetic); debug output; and the modules for other operating
-- systems and transports.
pub mod Common
pub mod Floats
pub mod CString
pub mod Platform
pub mod Hist
pub mod Control
pub mod Dscp
pub mod Args
pub mod Sockets
pub mod Output
pub mod Ticks
pub mod Buffers
pub mod Server
pub mod Requests
pub mod Ports
pub mod Uuid
pub mod Omni
pub mod Engine
pub mod RecvOmni
pub mod SendOmni
pub mod Selection
pub mod CommandLine
pub mod OmniArgs
pub mod Passphrase
