-- ===== src/OmniArgs/Finish/Tests.antt =====
-- Concrete options of omni tests, as scan_omni_args() of src/nettest_omni.c takes them.
use netperf_copilot.Common.{
  ◌≡◌, refl, true, false, List, [], ◌∷◌, Option, none, some, pos, negsuc, Bytes, codes,
}
use netperf_copilot.CString.{
  cut, digit, scan, starts_digit, skip_space, decimal, word_of, atoi, contains, begins, same_nocase,
}
use netperf_copilot.Args.{
  break_args, break_args_explicit, break_args_explicit_sep, parse_address_family, copy_10,
}
use netperf_copilot.Buffers.{convert}
use netperf_copilot.Platform.{linux}
use netperf_copilot.CommandLine.Globals.{Options, initial}
use netperf_copilot.CommandLine.Handlers.{int_of}
use netperf_copilot.OmniArgs.Globals.{OmniOptions, before_omni}
use netperf_copilot.OmniArgs.Handlers.{given, set_remote_address, set_send_sizes, set_congestion}
use netperf_copilot.OmniArgs.{
  OmniFlag, send_sizes, remote_address, set_omni_defaults_by_legacy_testname, scan_omni_option,
  scan_omni_options,
}
use netperf_copilot.Selection.{match_string_to_output_mnenomic}
use netperf_copilot.Selection.File.{
  parse_output_selection, parse_output_selection_file, find_preset,
}
use netperf_copilot.Selection.ByTest.{print_omni_init}
use netperf_copilot.OmniArgs.Finish.{
  netperf_is_rr, finish_uuid, finish_direction, finish_routing, finish_histogram, finish_sizes,
  finish_units, default_port, finish_port, choose_output, finish_statistics, finish_omni_args,
  scan_omni_args,
}
use netperf_copilot.OmniArgs.Finish.Settled.{EndsFor, finish_omni_args-IsSettled}
use netperf_copilot.OmniArgs.Finish.Legacy.{
  or_xmit, legacy_direction, scan_omni_args-legacy_direction,
}

abbrev udp_stream : Options
udp_stream = record (initial linux) { test_name = codes "UDP_STREAM"; no_control = true }

abbrev no_files : Bytes → Option Bytes
no_files path = none

-- A remote send size, which would make an omni test receive.
abbrev flags : List OmniFlag
flags = send_sizes (codes "1024,512") ∷ remote_address (codes "10.0.0.1/24,inet") ∷ []

abbrev udp_settled : OmniOptions
udp_settled = record (before_omni linux udp_stream) {
  protocol = 17;
  socket_type = pos 2;
  direction = 2;
  was_legacy = true;
  legacy = true;
  req_size = negsuc 0;
  rsp_size = negsuc 0;
  send_size = pos 1024;
  recv_size = negsuc 0;
  remote_send_size_req = pos 512;
  remote_data_address = some (codes "10.0.0.1");
  remote_mask_len = pos 24;
  explicit_data_address = true;
  remote_data_family = 2;
  remote_data_port = codes "discard";
  routing_allowed = pos 0;
  libfmt = b'm';
  test_uuid = codes "id";
  rem_rcvavoid = negsuc 0;
  rem_sndavoid = negsuc 0;
  rem_nodelay = negsuc 0;
}

scanned : scan_omni_args linux (codes "id") no_files flags udp_stream ≡ some udp_settled
unfolding scan_omni_args scan_omni_options scan_omni_option set_omni_defaults_by_legacy_testname
    before_omni initial given set_send_sizes set_remote_address break_args_explicit
    break_args_explicit_sep cut parse_address_family copy_10 contains begins convert int_of
    finish_omni_args finish_uuid finish_direction finish_routing finish_histogram finish_sizes
    finish_units finish_port default_port finish_statistics choose_output netperf_is_rr same_nocase
    starts_digit skip_space decimal word_of digit scan atoi
scanned = refl

scan_omni_args-legacy_direction_example : 2 ≡ or_xmit 0 false
unfolding legacy_direction before_omni initial same_nocase
scan_omni_args-legacy_direction_example =
    scan_omni_args-legacy_direction linux (codes "id") no_files flags udp_stream udp_settled refl
      scanned

abbrev own_output : OmniOptions
own_output = record (before_omni linux udp_stream) {
  output_selection_spec = some (codes "nosuchfile");
}

no_selection : finish_omni_args linux (codes "id") no_files own_output ≡ none
unfolding finish_omni_args finish_uuid finish_direction finish_routing finish_histogram finish_sizes
    finish_units finish_port default_port finish_statistics choose_output print_omni_init
    netperf_is_rr before_omni initial parse_output_selection parse_output_selection_file find_preset
    same_nocase contains begins match_string_to_output_mnenomic
no_selection = refl

finish_omni_args-IsSettled_example :
    EndsFor linux
      (choose_output no_files (finish_direction own_output))
      own_output.legacy
      (finish_omni_args linux (codes "id") no_files own_output)
finish_omni_args-IsSettled_example =
    finish_omni_args-IsSettled linux (codes "id") no_files own_output

-- A name of two characters for the remote congestion control is dropped.
dropped :
    (o : OmniOptions)
    → set_congestion false (codes "bbr,x1") o ≡ record o { local_cong_control_req = codes "bbr" }
unfolding set_congestion given break_args cut
dropped o = refl
