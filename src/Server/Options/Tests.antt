-- ===== src/Server/Options/Tests.antt =====
-- Concrete command lines of netserver, src/netserver.c.
use netperf_copilot.Common.{◌≡◌, refl, true, false, List, [], ◌∷◌, some, pos, codes}
use netperf_copilot.CString.{
  cut, digit, scan, starts_digit, skip_space, decimal, word_of, atoi, contains, begins,
}
use netperf_copilot.Args.{
  break_args_explicit, break_args_explicit_sep, parse_address_family, copy_10,
}
use netperf_copilot.Platform.{linux}
use netperf_copilot.CommandLine.Handlers.{int_of}
use netperf_copilot.Server.Options.{
  Settings, ServerFlag, more_debug, no_debug, not_daemon, listen_on, cpus, port, taken, set_listen,
  scan_server_option, scan_netserver_args, initial_settings, netserver_main, stays_in_foreground,
}
use netperf_copilot.Server.Options.Roles.{goes_on, role_asked, netserver_main-role_asked}
use netperf_copilot.Server.Options.Limits.{IsSound, scan_netserver_args-IsSound}

-- A port too long for its buffer, which strncpy() then leaves without a terminator.
abbrev flags : List ServerFlag
flags =
    more_debug
    ∷ listen_on (codes "::1,inet6")
    ∷ no_debug
    ∷ cpus (codes "2048")
    ∷ port (codes "12865/extra")
    ∷ not_daemon
    ∷ []

abbrev settled : Settings
settled = record (initial_settings linux) {
  local_host_name = codes "::1";
  local_address_family = 10;
  listen_port = codes "12865/extr";
  not_inetd = true;
  want_daemonize = false;
  shell_num_cpus = pos 2048;
}

settings_taken : scan_netserver_args linux flags (initial_settings linux) ≡ taken settled
unfolding scan_netserver_args scan_server_option set_listen initial_settings int_of atoi decimal
    scan digit skip_space starts_digit word_of break_args_explicit break_args_explicit_sep cut
    contains begins parse_address_family copy_10
settings_taken = refl

scan_netserver_args-IsSound_example : IsSound settled
scan_netserver_args-IsSound_example = scan_netserver_args-IsSound linux flags settled settings_taken

netserver_main-role_asked_example :
    netserver_main linux true (listen_on (codes "::1,inet6") ∷ not_daemon ∷ [])
    ≡ some stays_in_foreground
unfolding goes_on role_asked break_args_explicit break_args_explicit_sep cut
netserver_main-role_asked_example =
    netserver_main-role_asked linux true (listen_on (codes "::1,inet6") ∷ not_daemon ∷ [])
