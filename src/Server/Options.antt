-- ===== src/Server/Options.antt =====
-- The options of netserver and what it becomes: init_netserver_globals(), scan_netserver_args(),
-- check_if_inetd() and main() of src/netserver.c on Unix.
pub mod Holds
pub mod Roles
pub mod Limits
mod Tests
use netperf_copilot.Common.{
  ℕ, ◌+◌, Bool, true, false, List, [], ◌∷◌, Option, none, some, if◌then◌else◌, length, take, ℤ, pos,
  ltb_ℤ, Bytes, codes,
}
use netperf_copilot.CString.{atoi}
use netperf_copilot.Platform.{Platform}
use netperf_copilot.Args.{break_args_explicit, parse_address_family}
use netperf_copilot.CommandLine.Handlers.{int_of}

-- The globals that main() and the options set.
pub record Settings : Type 0 where
  pub local_host_name : Bytes
  pub local_address_family : ℕ
  pub listen_port : Bytes
  pub child : Bool
  pub not_inetd : Bool
  pub want_daemonize : Bool
  pub spawn_on_accept : Bool
  pub suppress_debug : Bool
  pub debug : ℕ
  pub verbosity : ℤ
  pub shell_num_cpus : ℤ
  pub passphrase : Option Bytes

unfoldable pub initial_settings : Platform → Settings
initial_settings p = record {
  local_host_name = [];
  local_address_family = p.af_unspec;
  listen_port = codes "12865";
  child = false;
  not_inetd = false;
  want_daemonize = true;
  spawn_on_accept = true;
  suppress_debug = true;
  debug = 0;
  verbosity = pos 1;
  shell_num_cpus = pos 1;
  passphrase = none;
}

-- What getopt() gives for SERVER_ARGS.
pub data ServerFlag : Type 0 where
  usage : ServerFlag
  more_debug : ServerFlag
  not_daemon : ServerFlag
  not_spawning : ServerFlag
  listen_on : Bytes → ServerFlag
  cpus : Bytes → ServerFlag
  no_debug : ServerFlag
  port : Bytes → ServerFlag
  phrase : Bytes → ServerFlag
  ipv4 : ServerFlag
  ipv6 : ServerFlag
  verbose : Bytes → ServerFlag
  version : ServerFlag

-- The options are taken, the process exits with a code, or a family's name reads past its copy.
pub data Scanned : Type 0 where
  taken : Settings → Scanned
  exits : ℕ → Scanned
  reads_past : Scanned

-- `if (arg1[0]) strncpy(local_host_name, arg1, …)`
abbrev pub host_given : Bytes → Settings → Settings
host_given [] s = s
host_given (c ∷ arg1) s = record s { local_host_name = take 255 (c ∷ arg1) }

-- `if (arg2[0]) local_address_family = parse_address_family(arg2)`
abbrev pub family_given : Platform → Bytes → Settings → Scanned
family_given p [] s = taken s
family_given p (c ∷ arg2) s = elim (parse_address_family p (c ∷ arg2)) [
  | none ↦ reads_past
  | some family ↦ taken (record s { local_address_family = family })
]

-- -L
unfoldable pub set_listen : Platform → Bytes → Settings → Scanned
set_listen p optarg s =
    let (arg1, arg2, all) = break_args_explicit optarg in
    family_given p arg2 (host_given arg1 (record s { not_inetd = true }))

-- The switch of scan_netserver_args.
pub scan_server_option : Platform → ServerFlag → Settings → Scanned
scan_server_option p usage s = exits 1
scan_server_option p more_debug s = taken (record s { debug = s.debug + 1; suppress_debug = false })
scan_server_option p not_daemon s = taken (record s { want_daemonize = false; not_inetd = true })
scan_server_option p not_spawning s = taken (record s { spawn_on_accept = false; not_inetd = true })
scan_server_option p (listen_on arg) s = set_listen p arg s
scan_server_option p (cpus arg) s =
    if ltb_ℤ (pos 2048) (int_of (atoi arg))
    then exits 1
    else taken (record s { shell_num_cpus = int_of (atoi arg) })
scan_server_option p no_debug s = taken (record s { suppress_debug = true; debug = 0 })
scan_server_option p (port arg) s = taken (record s { listen_port = take 10 arg; not_inetd = true })
scan_server_option p (phrase arg) s = taken (record s { passphrase = some (take 647 arg) })
scan_server_option p ipv4 s = taken (record s { local_address_family = p.af_inet })
scan_server_option p ipv6 s = taken (record s { local_address_family = p.af_inet6 })
scan_server_option p (verbose arg) s = taken (record s { verbosity = int_of (atoi arg) })
scan_server_option p version s = exits 0

-- The loop of scan_netserver_args.
pub scan_netserver_args : Platform → List ServerFlag → Settings → Scanned
scan_netserver_args p [] s = taken s
scan_netserver_args p (f ∷ flags) s = elim (scan_server_option p f s) [
  | taken s' ↦ scan_netserver_args p flags s'
  | exits code ↦ exits code
  | reads_past ↦ reads_past
]

-- check_if_inetd; `socket` says that getsockname() of descriptor 0 succeeds.
unfoldable pub check_if_inetd : Bool → Settings → Settings
check_if_inetd socket s =
    if s.not_inetd
    then s
    else if socket
    then record s { not_inetd = false; child = true }
    else record s { not_inetd = true }

-- What main() goes on to do: serve the connection that inetd has made, or listen, as a daemon or
-- not.
pub data Role : Type 0 where
  serves_inetd : Role
  runs_as_daemon : Role
  stays_in_foreground : Role

pub role_of : Settings → Role
role_of s =
    if s.child
    then serves_inetd
    else if s.want_daemonize
    then runs_as_daemon
    else stays_in_foreground

-- main, up to the role; `none`: it ends before.
unfoldable pub netserver_main : Platform → Bool → List ServerFlag → Option Role
netserver_main p socket flags = elim (scan_netserver_args p flags (initial_settings p)) [
  | taken s ↦ some (role_of (check_if_inetd socket s))
  | exits code ↦ none
  | reads_past ↦ none
]
