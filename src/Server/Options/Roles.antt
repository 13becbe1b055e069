-- ===== src/Server/Options/Roles.antt =====
-- Which role netserver takes, main() of src/netserver.c, does not depend on the options' order.
use netperf_copilot.Common.{
  ◌≡◌, ◌∙◌, refl, inl, inr, Bool-cases, ap, arith, Bool, true, false, not, ◌&&◌, ◌||◌, List, [],
  ◌∷◌, some, none, Option, Bytes, if◌then◌else◌, length, ltb, ltb_ℤ, pos,
}
use netperf_copilot.CString.{atoi}
use netperf_copilot.Platform.{Platform}
use netperf_copilot.Args.{break_args_explicit, parse_address_family, copy_10}
use netperf_copilot.CommandLine.Handlers.{int_of}
use netperf_copilot.Server.Options.{
  Settings, ServerFlag, Scanned, taken, exits, reads_past, usage, version, not_daemon, not_spawning,
  listen_on, cpus, port, family_given, set_listen, scan_server_option, scan_netserver_args,
  check_if_inetd, Role, serves_inetd, runs_as_daemon, stays_in_foreground, role_of, netserver_main,
  initial_settings,
}
use netperf_copilot.Server.Options.Holds.{OfTaken, set_listen-Holds, scan_netserver_args-Holds}

abbrev pub listens : ServerFlag → Bool
listens not_daemon = true
listens not_spawning = true
listens (listen_on arg) = true
listens (port arg) = true
listens _ = false

abbrev pub foreground : ServerFlag → Bool
foreground not_daemon = true
foreground _ = false

abbrev pub some_of : (ServerFlag → Bool) → List ServerFlag → Bool
some_of test [] = false
some_of test (f ∷ flags) = test f || some_of test flags

-- The role as the manual has it.
unfoldable pub role_asked : Bool → List ServerFlag → Role
role_asked socket flags =
    if some_of listens flags
    then if some_of foreground flags then stays_in_foreground else runs_as_daemon
    else if socket
    then serves_inetd
    else runs_as_daemon

-- What an option says of the role, next to what was said of it before.
record Says (f : ServerFlag) (s s' : Settings) : Type 0 where
  inetd : s'.not_inetd ≡ (listens f || s.not_inetd)
  daemon : s'.want_daemonize ≡ (not (foreground f) && s.want_daemonize)
  same_child : s'.child ≡ s.child

record Said (flags : List ServerFlag) (s s' : Settings) : Type 0 where
  inetd : s'.not_inetd ≡ (some_of listens flags || s.not_inetd)
  daemon : s'.want_daemonize ≡ (not (some_of foreground flags) && s.want_daemonize)
  same_child : s'.child ≡ s.child

turn_or : (a b c : Bool) → (a || (b || c)) ≡ ((b || a) || c)
turn_or a b c = ground arith

turn_and : (a b c : Bool) → (not a && (not b && c)) ≡ (not (b || a) && c)
turn_and a b c = ground arith

module _ (p : Platform) where
  scan_server_option-Says :
      (f : ServerFlag) (s : Settings) → OfTaken (Says f s) (scan_server_option p f s)
  unfolding scan_server_option
  scan_server_option-Says (listen_on arg) s =
      set_listen-Holds p (Says (listen_on arg) s) arg s (λ host n fits. ground arith)
  scan_server_option-Says _ s = ground arith

  scan_netserver_args-Said :
      (flags : List ServerFlag) (s : Settings)
      → OfTaken (Said flags s) (scan_netserver_args p flags s)
  unfolding scan_netserver_args
  scan_netserver_args-Said [] s = record { inetd = refl; daemon = refl; same_child = refl }
  scan_netserver_args-Said (f ∷ flags) s =
      scan_netserver_args-Holds p (Said (f ∷ flags) s) (Says f s) f flags s
        (scan_server_option-Says f s)
        (λ s' now.
          after s' now (scan_netserver_args p flags s') (scan_netserver_args-Said flags s'))
    where
      after :
          (s' : Settings)
          → Says f s s'
          → (m : Scanned) → OfTaken (Said flags s') m
          → OfTaken (Said (f ∷ flags) s) m
      after s' now (taken last) later = record {
        inetd =
            later.inetd
            ∙ ap (λ b. some_of listens flags || b) now.inetd
            ∙ turn_or (some_of listens flags) (listens f) s.not_inetd;
        daemon =
            later.daemon
            ∙ ap (λ b. not (some_of foreground flags) && b) now.daemon
            ∙ turn_and (some_of foreground flags) (foreground f) s.want_daemonize;
        same_child = later.same_child ∙ now.same_child;
      }
      after s' now (exits code) later = tt
      after s' now reads_past later = tt

foreground-listens :
    (flags : List ServerFlag) → some_of foreground flags ≡ true → some_of listens flags ≡ true
foreground-listens [] h = absurd (cc)
foreground-listens (not_daemon ∷ flags) h = refl
foreground-listens (f ∷ flags) h = ground (arith, foreground-listens flags)

role_of-Said :
    (socket : Bool) (flags : List ServerFlag) (s s' : Settings)
    → Said flags s s'
    → s.child ≡ false
    → s.not_inetd ≡ false
    → s.want_daemonize ≡ true
    → role_of (check_if_inetd socket s') ≡ role_asked socket flags
unfolding role_of check_if_inetd role_asked
role_of-Said socket flags s s' said child inetd daemon = elim (Bool-cases (some_of listens flags)) [
  | inl l ↦ ground arith
  | inr silent ↦ elim (Bool-cases (some_of foreground flags)) [
    | inl fg ↦ absurd (ground (arith, foreground-listens flags fg))
    | inr none_fg ↦ ground arith
  ]
]

-- Whether an option lets netserver go on: -h and -V do not, nor do more processors than 2048, nor an
-- address family of ten characters or more.
unfoldable pub goes_on : Platform → ServerFlag → Bool
goes_on p usage = false
goes_on p version = false
goes_on p (cpus arg) = not (ltb_ℤ (pos 2048) (int_of (atoi arg)))
goes_on p (listen_on arg) = ltb (length (break_args_explicit arg).1) 10
goes_on p _ = true

abbrev pub all_go_on : Platform → List ServerFlag → Bool
all_go_on p [] = true
all_go_on p (f ∷ flags) = goes_on p f && all_go_on p flags

abbrev pub is_taken : Scanned → Bool
is_taken (taken s) = true
is_taken (exits code) = false
is_taken reads_past = false

module _ (p : Platform) where
  is_taken-family_given :
      (arg2 : Bytes) (s : Settings) → is_taken (family_given p arg2 s) ≡ ltb (length arg2) 10
  unfolding parse_address_family copy_10
  is_taken-family_given [] s = refl
  is_taken-family_given (c ∷ arg2) s = ground arith

  is_taken-set_listen :
      (arg : Bytes) (s : Settings)
      → is_taken (set_listen p arg s) ≡ ltb (length (break_args_explicit arg).1) 10
  unfolding set_listen
  is_taken-set_listen arg s = is_taken-family_given (break_args_explicit arg).1 _

  is_taken-scan_server_option :
      (f : ServerFlag) (s : Settings) → is_taken (scan_server_option p f s) ≡ goes_on p f
  unfolding scan_server_option goes_on
  is_taken-scan_server_option (listen_on arg) s = is_taken-set_listen arg s
  is_taken-scan_server_option _ s = ground arith

  is_taken-scan_netserver_args :
      (flags : List ServerFlag) (s : Settings)
      → is_taken (scan_netserver_args p flags s) ≡ all_go_on p flags
  unfolding scan_netserver_args
  is_taken-scan_netserver_args [] s = refl
  is_taken-scan_netserver_args (f ∷ flags) s =
      next (scan_server_option p f s) (is_taken-scan_server_option f s)
        (is_taken-scan_netserver_args flags)
    where
      next :
          (m : Scanned)
          → is_taken m ≡ goes_on p f
          → ((s' : Settings) → is_taken (scan_netserver_args p flags s') ≡ all_go_on p flags)
          → is_taken (elim m as (λ x. Scanned) [
            | taken s' ↦ scan_netserver_args p flags s'
            | exits code ↦ exits code
            | reads_past ↦ reads_past
          ])
            ≡ (goes_on p f && all_go_on p flags)
      next (taken s') now later = later s' ∙ ap (λ b. b && all_go_on p flags) now
      next (exits code) now later = ap (λ b. b && all_go_on p flags) now
      next reads_past now later = ap (λ b. b && all_go_on p flags) now

  -- netserver takes its role whatever the order of its options, and ends before that if and only if
  -- one of them makes it end: it listens if there is one of -D, -f, -L and -p, or if its
  -- descriptor 0 is no socket, and serves inetd's connection otherwise; when it listens, it stays
  -- in the foreground if there is -D, and is a daemon otherwise.
  pub netserver_main-role_asked :
      (socket : Bool) (flags : List ServerFlag)
      → netserver_main p socket flags
        ≡ (if all_go_on p flags then some (role_asked socket flags) else none)
  unfolding netserver_main initial_settings
  netserver_main-role_asked socket flags =
      outcome (scan_netserver_args p flags (initial_settings p))
        (is_taken-scan_netserver_args flags (initial_settings p))
        (scan_netserver_args-Said p flags (initial_settings p))
    where
      outcome :
          (m : Scanned)
          → is_taken m ≡ all_go_on p flags
          → OfTaken (Said flags (initial_settings p)) m
          → elim m as (λ x. Option Role) [
            | taken s ↦ some (role_of (check_if_inetd socket s))
            | exits code ↦ none
            | reads_past ↦ none
          ]
            ≡ (if all_go_on p flags then some (role_asked socket flags) else none)
      outcome (taken s) go said =
          ap some (role_of-Said socket flags (initial_settings p) s said refl refl refl)
          ∙ ap (λ b. if b then some (role_asked socket flags) else none) go
      outcome (exits code) go said = ap (λ b. if b then some (role_asked socket flags) else none) go
      outcome reads_past go said = ap (λ b. if b then some (role_asked socket flags) else none) go
