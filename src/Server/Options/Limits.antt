-- ===== src/Server/Options/Limits.antt =====
-- What holds of netserver's settings, whatever options scan_netserver_args() of src/netserver.c has
-- taken: their texts fit their buffers, and a suppressed debug file means no debugging.
use mathlib.Core.Path.{subst}
use netperf_copilot.Common.{
  ◌≡◌, ◌≤◌, ◌⊎◌, inl, inr, refl, sym, arith, ℕ, if◌then◌else◌, true, false, List, [], ◌∷◌, Option,
  none, some, if_cases, ltb_ℤ, length, length-take, ℤ, pos, negsuc, ◌≤ℤ◌, Bytes,
}
use netperf_copilot.Platform.{Platform}
use netperf_copilot.CString.{atoi}
use netperf_copilot.CommandLine.Handlers.{int_of}
use netperf_copilot.Server.Options.{
  Settings, ServerFlag, taken, exits, scan_server_option, scan_netserver_args, initial_settings,
  listen_on, cpus, port, phrase,
}
use netperf_copilot.Server.Options.Holds.{OfTaken, set_listen-Holds, scan_netserver_args-Holds}

abbrev pub FitsMessage : Option Bytes → Type 0
FitsMessage none = Unit
FitsMessage (some s) = length s ≤ 647

-- The debug file is kept if and only if the debug level is not 0; netserver keeps to the foreground,
-- or serves without spawning, only where it does not ask for inetd's connection; the processors can
-- be counted; the port, the host and the passphrase fit.
pub record IsSound (s : Settings) : Type 0 where
  pub debug_kept :
      (s.suppress_debug ≡ true × s.debug ≡ 0) ⊎ (s.suppress_debug ≡ false × 1 ≤ s.debug)
  pub own_listener : s.want_daemonize ≡ true ⊎ s.not_inetd ≡ true
  pub own_server : s.spawn_on_accept ≡ true ⊎ s.not_inetd ≡ true
  pub can_count : s.shell_num_cpus ≤ℤ pos 2048
  pub port_fits : length s.listen_port ≤ 10
  pub host_fits : length s.local_host_name ≤ 255
  pub phrase_fits : FitsMessage s.passphrase

at_most_lem : (n : ℤ) → ltb_ℤ (pos 2048) n ≡ false → n ≤ℤ pos 2048
at_most_lem (pos n) few = ground arith
at_most_lem (negsuc n) few = ground arith

set_cpus :
    (n : ℤ) (s : Settings)
    → IsSound s
    → OfTaken IsSound
        (if ltb_ℤ (pos 2048) n then exits 1 else taken (record s { shell_num_cpus = n }))
set_cpus n s h =
    if_cases (OfTaken IsSound) (ltb_ℤ (pos 2048) n) _ _ (λ many. tt)
      (λ few. ground (arith, at_most_lem n few))

listening :
    (s : Settings) (host : Bytes) (n : ℕ)
    → IsSound s
    → (host ≡ s.local_host_name) ⊎ (length host ≤ 255)
    → IsSound (record s { not_inetd = true; local_host_name = host; local_address_family = n })
listening s host n h fits = record {
  debug_kept = h.debug_kept;
  own_listener = inr refl;
  own_server = inr refl;
  can_count = h.can_count;
  port_fits = h.port_fits;
  host_fits = elim fits [
    | inl same ↦ subst (λ t. length t ≤ 255) (sym same) h.host_fits
    | inr short ↦ short
  ];
  phrase_fits = h.phrase_fits;
}

module _ (p : Platform) where
  scan_server_option-IsSound :
      (f : ServerFlag) (s : Settings) → IsSound s → OfTaken IsSound (scan_server_option p f s)
  unfolding scan_server_option
  scan_server_option-IsSound (listen_on arg) s h =
      set_listen-Holds p IsSound arg s (λ host n fits. listening s host n h fits)
  scan_server_option-IsSound (cpus arg) s h = set_cpus (int_of (atoi arg)) s h
  scan_server_option-IsSound (port arg) s h = ground (arith, length-take 10 arg)
  scan_server_option-IsSound (phrase arg) s h = ground (arith, length-take 647 arg)
  scan_server_option-IsSound _ s h = ground arith

  scan_netserver_args-OfTaken :
      (flags : List ServerFlag) (s : Settings)
      → IsSound s
      → OfTaken IsSound (scan_netserver_args p flags s)
  unfolding scan_netserver_args
  scan_netserver_args-OfTaken [] s h = h
  scan_netserver_args-OfTaken (f ∷ flags) s h =
      scan_netserver_args-Holds p IsSound IsSound f flags s (scan_server_option-IsSound f s h)
        (λ s' now. scan_netserver_args-OfTaken flags s' now)

  -- Whatever options netserver takes, in whatever order: it keeps a debug file if and only if it
  -- debugs; where it stays in the foreground or does not spawn, it does not serve inetd; it counts
  -- at most 2048 processors; and the port, the host and the passphrase are no longer than 10, 255
  -- and 647 characters.
  pub scan_netserver_args-IsSound :
      (flags : List ServerFlag) (s : Settings)
      → scan_netserver_args p flags (initial_settings p) ≡ taken s
      → IsSound s
  unfolding initial_settings
  scan_netserver_args-IsSound flags s h = subst (OfTaken IsSound) h (
      scan_netserver_args-OfTaken flags (initial_settings p) (record {
        debug_kept = inl (refl, refl);
        own_listener = inl refl;
        own_server = inl refl;
        can_count = omega arith;
        port_fits = omega arith;
        host_fits = omega arith;
        phrase_fits = tt;
      }))
