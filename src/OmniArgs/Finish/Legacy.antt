-- ===== src/OmniArgs/Finish/Legacy.antt =====
-- The direction of a test that is not the omni test, behind all of scan_omni_args() of
-- src/nettest_omni.c.
use mathlib.Core.Path.{subst}
use netperf_copilot.Common.{
  ◌≡◌, ◌∙◌, refl, sym, ap, arith, ℕ, Bool, false, not, ◌&&◌, ◌||◌, List, Option, none, some, ltb,
  ◌==◌, if_cases, if◌then◌else◌, Bytes, codes,
}
use netperf_copilot.CString.{same_nocase}
use netperf_copilot.Platform.{Platform}
use netperf_copilot.CommandLine.Globals.{Options}
use netperf_copilot.OmniArgs.{OmniFlag, set_omni_defaults_by_legacy_testname, scan_omni_options}
use netperf_copilot.OmniArgs.Globals.{OmniOptions, before_omni}
use netperf_copilot.OmniArgs.Direction.{IsLegacy, OfSome, scan_omni_options-IsLegacy}
use netperf_copilot.Selection.ByTest.{Printing}
use netperf_copilot.OmniArgs.Finish.{
  netperf_is_rr, netperf_cc, finish_uuid, finish_direction, finish_routing, finish_histogram,
  finish_sizes, finish_units, is_port_0, default_port, finish_port, wants_statistics,
  with_statistics, choose_output, finish_statistics, finish_omni_args, scan_omni_args, xmit_only,
  recv_only, and_no_remote,
}

-- The default direction is to send, except in a test of connections.
abbrev pub or_xmit : ℕ → Bool → ℕ
or_xmit d connection_test = if d == 0 && not connection_test then 2 else d

-- A direction and whether the test is one of connections.
abbrev Goes : ℕ → Bool → OmniOptions → Type 0
Goes d c o = (o.direction ≡ d) × (o.connection_test ≡ c)

module _ (p : Platform) (d : ℕ) (c : Bool) where
  directed :
      (o : OmniOptions)
      → o.direction ≡ d
      → o.connection_test ≡ c
      → Goes (or_xmit d c) c (finish_direction o)
  unfolding finish_direction
  directed o same also =
      if_cases (Goes (or_xmit d c) c) (o.direction == 0 && not o.connection_test) _ o
        (λ unset. ground arith) (λ set. ground arith)

  routed : (o : OmniOptions) → Goes d c o → Goes d c (finish_routing p o)
  unfolding finish_routing
  routed o h =
      if_cases (Goes d c)
        (not o.have_R_option && o.protocol == p.ipproto_udp && not (netperf_is_rr o.direction)) _ o
        (λ closed. h) (λ other. h)

  kept : (o : OmniOptions) → Goes d c o → Goes d c (finish_histogram o)
  unfolding finish_histogram
  kept o h = if_cases (Goes d c) (ltb 1 o.verbosity) _ o (λ much. h) (λ little. h)

  sized : (o : OmniOptions) → Goes d c o → Goes d c (finish_sizes o)
  unfolding finish_sizes
  sized o h =
      if_cases (Goes d c) (netperf_is_rr o.direction && not (netperf_cc o.direction)) _ o
        (λ both. h) (λ other. h)

  in_units : (o : OmniOptions) → Goes d c o → Goes d c (finish_units o)
  unfolding finish_units
  in_units o h =
      if_cases (Goes d c) (o.libfmt == b'?') _ _ (λ unset. h)
        (λ set.
          if_cases (Goes d c) (o.libfmt == b'x') _ o
            (λ x. if_cases (Goes d c) (netperf_is_rr o.direction) o _ (λ rr. h) (λ one_way. h))
            (λ other. h))

  counted :
      (fopen : Bytes → Option Bytes) (o : OmniOptions)
      → Goes d c o
      → OfSome (Goes d c) (finish_statistics fopen o)
  unfolding finish_statistics
  counted fopen o h = over (choose_output fopen o)
    where
      over :
          (m : Option Printing)
          → OfSome (Goes d c) (elim m as (λ x. Option OmniOptions) [
            | none ↦ none
            | some q ↦ some (with_statistics q.selected.desired_output_groups o)
          ])
      over none = tt
      over (some q) =
          if_cases (Goes d c) (wants_statistics q.selected.desired_output_groups) _ o (λ wanted. h)
            (λ other. h)

  without_remote :
      (m : Option OmniOptions) → OfSome (Goes d c) m → OfSome (Goes d c) (and_no_remote m)
  without_remote none h = tt
  without_remote (some o) h = h

  with_port : (o : OmniOptions) → Goes d c o → OfSome (Goes d c) (finish_port o)
  unfolding finish_port default_port
  with_port o h =
      if_cases (OfSome (Goes d c)) o.no_control _ (some o)
        (λ alone. without_remote _ (
          if_cases (OfSome (Goes d c)) (is_port_0 o.remote_data_port) _ (some o)
            (λ unset.
              if_cases (OfSome (Goes d c)) (xmit_only o.direction) _ _ (λ xmit. h)
                (λ no_xmit.
                  if_cases (OfSome (Goes d c)) (recv_only o.direction) _ _ (λ recv. h)
                    (λ no_recv.
                      if_cases (OfSome (Goes d c))
                        (netperf_is_rr o.direction || netperf_cc o.direction) _ none (λ both. h)
                        (λ nothing. tt))))
            (λ set. h)))
        (λ controlled. h)

-- Both directions for the request/response tests.
unfoldable pub legacy_direction : Bytes → ℕ
legacy_direction name =
    if same_nocase name (codes "TCP_STREAM")
    then 2
    else if same_nocase name (codes "TCP_MAERTS")
    then 4
    else if same_nocase name (codes "TCP_RR")
    then 6
    else if same_nocase name (codes "UDP_STREAM")
    then 0
    else if same_nocase name (codes "UDP_RR")
    then 6
    else if same_nocase name (codes "TCP_CC")
    then 0
    else if same_nocase name (codes "TCP_CRR")
    then 6
    else 0

module _ (p : Platform) where
  defaults-IsLegacy :
      (globals : Options)
      → same_nocase globals.test_name (codes "omni") ≡ false
      → IsLegacy
          (legacy_direction globals.test_name)
          (set_omni_defaults_by_legacy_testname p (before_omni p globals))
  unfolding set_omni_defaults_by_legacy_testname before_omni legacy_direction
  defaults-IsLegacy globals other = record {
    was_legacy = ground arith;
    implicit = ground arith;
    same = ground arith;
  }

  finish_omni_args-direction :
      (uuid : Bytes) (fopen : Bytes → Option Bytes) (o : OmniOptions)
      → OfSome
          (λ o'. o'.direction ≡ or_xmit o.direction o'.connection_test)
          (finish_omni_args p uuid fopen o)
  unfolding finish_omni_args finish_uuid
  finish_omni_args-direction uuid fopen o = last (finish_port settled) (
      with_port p d c settled (
        in_units p d c _ (
          sized p d c _ (
            kept p d c _ (
              routed p d c _ (
                if_cases (λ o'. Goes d c (finish_direction o')) o.have_uuid o _
                  (λ own. directed p o.direction c o refl refl)
                  (λ made. directed p o.direction c _ refl refl)))))))
    where
      c : Bool
      c = o.connection_test

      d : ℕ
      d = or_xmit o.direction o.connection_test

      settled : OmniOptions
      settled = finish_units (
          finish_sizes
            (finish_histogram (finish_routing p (finish_direction (finish_uuid uuid o)))))

      told :
          (m : Option OmniOptions)
          → OfSome (Goes d c) m
          → OfSome (λ o'. o'.direction ≡ or_xmit o.direction o'.connection_test) m
      told none h = tt
      told (some o') (same, also) = same ∙ ap (or_xmit o.direction) (sym also)

      last :
          (m : Option OmniOptions)
          → OfSome (Goes d c) m
          → OfSome
              (λ o'. o'.direction ≡ or_xmit o.direction o'.connection_test)
              (elim m as (λ x. Option OmniOptions) [
                | none ↦ none
                | some o' ↦ finish_statistics fopen o'
              ])
      last none h = tt
      last (some o') h = told (finish_statistics fopen o') (counted p d c fopen o' h)

  -- The options of an omni test change the direction of no other test: whatever is given behind a
  -- test name that is not `omni`, if scan_omni_args() does not end the process the test has the
  -- direction of its name or, where that is none and the test is not one of connections, sends.
  pub scan_omni_args-legacy_direction :
      (uuid : Bytes) (fopen : Bytes → Option Bytes) (flags : List OmniFlag) (globals : Options)
      (o : OmniOptions)
      → same_nocase globals.test_name (codes "omni") ≡ false
      → scan_omni_args p uuid fopen flags globals ≡ some o
      → o.direction ≡ or_xmit (legacy_direction globals.test_name) o.connection_test
  unfolding scan_omni_args
  scan_omni_args-legacy_direction uuid fopen flags globals o other e = subst (OfSome P) e (
      whole (scan_omni_options p flags start) (
        scan_omni_options-IsLegacy p (legacy_direction globals.test_name) flags start
          (defaults-IsLegacy globals other)))
    where
      start : OmniOptions
      start = set_omni_defaults_by_legacy_testname p (before_omni p globals)

      P : OmniOptions → Type 0
      P o' = o'.direction ≡ or_xmit (legacy_direction globals.test_name) o'.connection_test

      whole :
          (m : Option OmniOptions)
          → OfSome (IsLegacy (legacy_direction globals.test_name)) m
          → OfSome P (elim m as (λ x. Option OmniOptions) [
            | none ↦ none
            | some o' ↦ finish_omni_args p uuid fopen o'
          ])
      whole none h = tt
      whole (some o') h =
          subst
            (λ d.
              OfSome (λ o''. o''.direction ≡ or_xmit d o''.connection_test)
                (finish_omni_args p uuid fopen o'))
            h.same (finish_omni_args-direction uuid fopen o')
