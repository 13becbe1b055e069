-- ===== src/OmniArgs/Direction.antt =====
-- The options of scan_omni_args() in src/nettest_omni.c leave the direction of a test alone that is
-- not the omni test.
use netperf_copilot.Common.{
  ◌≡◌, arith, ℕ, Bool, true, false, List, [], ◌∷◌, Option, none, some, Bytes,
}
use netperf_copilot.Platform.{Platform}
use netperf_copilot.Args.{break_args}
use netperf_copilot.OmniArgs.Globals.{OmniOptions, OutputMode}
use netperf_copilot.OmniArgs.Handlers.{
  given, pair_of, set_direction, set_remote_family, set_local_family, set_remote_address,
  set_local_address, set_output, set_congestion, set_send_sizes, set_recv_sizes, set_socket_type,
  set_protocol,
}
use netperf_copilot.OmniArgs.{
  OmniFlag, scan_omni_option, scan_omni_options, direction, remote_address, local_address, output,
  congestion, send_sizes, recv_sizes, client_ports, data_ports, request_sizes, local_socket,
  remote_socket, socket_kind, transport,
}

-- A test by its own name, with a direction that no option changes.
pub record IsLegacy (d : ℕ) (o : OmniOptions) : Type 0 where
  pub was_legacy : o.was_legacy ≡ true
  pub implicit : o.implicit_direction ≡ false
  pub same : o.direction ≡ d

abbrev pub OfSome : (OmniOptions → Type 0) → Option OmniOptions → Type 0
OfSome P none = Unit
OfSome P (some o) = P o

module _ (p : Platform) (d : ℕ) where
  given-IsLegacy :
      (arg : Bytes) (f : OmniOptions → OmniOptions) (o : OmniOptions)
      → ((o : OmniOptions) → IsLegacy d o → IsLegacy d (f o))
      → IsLegacy d o
      → IsLegacy d (given arg f o)
  unfolding given
  given-IsLegacy [] f o keeps h = h
  given-IsLegacy (c ∷ arg) f o keeps h = keeps o h

  pair_of-IsLegacy :
      (arg : Bytes) (first second : Bytes → OmniOptions → OmniOptions) (o : OmniOptions)
      → ((a : Bytes) (o : OmniOptions) → IsLegacy d o → IsLegacy d (first a o))
      → ((a : Bytes) (o : OmniOptions) → IsLegacy d o → IsLegacy d (second a o))
      → IsLegacy d o
      → IsLegacy d (pair_of arg first second o)
  unfolding pair_of
  pair_of-IsLegacy arg first second o first_keeps second_keeps h =
      given-IsLegacy (break_args arg).1 _ _ (second_keeps (break_args arg).1)
        (given-IsLegacy (break_args arg).0 _ o (first_keeps (break_args arg).0) h)

  set_remote_family-IsLegacy :
      (arg : Bytes) (o : OmniOptions)
      → IsLegacy d o
      → OfSome (IsLegacy d) (set_remote_family p arg o)
  set_remote_family-IsLegacy [] o h = h
  set_remote_family-IsLegacy (c ∷ arg) o h = ground arith

  set_local_family-IsLegacy :
      (arg : Bytes) (o : OmniOptions)
      → IsLegacy d o
      → OfSome (IsLegacy d) (set_local_family p arg o)
  set_local_family-IsLegacy [] o h = h
  set_local_family-IsLegacy (c ∷ arg) o h = ground arith

  set_remote_address-IsLegacy :
      (arg : Bytes) (o : OmniOptions)
      → IsLegacy d o
      → OfSome (IsLegacy d) (set_remote_address p arg o)
  unfolding set_remote_address
  set_remote_address-IsLegacy arg o h = set_remote_family-IsLegacy _ _ (
      given-IsLegacy _ _ o
        (λ o h.
          given-IsLegacy _ _ _ (λ o h. ground arith) (given-IsLegacy _ _ o (λ o h. ground arith) h))
        h)

  set_local_address-IsLegacy :
      (arg : Bytes) (o : OmniOptions)
      → IsLegacy d o
      → OfSome (IsLegacy d) (set_local_address p arg o)
  unfolding set_local_address
  set_local_address-IsLegacy arg o h = set_local_family-IsLegacy _ _ (
      given-IsLegacy _ _ o
        (λ o h.
          given-IsLegacy _ _ _ (λ o h. ground arith) (given-IsLegacy _ _ o (λ o h. ground arith) h))
        h)

  set_send_sizes-IsLegacy :
      (arg : Bytes) (o : OmniOptions) → IsLegacy d o → IsLegacy d (set_send_sizes arg o)
  unfolding set_send_sizes
  set_send_sizes-IsLegacy arg o h =
      given-IsLegacy _ _ _ (λ o h. ground arith) (given-IsLegacy _ _ o (λ o h. ground arith) h)

  set_recv_sizes-IsLegacy :
      (arg : Bytes) (o : OmniOptions) → IsLegacy d o → IsLegacy d (set_recv_sizes arg o)
  unfolding set_recv_sizes
  set_recv_sizes-IsLegacy arg o h =
      given-IsLegacy _ _ _ (λ o h. ground arith) (given-IsLegacy _ _ o (λ o h. ground arith) h)

  set_congestion-IsLegacy :
      (beyond : Bool) (arg : Bytes) (o : OmniOptions)
      → IsLegacy d o
      → IsLegacy d (set_congestion beyond arg o)
  unfolding set_congestion
  set_congestion-IsLegacy beyond arg o h =
      congested (given-IsLegacy (break_args arg).0 _ o (λ o h. ground arith) h)
    where
      congested :
          {o' : OmniOptions} {text : Bytes}
          → IsLegacy d o'
          → IsLegacy d (record o' { remote_cong_control_req = text })
      congested h = ground arith

  set_output-IsLegacy :
      (mode : OutputMode) (spec : Option Bytes) (o : OmniOptions)
      → IsLegacy d o
      → OfSome (IsLegacy d) (set_output mode spec o)
  unfolding set_output
  set_output-IsLegacy mode none o h = ground arith
  set_output-IsLegacy mode (some spec) o h = ground arith

  scan_omni_option-IsLegacy :
      (f : OmniFlag) (o : OmniOptions) → IsLegacy d o → OfSome (IsLegacy d) (scan_omni_option p f o)
  unfolding scan_omni_option set_direction set_socket_type set_protocol
  scan_omni_option-IsLegacy (remote_address arg) o h = set_remote_address-IsLegacy arg o h
  scan_omni_option-IsLegacy (local_address arg) o h = set_local_address-IsLegacy arg o h
  scan_omni_option-IsLegacy (output mode spec) o h = set_output-IsLegacy mode spec o h
  scan_omni_option-IsLegacy (congestion beyond arg) o h = set_congestion-IsLegacy beyond arg o h
  scan_omni_option-IsLegacy (send_sizes arg) o h = set_send_sizes-IsLegacy arg o h
  scan_omni_option-IsLegacy (recv_sizes arg) o h = set_recv_sizes-IsLegacy arg o h
  scan_omni_option-IsLegacy (client_ports arg) o h =
      pair_of-IsLegacy arg _ _ o (λ a o h. ground arith) (λ a o h. ground arith) h
  scan_omni_option-IsLegacy (data_ports arg) o h =
      pair_of-IsLegacy arg _ _ o (λ a o h. ground arith) (λ a o h. ground arith) h
  scan_omni_option-IsLegacy (request_sizes arg) o h =
      pair_of-IsLegacy arg _ _ _ (λ a o h. ground arith) (λ a o h. ground arith) (ground arith)
  scan_omni_option-IsLegacy (local_socket arg) o h =
      pair_of-IsLegacy arg _ _ o (λ a o h. ground arith) (λ a o h. ground arith) h
  scan_omni_option-IsLegacy (remote_socket arg) o h =
      pair_of-IsLegacy arg _ _ o (λ a o h. ground arith) (λ a o h. ground arith) h
  scan_omni_option-IsLegacy (direction arg) o h = ground arith
  scan_omni_option-IsLegacy (socket_kind arg) o h = ground arith
  scan_omni_option-IsLegacy (transport arg) o h = ground arith
  scan_omni_option-IsLegacy _ o h = ground arith

  pub scan_omni_options-IsLegacy :
      (flags : List OmniFlag) (o : OmniOptions)
      → IsLegacy d o
      → OfSome (IsLegacy d) (scan_omni_options p flags o)
  unfolding scan_omni_options
  scan_omni_options-IsLegacy [] o h = h
  scan_omni_options-IsLegacy (f ∷ flags) o h =
      next (scan_omni_option p f o) (scan_omni_option-IsLegacy f o h)
        (scan_omni_options-IsLegacy flags)
    where
      next :
          (m : Option OmniOptions)
          → OfSome (IsLegacy d) m
          → ((o : OmniOptions) → IsLegacy d o → OfSome (IsLegacy d) (scan_omni_options p flags o))
          → OfSome (IsLegacy d) (elim m [ none ↦ none | some o' ↦ scan_omni_options p flags o' ])
      next none now later = tt
      next (some o) now later = later o now
