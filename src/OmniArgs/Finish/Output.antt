-- ===== src/OmniArgs/Finish/Output.antt =====
-- What scan_omni_args() of src/nettest_omni.c does behind its options leaves the choice of the output
-- as it is, once the direction is settled.
use netperf_copilot.Common.{
  ◌≡◌, refl, not, ◌&&◌, ◌||◌, Option, none, some, ltb, ◌==◌, if_cases, Bool-cases, inl, inr, Bytes,
}
use netperf_copilot.Platform.{Platform}
use netperf_copilot.Selection.ByTest.{Printing}
use netperf_copilot.OmniArgs.Globals.{OmniOptions}
use netperf_copilot.OmniArgs.Direction.{OfSome}
use netperf_copilot.OmniArgs.Finish.{
  netperf_is_rr, netperf_cc, finish_uuid, finish_direction, finish_routing, finish_histogram,
  finish_sizes, finish_units, is_port_0, default_port, finish_port, choose_output, xmit_only,
  recv_only, and_no_remote,
}

module _ (p : Platform) (fopen : Bytes → Option Bytes) (chosen : Option Printing) where
  abbrev Chooses : OmniOptions → Type 0
  Chooses o = choose_output fopen o ≡ chosen

  abbrev Keeps : (OmniOptions → OmniOptions) → Type 0
  Keeps f = (o : OmniOptions) → Chooses o → Chooses (f o)

  routed : Keeps (finish_routing p)
  unfolding finish_routing choose_output
  routed o h =
      if_cases Chooses
        (not o.have_R_option && o.protocol == p.ipproto_udp && not (netperf_is_rr o.direction)) _ o
        (λ closed. h) (λ other. h)

  kept : Keeps finish_histogram
  unfolding finish_histogram choose_output
  kept o h = if_cases Chooses (ltb 1 o.verbosity) _ o (λ much. h) (λ little. h)

  sized : Keeps finish_sizes
  unfolding finish_sizes choose_output
  sized o h =
      if_cases Chooses (netperf_is_rr o.direction && not (netperf_cc o.direction)) _ o (λ both. h)
        (λ other. h)

  in_units : Keeps finish_units
  unfolding finish_units choose_output
  in_units o h =
      if_cases Chooses (o.libfmt == b'?') _ _ (λ unset. h)
        (λ set.
          if_cases Chooses (o.libfmt == b'x') _ o
            (λ x. if_cases Chooses (netperf_is_rr o.direction) o _ (λ rr. h) (λ one_way. h))
            (λ other. h))

  without_remote : (m : Option OmniOptions) → OfSome Chooses m → OfSome Chooses (and_no_remote m)
  unfolding choose_output
  without_remote none h = tt
  without_remote (some o) h = h

  with_port : (o : OmniOptions) → Chooses o → OfSome Chooses (finish_port o)
  unfolding finish_port default_port choose_output
  with_port o h =
      if_cases (OfSome Chooses) o.no_control _ (some o)
        (λ alone. without_remote _ (
          if_cases (OfSome Chooses) (is_port_0 o.remote_data_port) _ (some o)
            (λ unset.
              if_cases (OfSome Chooses) (xmit_only o.direction) _ _ (λ xmit. h)
                (λ no_xmit.
                  if_cases (OfSome Chooses) (recv_only o.direction) _ _ (λ recv. h)
                    (λ no_recv.
                      if_cases (OfSome Chooses)
                        (netperf_is_rr o.direction || netperf_cc o.direction) _ none (λ both. h)
                        (λ nothing. tt))))
            (λ set. h)))
        (λ controlled. h)

  pub finish_port-Chooses :
      (o : OmniOptions)
      → Chooses o
      → OfSome Chooses
          (finish_port (finish_units (finish_sizes (finish_histogram (finish_routing p o)))))
  finish_port-Chooses o h = with_port _ (in_units _ (sized _ (kept _ (routed _ h))))

-- The identifier of the test has no part in it.
pub finish_uuid-chosen :
    (fopen : Bytes → Option Bytes) (uuid : Bytes) (o : OmniOptions)
    → choose_output fopen (finish_direction (finish_uuid uuid o))
      ≡ choose_output fopen (finish_direction o)
unfolding finish_uuid finish_direction choose_output
finish_uuid-chosen fopen uuid o = elim (Bool-cases o.have_uuid) [
  | inl own ↦ rw own refl
  | inr made ↦ elim (Bool-cases (o.direction == 0 && not o.connection_test)) [
    | inl unset ↦ rw (made, unset) refl
    | inr set ↦ rw (made, set) refl
  ]
]
