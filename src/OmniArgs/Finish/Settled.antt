-- ===== src/OmniArgs/Finish/Settled.antt =====
-- What an omni test is settled to behind scan_omni_args() of src/nettest_omni.c.
use mathlib.Core.Path.{subst}
use netperf_copilot.Common.{
  ◌≡◌, ◌≢◌, ◌∙◌, refl, sym, arith, ℕ, zero, suc, Bool, true, false, not, ◌&&◌, ◌||◌, [], ◌∷◌,
  Option, none, some, ltb, ◌==◌, Bool-cases, inl, inr, if_cases, if◌then◌else◌, ℤ, pos, negsuc,
  Bytes, take,
}
use netperf_copilot.Platform.{Platform}
use netperf_copilot.Output.{has_xmit, has_recv}
use netperf_copilot.OmniArgs.Globals.{OmniOptions}
use netperf_copilot.Selection.ByTest.{Printing}
use netperf_copilot.OmniArgs.Direction.{OfSome}
use netperf_copilot.OmniArgs.Finish.Output.{finish_port-Chooses, finish_uuid-chosen}
use netperf_copilot.OmniArgs.Finish.{
  netperf_is_rr, netperf_cc, finish_uuid, finish_direction, finish_routing, finish_histogram,
  finish_sizes, finish_units, is_port_0, default_port, finish_port, wants_statistics,
  with_statistics, choose_output, finish_statistics, finish_omni_args, one_if_unset, xmit_only,
  recv_only, and_no_remote,
}

abbrev pub HasDirection : OmniOptions → Type 0
HasDirection o = o.direction ≡ 0 → o.connection_test ≡ true

abbrev pub IsLatched : Platform → OmniOptions → Type 0
IsLatched p o =
    o.have_R_option ≡ false
    → o.protocol ≡ p.ipproto_udp
    → netperf_is_rr o.direction ≡ false
    → o.routing_allowed ≡ pos 0

abbrev pub IsSized : OmniOptions → Type 0
IsSized o =
    netperf_is_rr o.direction ≡ true
    → netperf_cc o.direction ≡ false
    → (o.req_size ≢ negsuc 0) × (o.rsp_size ≢ negsuc 0)

abbrev pub HasUnits : OmniOptions → Type 0
HasUnits o =
    ((o.libfmt == b'?') ≡ false) × ((o.libfmt == b'x') ≡ true → netperf_is_rr o.direction ≡ true)

abbrev pub IsReachable : OmniOptions → Type 0
IsReachable o = o.no_control ≡ true → is_port_0 o.remote_data_port ≡ false

-- A test has a direction or is one of connections; UDP in one direction is not routed unless -R has
-- been given; requests and responses have sizes where there are any; the units are settled, and
-- transactions only where there are any; without netserver there is a port to send to.
pub record IsSettled (p : Platform) (o : OmniOptions) : Type 0 where
  pub has_direction : HasDirection o
  pub latched : IsLatched p o
  pub sized : IsSized o
  pub units : HasUnits o
  pub reachable : IsReachable o

finish_direction-HasDirection : (o : OmniOptions) → HasDirection (finish_direction o)
unfolding finish_direction
finish_direction-HasDirection o =
    if_cases HasDirection (o.direction == 0 && not o.connection_test) _ o
      (λ unset zero. absurd (omega (arith, zero))) (λ kept zero. ground arith)

finish_routing-IsLatched : (p : Platform) (o : OmniOptions) → IsLatched p (finish_routing p o)
unfolding finish_routing
finish_routing-IsLatched p o =
    if_cases (IsLatched p)
      (not o.have_R_option && o.protocol == p.ipproto_udp && not (netperf_is_rr o.direction)) _ o
      (λ closed no_R udp one_way. refl) (λ other no_R udp one_way. ground arith)

one_if_unset_set : (n : ℤ) → one_if_unset n ≢ negsuc 0
one_if_unset_set (pos n) e = ground (arith, e)
one_if_unset_set (negsuc zero) e = ground (arith, e)
one_if_unset_set (negsuc (suc n)) e = ground (arith, e)

finish_sizes-IsSized : (o : OmniOptions) → IsSized (finish_sizes o)
unfolding finish_sizes
finish_sizes-IsSized o =
    if_cases IsSized (netperf_is_rr o.direction && not (netperf_cc o.direction)) _ o
      (λ both rr no_cc. (one_if_unset_set o.req_size, one_if_unset_set o.rsp_size))
      (λ other rr no_cc.
        absurd (both (netperf_is_rr o.direction) (netperf_cc o.direction) other rr no_cc))
  where
    both : (a b : Bool) → (a && not b) ≡ false → a ≡ true → b ≡ false → ⊥
    both a b h a_true b_false = ground arith

finish_units-HasUnits : (o : OmniOptions) → HasUnits (finish_units o)
unfolding finish_units
finish_units-HasUnits o =
    if_cases HasUnits (o.libfmt == b'?') _ _ (λ unset. settled (netperf_is_rr o.direction))
      (λ set.
        if_cases HasUnits (o.libfmt == b'x') _ o
          (λ x.
            if_cases HasUnits (netperf_is_rr o.direction) o _ (λ rr. (set, λ x. rr))
              (λ one_way. (refl, λ x. absurd (ground (arith, x)))))
          (λ other. (set, λ x. absurd (ground (arith, other, x)))))
  where
    settled :
        (rr : Bool)
        → (((if rr then b'x' else b'm') == b'?') ≡ false)
          × (((if rr then b'x' else b'm') == b'x') ≡ true → rr ≡ true)
    settled true = (refl, λ x. refl)
    settled false = (refl, λ x. ground (arith, x))

-- There is a result, and it has the property.
abbrev pub IsSomeOf : (OmniOptions → Type 0) → Option OmniOptions → Type 0
IsSomeOf P none = ⊥
IsSomeOf P (some o) = P o

is_port_0-take : (s : Bytes) → is_port_0 s ≡ false → is_port_0 (take 9 s) ≡ false
is_port_0-take [] h = refl
is_port_0-take (c ∷ []) h = h
is_port_0-take (c ∷ d ∷ s) h = refl

module _ (p : Platform) where
  -- All but the port.
  record IsNearlySettled (o : OmniOptions) : Type 0 where
    has_direction : HasDirection o
    latched : IsLatched p o
    sized : IsSized o
    units : HasUnits o

  abbrev HasPort : OmniOptions → Type 0
  HasPort o = IsNearlySettled o × (is_port_0 o.remote_data_port ≡ false)

  and_no_remote-IsSettled :
      (m : Option OmniOptions) → IsSomeOf HasPort m → IsSomeOf (IsSettled p) (and_no_remote m)
  and_no_remote-IsSettled none h = h
  and_no_remote-IsSettled (some o) (h, set) = record {
    has_direction = h.has_direction;
    latched = h.latched;
    sized = h.sized;
    units = h.units;
    reachable = λ alone. is_port_0-take o.remote_data_port set;
  }

  default_port-HasPort : (o : OmniOptions) → IsNearlySettled o → IsSomeOf HasPort (default_port o)
  unfolding default_port netperf_is_rr
  default_port-HasPort o h =
      if_cases (IsSomeOf HasPort) (xmit_only o.direction) _ _ (λ xmit. (ground arith, refl))
        (λ no_xmit.
          if_cases (IsSomeOf HasPort) (recv_only o.direction) _ _ (λ recv. (ground arith, refl))
            (λ no_recv.
              if_cases (IsSomeOf HasPort) (netperf_is_rr o.direction || netperf_cc o.direction) _
                none
                (λ both. (
                  record {
                    has_direction = h.has_direction;
                    latched = h.latched;
                    sized = λ rr no_cc. ((h.sized rr no_cc).0, (h.sized rr no_cc).0);
                    units = h.units;
                  },
                  refl,
                ))
                (λ nothing.
                  every (has_xmit o.direction) (has_recv o.direction) no_xmit no_recv nothing)))
    where
      every :
          (x r : Bool)
          → (x && not r) ≡ false
          → (r && not x) ≡ false
          → (((x && r) || not (x || r)) || (not x && not r)) ≡ false
          → ⊥
      every x r no_xmit no_recv nothing = ground arith

  finish_port-IsSettled :
      (o : OmniOptions) → IsNearlySettled o → IsSomeOf (IsSettled p) (finish_port o)
  unfolding finish_port
  finish_port-IsSettled o h =
      if_cases (IsSomeOf (IsSettled p)) o.no_control _ (some o)
        (λ alone. and_no_remote-IsSettled _ (
          if_cases (IsSomeOf HasPort) (is_port_0 o.remote_data_port) _ (some o)
            (λ unset. default_port-HasPort o h) (λ set. (h, set))))
        (λ controlled. record {
          has_direction = h.has_direction;
          latched = h.latched;
          sized = h.sized;
          units = h.units;
          reachable = λ alone. absurd (ground (arith, alone, controlled));
        })

  abbrev IsUnder : OmniOptions → Type 0
  IsUnder o = HasDirection o × IsLatched p o

  routed : (o : OmniOptions) → HasDirection o → IsUnder (finish_routing p o)
  unfolding finish_routing
  routed o h = (
    if_cases HasDirection
        (not o.have_R_option && o.protocol == p.ipproto_udp && not (netperf_is_rr o.direction)) _ o
        (λ closed. h) (λ other. h),
    finish_routing-IsLatched p o,
  )

  kept : (o : OmniOptions) → IsUnder o → IsUnder (finish_histogram o)
  unfolding finish_histogram
  kept o h = if_cases IsUnder (ltb 1 o.verbosity) _ o (λ much. h) (λ little. h)

  sized : (o : OmniOptions) → IsUnder o → IsUnder (finish_sizes o) × IsSized (finish_sizes o)
  unfolding finish_sizes
  sized o h = (
    if_cases IsUnder (netperf_is_rr o.direction && not (netperf_cc o.direction)) _ o (λ both. h)
        (λ other. h),
    finish_sizes-IsSized o,
  )

  with_units : (o : OmniOptions) → IsUnder o × IsSized o → IsNearlySettled (finish_units o)
  unfolding finish_units
  with_units o h = record {
    has_direction = before.0.0;
    latched = before.0.1;
    sized = before.1;
    units = finish_units-HasUnits o;
  }
    where
      before : IsUnder (finish_units o) × IsSized (finish_units o)
      before =
          if_cases (λ o. IsUnder o × IsSized o) (o.libfmt == b'?') _ _ (λ unset. h)
            (λ set.
              if_cases (λ o. IsUnder o × IsSized o) (o.libfmt == b'x') _ o
                (λ x.
                  if_cases (λ o. IsUnder o × IsSized o) (netperf_is_rr o.direction) o _ (λ rr. h)
                    (λ one_way. h))
                (λ other. h))

  -- How what follows the options ends, for the output that print_omni_init() chooses: the process
  -- exits only if that does. Statistics are kept for an output that needs them.
  abbrev pub EndsFor : Option Printing → Bool → Option OmniOptions → Type 0
  EndsFor none legacy none = legacy ≡ false
  EndsFor none legacy (some o) = ⊥
  EndsFor (some q) legacy none = ⊥
  EndsFor (some q) legacy (some o) =
      IsSettled p o
      × (wants_statistics q.selected.desired_output_groups ≡ true
          → (o.keep_statistics ≡ true) × (o.keep_histogram ≡ true))

  with_statistics-IsSettled :
      (groups : ℕ) (o : OmniOptions)
      → IsSettled p o
      → IsSettled p (with_statistics groups o)
        × (wants_statistics groups ≡ true
            → ((with_statistics groups o).keep_statistics ≡ true)
              × ((with_statistics groups o).keep_histogram ≡ true))
  with_statistics-IsSettled groups o h =
      if_cases
        (λ o'.
          IsSettled p o'
          × (wants_statistics groups ≡ true
              → (o'.keep_statistics ≡ true) × (o'.keep_histogram ≡ true)))
        (wants_statistics groups) _ o
        (λ wanted. (
          record {
            has_direction = h.has_direction;
            latched = h.latched;
            sized = h.sized;
            units = h.units;
            reachable = h.reachable;
          },
          λ w. (refl, refl),
        ))
        (λ other. (h, λ w. absurd (cc (w, other))))

  counted :
      (fopen : Bytes → Option Bytes) (o : OmniOptions) (legacy : Bool)
      → (choose_output fopen o ≡ none → legacy ≡ false)
      → IsSettled p o
      → EndsFor (choose_output fopen o) legacy (finish_statistics fopen o)
  unfolding finish_statistics
  counted fopen o legacy may h = over (choose_output fopen o) may
    where
      over :
          (m : Option Printing)
          → (m ≡ none → legacy ≡ false)
          → EndsFor m legacy (elim m as (λ x. Option OmniOptions) [
            | none ↦ none
            | some q ↦ some (with_statistics q.selected.desired_output_groups o)
          ])
      over none may = may refl
      over (some q) may = with_statistics-IsSettled q.selected.desired_output_groups o h

  finish_direction-legacy : (o : OmniOptions) → (finish_direction o).legacy ≡ o.legacy
  unfolding finish_direction
  finish_direction-legacy o =
      if_cases (λ o'. o'.legacy ≡ o.legacy) (o.direction == 0 && not o.connection_test) _ o
        (λ unset. refl) (λ set. refl)

  choose_output-none :
      (fopen : Bytes → Option Bytes) (o : OmniOptions)
      → choose_output fopen o ≡ none
      → o.legacy ≡ false
  unfolding choose_output
  choose_output-none fopen o e = elim (Bool-cases o.legacy) [
    | inl old ↦ absurd (cc (e, old))
    | inr new ↦ new
  ]

  -- Behind its options, whatever they have set, scan_omni_args() exits if and only if
  -- print_omni_init() does for the direction settled, the output selection and the files that can be
  -- opened; it is called only where `legacy` is not set. Otherwise what is left is settled: a test
  -- has a direction or is one of connections; UDP in one direction is not routed unless -R has been
  -- given; the requests and responses of a test that has both have a size; the unit of the results is
  -- known and is transactions only where there are any; without a control connection the text of the
  -- remote data port is not "0"; and statistics are kept if the output selected needs them.
  pub finish_omni_args-IsSettled :
      (uuid : Bytes) (fopen : Bytes → Option Bytes) (o : OmniOptions)
      → EndsFor
          (choose_output fopen (finish_direction o))
          o.legacy
          (finish_omni_args p uuid fopen o)
  unfolding finish_omni_args
  finish_omni_args-IsSettled uuid fopen o =
      last (finish_port settled)
        (finish_port-IsSettled settled
          (with_units _ (sized _ (kept _ (routed _ (finish_direction-HasDirection _))))))
        (finish_port-Chooses p fopen (choose_output fopen (finish_direction o)) _
          (finish_uuid-chosen fopen uuid o))
    where
      settled : OmniOptions
      settled = finish_units (
          finish_sizes
            (finish_histogram (finish_routing p (finish_direction (finish_uuid uuid o)))))

      last :
          (m : Option OmniOptions)
          → IsSomeOf (IsSettled p) m
          → OfSome (λ o'. choose_output fopen o' ≡ choose_output fopen (finish_direction o)) m
          → EndsFor
              (choose_output fopen (finish_direction o))
              o.legacy
              (elim m as (λ x. Option OmniOptions) [
                | none ↦ none
                | some o' ↦ finish_statistics fopen o'
              ])
      last none h same = absurd h
      last (some o') h same =
          subst (λ c. EndsFor c o.legacy (finish_statistics fopen o')) same
            (counted fopen o' o.legacy
              (λ e. sym (finish_direction-legacy o) ∙ choose_output-none fopen _ (sym same ∙ e)) h)
