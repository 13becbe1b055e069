-- ===== src/Server/Options/Holds.antt =====
-- Properties of the settings that the options of netserver leave, src/netserver.c, where they are
-- taken at all.
use netperf_copilot.Common.{
  ℕ, ◌≡◌, ◌⊎◌, inl, inr, ◌≤◌, refl, arith, length, length-take, true, List, [], ◌∷◌, Bytes, none,
  some, Option, take,
}
use netperf_copilot.Platform.{Platform}
use netperf_copilot.Args.{break_args_explicit, parse_address_family}
use netperf_copilot.Server.Options.{
  Settings, ServerFlag, Scanned, taken, exits, reads_past, host_given, family_given, set_listen,
  scan_server_option, scan_netserver_args,
}

abbrev pub OfTaken : (Settings → Type 0) → Scanned → Type 0
OfTaken P (taken s) = P s
OfTaken P (exits code) = Unit
OfTaken P reads_past = Unit

module _ (p : Platform) (P : Settings → Type 0) where
  family_given-Holds :
      (arg : Bytes) (s : Settings)
      → P s
      → ((n : ℕ) → P (record s { local_address_family = n }))
      → OfTaken P (family_given p arg s)
  family_given-Holds [] s now then = now
  family_given-Holds (c ∷ arg) s now then = parsed (parse_address_family p (c ∷ arg))
    where
      parsed :
          (m : Option ℕ)
          → OfTaken P (elim m [
            | none ↦ reads_past
            | some family ↦ taken (record s { local_address_family = family })
          ])
      parsed none = tt
      parsed (some n) = then n

  -- What holds of a server that listens, with any family and with the same host or one that fits,
  -- holds after -L.
  pub set_listen-Holds :
      (arg : Bytes) (s : Settings)
      → ((host : Bytes) (n : ℕ)
          → (host ≡ s.local_host_name) ⊎ (length host ≤ 255)
          → P (record s { not_inetd = true; local_host_name = host; local_address_family = n }))
      → OfTaken P (set_listen p arg s)
  unfolding set_listen
  set_listen-Holds arg s every = host (break_args_explicit arg).0
    where
      fits : (arg1 : Bytes) → length (take 255 arg1) ≤ 255
      fits arg1 = omega (arith, length-take 255 arg1)

      host :
          (arg1 : Bytes)
          → OfTaken P (
              family_given p
                (break_args_explicit arg).1
                (host_given arg1 (record s { not_inetd = true })))
      host [] =
          family_given-Holds (break_args_explicit arg).1 (record s { not_inetd = true })
            (every s.local_host_name s.local_address_family (inl refl))
            (λ n. every s.local_host_name n (inl refl))
      host (c ∷ arg1) =
          family_given-Holds (break_args_explicit arg).1
            (record s { not_inetd = true; local_host_name = take 255 (c ∷ arg1) })
            (every (take 255 (c ∷ arg1)) s.local_address_family (inr (fits (c ∷ arg1))))
            (λ n. every (take 255 (c ∷ arg1)) n (inr (fits (c ∷ arg1))))

  -- What holds after the first option, and after the others wherever the first has led, holds after
  -- all.
  pub scan_netserver_args-Holds :
      (Q : Settings → Type 0) (f : ServerFlag) (flags : List ServerFlag) (s : Settings)
      → OfTaken Q (scan_server_option p f s)
      → ((s' : Settings) → Q s' → OfTaken P (scan_netserver_args p flags s'))
      → OfTaken P (scan_netserver_args p (f ∷ flags) s)
  unfolding scan_netserver_args
  scan_netserver_args-Holds Q f flags s = then (scan_server_option p f s)
    where
      then :
          (m : Scanned)
          → OfTaken Q m
          → ((s' : Settings) → Q s' → OfTaken P (scan_netserver_args p flags s'))
          → OfTaken P (elim m [
            | taken s' ↦ scan_netserver_args p flags s'
            | exits code ↦ exits code
            | reads_past ↦ reads_past
          ])
      then (taken s') now later = later s' now
      then (exits code) now later = tt
      then reads_past now later = tt
