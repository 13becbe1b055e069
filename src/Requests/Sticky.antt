-- ===== src/Requests/Sticky.antt =====
-- The responses of process_requests() in src/netserver.c.
use netperf_copilot.Common.{
  ℕ, ◌+◌, ◌≡◌, refl, arith, Bool, true, false, List, [], ◌∷◌, ◌==◌, if◌then◌else◌, length,
  length-append, if_cases,
}
use netperf_copilot.Platform.{is_in}
use netperf_copilot.Requests.{
  debug_on, debug_off, cpu_calibrate, passphrase, do_sysinfo, test_requests, Netserver, Event,
  responded, tested, serve, process_requests,
}

abbrev pub count_passphrase : List ℕ → ℕ
count_passphrase [] = 0
count_passphrase (t ∷ requests) = (if t == passphrase then 1 else 0) + count_passphrase requests

-- The types that the switch has a case for.
abbrev pub known_requests : List ℕ
known_requests = debug_on ∷ debug_off ∷ do_sysinfo ∷ cpu_calibrate ∷ passphrase ∷ test_requests

-- A response with error 998.
abbrev pub Fails : Event → Type 0
Fails (responded t n) = n ≡ 998
Fails (tested t) = ⊥

module _ (run_test : ℕ → Netserver → Netserver) (suppress_debug : Bool) where
  length-serve :
      (t : ℕ) (s : Netserver)
      → length (serve run_test suppress_debug t s).1 + (if t == passphrase then 1 else 0) ≡ 1
  unfolding serve
  length-serve t s =
      if_cases P (t == debug_on) _ _ (λ h. one t (ground arith))
        (λ n.
          if_cases P (t == debug_off) _ _ (λ h. one t (ground arith))
            (λ n.
              if_cases P (t == do_sysinfo) _ _ (λ h. one t (ground arith))
                (λ n.
                  if_cases P (t == cpu_calibrate) _ _ (λ h. one t (ground arith))
                    (λ n.
                      if_cases P (is_in t test_requests) _ _ (λ h. one t (ground arith))
                        (λ n.
                          if_cases P (t == passphrase) _ _ (λ h. zero_of t h) (λ h. one t h))))))
    where
      P : Netserver × List Event → Type 0
      P r = length r.1 + (if t == passphrase then 1 else 0) ≡ 1

      one : (k : ℕ) → (k == passphrase) ≡ false → 1 + (if k == passphrase then 1 else 0) ≡ 1
      one k h = ground arith

      zero_of : (k : ℕ) → (k == passphrase) ≡ true → 0 + (if k == passphrase then 1 else 0) ≡ 1
      zero_of k h = ground arith

  -- process_requests() answers every request once, by a response or by running a test, but does not
  -- answer a passphrase.
  pub length-process_requests :
      (requests : List ℕ) (s : Netserver)
      → length (process_requests run_test suppress_debug requests s).1 + count_passphrase requests
        ≡ length requests
  unfolding process_requests
  length-process_requests [] s = refl
  length-process_requests (t ∷ requests) s = omega (
    arith,
    length-append (serve run_test suppress_debug t s).1
        (process_requests run_test suppress_debug requests (serve run_test suppress_debug t s).0).1,
    length-serve t s,
    length-process_requests requests (serve run_test suppress_debug t s).0,
  )
