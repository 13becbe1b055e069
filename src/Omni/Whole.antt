-- ===== src/Omni/Whole.antt =====
-- A message sent with send_data() of src/nettest_omni.c and received with recv_data().
use netperf_copilot.Common.{
  ℕ, suc, ◌+◌, ◌-◌, ◌≤◌, ◌<◌, ◌≡◌, refl, ap, ◌∙◌, arith, Bool, true, ◌&&◌, List, [], ◌∷◌, ◌++◌, map,
  Option, none, some, ltb, ◌==◌, if_cases, and_true, ltb→lt, min, ℤ, pos, All, length,
}
use netperf_copilot.Omni.{
  Errors, Call, gave, Ended, after_call, receive_loop, Taken, recv_result, taken, recv_copy,
  splice_result, SpliceState, open_pipe, recv_data,
}

abbrev pub total : List ℕ → ℕ
total [] = 0
total (n ∷ ns) = n + total ns

-- A receive that has all it wants, in so many calls.
abbrev IsWhole : Ended → ℕ → Type 0
IsWhole e most = (e.bytes_left ≡ 0) × ((n : ℕ) × (e.bytes_recvd ≡ pos n)) × (e.recvs ≤ most)

receive_loop-IsWhole :
    (offset left recvs errno : ℕ) (ns : List ℕ) (later : List Call)
    → 0 < left
    → All (λ n. 0 < n) ns
    → left ≤ total ns
    → (e : Ended) × (receive_loop true offset left recvs errno (map gave ns ++ later) ≡ some e)
      × IsWhole e (recvs + length ns)
unfolding receive_loop
receive_loop-IsWhole offset left recvs errno [] later some_left positive enough =
    absurd (omega arith)
receive_loop-IsWhole offset left recvs errno (n ∷ ns) later some_left positive enough =
    if_cases P (min n left == 0) _ _ (λ none_given. absurd (ground (arith, positive.0)))
      (λ some_given.
        if_cases P (ltb 0 (left - min n left) && true) _ _
          (λ more.
            let later_calls =
              receive_loop-IsWhole (offset + min n left) (left - min n left) (recvs + 1) errno ns
                later (ltb→lt _ _ (and_true _ _ more).0) positive.1 (omega arith) in
            (
              after_call (offset, left) later_calls.0,
              ap (λ o. elim o [ none ↦ none | some e ↦ some (after_call (offset, left) e) ])
                  later_calls.1,
              (later_calls.2.0, later_calls.2.1, omega (arith, later_calls.2.2)),
            ))
          (λ last. (_, refl, (ground arith, (min n left, refl), omega arith))))
  where
    P : Option Ended → Type 0
    P o = (e : Ended) × (o ≡ some e) × IsWhole e (recvs + suc (length ns))

module _ (sys : Errors) (pipe_ok open_ok : Bool) (s : SpliceState) where
  recv_result_whole :
      (want n left errno : ℕ) → left ≡ 0 → recv_result sys want (pos n) left errno ≡ pos want
  unfolding recv_result
  recv_result_whole want n left errno none_left = ground arith

  splice_result_whole :
      (want n left errno : ℕ) → left ≡ 0 → splice_result sys want (pos n) left errno ≡ pos want
  unfolding splice_result
  splice_result_whole want n left errno none_left = ground arith

  -- In whichever pieces the bytes of a message arrive, recv_data() with NETPERF_WAITALL comes back
  -- with the whole message, and counts no more receives than pieces.
  pub recv_data_whole :
      (want errno : ℕ) (ns : List ℕ) (later : List Call)
      → 0 < want
      → All (λ n. 0 < n) ns
      → want ≤ total ns
      → (t : Taken) × ((recv_data sys pipe_ok open_ok s true want errno (map gave ns ++ later)).1
          ≡ some t)
        × (t.ret ≡ pos want)
        × (t.num_receives ≤ length ns)
  unfolding recv_data recv_copy
  recv_data_whole want errno ns later some_want positive enough =
      if_cases P s.loc_rcvavoid _ _
        (λ avoid.
          if_cases P (open_pipe pipe_ok open_ok s).1 _ _
            (λ ready. found (splice_result sys want) (splice_result_whole want))
            (λ not_ready. found (recv_result sys want) (recv_result_whole want)))
        (λ plain. found (recv_result sys want) (recv_result_whole want))
    where
      P : SpliceState × Option Taken → Type 0
      P r = (t : Taken) × (r.1 ≡ some t) × (t.ret ≡ pos want) × (t.num_receives ≤ length ns)

      loop :
          (e : Ended) × (receive_loop true 0 want 0 errno (map gave ns ++ later) ≡ some e)
          × IsWhole e (0 + length ns)
      loop = receive_loop-IsWhole 0 want 0 errno ns later some_want positive enough

      found :
          (result : ℤ → ℕ → ℕ → ℤ)
          → ((n left errno : ℕ) → left ≡ 0 → result (pos n) left errno ≡ pos want)
          → (t : Taken) × (taken result (receive_loop true 0 want 0 errno (map gave ns ++ later))
              ≡ some t)
            × (t.ret ≡ pos want)
            × (t.num_receives ≤ length ns)
      found result whole = (
        _,
        ap (taken result) loop.1,
        ap (λ r. result r loop.0.bytes_left loop.0.errno) loop.2.1.1
            ∙ whole loop.2.1.0 loop.0.bytes_left loop.0.errno loop.2.0,
        omega (arith, loop.2.2),
      )
