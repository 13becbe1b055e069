-- ===== src/RecvOmni/Balance.antt =====
-- What the counters of recv_omni() in src/nettest_omni.c keep to, however a run goes.
use netperf_copilot.Common.{
  ℕ, zero, suc, ◌+◌, ◌*◌, ◌≡◌, arith, Bool, true, false, not, ◌&&◌, ◌||◌, List, [], ◌∷◌, ◌==◌,
  if_cases, and_true, ==→eq, ℤ, pos, negsuc,
}
use netperf_copilot.Engine.{
  Test, is_rr, Step, ◌>>=◌, limited, Holds, HoldsAtEnd, >>=-Ends, continue_with-Ends,
}
use netperf_copilot.RecvOmni.{
  Serving, Accepted, connection, interrupted, refused, Round, goes_on, fires, accept_part,
  after_recv, recv_part, after_send, connect_first, send_part, after_close, close_part, count_part,
  serve_round, serve_loop,
}

-- The sends counted account for the bytes and the buffers; a transaction is counted after a send that
-- was counted or failed or an earlier one; a timeout ends the test.
pub record IsBalanced (t : Test) (s : Serving) : Type 0 where
  pub bytes : s.bytes_sent ≡ s.local_send_calls * t.bytes_to_send
  pub buffers : s.send_ring ≡ s.local_send_calls
  pub timeout : s.timed_out ≡ true → s.times_up ≡ true
  pub one_way : is_rr t ≡ false → s.trans_completed ≡ 0
  pub receives : t.recv ≡ false → (s.bytes_received ≡ 0) × (s.local_receive_calls ≡ 0)
  pub sends : t.xmit ≡ false → (s.local_send_calls ≡ 0) × (s.failed_sends ≡ 0)

module _ (t : Test) where
  fires-IsBalanced : (b : Bool) (s : Serving) → IsBalanced t s → IsBalanced t (fires b s)
  fires-IsBalanced b s i = ground arith

  accept_part-IsBalanced :
      (a : Accepted) (s : Serving) → IsBalanced t s → Holds (IsBalanced t) (accept_part t a s)
  unfolding accept_part
  accept_part-IsBalanced connection s i =
      if_cases (Holds (IsBalanced t)) s.need_to_accept _ _ (λ h. ground arith) (λ h. ground arith)
  accept_part-IsBalanced interrupted s i =
      if_cases (Holds (IsBalanced t)) s.need_to_accept _ _ (λ h. ground arith) (λ h. ground arith)
  accept_part-IsBalanced refused s i =
      if_cases (Holds (IsBalanced t)) s.need_to_accept _ _ (λ h. i) (λ h. ground arith)

  after_recv-IsBalanced :
      (r : ℤ) (n : ℕ) (s : Serving)
      → t.recv ≡ true
      → IsBalanced t s
      → Holds (IsBalanced t) (after_recv t r n s)
  unfolding after_recv
  after_recv-IsBalanced (pos zero) n s on i =
      if_cases (Holds (IsBalanced t)) (not (t.connection_test || t.null_message_ok)) _ _
        (λ h. ground arith) (λ h. ground arith)
  after_recv-IsBalanced (pos (suc k)) n s on i = ground arith
  after_recv-IsBalanced (negsuc zero) n s on i = ground arith
  after_recv-IsBalanced (negsuc (suc k)) n s on i = i

  after_send-IsBalanced :
      (r : ℤ) (s : Serving)
      → t.xmit ≡ true
      → IsBalanced t s
      → Holds (IsBalanced t) (after_send t r s)
  unfolding after_send
  after_send-IsBalanced (pos n) s on i =
      if_cases (Holds (IsBalanced t)) (n == t.bytes_to_send) _ _ (λ h. counted (==→eq _ _ h))
        (λ h. if_cases (Holds (IsBalanced t)) (n == 0) _ _ (λ h. i) (λ h. i))
    where
      counted :
          n ≡ t.bytes_to_send
          → IsBalanced t (record s {
            units_remaining = limited t.recv s.units_remaining n;
            bytes_sent = s.bytes_sent + n;
            send_ring = s.send_ring + 1;
            local_send_calls = s.local_send_calls + 1;
          })
      counted h = record {
        bytes = grind (arith, i.bytes);
        buffers = omega (arith, i.buffers);
        timeout = i.timeout;
        one_way = i.one_way;
        receives = i.receives;
        sends = λ off. absurd (cc);
      }
  after_send-IsBalanced (negsuc zero) s on i = ground arith
  after_send-IsBalanced (negsuc (suc zero)) s on i = ground arith
  after_send-IsBalanced (negsuc (suc (suc k))) s on i = i

  recv_part-IsBalanced :
      (r : Round) (s : Serving) → IsBalanced t s → Holds (IsBalanced t) (recv_part t r s)
  unfolding recv_part
  recv_part-IsBalanced r s i =
      if_cases (Holds (IsBalanced t)) (t.recv && goes_on (fires r.fires_first s)) _ _
        (λ h.
          after_recv-IsBalanced r.received r.temp_recvs _ (and_true _ _ h).0
            (fires-IsBalanced r.fires_first s i))
        (λ h. fires-IsBalanced r.fires_first s i)

  connect_first-IsBalanced :
      (ok : Bool) (s : Serving) → IsBalanced t s → Holds (IsBalanced t) (connect_first t ok s)
  unfolding connect_first
  connect_first-IsBalanced ok s i =
      if_cases (Holds (IsBalanced t)) (t.is_udp && t.need_to_connect && not s.connected && not ok) _
        _ (λ refused. i) (λ able. ground arith)

  send_part-IsBalanced :
      (r : Round) (s : Serving) → IsBalanced t s → Holds (IsBalanced t) (send_part t r s)
  unfolding send_part
  send_part-IsBalanced r s i =
      if_cases (Holds (IsBalanced t)) (t.xmit && goes_on (fires r.fires_between s)) _ _
        (λ h.
          >>=-Ends (IsBalanced t) (IsBalanced t) (IsBalanced t) (IsBalanced t)
            (connect_first t r.connecting (fires r.fires_between s)) _
            (connect_first-IsBalanced r.connecting _ (fires-IsBalanced r.fires_between s i))
            (λ s'. after_send-IsBalanced r.sent s' (and_true _ _ h).0))
        (λ h. fires-IsBalanced r.fires_between s i)

  after_close-IsBalanced :
      (r : ℤ) (s : Serving) → IsBalanced t s → Holds (IsBalanced t) (after_close r s)
  unfolding after_close
  after_close-IsBalanced (pos n) s i = ground arith
  after_close-IsBalanced (negsuc zero) s i = ground arith
  after_close-IsBalanced (negsuc (suc k)) s i = i

  close_part-IsBalanced :
      (r : Round) (s : Serving) → IsBalanced t s → Holds (IsBalanced t) (close_part t r s)
  unfolding close_part
  close_part-IsBalanced r s i =
      if_cases (Holds (IsBalanced t)) t.connection_test _ _
        (λ h. after_close-IsBalanced r.closing s i) (λ h. i)

  count_part-IsBalanced :
      (r : Round) (s : Serving) → IsBalanced t s → Holds (IsBalanced t) (count_part t r s)
  unfolding count_part
  count_part-IsBalanced r s i =
      if_cases (Holds (IsBalanced t)) (is_rr t) _ _ (λ h. ground arith) (λ h. ground arith)

  serve_round-IsBalanced :
      (r : Round) (s : Serving) → IsBalanced t s → Holds (IsBalanced t) (serve_round t r s)
  unfolding serve_round
  serve_round-IsBalanced r s i =
      >>=-Ends P P P P closed (count_part t r)
        (>>=-Ends P P P P sent (close_part t r)
          (>>=-Ends P P P P received (send_part t r)
            (>>=-Ends P P P P accepted (recv_part t r) (accept_part-IsBalanced r.accepting s i)
              (recv_part-IsBalanced r))
            (send_part-IsBalanced r))
          (close_part-IsBalanced r))
        (count_part-IsBalanced r)
    where
      P : Serving → Type 0
      P = IsBalanced t

      accepted : Step Serving
      accepted = accept_part t r.accepting s

      received : Step Serving
      received = accepted >>= recv_part t r

      sent : Step Serving
      sent = received >>= send_part t r

      closed : Step Serving
      closed = sent >>= close_part t r

  -- However the calls of recv_omni() come out and whenever the timer fires, its loop keeps the
  -- counters in balance: the bytes sent and the buffers used are those of the sends that it counts, a
  -- test in one direction counts no transaction and nothing of the other direction, and a test that
  -- timed out has its time up.
  pub serve_loop-IsBalanced :
      (rounds : List Round) (s : Serving)
      → IsBalanced t s
      → HoldsAtEnd (IsBalanced t) (IsBalanced t) (serve_loop t rounds s)
  unfolding serve_loop
  serve_loop-IsBalanced [] s i =
      if_cases (HoldsAtEnd (IsBalanced t) (IsBalanced t)) (goes_on s) _ _ (λ h. i) (λ h. i)
  serve_loop-IsBalanced (r ∷ rounds) s i =
      if_cases (HoldsAtEnd (IsBalanced t) (IsBalanced t)) (goes_on s) _ _
        (λ h.
          continue_with-Ends (IsBalanced t) (IsBalanced t) (serve_round t r s) _
            (serve_round-IsBalanced r s i) (serve_loop-IsBalanced rounds))
        (λ h. i)
