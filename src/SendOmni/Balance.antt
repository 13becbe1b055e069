-- ===== src/SendOmni/Balance.antt =====
-- Requests and timestamps in the loop of send_omni_inner() of src/nettest_omni.c.
use netperf_copilot.Common.{
  ℕ, zero, suc, ◌+◌, ◌%◌, ◌≤◌, ◌<◌, ◌≡◌, ◌∙◌, refl, sym, arith, true, not, ◌&&◌, ◌||◌, List, [],
  ◌∷◌, ◌==◌, if◌then◌else◌, if_cases, ℤ, pos, negsuc,
}
use netperf_copilot.Engine.{
  Test, is_rr, Step, goes, ◌>>=◌, Ends, HoldsAtEnd, >>=-Ends, continue_with-Ends,
}
use netperf_copilot.Hist.Stamps.{add_turn, turned}
use netperf_copilot.SendOmni.{
  Driving, Attempt, Round, goes_on, ring_limit, stamp, unstamp, count_transaction, open_socket,
  retry, after_connect, connect_loop, wants_burst, after_burst, burst_loop, after_send, send_part,
  after_recv, recv_part, after_disconnect, close_part, count_part, drive_round, drive_loop,
}

-- The producer's place of the ring lies as many places behind the consumer's as timestamps are
-- counted, round and round where they are more than the ring has places.
pub record IsRing (t : Test) (s : Driving) : Type 0 where
  pub consumer_in : s.consumer < ring_limit t
  pub producer_at : s.producer ≡ (s.consumer + s.stamps) % ring_limit t

-- No more requests are outstanding than the burst. There are as many timestamps as requests and
-- `more`, and no more beyond those than sends that failed.
pub record IsPaired (t : Test) (more : ℕ) (s : Driving) : Type 0 where
  pub burst : s.requests_outstanding ≤ t.first_burst_size
  pub stamped : s.requests_outstanding + more ≤ s.stamps
  pub extra : s.stamps ≤ s.requests_outstanding + more + s.failed_sends
  pub ring : IsRing t s

-- The same where the loop has ended in the middle of a round.
pub record IsPairedAtEnd (t : Test) (s : Driving) : Type 0 where
  pub burst : s.requests_outstanding ≤ t.first_burst_size + 1
  pub stamped : s.requests_outstanding ≤ s.stamps
  pub extra : s.stamps ≤ s.requests_outstanding + 1 + s.failed_sends
  pub ring : IsRing t s

pub ring_limit_pos : (t : Test) → 1 < ring_limit t
unfolding ring_limit
ring_limit_pos t = ground arith

pub one_on : (c limit : ℕ) → 1 < limit → (c + 1) % limit < limit
one_on c limit l = grind arith

module _ (t : Test) (recv : t.recv ≡ true) (keep : t.keep_histogram ≡ true)
    (some_burst : 0 < t.first_burst_size) where
  abbrev Head : Driving → Type 0
  Head = IsPaired t 0

  abbrev Middle : Driving → Type 0
  Middle = IsPaired t 1

  abbrev Tail : Driving → Type 0
  Tail = IsPairedAtEnd t

  abbrev Good : (Driving → Type 0) → Step Driving → Type 0
  Good = Ends Head Tail

  -- After the send there is a request for the response that follows.
  record IsSent (s : Driving) : Type 0 where
    pub sent_one : 1 ≤ s.requests_outstanding
    pub burst : s.requests_outstanding ≤ t.first_burst_size + 1
    pub stamped : s.requests_outstanding ≤ s.stamps
    pub extra : s.stamps ≤ s.requests_outstanding + s.failed_sends
    pub ring : IsRing t s

  stamped-IsRing :
      (s : Driving)
      → IsRing t s
      → IsRing t (record s { producer = (s.producer + 1) % ring_limit t; stamps = s.stamps + 1 })
  stamped-IsRing s i = record {
    consumer_in = i.consumer_in;
    producer_at = add_turn s.producer s.consumer s.stamps (ring_limit t) i.producer_at;
  }

  stamp-IsRing : (s : Driving) → IsRing t s → IsRing t (stamp t s)
  unfolding stamp
  stamp-IsRing s i = if_cases (IsRing t) t.keep_histogram _ _ (λ h. stamped-IsRing s i) (λ h. i)

  -- A state with one timestamp fewer than it needs.
  stamp_short :
      (s : Driving)
      → s.requests_outstanding ≤ t.first_burst_size
      → s.requests_outstanding ≤ s.stamps
      → s.stamps ≤ s.requests_outstanding + s.failed_sends
      → IsRing t s
      → Middle (stamp t s)
  unfolding stamp
  stamp_short s room stamped extra ring =
      if_cases Middle t.keep_histogram _ _
        (λ h. record {
          burst = room;
          stamped = omega (arith, stamped);
          extra = omega (arith, extra);
          ring = stamped-IsRing s ring;
        })
        (λ h. absurd (cc (h, keep)))

  same-IsRing :
      (s s' : Driving)
      → s'.consumer ≡ s.consumer
      → s'.producer ≡ s.producer
      → s'.stamps ≡ s.stamps
      → IsRing t s
      → IsRing t s'
  same-IsRing s s' c p n i = record {
    consumer_in = rw c i.consumer_in;
    producer_at = rw (c, p, n) i.producer_at;
  }

  at_end : (s : Driving) → Middle s → Tail s
  at_end s i = ground arith

  sent_at_end : (s : Driving) → IsSent s → Tail s
  sent_at_end s i = ground arith

  open_socket-IsPaired : (s : Driving) → Middle s → Middle (open_socket t s)
  unfolding open_socket
  open_socket-IsPaired s i = if_cases Middle s.need_socket _ _ (λ h. ground arith) (λ h. i)

  retry-IsPaired : (s : Driving) → Middle s → Middle (retry s)
  unfolding retry
  retry-IsPaired s i = ground arith

  after_connect-IsPaired :
      (v : ℤ) (again : Step Driving) (s : Driving)
      → Middle s
      → Good Middle again
      → Good Middle (after_connect t v again s)
  unfolding after_connect
  after_connect-IsPaired (pos zero) again s i g = ground arith
  after_connect-IsPaired (pos (suc n)) again s i g = ground arith
  after_connect-IsPaired (negsuc zero) again s i g = ground arith
  after_connect-IsPaired (negsuc (suc zero)) again s i g =
      if_cases (Good Middle) t.connection_test _ _ (λ h. g) (λ h. at_end s i)
  after_connect-IsPaired (negsuc (suc (suc k))) again s i g = ground arith

  connect_loop-IsPaired :
      (attempts : List Attempt) (s : Driving) → Middle s → Good Middle (connect_loop t attempts s)
  unfolding connect_loop
  connect_loop-IsPaired [] s i =
      if_cases (Good Middle) (s.need_socket || s.need_to_connect && not t.use_fastopen) _ _
        (λ h. at_end s i) (λ h. i)
  connect_loop-IsPaired (a ∷ attempts) s i =
      let opened = open_socket-IsPaired s i in
      if_cases (Good Middle) (s.need_socket && not a.created) _ _ (λ h. at_end _ opened)
        (λ h.
          if_cases (Good Middle) ((open_socket t s).need_to_connect && not t.use_fastopen) _ _
            (λ h'.
              after_connect-IsPaired a.connecting _ (open_socket t s) opened (
                connect_loop-IsPaired attempts (retry (open_socket t s)) (retry-IsPaired _ opened)))
            (λ h'. opened))

  after_burst-IsPaired :
      (v : ℤ) (s : Driving)
      → s.requests_outstanding < t.first_burst_size
      → Middle s
      → Good Middle (after_burst t v s)
  unfolding after_burst
  after_burst-IsPaired (pos n) s room i =
      if_cases (Good Middle) (n == t.bytes_to_send) _ _
        (λ h.
          stamp_short _ (omega (arith, room)) (omega (arith, i.stamped)) (omega (arith, i.extra))
            (same-IsRing s _ refl refl refl i.ring))
        (λ h. at_end s i)
  after_burst-IsPaired (negsuc zero) s room i = at_end s i
  after_burst-IsPaired (negsuc (suc zero)) s room i =
      stamp_short _ i.burst (omega (arith, i.stamped)) (omega (arith, i.extra))
        (same-IsRing s _ refl refl refl i.ring)
  after_burst-IsPaired (negsuc (suc (suc k))) s room i = at_end s i

  burst_room : (s : Driving) → wants_burst t s ≡ true → s.requests_outstanding < t.first_burst_size
  unfolding wants_burst
  burst_room s h = ground arith

  burst_loop-IsPaired :
      (sends : List ℤ) (s : Driving) → Middle s → Good Middle (burst_loop t sends s)
  unfolding burst_loop
  burst_loop-IsPaired [] s i =
      if_cases (Good Middle) (wants_burst t s) _ _ (λ h. at_end s i) (λ h. i)
  burst_loop-IsPaired (v ∷ sends) s i =
      if_cases (Good Middle) (wants_burst t s) _ _
        (λ h.
          >>=-Ends Head Tail Middle Middle (after_burst t v s) (burst_loop t sends)
            (after_burst-IsPaired v s (burst_room s h) i) (burst_loop-IsPaired sends))
        (λ h. i)

  after_send-IsPaired : (v : ℤ) (s : Driving) → Middle s → Good Middle (after_send t v s)
  unfolding after_send
  after_send-IsPaired (pos n) s i =
      if_cases (Good Middle) (n == t.bytes_to_send) _ _ (λ h. ground arith)
        (λ h. if_cases (Good Middle) (n == 0) _ _ (λ h. i) (λ h. at_end s i))
  after_send-IsPaired (negsuc zero) s i = ground arith
  after_send-IsPaired (negsuc (suc zero)) s i = ground arith
  after_send-IsPaired (negsuc (suc (suc k))) s i = at_end s i

  send_part-IsPaired : (r : Round) (s : Driving) → Middle s → Good IsSent (send_part t r s)
  unfolding send_part
  send_part-IsPaired r s i =
      >>=-Ends Head Tail Middle IsSent (if t.xmit then after_send t r.sent s else goes s) _
        (if_cases (Good Middle) t.xmit _ _ (λ h. after_send-IsPaired r.sent s i) (λ h. i))
        (λ s' i'. ground arith)

  after_recv-IsPaired : (v : ℤ) (n : ℕ) (s : Driving) → IsSent s → Good Middle (after_recv t v n s)
  unfolding after_recv
  after_recv-IsPaired (pos zero) n s i =
      if_cases (Good Middle) (not (t.connection_test || t.null_message_ok)) _ _ (λ h. ground arith)
        (λ h. ground arith)
  after_recv-IsPaired (pos (suc k)) n s i = ground arith
  after_recv-IsPaired (negsuc zero) n s i = ground arith
  after_recv-IsPaired (negsuc (suc zero)) n s i = ground arith
  after_recv-IsPaired (negsuc (suc (suc k))) n s i = sent_at_end s i

  recv_part-IsPaired : (r : Round) (s : Driving) → IsSent s → Good Middle (recv_part t r s)
  unfolding recv_part
  recv_part-IsPaired r s i =
      if_cases (Good Middle) t.recv _ _ (λ h. after_recv-IsPaired r.received r.temp_recvs s i)
        (λ h. absurd (cc (h, recv)))

  after_disconnect-IsPaired : (v : ℤ) (s : Driving) → Middle s → Good Middle (after_disconnect v s)
  unfolding after_disconnect
  after_disconnect-IsPaired (pos zero) s i = ground arith
  after_disconnect-IsPaired (pos (suc n)) s i = at_end s i
  after_disconnect-IsPaired (negsuc zero) s i = ground arith
  after_disconnect-IsPaired (negsuc (suc k)) s i = at_end s i

  close_part-IsPaired : (r : Round) (s : Driving) → Middle s → Good Middle (close_part t r s)
  unfolding close_part
  close_part-IsPaired r s i =
      if_cases (Good Middle) t.connection_test _ _
        (λ h. after_disconnect-IsPaired r.disconnecting s i) (λ h. i)

  unstamp-IsPaired : (s : Driving) → Middle s → Good Head (unstamp t s)
  unfolding unstamp
  unstamp-IsPaired s i =
      if_cases (Good Head) (not t.keep_histogram) _ _ (λ h. absurd (ground arith))
        (λ h.
          if_cases (Good Head) (s.consumer == s.producer) _ _ (λ h'. at_end s i)
            (λ h'. record {
              burst = i.burst;
              stamped = omega (arith, i.stamped);
              extra = omega (arith, i.extra, i.stamped);
              ring = record {
                consumer_in = one_on s.consumer (ring_limit t) (ring_limit_pos t);
                producer_at =
                    i.ring.producer_at
                    ∙ sym (turned s.consumer s.stamps (ring_limit t) (omega (arith, i.stamped)));
              };
            }))

  count_transaction-IsPaired : (s : Driving) → Head s → Head (count_transaction t s)
  unfolding count_transaction
  count_transaction-IsPaired s i = if_cases Head (is_rr t) _ _ (λ h. ground arith) (λ h. i)

  count_part-IsPaired : (s : Driving) → Middle s → Good Head (count_part t s)
  unfolding count_part
  count_part-IsPaired s i =
      >>=-Ends Head Tail Head Head (unstamp t s) _ (unstamp-IsPaired s i) count_transaction-IsPaired

  drive_round-IsPaired : (r : Round) (s : Driving) → Head s → Good Head (drive_round t r s)
  unfolding drive_round
  drive_round-IsPaired r s i =
      >>=-Ends Head Tail Middle Head closed (count_part t)
        (>>=-Ends Head Tail Middle Middle received (close_part t r)
          (>>=-Ends Head Tail IsSent Middle sent (recv_part t r)
            (>>=-Ends Head Tail Middle IsSent filled (send_part t r)
              (>>=-Ends Head Tail Middle Middle connected (burst_loop t r.burst)
                (connect_loop-IsPaired r.attempts _ (
                  stamp_short _ i.burst (omega (arith, i.stamped)) (omega (arith, i.extra))
                    (same-IsRing s _ refl refl refl i.ring)))
                (burst_loop-IsPaired r.burst))
              (send_part-IsPaired r))
            (recv_part-IsPaired r))
          (close_part-IsPaired r))
        count_part-IsPaired
    where
      connected : Step Driving
      connected =
          connect_loop t r.attempts (stamp t (record s { times_up = s.times_up || r.fires }))

      filled : Step Driving
      filled = connected >>= burst_loop t r.burst

      sent : Step Driving
      sent = filled >>= send_part t r

      received : Step Driving
      received = sent >>= recv_part t r

      closed : Step Driving
      closed = received >>= close_part t r

  -- In a test with responses and a first burst that keeps the histogram, however the calls of
  -- send_omni_inner() come out and whether its loop goes on or has ended: the requests outstanding
  -- are never more than the burst and one, at least as many timestamps are counted, and beyond those
  -- and that of the round in progress at most one for each send that failed. The ring's producer is
  -- as many places on from its consumer as timestamps are counted, modulo the places of the ring,
  -- which failed sends can fill.
  pub drive_loop-IsPaired :
      (rounds : List Round) (s : Driving)
      → IsPaired t 0 s
      → HoldsAtEnd (IsPaired t 0) (IsPairedAtEnd t) (drive_loop t rounds s)
  unfolding drive_loop
  drive_loop-IsPaired [] s i =
      if_cases (HoldsAtEnd Head Tail) (goes_on s) _ _ (λ h. ground arith) (λ h. ground arith)
  drive_loop-IsPaired (r ∷ rounds) s i =
      if_cases (HoldsAtEnd Head Tail) (goes_on s) _ _
        (λ h.
          continue_with-Ends Head Tail (drive_round t r s) _ (drive_round-IsPaired r s i)
            (drive_loop-IsPaired rounds))
        (λ h. ground arith)
