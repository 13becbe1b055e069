-- ===== src/SendOmni/Stream.antt =====
-- The loop of send_omni_inner() of src/nettest_omni.c in a test that sends a number of bytes.
use mathlib.Core.Path.{subst}
use netperf_copilot.Common.{
  ℕ, ◌+◌, ◌*◌, ◌%◌, ◌≤◌, ◌<◌, ◌≡◌, ◌≢◌, inl, inr, refl, sym, ap, ◌∙◌, arith, Bool, true, false, not,
  ◌&&◌, ◌||◌, List, [], ◌∷◌, ltb, ltb→lt, le→ltb, ltb→le, ◌==◌, ==→eq, ==_self, if◌then◌else◌,
  if_cases, ℤ, pos, sub_ℕ, All, length, Bool-cases,
}
use netperf_copilot.Engine.{Test, is_rr, Step, goes, ◌>>=◌, Run, finished, limited}
use netperf_copilot.Hist.Stamps.{turn-ne}
use netperf_copilot.SendOmni.Balance.{one_on, ring_limit_pos}
use netperf_copilot.SendOmni.{
  Driving, Attempt, Round, goes_on, ring_limit, stamp, unstamp, count_transaction, open_socket,
  retry, after_connect, connect_loop, wants_burst, burst_loop, after_send, send_part, recv_part,
  close_part, count_part, drive_round, drive_loop,
}

-- A test that only sends, over one connection.
pub record IsStream (t : Test) : Type 0 where
  pub xmit : t.xmit ≡ true
  pub recv : t.recv ≡ false
  pub plain : t.connection_test ≡ false
  pub some_bytes : 0 < t.bytes_to_send

-- A state of it after so many sends over an open connection; the bytes of the test not yet sent are
-- the units that remain. The ring holds the round's timestamp if the histogram is kept and the round
-- is `begun`, and is empty otherwise.
pub record IsSending (t : Test) (bytes sends : ℕ) (begun : Bool) (s : Driving) : Type 0 where
  pub untimed : s.times_up ≡ true
  pub socket : s.need_socket ≡ false
  pub connection : (s.need_to_connect && not t.use_fastopen) ≡ false
  pub count : s.local_send_calls ≡ sends
  pub sent : s.bytes_sent ≡ sends * t.bytes_to_send
  pub rest : s.units_remaining ≡ sub_ℕ bytes (sends * t.bytes_to_send)
  pub consumer_in : s.consumer < ring_limit t
  pub producer_at :
      s.producer
      ≡ (if begun && t.keep_histogram then (s.consumer + 1) % ring_limit t else s.consumer)

-- A state in which the loop is entered, with nothing sent and an empty ring.
pub record IsEntering (t : Test) (bytes : ℕ) (s : Driving) : Type 0 where
  pub untimed : s.times_up ≡ true
  pub count : s.local_send_calls ≡ 0
  pub sent : s.bytes_sent ≡ 0
  pub rest : s.units_remaining ≡ pos bytes
  pub consumer_in : s.consumer < ring_limit t
  pub empty : s.producer ≡ s.consumer

-- The first attempt makes the socket and connects it, where that is needed.
abbrev pub Opens : Test → Driving → List Attempt → Type 0
Opens t s [] = (s.need_socket || s.need_to_connect && not t.use_fastopen) ≡ false
Opens t s (a ∷ attempts) =
    (s.need_socket ≡ true → a.created ≡ true)
    × ((s.need_to_connect && not t.use_fastopen) ≡ true → a.connecting ≡ pos 0)

limited_less : (bytes x b : ℕ) → x < bytes → limited false (sub_ℕ bytes x) b ≡ sub_ℕ bytes (x + b)
unfolding limited
limited_less bytes x b more = ground arith

one_more : (n b : ℕ) → n * b + b ≡ (n + 1) * b
one_more n b = grind arith

module _ (t : Test) (str : IsStream t) where
  abbrev Goes : (Driving → Type 0) → Step Driving → Type 0
  Goes P m = (s : Driving) × (m ≡ goes s) × P s

  bind-Goes :
      (P Q : Driving → Type 0) (m : Step Driving) (f : Driving → Step Driving)
      → Goes P m
      → ((s : Driving) → P s → Goes Q (f s))
      → Goes Q (m >>= f)
  bind-Goes P Q m f now later = subst (λ m. Goes Q (m >>= f)) (sym now.1) (later now.0 now.2)

  not_rr : is_rr t ≡ false
  unfolding is_rr
  not_rr = rw (str.recv, str.xmit) refl

  module _ (bytes sends : ℕ) (more : sends * t.bytes_to_send < bytes) where
    abbrev Now : Driving → Type 0
    Now = IsSending t bytes sends true

    abbrev Next : Driving → Type 0
    Next = IsSending t bytes (sends + 1) true

    connect_loop-Goes :
        (attempts : List Attempt) (s : Driving) → Now s → Goes Now (connect_loop t attempts s)
    unfolding connect_loop open_socket
    connect_loop-Goes [] s i = (s, rw (i.socket, i.connection) refl, i)
    connect_loop-Goes (a ∷ attempts) s i = (s, rw (i.socket, i.connection) refl, i)

    burst_loop-Goes : (sends : List ℤ) (s : Driving) → Now s → Goes Now (burst_loop t sends s)
    unfolding burst_loop wants_burst is_rr
    burst_loop-Goes [] s i = (s, ground arith, i)
    burst_loop-Goes (v ∷ sends) s i = (s, ground arith, i)

    after_send-Goes : (s : Driving) → Now s → Goes Next (after_send t (pos t.bytes_to_send) s)
    unfolding after_send
    after_send-Goes s i =
        if_cases (Goes Next) (t.bytes_to_send == t.bytes_to_send) _ _
          (λ h. (
            _,
            refl,
            record {
              untimed = i.untimed;
              socket = i.socket;
              connection = i.connection;
              count = omega (arith, i.count);
              sent = grind (arith, i.sent);
              rest = rest_less s i;
              consumer_in = i.consumer_in;
              producer_at = i.producer_at;
            },
          ))
          (λ h. absurd (cc (h, ==_self t.bytes_to_send)))
      where
        rest_less :
            (s : Driving)
            → Now s
            → limited t.recv s.units_remaining t.bytes_to_send
              ≡ sub_ℕ bytes ((sends + 1) * t.bytes_to_send)
        rest_less s i =
            rw (i.rest, str.recv)
              (limited_less bytes (sends * t.bytes_to_send) t.bytes_to_send more)
            ∙ ap (sub_ℕ bytes) (one_more sends t.bytes_to_send)

    request-IsSending :
        (s : Driving) (n : ℕ) → Next s → Next (record s { requests_outstanding = n })
    request-IsSending s n i = record {
      untimed = i.untimed;
      socket = i.socket;
      connection = i.connection;
      count = i.count;
      sent = i.sent;
      rest = i.rest;
      consumer_in = i.consumer_in;
      producer_at = i.producer_at;
    }

    send_part-Goes :
        (r : Round) (s : Driving)
        → r.sent ≡ pos t.bytes_to_send
        → Now s
        → Goes Next (send_part t r s)
    unfolding send_part
    send_part-Goes r s whole i =
        bind-Goes Next Next (if t.xmit then after_send t r.sent s else goes s) _
          (if_cases (Goes Next) t.xmit _ _
            (λ h. subst (λ v. Goes Next (after_send t v s)) (sym whole) (after_send-Goes s i))
            (λ h. absurd (cc (h, str.xmit))))
          (λ s' i'. (_, refl, request-IsSending s' (s'.requests_outstanding + 1) i'))

    recv_part-Goes : (r : Round) (s : Driving) → Next s → Goes Next (recv_part t r s)
    unfolding recv_part
    recv_part-Goes r s i = (s, rw (str.recv) refl, i)

    close_part-Goes : (r : Round) (s : Driving) → Next s → Goes Next (close_part t r s)
    unfolding close_part
    close_part-Goes r s i = (s, rw (str.plain) refl, i)

    abbrev Done : Driving → Type 0
    Done = IsSending t bytes (sends + 1) false

    unstamp-Goes : (s : Driving) → Next s → Goes Done (unstamp t s)
    unfolding unstamp
    unstamp-Goes s i =
        if_cases (Goes Done) (not t.keep_histogram) _ _
          (λ h. (
            s,
            refl,
            record {
              untimed = i.untimed;
              socket = i.socket;
              connection = i.connection;
              count = i.count;
              sent = i.sent;
              rest = i.rest;
              consumer_in = i.consumer_in;
              producer_at = same h;
            },
          ))
          (λ h.
            if_cases (Goes Done) (s.consumer == s.producer) _ _
              (λ met. absurd (apart h (sym (==→eq _ _ met))))
              (λ differ. (
                _,
                refl,
                record {
                  untimed = i.untimed;
                  socket = i.socket;
                  connection = i.connection;
                  count = i.count;
                  sent = i.sent;
                  rest = i.rest;
                  consumer_in = on;
                  producer_at = next h;
                },
              )))
      where
        on : (s.consumer + 1) % ring_limit t < ring_limit t
        on = one_on s.consumer (ring_limit t) (ring_limit_pos t)

        same : (not t.keep_histogram) ≡ true → s.producer ≡ s.consumer
        same h = ground (arith, i.producer_at)

        next : (not t.keep_histogram) ≡ false → s.producer ≡ (s.consumer + 1) % ring_limit t
        next h = ground (arith, i.producer_at)

        apart : (not t.keep_histogram) ≡ false → s.producer ≢ s.consumer
        apart h e =
            turn-ne s.consumer 1 (ring_limit t) i.consumer_in (omega arith) (ring_limit_pos t)
              (sym (next h) ∙ e)

    count_part-Goes : (s : Driving) → Next s → Goes Done (count_part t s)
    unfolding count_part count_transaction
    count_part-Goes s i =
        bind-Goes Done Done (unstamp t s) _ (unstamp-Goes s i) (λ s' i'. (s', rw not_rr refl, i'))

    stamp_goes :
        (b : Bool) (s : Driving)
        → IsSending t bytes sends false s
        → Now (stamp t (record s { times_up = s.times_up || b }))
    unfolding stamp
    stamp_goes b s i =
        if_cases Now t.keep_histogram _ _
          (λ h. record {
            untimed = ground (arith, i.untimed);
            socket = i.socket;
            connection = i.connection;
            count = i.count;
            sent = i.sent;
            rest = i.rest;
            consumer_in = i.consumer_in;
            producer_at = ground (arith, i.producer_at);
          })
          (λ h. record {
            untimed = ground (arith, i.untimed);
            socket = i.socket;
            connection = i.connection;
            count = i.count;
            sent = i.sent;
            rest = i.rest;
            consumer_in = i.consumer_in;
            producer_at = ground (arith, i.producer_at);
          })

    drive_round-Goes :
        (r : Round) (s : Driving)
        → r.sent ≡ pos t.bytes_to_send
        → Goes Now
            (connect_loop t r.attempts (stamp t (record s { times_up = s.times_up || r.fires })))
        → Goes Done (drive_round t r s)
    unfolding drive_round
    drive_round-Goes r s whole joined =
        bind-Goes Next Done closed (count_part t)
          (bind-Goes Next Next received (close_part t r)
            (bind-Goes Next Next sent (recv_part t r)
              (bind-Goes Now Next filled (send_part t r)
                (bind-Goes Now Now connected (burst_loop t r.burst) joined
                  (burst_loop-Goes r.burst))
                (λ s'. send_part-Goes r s' whole))
              (recv_part-Goes r))
            (close_part-Goes r))
          count_part-Goes
      where
        connected : Step Driving
        connected =
            connect_loop t r.attempts (stamp t (record s { times_up = s.times_up || r.fires }))

        filled : Step Driving
        filled = connected >>= burst_loop t r.burst

        sent : Step Driving
        sent = filled >>= send_part t r

        received : Step Driving
        received = sent >>= recv_part t r

        closed : Step Driving
        closed = received >>= close_part t r

  goes_on_sending :
      (bytes sends : ℕ) (s : Driving)
      → IsSending t bytes sends false s
      → goes_on s ≡ ltb (sends * t.bytes_to_send) bytes
  unfolding goes_on
  goes_on_sending bytes sends s i = ground arith

  -- How a test of `bytes` bytes has ended.
  abbrev pub EndsWith : ℕ → Run Driving → Type 0
  EndsWith bytes run =
      (s' : Driving) × (run ≡ finished s')
      × (s'.bytes_sent ≡ s'.local_send_calls * t.bytes_to_send)
      × (bytes ≤ s'.bytes_sent)
      × (s'.bytes_sent < bytes + t.bytes_to_send)

  sending_loop :
      (bytes sends : ℕ) (rounds : List Round) (s : Driving)
      → All (λ r. r.sent ≡ pos t.bytes_to_send) rounds
      → bytes ≤ (sends + length rounds) * t.bytes_to_send
      → sends * t.bytes_to_send < bytes + t.bytes_to_send
      → IsSending t bytes sends false s
      → EndsWith bytes (drive_loop t rounds s)
  unfolding drive_loop
  sending_loop bytes sends [] s whole enough near i = (
    s,
    rw (goes_on_sending bytes sends s i, le→ltb (sends * t.bytes_to_send) bytes (grind arith)) refl,
    ground (arith, i.count, i.sent),
    grind (arith, i.sent),
    ground (arith, i.sent),
  )
  sending_loop bytes sends (r ∷ rounds) s whole enough near i =
      elim (Bool-cases (ltb (sends * t.bytes_to_send) bytes)) [
        | inl more ↦
            let less = ltb→lt _ _ more in
            let now = drive_round-Goes bytes sends less r s whole.0 (
              connect_loop-Goes bytes sends less r.attempts _
                (stamp_goes bytes sends less r.fires s i)) in
            let later =
              sending_loop bytes (sends + 1) rounds now.0 whole.1
                (subst (λ k. bytes ≤ k * t.bytes_to_send) (omega arith) enough)
                (omega (arith, one_more sends t.bytes_to_send, less)) now.2 in
            (
              later.0,
              rw (goes_on_sending bytes sends s i, more, now.1) later.1,
              later.2,
              later.3,
              later.4,
            )
        | inr done ↦ (
          s,
          rw (goes_on_sending bytes sends s i, done) refl,
          ground (arith, i.count, i.sent),
          omega (arith, ltb→le _ _ done, i.sent),
          ground (arith, i.sent),
        )
      ]

  goes_on_entering : (bytes : ℕ) (s : Driving) → IsEntering t bytes s → goes_on s ≡ ltb 0 bytes
  unfolding goes_on
  goes_on_entering bytes s i = ground arith

  -- The same with the round's timestamp in the ring.
  record IsBegun (bytes : ℕ) (s : Driving) : Type 0 where
    untimed : s.times_up ≡ true
    count : s.local_send_calls ≡ 0
    sent : s.bytes_sent ≡ 0
    rest : s.units_remaining ≡ pos bytes
    consumer_in : s.consumer < ring_limit t
    producer_at :
        s.producer ≡ (if t.keep_histogram then (s.consumer + 1) % ring_limit t else s.consumer)

  begin :
      (bytes : ℕ) (attempts : List Attempt) (b : Bool) (s : Driving)
      → IsEntering t bytes s
      → Opens t s attempts
      → let s' = stamp t (record s { times_up = s.times_up || b }) in
        IsBegun bytes s' × Opens t s' attempts
  unfolding stamp
  begin bytes [] b s i opens =
      if_cases (λ s'. IsBegun bytes s' × Opens t s' []) t.keep_histogram _ _
        (λ h. (ground arith, opens)) (λ h. (ground arith, opens))
  begin bytes (a ∷ attempts) b s i opens =
      if_cases (λ s'. IsBegun bytes s' × Opens t s' (a ∷ attempts)) t.keep_histogram _ _
        (λ h. (ground arith, opens)) (λ h. (ground arith, opens))

  opened_begun :
      (bytes : ℕ) (s : Driving)
      → IsBegun bytes s
      → IsBegun bytes (open_socket t s)
        × ((open_socket t s).need_socket ≡ false)
        × ((open_socket t s).need_to_connect ≡ s.need_to_connect)
  unfolding open_socket
  opened_begun bytes s i =
      if_cases
        (λ s'.
          IsBegun bytes s' × (s'.need_socket ≡ false) × (s'.need_to_connect ≡ s.need_to_connect))
        s.need_socket _ _ (λ h. (ground arith, refl, refl)) (λ h. (i, h, refl))

  begun-IsSending :
      (bytes : ℕ) (s : Driving)
      → IsBegun bytes s
      → s.need_socket ≡ false
      → (s.need_to_connect && not t.use_fastopen) ≡ false
      → IsSending t bytes 0 true s
  begun-IsSending bytes s i none_needed up = record {
    untimed = i.untimed;
    socket = none_needed;
    connection = up;
    count = i.count;
    sent = omega (arith, i.sent);
    rest = i.rest ∙ ground arith;
    consumer_in = i.consumer_in;
    producer_at = i.producer_at;
  }

  connect_first-Goes :
      (bytes : ℕ) (attempts : List Attempt) (s : Driving)
      → IsBegun bytes s
      → Opens t s attempts
      → Goes (IsSending t bytes 0 true) (connect_loop t attempts s)
  unfolding connect_loop after_connect
  connect_first-Goes bytes [] s i opens =
      (s, rw opens refl, begun-IsSending bytes s i (ground arith) (ground arith))
  connect_first-Goes bytes (a ∷ attempts) s i opens =
      let (begun, made, same) = opened_begun bytes s i in
      if_cases (Goes (IsSending t bytes 0 true)) (s.need_socket && not a.created) _ _
        (λ h. absurd (ground (arith, opens.0, h)))
        (λ h.
          if_cases (Goes (IsSending t bytes 0 true))
            ((open_socket t s).need_to_connect && not t.use_fastopen) _ _
            (λ h'.
              subst
                (λ v. Goes (IsSending t bytes 0 true) (
                  after_connect t v (connect_loop t attempts (retry (open_socket t s)))
                    (open_socket t s)))
                (sym (opens.1 (subst (λ b. (b && not t.use_fastopen) ≡ true) same h')))
                (_, refl, begun-IsSending bytes _ (ground (arith, begun)) made refl))
            (λ h'. (_, refl, begun-IsSending bytes _ begun made h')))

  -- A test that only sends, a number of bytes over one connection and in buffers of some bytes, from
  -- where its loop is entered with its time up, nothing sent and no timestamp in the ring: if the
  -- first round's first attempt makes the socket and connects it, where that is still to be done,
  -- and each send does what it is asked to, the test ends by itself within the rounds that the number
  -- takes, whether or not an alarm goes off. What it has then sent is a whole number of buffers,
  -- reaches the number, and passes it by less than one buffer.
  pub drive_loop_stream :
      (bytes : ℕ) (r : Round) (rounds : List Round) (s : Driving)
      → All (λ r'. r'.sent ≡ pos t.bytes_to_send) (r ∷ rounds)
      → bytes ≤ length (r ∷ rounds) * t.bytes_to_send
      → IsEntering t bytes s
      → Opens t s r.attempts
      → (s' : Driving) × (drive_loop t (r ∷ rounds) s ≡ finished s')
        × (s'.bytes_sent ≡ s'.local_send_calls * t.bytes_to_send)
        × (bytes ≤ s'.bytes_sent)
        × (s'.bytes_sent < bytes + t.bytes_to_send)
  unfolding drive_loop
  drive_loop_stream bytes r rounds s whole enough i opens = elim (Bool-cases (ltb 0 bytes)) [
    | inl more ↦
        let some_left : 0 * t.bytes_to_send < bytes = omega (arith, ltb→lt _ _ more) in
        let now = drive_round-Goes bytes 0 some_left r s whole.0 (
          (let (begun, opens') = begin bytes r.attempts r.fires s i opens in
            connect_first-Goes bytes r.attempts _ begun opens')) in
        let later =
          sending_loop bytes (0 + 1) rounds now.0 whole.1
            (subst (λ k. bytes ≤ k * t.bytes_to_send) (omega arith) enough)
            (omega (arith, some_left)) now.2 in
        (later.0, rw (goes_on_entering bytes s i, more, now.1) later.1, later.2, later.3, later.4)
    | inr done ↦ (
      s,
      rw (goes_on_entering bytes s i, done) refl,
      grind (arith, i.count, i.sent),
      omega (arith, ltb→le _ _ done),
      omega (arith, i.sent, str.some_bytes),
    )
  ]
