-- ===== src/RecvOmni/Count.antt =====
-- recv_omni() of src/nettest_omni.c in a test that is limited by a number of transactions.
use mathlib.Core.Path.{subst}
use netperf_copilot.Common.{
  ℕ, zero, suc, ◌+◌, ◌*◌, ◌≤◌, ◌≡◌, refl, sym, arith, Bool, true, false, not, ◌&&◌, List, [], ◌∷◌,
  ◌==◌, if◌then◌else◌, if_cases, and_true, ==_self, ℤ, pos, All, length,
}
use netperf_copilot.Engine.{Test, is_rr, Step, goes, ◌>>=◌, finished, is_positive, limited}
use netperf_copilot.RecvOmni.{
  Serving, connection, Round, goes_on, fires, accept_part, after_recv, recv_part, connect_first,
  after_send, send_part, after_close, close_part, count_part, serve_round, serve_loop,
}

-- A round in which every call does what it is asked to.
pub record IsFine (t : Test) (r : Round) : Type 0 where
  pub accepted : r.accepting ≡ connection
  pub given : (n : ℕ) × (r.received ≡ pos (suc n))
  pub able : r.connecting ≡ true
  pub whole : r.sent ≡ pos t.bytes_to_send
  pub closed : r.closing ≡ pos 0

-- A test that its count alone ends, so many transactions, bytes and units from a state.
pub record IsCounted (trans bytes : ℕ) (units : ℤ) (s : Serving) : Type 0 where
  pub untimed : s.times_up ≡ true
  pub in_time : s.timed_out ≡ false
  pub done : s.trans_completed ≡ trans
  pub moved : s.bytes_sent ≡ bytes
  pub left : s.units_remaining ≡ units

rr_both : (t : Test) → is_rr t ≡ true → t.xmit ≡ t.recv
unfolding is_rr
rr_both t h = ground arith

-- A part that goes on to such a state.
abbrev Fine : ℕ → ℕ → ℤ → Step Serving → Type 0
Fine trans bytes units m = (s : Serving) × (m ≡ goes s) × IsCounted trans bytes units s

bind-Fine :
    (a a' b b' : ℕ) (u u' : ℤ) (m : Step Serving) (f : Serving → Step Serving)
    → Fine a b u m
    → ((s : Serving) → IsCounted a b u s → Fine a' b' u' (f s))
    → Fine a' b' u' (m >>= f)
bind-Fine a a' b b' u u' m f now later =
    subst (λ m. Fine a' b' u' (m >>= f)) (sym now.1) (later now.0 now.2)

-- What a send adds to the bytes sent.
abbrev pub sent_bytes : Test → ℕ
sent_bytes t = if t.xmit then t.bytes_to_send else 0

module _ (t : Test) (rr : is_rr t ≡ true) (trans bytes units : ℕ) where
  abbrev Going : Serving → Type 0
  Going = IsCounted trans bytes (pos (suc units))

  abbrev Goes : Step Serving → Type 0
  Goes = Fine trans bytes (pos (suc units))

  abbrev Sends : Step Serving → Type 0
  Sends = Fine trans (bytes + sent_bytes t) (pos (suc units))

  accept_fine : (s : Serving) → Going s → Goes (accept_part t connection s)
  unfolding accept_part
  accept_fine s i =
      if_cases Goes s.need_to_accept _ _ (λ h. (_, refl, ground arith))
        (λ h. (_, refl, ground arith))

  fires_fine : (b : Bool) (s : Serving) → Going s → Going (fires b s)
  fires_fine b s i = ground arith

  after_recv_fine :
      (n calls : ℕ) (s : Serving)
      → t.recv ≡ true
      → Going s
      → Goes (after_recv t (pos (suc n)) calls s)
  unfolding after_recv limited
  after_recv_fine n calls s on i = (_, refl, ground (arith, rr_both t rr))

  recv_fine : (r : Round) (s : Serving) → IsFine t r → Going s → Goes (recv_part t r s)
  unfolding recv_part
  recv_fine r s f i =
      if_cases Goes (t.recv && goes_on (fires r.fires_first s)) _ _
        (λ h.
          subst (λ v. Goes (after_recv t v r.temp_recvs (fires r.fires_first s))) (sym f.given.1)
            (after_recv_fine f.given.0 r.temp_recvs _ (and_true _ _ h).0
              (fires_fine r.fires_first s i)))
        (λ h. (_, refl, ground arith))

  connect_fine : (s : Serving) → Going s → Goes (connect_first t true s)
  unfolding connect_first
  connect_fine s i =
      if_cases Goes (t.is_udp && t.need_to_connect && not s.connected && false) _ _
        (λ h. absurd (ground arith)) (λ h. (_, refl, ground arith))

  after_send_fine :
      (s : Serving) → t.xmit ≡ true → Going s → Sends (after_send t (pos t.bytes_to_send) s)
  unfolding after_send limited
  after_send_fine s on i =
      if_cases Sends (t.bytes_to_send == t.bytes_to_send) _ _
        (λ h. (_, refl, ground (arith, rr_both t rr)))
        (λ h. absurd (cc (h, ==_self t.bytes_to_send)))

  send_fine : (r : Round) (s : Serving) → IsFine t r → Going s → Sends (send_part t r s)
  unfolding send_part goes_on
  send_fine r s f i =
      if_cases Sends (t.xmit && goes_on (fires r.fires_between s)) _ _
        (λ h.
          subst (λ v. Sends (connect_first t v (fires r.fires_between s) >>= after_send t r.sent))
            (sym f.able)
            (bind-Fine trans trans bytes _ _ _ _ _ (connect_fine _ (fires_fine r.fires_between s i))
              (λ s' i'.
                subst (λ v. Sends (after_send t v s')) (sym f.whole)
                  (after_send_fine s' (and_true _ _ h).0 i'))))
        (λ h. (_, refl, ground arith))

  close_fine :
      (r : Round) (s : Serving)
      → IsFine t r
      → IsCounted trans (bytes + sent_bytes t) (pos (suc units)) s
      → Sends (close_part t r s)
  unfolding close_part after_close
  close_fine r s f i =
      if_cases Sends t.connection_test _ _
        (λ h. subst (λ v. Sends (after_close v s)) (sym f.closed) (_, refl, ground arith))
        (λ h. (s, refl, i))

  count-Fine :
      (r : Round) (s : Serving)
      → IsCounted trans (bytes + sent_bytes t) (pos (suc units)) s
      → Fine (trans + 1) (bytes + sent_bytes t) (pos units) (count_part t r s)
  unfolding count_part
  count-Fine r s i =
      if_cases (Fine (trans + 1) (bytes + sent_bytes t) (pos units)) (is_rr t) _ _
        (λ h. (_, refl, ground arith)) (λ h. absurd (cc (h, rr)))

  round-Fine :
      (r : Round) (s : Serving)
      → IsFine t r
      → Going s
      → Fine (trans + 1) (bytes + sent_bytes t) (pos units) (serve_round t r s)
  unfolding serve_round
  round-Fine r s f i =
      bind-Fine _ _ _ _ _ _ closed (count_part t r)
        (bind-Fine _ _ _ _ _ _ sent (close_part t r)
          (bind-Fine _ _ _ _ _ _ received (send_part t r)
            (bind-Fine trans trans bytes bytes (pos (suc units)) (pos (suc units)) accepted
              (recv_part t r)
              (subst (λ a. Goes (accept_part t a s)) (sym f.accepted) (accept_fine s i))
              (λ s'. recv_fine r s' f))
            (λ s'. send_fine r s' f))
          (λ s'. close_fine r s' f))
        (count-Fine r)
    where
      accepted : Step Serving
      accepted = accept_part t r.accepting s

      received : Step Serving
      received = accepted >>= recv_part t r

      sent : Step Serving
      sent = received >>= send_part t r

      closed : Step Serving
      closed = sent >>= close_part t r

goes_on_counted :
    (trans bytes units : ℕ) (s : Serving)
    → IsCounted trans bytes (pos units) s
    → goes_on s ≡ is_positive (pos units)
unfolding goes_on
goes_on_counted trans bytes units s i = ground arith

recount :
    {a b a' b' : ℕ} {u : ℤ} (s : Serving)
    → IsCounted a b u s
    → a ≡ a'
    → b ≡ b'
    → IsCounted a' b' u s
recount s i e f = ground arith

one_more : (b n x : ℕ) → b + x + n * x ≡ b + suc n * x
one_more b n x = grind arith

-- In a request/response test of so many transactions the loop of recv_omni() ends by itself after
-- exactly that many rounds, if their calls do what they are asked to, whenever the timer would fire.
-- It has then counted each of them and the bytes that they sent, and has not timed out.
pub serve_loop-IsCounted :
    (t : Test) (n trans bytes : ℕ) (rounds : List Round) (s : Serving)
    → is_rr t ≡ true
    → All (IsFine t) rounds
    → n ≤ length rounds
    → IsCounted trans bytes (pos n) s
    → (s' : Serving) × (serve_loop t rounds s ≡ finished s')
      × IsCounted (trans + n) (bytes + n * sent_bytes t) (pos 0) s'
unfolding serve_loop
serve_loop-IsCounted t zero trans bytes [] s rr fine enough i =
    (s, rw (goes_on_counted trans bytes 0 s i) refl, ground arith)
serve_loop-IsCounted t zero trans bytes (r ∷ rounds) s rr fine enough i =
    (s, rw (goes_on_counted trans bytes 0 s i) refl, ground arith)
serve_loop-IsCounted t (suc n) trans bytes [] s rr fine enough i = absurd (omega arith)
serve_loop-IsCounted t (suc n) trans bytes (r ∷ rounds) s rr fine enough i =
    let first = round-Fine t rr trans bytes n r s fine.0 i in
    let later =
      serve_loop-IsCounted t n (trans + 1) (bytes + sent_bytes t) rounds first.0 rr fine.1
        (omega arith) first.2 in
    (
      later.0,
      rw (goes_on_counted trans bytes (suc n) s i, first.1) later.1,
      recount later.0 later.2 (omega arith) (one_more bytes n (sent_bytes t)),
    )
