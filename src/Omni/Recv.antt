-- ===== src/Omni/Recv.antt =====
-- recv_data() of src/nettest_omni.c: what it returns, and what it asks the system for.
use mathlib.Core.Path.{subst}
use mathlib.Core.Option.{some-injective}
use netperf_copilot.Common.{
  ℕ, ◌+◌, ◌-◌, ◌≤◌, ◌<◌, ◌≡◌, ◌≢◌, ◌⊎◌, inl, inr, refl, sym, ap, ◌∙◌, arith, Bool, true, false,
  ◌&&◌, ◌||◌, List, [], ◌∷◌, Option, none, some, ltb, ltb→lt, ◌==◌, if◌then◌else◌, Bool-cases,
  ==→eq, ==→ne, or_true, and_true, min, ℤ, pos, negsuc, if_cases,
}
use netperf_copilot.Omni.{
  Errors, Call, gave, failed, socket_eintr, Ended, after_call, receive_loop, Taken, recv_result,
  taken, recv_copy, splice_result, SpliceState, open_pipe, recv_data,
}

-- What a receive returns where a call fails with errno `e`: -1 for an interrupt by the timer, -2 for
-- a passing error, which splice() has none of, and -3 for any other.
pub data Failure (sys : Errors) (splice : Bool) (e : ℕ) : ℤ → Type 0 where
  timer : e ≡ sys.eintr → Failure sys splice e (negsuc 0)
  passing :
      splice ≡ false
      → e ≢ sys.eintr
      → (e ≡ sys.eagain) ⊎ (e ≡ sys.ewouldblock)
      → Failure sys splice e (negsuc 1)
  hard :
      e ≢ sys.eintr
      → (splice ≡ true) ⊎ ((e ≢ sys.eagain) × (e ≢ sys.ewouldblock))
      → Failure sys splice e (negsuc 2)

-- A receive of `want` bytes by the calls that are left, after `got` bytes by `recvs` calls: how it
-- ends for what they give. Each asks for the part of the buffer that is not yet filled.
pub data Receives (sys : Errors) (splice wait_all : Bool) (want errno : ℕ)
    : ℕ → ℕ → List Call → Taken → Type 0 where
  fails :
      {got recvs e : ℕ} {calls : List Call} {r : ℤ}
      → Failure sys splice e r
      → Receives sys splice wait_all want errno got recvs
          (failed e ∷ calls)
          (record { ret = r; num_receives = recvs; errno = e; asked = (got, want - got) ∷ [] })
  closed :
      {got recvs n : ℕ} {calls : List Call}
      → (n ≡ 0) ⊎ (want ≡ 0)
      → Receives sys splice wait_all want errno got recvs (gave n ∷ calls) (record {
        ret = pos 0;
        num_receives = recvs;
        errno = errno;
        asked = (got, want - got) ∷ [];
      })
  complete :
      {got recvs n : ℕ} {calls : List Call}
      → got < want
      → want ≤ got + n
      → Receives sys splice wait_all want errno got recvs (gave n ∷ calls) (record {
        ret = pos want;
        num_receives = recvs + 1;
        errno = errno;
        asked = (got, want - got) ∷ [];
      })
  part :
      {got recvs n : ℕ} {calls : List Call}
      → wait_all ≡ false
      → 0 < n
      → got + n < want
      → Receives sys splice wait_all want errno got recvs (gave n ∷ calls) (record {
        ret = pos n;
        num_receives = recvs + 1;
        errno = errno;
        asked = (got, want - got) ∷ [];
      })
  more :
      {got recvs n : ℕ} {calls : List Call} {t : Taken}
      → wait_all ≡ true
      → 0 < n
      → got + n < want
      → Receives sys splice wait_all want errno (got + n) (recvs + 1) calls t
      → Receives sys splice wait_all want errno got recvs
          (gave n ∷ calls)
          (record t { asked = (got, want - got) ∷ t.asked })

module _ (sys : Errors) (splice wait_all : Bool) (want errno : ℕ) where
  abbrev Rec : ℕ → ℕ → List Call → Taken → Type 0
  Rec = Receives sys splice wait_all want errno

  -- What is done at the end of a receive, for its last value, what is left of it and errno.
  record IsResult (result : ℤ → ℕ → ℕ → ℤ) : Type 0 where
    failing : (left e : ℕ) → Failure sys splice e (result (negsuc 0) left e)
    counting : (n left e : ℕ) → result (pos n) left e ≡ (if left == 0 then pos want else pos n)

  module _ (result : ℤ → ℕ → ℕ → ℤ) (fair : IsResult result) where
    again-Receives :
        (got recvs n : ℕ) (calls : List Call) (rest : Option Ended) (t : Taken)
        → wait_all ≡ true
        → 0 < n
        → got + n < want
        → ((t' : Taken) → taken result rest ≡ some t' → Rec (got + n) (recvs + 1) calls t')
        → taken result (elim rest [ none ↦ none | some e ↦ some (after_call (got, want - got) e) ])
          ≡ some t
        → Rec got recvs (gave n ∷ calls) t
    again-Receives got recvs n calls none t all some_given room later h = absurd (cc)
    again-Receives got recvs n calls (some e) t all some_given room later h =
        subst (Rec got recvs (gave n ∷ calls)) (some-injective _ _ h)
          (more all some_given room (later _ refl))

    loop-Receives :
        (got recvs : ℕ) (calls : List Call) (t : Taken)
        → got ≤ want
        → (want - got ≡ 0 → want ≡ 0)
        → taken result (receive_loop wait_all got (want - got) recvs errno calls) ≡ some t
        → Rec got recvs calls t
    unfolding receive_loop
    loop-Receives got recvs [] t room left h = absurd (cc)
    loop-Receives got recvs (failed e ∷ calls) t room left h =
        subst (Rec got recvs (failed e ∷ calls)) (some-injective _ _ h)
          (fails (fair.failing (want - got) e))
    loop-Receives got recvs (gave n ∷ calls) t room left h =
        if_cases P (min n (want - got) == 0) _ _
          (λ nothing h. subst Q (some-injective _ _ h) (ended_closed nothing))
          (λ something.
            if_cases P (ltb 0 (want - got - min n (want - got)) && wait_all) _ _
              (λ again.
                again-Receives got recvs n calls _ t (and_true _ wait_all again).1 (given something)
                  (fits again)
                  (λ t' h'.
                    subst (λ g. Rec g (recvs + 1) calls t') (ap (λ k. got + k) (all_of again))
                      (loop-Receives (got + min n (want - got)) (recvs + 1) calls t' (omega arith)
                        (λ none_left. absurd (spare again none_left))
                        (subst
                          (λ left.
                            taken result (
                              receive_loop wait_all (got + min n (want - got)) left (recvs + 1)
                                errno calls)
                            ≡ some t')
                          (omega arith) h'))))
              (λ last h. subst Q (some-injective _ _ h) (ended_last something last)))
          h
      where
        Q : Taken → Type 0
        Q = Rec got recvs (gave n ∷ calls)

        P : Option Ended → Type 0
        P o = taken result o ≡ some t → Q t

        ending : ℕ → ℤ → Taken
        ending received r = record {
          ret = r;
          num_receives = received;
          errno = errno;
          asked = (got, want - got) ∷ [];
        }

        ended_closed :
            (min n (want - got) == 0) ≡ true → Q (ending recvs (result (pos 0) (want - got) errno))
        ended_closed nothing = elim (Bool-cases (want - got == 0)) [
          | inl all ↦
              let none_wanted : want ≡ 0 = left (==→eq _ _ all) in
              subst (λ r. Q (ending recvs r))
                (sym (fair.counting 0 (want - got) errno ∙ rw (all, none_wanted) refl))
                (closed (inr none_wanted))
          | inr some_left ↦
              subst (λ r. Q (ending recvs r))
                (sym (fair.counting 0 (want - got) errno ∙ rw some_left refl))
                (closed (inl (ground arith)))
        ]

        given : (min n (want - got) == 0) ≡ false → 0 < n
        given something = let some = ==→ne _ _ something in omega (arith, some)

        spare :
            (ltb 0 (want - got - min n (want - got)) && wait_all) ≡ true
            → want - (got + min n (want - got)) ≡ 0
            → ⊥
        spare again none_left =
            let some_left = ltb→lt _ _ (and_true _ wait_all again).0 in
            omega (arith, some_left, none_left)

        all_of :
            (ltb 0 (want - got - min n (want - got)) && wait_all) ≡ true → min n (want - got) ≡ n
        all_of again =
            let some_left = ltb→lt _ _ (and_true _ wait_all again).0 in omega (arith, some_left)

        fits : (ltb 0 (want - got - min n (want - got)) && wait_all) ≡ true → got + n < want
        fits again =
            let some_left = ltb→lt _ _ (and_true _ wait_all again).0 in omega (arith, some_left)

        ended_last :
            (min n (want - got) == 0) ≡ false
            → (ltb 0 (want - got - min n (want - got)) && wait_all) ≡ false
            → Q (
                ending
                  (recvs + 1)
                  (result (pos (min n (want - got))) (want - got - min n (want - got)) errno))
        ended_last something last = elim (Bool-cases (want - got - min n (want - got) == 0)) [
          | inl all ↦
              subst (λ r. Q (ending (recvs + 1) r)) (sym (fair.counting _ _ errno ∙ rw all refl))
                (complete (ground arith) (ground arith))
          | inr some_left ↦
              let whole : min n (want - got) ≡ n = ground arith in
              subst (λ r. Q (ending (recvs + 1) r))
                (sym (fair.counting _ _ errno ∙ rw some_left (ap pos whole)))
                (part (ground arith) (ground arith) (ground arith))
        ]

module _ (sys : Errors) (wait_all : Bool) (want errno : ℕ) where
  copy-IsResult : IsResult sys false wait_all want errno (recv_result sys want)
  unfolding recv_result socket_eintr
  copy-IsResult = record {
    failing = λ left e.
        if_cases (Failure sys false e) (e == sys.eintr) _ _ (λ h. timer (==→eq _ _ h))
          (λ h.
            if_cases (Failure sys false e) (e == sys.eagain || e == sys.ewouldblock) _ _
              (λ h'. passing refl (==→ne _ _ h) (either e h'))
              (λ h'. hard (==→ne _ _ h) (inr (neither e h'))));
    counting = λ n left e. refl;
  }
    where
      either :
          (e : ℕ)
          → (e == sys.eagain || e == sys.ewouldblock) ≡ true
          → (e ≡ sys.eagain) ⊎ (e ≡ sys.ewouldblock)
      either e h = elim (or_true _ _ h) [
        | inl first ↦ inl (==→eq _ _ first)
        | inr other ↦ inr (==→eq _ _ other)
      ]

      neither :
          (e : ℕ)
          → (e == sys.eagain || e == sys.ewouldblock) ≡ false
          → (e ≢ sys.eagain) × (e ≢ sys.ewouldblock)
      neither e h = (==→ne _ _ (ground arith), ==→ne _ _ (ground arith))

  splice-IsResult : IsResult sys true wait_all want errno (splice_result sys want)
  unfolding splice_result socket_eintr
  splice-IsResult = record {
    failing = λ left e.
        if_cases (Failure sys true e) (e == sys.eintr) _ _ (λ h. timer (==→eq _ _ h))
          (λ h. hard (==→ne _ _ h) (inl refl));
    counting = λ n left e. refl;
  }

  -- recv_data() of `want` bytes, if it returns, has received as `Receives` says for what its calls
  -- give, by splice() where that is asked for and its descriptors can be had. A call that fails ends
  -- it with -1 for EINTR and, but for splice(), -2 for EAGAIN and EWOULDBLOCK, else with -3. A call
  -- that gives nothing ends it with 0. The call that completes the buffer ends it with `want`. One
  -- that gives less ends it with what it gave, unless it is to wait for all: then it goes on. Each
  -- call asks for the part of the buffer not yet filled, and num_receives counts those that gave
  -- bytes.
  pub recv_data-Outcome :
      (pipe_ok open_ok : Bool) (s : SpliceState) (calls : List Call) (t : Taken)
      → (recv_data sys pipe_ok open_ok s wait_all want errno calls).1 ≡ some t
      → Receives sys
          (s.loc_rcvavoid && (open_pipe pipe_ok open_ok s).1)
          wait_all
          want
          errno
          0
          0
          calls
          t
  unfolding recv_data recv_copy
  recv_data-Outcome pipe_ok open_ok s calls t =
      if_cases P s.loc_rcvavoid _ _
        (λ avoid.
          if_cases P (open_pipe pipe_ok open_ok s).1 _ _
            (λ ready h.
              subst R (sym (both avoid ready))
                (loop true (splice_result sys want) splice-IsResult h))
            (λ not_ready. copied (right not_ready)))
        (λ plain. copied (left plain))
    where
      ready : Bool
      ready = (open_pipe pipe_ok open_ok s).1

      R : Bool → Type 0
      R splice = Receives sys splice wait_all want errno 0 0 calls t

      loop :
          (splice : Bool) (result : ℤ → ℕ → ℕ → ℤ)
          → IsResult sys splice wait_all want errno result
          → taken result (receive_loop wait_all 0 want 0 errno calls) ≡ some t
          → R splice
      loop splice result fair h =
          loop-Receives sys splice wait_all want errno result fair 0 0 calls t (omega arith)
            (λ e. omega (arith, e))
            (subst (λ left. taken result (receive_loop wait_all 0 left 0 errno calls) ≡ some t)
              (omega arith) h)

      P : SpliceState × Option Taken → Type 0
      P r = r.1 ≡ some t → R (s.loc_rcvavoid && ready)

      both : s.loc_rcvavoid ≡ true → ready ≡ true → (s.loc_rcvavoid && ready) ≡ true
      both h h' = ground arith

      left : s.loc_rcvavoid ≡ false → (s.loc_rcvavoid && ready) ≡ false
      left h = ground arith

      right : ready ≡ false → (s.loc_rcvavoid && ready) ≡ false
      right h = ground arith

      copied :
          (s.loc_rcvavoid && ready) ≡ false
          → taken (recv_result sys want) (receive_loop wait_all 0 want 0 errno calls) ≡ some t
          → R (s.loc_rcvavoid && ready)
      copied plain h = subst R (sym plain) (loop false (recv_result sys want) copy-IsResult h)
