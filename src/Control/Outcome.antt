-- ===== src/Control/Outcome.antt =====
-- How the receive loops of src/netlib.c can end: no byte is written outside the message, and what
-- becomes of the socket on each path.
use netperf_copilot.Common.{
  ℕ, zero, suc, ◌+◌, ◌-◌, ◌≤◌, ◌<◌, ◌≡◌, ◌∙◌, refl, ap, true, false, List, [], ◌∷◌, ◌++◌,
  append-nil, append_assoc, Option, none, some, arith, ltb, ltb→le, Bool-cases, inl, inr, length,
  length-append, length-take, take, map, All, ℤ, pos, negsuc, Bytes,
}
use mathlib.Core.Path.{subst}
use mathlib.Core.Option.{some-injective}
use netperf_copilot.Control.{
  Endian, message_size, conversion_count, Arrival, chunk, eof, failed, silent, Stop, by_test,
  by_select, not_yet, recv_loop, Received, finish_request, after_loop, recv_request_timed_n,
  response_loop,
}
use netperf_copilot.Control.Transfer.{concat, IsPiece, recv_loop_next}

-- The bytes that a loop has written when it stops.
abbrev pub written : Stop → Bytes
written (by_test got last) = got
written (by_select got) = got
written not_yet = []

part_fits :
    (got bs : Bytes)
    → length got ≤ message_size
    → length (got ++ take (message_size - length got) bs) ≤ message_size
part_fits got bs h = omega (
  arith,
  length-append got (take (message_size - length got) bs),
  length-take (message_size - length got) bs,
)

recv_loop_fits :
    (got : Bytes) (arrivals : List Arrival)
    → length got ≤ message_size
    → length (written (recv_loop got arrivals)) ≤ message_size
unfolding recv_loop
recv_loop_fits got [] h = omega arith
recv_loop_fits got (silent ∷ rest) h = h
recv_loop_fits got (eof ∷ rest) h = h
recv_loop_fits got (failed ∷ rest) h = h
recv_loop_fits got (chunk bs ∷ rest) h =
    let fits = part_fits got bs h in
    let next = recv_loop_fits (got ++ take (message_size - length got) bs) rest fits in ground arith

response_loop_fits :
    (got : Bytes) (last : ℤ) (arrivals : List Arrival)
    → length got ≤ message_size
    → length (written (response_loop got last arrivals)) ≤ message_size
unfolding response_loop
response_loop_fits got last [] h = ground arith
response_loop_fits got last (silent ∷ rest) h =
    let next = response_loop_fits got last rest h in ground arith
response_loop_fits got last (eof ∷ rest) h = ground arith
response_loop_fits got last (failed ∷ rest) h = ground arith
response_loop_fits got last (chunk bs ∷ rest) h =
    let part = take (message_size - length got) bs in
    let next = response_loop_fits (got ++ part) (pos (length part)) rest (part_fits got bs h) in
    ground arith

-- Whatever arrives, neither receive loop writes more bytes than the message has.
pub receive_loops_fit :
    (arrivals : List Arrival)
    → (length (written (recv_loop [] arrivals)) ≤ message_size)
      × (length (written (response_loop [] (pos 0) arrivals)) ≤ message_size)
receive_loops_fit arrivals =
    (recv_loop_fits [] arrivals (omega arith), response_loop_fits [] (pos 0) arrivals (omega arith))

-- What one call of recv_request_timed_n() comes to.
pub data Outcome (arrivals : List Arrival) (r : Received) : Type 0 where
  whole :
      length (written (recv_loop [] arrivals)) ≡ message_size
      → r.ret ≡ pos message_size
      → r.closed ≡ false
      → Outcome arrivals r
  ended : r.ret ≡ pos 0 → r.closed ≡ true → r.affinity ≡ none → Outcome arrivals r
  broken : r.ret ≡ negsuc 0 → r.closed ≡ true → r.affinity ≡ none → Outcome arrivals r

finish-Outcome :
    (e : Endian) (c : ℕ) (array : List ℕ) (arrivals : List Arrival) (got : Bytes) (last : ℤ)
    → recv_loop [] arrivals ≡ by_test got last
    → Outcome arrivals (finish_request e c array got last)
unfolding finish_request
finish-Outcome e c array arrivals got (negsuc k) h = broken refl refl refl
finish-Outcome e c array arrivals got (pos zero) h = ended refl refl refl
finish-Outcome e c array arrivals got (pos (suc k)) h =
    let fits = recv_loop_fits [] arrivals (omega arith) in
    let here : length (written (recv_loop [] arrivals)) ≡ length got =
      ap (λ s. length (written s)) h in
    elim (Bool-cases (ltb (length got) message_size)) [
      | inl short ↦ rw short (broken refl refl refl)
      | inr full ↦ rw full (whole (omega (arith, ltb→le (length got) message_size full)) refl refl)
    ]

after_loop-Outcome :
    (e : Endian) (n : ℤ) (arrivals : List Arrival) (array : List ℕ) (r : Received) (s : Stop)
    → recv_loop [] arrivals ≡ s
    → after_loop e n array s ≡ some r
    → Outcome arrivals r
unfolding after_loop
after_loop-Outcome e n arrivals array r (by_test got last) h eq =
    subst (Outcome arrivals) (some-injective _ _ eq)
      (finish-Outcome e (conversion_count n) array arrivals got last h)
after_loop-Outcome e n arrivals array r (by_select got) h eq =
    subst (Outcome arrivals) (some-injective _ _ eq) (broken refl refl refl)
after_loop-Outcome e n arrivals array r not_yet h eq = absurd (cc)

-- Whenever recv_request_timed_n() returns, it has received exactly the message, returns its size and
-- leaves the socket open; or it returns 0 or -1, has closed the socket and set no affinity.
pub recv_request-Outcome :
    (e : Endian) (n : ℤ) (arrivals : List Arrival) (array : List ℕ) (r : Received)
    → recv_request_timed_n e n arrivals array ≡ some r
    → Outcome arrivals r
unfolding recv_request_timed_n
recv_request-Outcome e n arrivals array r eq =
    after_loop-Outcome e n arrivals array r (recv_loop [] arrivals) refl eq

recv_loop_short :
    (got : Bytes) (pieces : List Bytes) (rest : List Arrival)
    → length got + length (concat pieces) < message_size
    → All IsPiece pieces
    → recv_loop got (map chunk pieces ++ rest) ≡ recv_loop (got ++ concat pieces) rest
recv_loop_short got [] rest lt h = rw append-nil
recv_loop_short got (c ∷ cs) rest lt (hc, hs) =
    let lens = length-append c (concat cs) in
    recv_loop_next got c (map chunk cs ++ rest) (omega arith) hc
    ∙ recv_loop_short (got ++ c) cs rest (omega (arith, length-append got c)) hs
    ∙ ap (λ b. recv_loop b rest) (append_assoc got c (concat cs))

-- The arrival that cuts a request short, and what recv_request_timed_n() then returns.
abbrev pub cut_result : Arrival → Option ℤ
cut_result eof = some (pos 0)
cut_result failed = some (negsuc 0)
cut_result silent = some (negsuc 0)
cut_result (chunk bs) = none

-- A request cut short, after any pieces that do not fill the message: at the end of the stream 0 is
-- returned, at an error of recv() or a select() without a descriptor -1, and the socket is closed.
pub recv_request_cut :
    (e : Endian) (n : ℤ) (array : List ℕ) (pieces : List Bytes) (cut : Arrival)
    (rest : List Arrival) (code : ℤ)
    → length (concat pieces) < message_size
    → All IsPiece pieces
    → cut_result cut ≡ some code
    → (r : Received) × (recv_request_timed_n e n (map chunk pieces ++ (cut ∷ rest)) array ≡ some r)
      × (r.ret ≡ code)
      × (r.closed ≡ true)
unfolding recv_request_timed_n after_loop recv_loop finish_request
recv_request_cut e n array pieces cut rest code lt h is_cut =
    let short = recv_loop_short [] pieces (cut ∷ rest) (omega arith) h in
    let r = cut_end cut is_cut in (r.0, ap (after_loop e n array) short ∙ r.1, r.2, r.3)
  where
    cut_end :
        (a : Arrival)
        → cut_result a ≡ some code
        → (r : Received) × (after_loop e n array (recv_loop (concat pieces) (a ∷ rest)) ≡ some r)
          × (r.ret ≡ code)
          × (r.closed ≡ true)
    cut_end eof c = (_, refl, some-injective _ _ c, refl)
    cut_end failed c = (_, refl, some-injective _ _ c, refl)
    cut_end silent c = (_, refl, some-injective _ _ c, refl)
    cut_end (chunk bs) c = absurd (cc)
