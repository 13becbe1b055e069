-- ===== src/Control/Response.antt =====
-- A response from send_response_n() to recv_response_timed_n() of src/netlib.c.
use netperf_copilot.Common.{
  ℕ, ◌+◌, ◌-◌, ◌≤◌, ◌<◌, ◌≡◌, ◌∙◌, refl, sym, ap, List, [], ◌∷◌, ◌++◌, append-nil, append_assoc,
  some, arith, ne→==, length, length-append, length-replicate, take, take_all, drop, map, replicate,
  All, ℤ, pos, Bytes,
}
use mathlib.Core.Option.{some-injective}
use netperf_copilot.Control.{
  Endian, htonl, ntohl, memory, message_words, message_size, conversion_count, convert_first,
  send_response_n, Arrival, chunk, eof, failed, silent, by_test, overlay, response_loop, answered,
  finish_response, after_response, recv_response_timed_n,
}
use netperf_copilot.Control.Words.{
  IsWord, recode, words-memory, length-memory, length-convert_first, convert_first-IsWord,
  convert_first-moved,
}
use netperf_copilot.Control.Transfer.{concat, IsPiece, overlay_full}

response_loop_full :
    (got : Bytes) (last : ℤ) (arrivals : List Arrival)
    → length got ≡ message_size
    → response_loop got last arrivals ≡ by_test got last
unfolding response_loop
response_loop_full got last [] h = rw h
response_loop_full got last (silent ∷ rest) h = rw h
response_loop_full got last (eof ∷ rest) h = rw h
response_loop_full got last (failed ∷ rest) h = rw h
response_loop_full got last (chunk bs ∷ rest) h = rw h

response_loop_next :
    (got c : Bytes) (last : ℤ) (rest : List Arrival)
    → length got < message_size
    → length got + length c ≤ message_size
    → 0 < length c
    → response_loop got last (chunk c ∷ rest) ≡ response_loop (got ++ c) (pos (length c)) rest
unfolding response_loop
response_loop_next got c last rest lt fits piece = rw (
  ne→== (length got) message_size (omega arith),
  take_all (message_size - length got) c (omega arith),
  ne→== (length c) 0 (omega arith),
)

-- The pieces of a message, followed by anything.
response_loop_pieces :
    (got : Bytes) (last : ℕ) (cs : List Bytes) (rest : List Arrival)
    → length got + length (concat cs) ≡ message_size
    → All IsPiece cs
    → (k : ℕ) × (response_loop got (pos last) (map chunk cs ++ rest)
        ≡ by_test (got ++ concat cs) (pos k))
response_loop_pieces got last [] rest full h =
    (last, rw append-nil (response_loop_full got (pos last) rest (omega arith)))
response_loop_pieces got last (c ∷ cs) rest full (hc, hs) =
    let lens = length-append c (concat cs) in
    let r =
      response_loop_pieces (got ++ c) (length c) cs rest (omega (arith, length-append got c)) hs in
    (
      r.0,
      response_loop_next got c (pos last) (map chunk cs ++ rest) (omega arith) (omega arith) hc
          ∙ r.1
          ∙ ap (λ b. by_test b (pos r.0)) (append_assoc got c (concat cs)),
    )

finish_response_full :
    (e : Endian) (c : ℕ) (got : Bytes) (k : ℕ) (array : List ℕ)
    → length got ≡ message_size
    → convert_first (ntohl e) c (overlay e got (replicate message_words 0)) ≡ array
    → finish_response e c got (pos k) ≡ answered array
unfolding finish_response
finish_response_full e c got k array h same = rw (← same, h)

first_chunk :
    (e : Endian) (n : ℤ) (pieces : List Bytes) (rest : List Arrival)
    → 0 < length (concat pieces)
    → recv_response_timed_n e n (map chunk pieces ++ rest)
      ≡ after_response e n (response_loop [] (pos 0) (map chunk pieces ++ rest))
unfolding recv_response_timed_n
first_chunk e n [] rest h = absurd (omega arith)
first_chunk e n (c ∷ cs) rest h = refl

-- A response sent by a host of any byte order and received by a host of any byte order, in pieces of
-- any sizes that are not empty, is answered: the words that both sides convert arrive as they were
-- sent, the words behind these byte by byte.
pub recv_response-send_response :
    (e e' : Endian) (n : ℤ) (array sent : List ℕ) (on_wire : Bytes) (pieces : List Bytes)
    (rest : List Arrival)
    → length array ≡ message_words
    → All IsWord array
    → send_response_n e n (pos message_size) array ≡ some (sent, on_wire)
    → All IsPiece pieces
    → concat pieces ≡ on_wire
    → recv_response_timed_n e' n (map chunk pieces ++ rest)
      ≡ answered
          (take (conversion_count n) array ++ map (recode e e') (drop (conversion_count n) array))
unfolding send_response_n after_response
recv_response-send_response e e' n array sent on_wire pieces rest la wa wire hp cat =
    let c = conversion_count n in
    let out = convert_first (htonl e) c array in
    let given : concat pieces ≡ memory e out =
      cat ∙ sym (ap (λ p. p.1) (some-injective _ _ wire)) in
    let lout : length out ≡ message_words = length-convert_first (htonl e) c array ∙ la in
    let lwire = length-memory e out in
    let lold = length-memory e' (replicate message_words 0) in
    let lp : length (concat pieces) ≡ length (memory e out) = ap length given in
    let loop = response_loop_pieces [] 0 pieces rest (omega arith) hp in
    let whole =
      overlay_full e' (memory e out) (replicate message_words 0)
        (omega (arith, length-replicate {A = ℕ} message_words 0)) in
    let same : convert_first (ntohl e') c (overlay e' (concat pieces) (replicate message_words 0))
        ≡ take c array ++ map (recode e e') (drop c array) =
      rw (given, whole, words-memory e e' out (convert_first-IsWord e c array wa))
        (convert_first-moved e e' c array wa) in
    first_chunk e' n pieces rest (omega arith)
    ∙ ap (after_response e' n) loop.1
    ∙ finish_response_full e' c (concat pieces) loop.0
        (take c array ++ map (recode e e') (drop c array)) (omega arith) same
