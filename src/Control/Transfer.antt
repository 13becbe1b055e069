-- ===== src/Control/Transfer.antt =====
-- A request from send_request_n() to recv_request_timed_n() of src/netlib.c, and a response from
-- send_response_n() to recv_response_timed_n(), in pieces of any size.
use netperf_copilot.Common.{
  ℕ, zero, suc, ◌+◌, ◌-◌, ◌≤◌, ◌<◌, ◌≡◌, ◌∙◌, refl, sym, ap, false, List, [], ◌∷◌, ◌++◌, append-nil,
  append_assoc, some, arith, ◌==◌, ne→==, length, length-append, length-set, take, take_all, drop,
  map, get_or, set, All, ℤ, pos, Bytes, Bool-cases, inl, inr, ==→eq, ==→ne,
}
use mathlib.Core.Option.{some-injective}
use netperf_copilot.Control.{
  Endian, htonl, ntohl, memory, words, message_words, message_size, conversion_count, convert_first,
  send_request_n, Arrival, chunk, by_test, recv_loop, Received, overlay, finish_request, after_loop,
  recv_request_timed_n,
}
use netperf_copilot.Control.Words.{
  IsWord, recode, words-memory, length-memory, length-convert_first, convert_first-IsWord,
  convert_first-moved,
}

abbrev pub concat : List Bytes → Bytes
concat [] = []
concat (c ∷ cs) = c ++ concat cs

-- recv() gives at least a byte where it neither fails nor meets the end.
abbrev pub IsPiece : Bytes → Type 0
IsPiece c = 0 < length c

pub concat_nil : (cs : List Bytes) → All IsPiece cs → length (concat cs) ≡ 0 → cs ≡ []
concat_nil [] h e = refl
concat_nil (c ∷ cs) (hc, hs) e = absurd (omega (arith, length-append c (concat cs)))

recv_loop_last :
    (got c : Bytes) (rest : List Arrival)
    → length got + length c ≡ message_size
    → recv_loop got (chunk c ∷ rest) ≡ by_test (got ++ c) (pos (length c))
unfolding recv_loop
recv_loop_last got c rest fits =
    let full : length (got ++ c) ≡ message_size = length-append got c ∙ fits in
    rw (take_all (message_size - length got) c (omega arith), full)

pub recv_loop_next :
    (got c : Bytes) (rest : List Arrival)
    → length got + length c < message_size
    → 0 < length c
    → recv_loop got (chunk c ∷ rest) ≡ recv_loop (got ++ c) rest
unfolding recv_loop
recv_loop_next got c rest fits piece = rw (
  take_all (message_size - length got) c (omega arith),
  ne→== (length c) 0 (omega arith),
  ne→== (length (got ++ c)) message_size (omega (arith, length-append got c)),
)

pub pos_length : (c : Bytes) → 0 < length c → (k : ℕ) × (length c ≡ suc k)
pos_length [] h = absurd (omega arith)
pos_length (x ∷ c) h = (length c, refl)

pub recv_loop_pieces :
    (got : Bytes) (cs : List Bytes) (rest : List Arrival)
    → length got < message_size
    → length got + length (concat cs) ≡ message_size
    → All IsPiece cs
    → (k : ℕ) × (recv_loop got (map chunk cs ++ rest) ≡ by_test (got ++ concat cs) (pos (suc k)))
recv_loop_pieces got [] rest lt full h = absurd (omega arith)
recv_loop_pieces got (c ∷ cs) rest lt full (hc, hs) =
    let lens = length-append c (concat cs) in
    let here = length-append got c in
    elim (Bool-cases (length got + length c == message_size)) [
      | inl e ↦
          let done =
            concat_nil cs hs (omega (arith, ==→eq (length got + length c) message_size e)) in
          let k = pos_length c hc in
          (
            k.0,
            recv_loop_last got c (map chunk cs ++ rest)
                  (==→eq (length got + length c) message_size e)
                ∙ rw (k.1, done) (rw append-nil),
          )
      | inr e ↦
          let short = ==→ne (length got + length c) message_size e in
          let r = recv_loop_pieces (got ++ c) cs rest (omega arith) (omega arith) hs in
          (
            r.0,
            recv_loop_next got c (map chunk cs ++ rest) (omega arith) hc
                ∙ r.1
                ∙ ap (λ b. by_test b (pos (suc r.0))) (append_assoc got c (concat cs)),
          )
    ]

-- What is received over an array of the same length leaves nothing of it.
drop_all : (got bs : Bytes) → length bs ≤ length got → drop (length got) bs ≡ []
drop_all [] [] h = refl
drop_all (x ∷ got) [] h = refl
drop_all [] (b ∷ bs) h = absurd (omega arith)
drop_all (x ∷ got) (b ∷ bs) h = drop_all got bs (omega arith)

pub overlay_full :
    (e : Endian) (got : Bytes) (array : List ℕ)
    → length (memory e array) ≤ length got
    → overlay e got array ≡ words e got
overlay_full e got array h = rw (drop_all got (memory e array) h, append-nil)

pub recv_request_by_test :
    (e : Endian) (n : ℤ) (arrivals : List Arrival) (old : List ℕ) (got : Bytes) (last : ℤ)
    → recv_loop [] arrivals ≡ by_test got last
    → recv_request_timed_n e n arrivals old
      ≡ some (finish_request e (conversion_count n) old got last)
unfolding recv_request_timed_n after_loop
recv_request_by_test e n arrivals old got last h = ap (after_loop e n old) h

pub finish_request_full :
    (e : Endian) (c : ℕ) (old : List ℕ) (got : Bytes) (k : ℕ) (array : List ℕ)
    → length got ≡ message_size
    → convert_first (ntohl e) c (overlay e got old) ≡ array
    → finish_request e c old got (pos (suc k)) ≡ record {
      ret = pos message_size;
      array = array;
      closed = false;
      affinity = some (get_or array 1 0);
    }
unfolding finish_request
finish_request_full e c old got k array h same = rw (← same, h)

-- The message as it stands before the conversion.
abbrev pub outgoing : ℕ → List ℕ → List ℕ
outgoing affinity array = set array 1 affinity

set-IsWord : (ws : List ℕ) (i v : ℕ) → All IsWord ws → IsWord v → All IsWord (set ws i v)
set-IsWord [] i v h hv = h
set-IsWord (w ∷ ws) zero v (hw, hs) hv = (hv, hs)
set-IsWord (w ∷ ws) (suc i) v (hw, hs) hv = (hw, set-IsWord ws i v hs hv)

-- A request sent by a host of any byte order and received by a host of any byte order, in pieces of
-- any sizes that are not empty: recv_request_timed_n() returns the message's size and keeps the
-- socket open; the words that both sides convert arrive as they were sent, the processor affinity in
-- the second of them; the words behind these arrive byte by byte.
pub recv_request-send_request :
    (e e' : Endian) (n : ℤ) (affinity : ℕ) (array old sent : List ℕ) (on_wire : Bytes)
    (pieces : List Bytes) (rest : List Arrival)
    → length array ≡ message_words
    → length old ≡ message_words
    → All IsWord array
    → IsWord affinity
    → All IsPiece pieces
    → send_request_n e n affinity (pos message_size) array ≡ some (sent, on_wire)
    → concat pieces ≡ on_wire
    → (r : Received) × (recv_request_timed_n e' n (map chunk pieces ++ rest) old ≡ some r)
      × (r.ret ≡ pos message_size)
      × (r.closed ≡ false)
      × (r.array
          ≡ take (conversion_count n) (outgoing affinity array)
            ++ map (recode e e') (drop (conversion_count n) (outgoing affinity array)))
      × (r.affinity ≡ some (get_or r.array 1 0))
unfolding send_request_n
recv_request-send_request e e' n affinity array old sent on_wire pieces rest la lo wa wf hp wire
      cat =
    let c = conversion_count n in
    let out = outgoing affinity array in
    let moved = convert_first (htonl e) c out in
    let given : concat pieces ≡ memory e moved =
      cat ∙ sym (ap (λ p. p.1) (some-injective _ _ wire)) in
    let lsent : length moved ≡ message_words =
      length-convert_first (htonl e) c out ∙ length-set array 1 affinity ∙ la in
    let lwire = length-memory e moved in
    let lold = length-memory e' old in
    let lp : length (concat pieces) ≡ length (memory e moved) = ap length given in
    let loop = recv_loop_pieces [] pieces rest (omega arith) (omega arith) hp in
    let wo = set-IsWord array 1 affinity wa wf in
    let whole = overlay_full e' (memory e moved) old (omega arith) in
    let same : convert_first (ntohl e') c (overlay e' (concat pieces) old)
        ≡ take c out ++ map (recode e e') (drop c out) =
      rw (given, whole, words-memory e e' moved (convert_first-IsWord e c out wo))
        (convert_first-moved e e' c out wo) in
    (
      record {
        ret = pos message_size;
        array = take c out ++ map (recode e e') (drop c out);
        closed = false;
        affinity = some (get_or (take c out ++ map (recode e e') (drop c out)) 1 0);
      },
      recv_request_by_test e' n (map chunk pieces ++ rest) old (concat pieces) (pos (suc loop.0))
            loop.1
          ∙ ap some (
              finish_request_full e' c old (concat pieces) loop.0
                (take c out ++ map (recode e e') (drop c out)) (omega arith) same),
      refl,
      refl,
      refl,
      refl,
    )
