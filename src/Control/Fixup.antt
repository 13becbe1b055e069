-- ===== src/Control/Fixup.antt =====
-- fixup_request_n() of src/netlib.c against recv_request() and recv_request_n().
use netperf_copilot.Common.{
  ℕ, zero, suc, ◌+◌, ◌*◌, ◌≤◌, ◌<◌, ◌≡◌, ◌∙◌, refl, ap, ap₂, false, List, [], ◌∷◌, ◌++◌, some,
  arith, le→ltb, length, map, get_or, All, pos, negsuc, Bytes,
}
use netperf_copilot.Control.{
  Endian, little, big, ntohl, words, message_words, message_size, conversion_count, convert_first,
  fixup_request_n, Arrival, chunk, Received, overlay, recv_request_timed_n, recv_request,
}
use netperf_copilot.Control.Words.{IsWord, length-memory, convert_from-convert_first}
use netperf_copilot.Control.Transfer.{
  concat, IsPiece, recv_loop_pieces, overlay_full, finish_request_full, recv_request_by_test,
}

abbrev pub IsByte : ℕ → Type 0
IsByte b = b < 256

words-IsWord : (e : Endian) (bs : Bytes) → All IsByte bs → All IsWord (words e bs)
words-IsWord e [] h = tt
words-IsWord e (a ∷ []) h = tt
words-IsWord e (a ∷ b ∷ []) h = tt
words-IsWord e (a ∷ b ∷ c ∷ []) h = tt
words-IsWord little (a ∷ b ∷ c ∷ d ∷ bs) (ha, (hb, (hc, (hd, hs)))) =
    (omega arith, words-IsWord little bs hs)
words-IsWord big (a ∷ b ∷ c ∷ d ∷ bs) (ha, (hb, (hc, (hd, hs)))) =
    (omega arith, words-IsWord big bs hs)

length-words : (e : Endian) (bs : Bytes) (n : ℕ) → length bs ≡ 4 * n → length (words e bs) ≡ n
length-words e [] n h = omega arith
length-words e (a ∷ []) n h = absurd (omega arith)
length-words e (a ∷ b ∷ []) n h = absurd (omega arith)
length-words e (a ∷ b ∷ c ∷ []) n h = absurd (omega arith)
length-words e (a ∷ b ∷ c ∷ d ∷ bs) zero h = absurd (omega arith)
length-words e (a ∷ b ∷ c ∷ d ∷ bs) (suc n) h = ap suc (length-words e bs n (omega arith))

conversion_count_pos : (n : ℕ) → n + 2 ≤ message_words → conversion_count (pos n) ≡ n + 2
unfolding conversion_count
conversion_count_pos n h = rw (le→ltb message_words (2 + n) (omega arith)) (omega arith)

conversion_count_all : conversion_count (negsuc 0) ≡ message_words
unfolding conversion_count
conversion_count_all = refl

-- A request that arrives whole, in pieces: recv_request(), which converts every word, followed by
-- fixup_request_n(n), leaves the array that recv_request_timed_n(n) leaves.
pub fixup_request_n-recv_request :
    (e : Endian) (n : ℕ) (old : List ℕ) (pieces : List Bytes) (rest : List Arrival)
    → n + 2 ≤ message_words
    → length old ≡ message_words
    → All IsPiece pieces
    → length (concat pieces) ≡ message_size
    → All IsByte (concat pieces)
    → (r : Received) × (r' : Received) × (recv_request e (map chunk pieces ++ rest) old ≡ some r)
      × (recv_request_timed_n e (pos n) (map chunk pieces ++ rest) old ≡ some r')
      × (r'.ret ≡ pos message_size)
      × (fixup_request_n e n r.array ≡ r'.array)
unfolding recv_request fixup_request_n
fixup_request_n-recv_request e n old pieces rest hn lo hp lp hb =
    let got = concat pieces in
    let ws = words e got in
    let loop = recv_loop_pieces [] pieces rest (omega arith) (omega arith) hp in
    let lold = length-memory e old in
    let whole = overlay_full e got old (omega arith) in
    let lws : length ws ≡ message_words = length-words e got message_words lp in
    let upto = conversion_count_pos n hn in
    let received =
      λ (c : ℕ) (array : List ℕ) (same : convert_first (ntohl e) c (overlay e got old) ≡ array).
        finish_request_full e c old got loop.0 array lp same in
    (
      record {
        ret = pos message_size;
        array = convert_first (ntohl e) message_words ws;
        closed = false;
        affinity = some (get_or (convert_first (ntohl e) message_words ws) 1 0);
      },
      record {
        ret = pos message_size;
        array = convert_first (ntohl e) (n + 2) ws;
        closed = false;
        affinity = some (get_or (convert_first (ntohl e) (n + 2) ws) 1 0);
      },
      recv_request_by_test e (negsuc 0) (map chunk pieces ++ rest) old got (pos (suc loop.0)) loop.1
          ∙ ap some (
              received (conversion_count (negsuc 0)) _
                (ap₂ (convert_first (ntohl e)) conversion_count_all whole)),
      recv_request_by_test e (pos n) (map chunk pieces ++ rest) old got (pos (suc loop.0)) loop.1
          ∙ ap some
              (received (conversion_count (pos n)) _ (ap₂ (convert_first (ntohl e)) upto whole)),
      refl,
      rw (← lws) (convert_from-convert_first e (n + 2) ws (words-IsWord e got hb)),
    )
