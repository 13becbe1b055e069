-- ===== src/Control.antt =====
-- The control connection of src/netlib.c: how requests and responses are put into network order,
-- sent, received in pieces and put into host order again. A message is the array of 32-bit words
-- that `request_array` and `response_array` overlay on the unions of src/netlib.h.
pub mod Words
pub mod Transfer
pub mod Fixup
pub mod Outcome
pub mod Response
pub mod Doubles
mod Tests
use netperf_copilot.Common.{
  ℕ, zero, suc, ◌+◌, ◌*◌, ◌-◌, ◌/◌, ◌%◌, ◌^◌, Bool, true, false, List, [], ◌∷◌, ◌++◌, Option, none,
  some, ltb, leb, ◌==◌, if◌then◌else◌, ◌||◌, length, get_or, set, take, drop, replicate, ℤ, pos,
  negsuc, Bytes, min,
}

-- The byte order of the host.
pub data Endian : Type 0 where
  little big : Endian

abbrev pub word_mod : ℕ
word_mod = 2 ^ 32

-- A word with its four bytes reversed.
abbrev pub swap_word : ℕ → ℕ
swap_word w = w % 256 * 2 ^ 24 + w / 256 % 256 * 2 ^ 16 + w / 2 ^ 16 % 256 * 256 + w / 2 ^ 24 % 256

-- `htonl` and `ntohl`, of the C library.
unfoldable pub htonl : Endian → ℕ → ℕ
htonl little w = swap_word w
htonl big w = w

unfoldable pub ntohl : Endian → ℕ → ℕ
unfolding htonl
ntohl e w = htonl e w

-- A word as it lies in memory, and back.
abbrev pub to_bytes : Endian → ℕ → Bytes
to_bytes little w = w % 256 ∷ w / 256 % 256 ∷ w / 2 ^ 16 % 256 ∷ w / 2 ^ 24 % 256 ∷ []
to_bytes big w = w / 2 ^ 24 % 256 ∷ w / 2 ^ 16 % 256 ∷ w / 256 % 256 ∷ w % 256 ∷ []

abbrev pub of_bytes : Endian → ℕ → ℕ → ℕ → ℕ → ℕ
of_bytes little a b c d = a + b * 256 + c * 2 ^ 16 + d * 2 ^ 24
of_bytes big a b c d = d + c * 256 + b * 2 ^ 16 + a * 2 ^ 24

abbrev pub memory : Endian → List ℕ → Bytes
memory e [] = []
memory e (w ∷ ws) = to_bytes e w ++ memory e ws

abbrev pub words : Endian → Bytes → List ℕ
words e (a ∷ b ∷ c ∷ d ∷ bs) = of_bytes e a b c d ∷ words e bs
words e _ = []

-- `sizeof(netperf_request)`, and that of the response: two words and MAXSPECDATA more.
abbrev pub message_words : ℕ
message_words = 2 + 162

abbrev pub message_size : ℕ
message_size = 4 * message_words

-- How many words are converted: all of them for a negative `n`, else two and `n` more, and no more
-- than there are.
unfoldable pub conversion_count : ℤ → ℕ
conversion_count (negsuc k) = message_words
conversion_count (pos n) = if ltb message_words (2 + n) then message_words else 2 + n

-- `for (counter = 0; counter < count; counter++) array[counter] = f(array[counter]);`
unfoldable pub convert_first : (ℕ → ℕ) → ℕ → List ℕ → List ℕ
convert_first f zero ws = ws
convert_first f (suc n) [] = []
convert_first f (suc n) (w ∷ ws) = f w ∷ convert_first f n ws

-- `for (i = n; i < limit; i++) array[i] = f(array[i]);`
pub convert_from : (ℕ → ℕ) → ℕ → List ℕ → List ℕ
convert_from f n [] = []
convert_from f zero (w ∷ ws) = f w ∷ convert_from f zero ws
convert_from f (suc n) (w ∷ ws) = w ∷ convert_from f n ws

-- send_request_n: the array that it leaves, and the bytes that it hands to send(). `sent` is what
-- send() returns; `none`: the process exits.
unfoldable pub send_request_n : Endian → ℤ → ℕ → ℤ → List ℕ → Option (List ℕ × Bytes)
send_request_n e n remote_proc_affinity (pos sent) array =
    let array' = convert_first (htonl e) (conversion_count n) (set array 1 remote_proc_affinity) in
    if sent == message_size then some (array', memory e array') else none
send_request_n e n remote_proc_affinity (negsuc k) array = none

-- send_request
pub send_request : Endian → ℕ → ℤ → List ℕ → Option (List ℕ × Bytes)
send_request e remote_proc_affinity sent array =
    send_request_n e (negsuc 0) remote_proc_affinity sent (set array 1 remote_proc_affinity)

-- send_response_n
pub send_response_n : Endian → ℤ → ℤ → List ℕ → Option (List ℕ × Bytes)
send_response_n e n (pos sent) array =
    let array' = convert_first (htonl e) (conversion_count n) array in
    if sent == message_size then some (array', memory e array') else none
send_response_n e n (negsuc k) array = none

-- send_response
pub send_response : Endian → ℤ → List ℕ → Option (List ℕ × Bytes)
send_response e sent array = send_response_n e (negsuc 0) sent array

-- fixup_request_n
pub fixup_request_n : Endian → ℕ → List ℕ → List ℕ
fixup_request_n e n array = convert_from (htonl e) (n + 2) array

-- What one round of select() and recv() meets: bytes, of which recv() takes what there is room for,
-- the end of the stream, an error of recv(), or a select() that does not report one descriptor.
pub data Arrival : Type 0 where
  chunk : Bytes → Arrival
  eof : Arrival
  failed : Arrival
  silent : Arrival

-- How a receive loop stops: by its test, with the bytes received and the last `bytes_recvd`; at a
-- failure of select(); or not yet, since the arrivals given are used up.
pub data Stop : Type 0 where
  by_test : Bytes → ℤ → Stop
  by_select : Bytes → Stop
  not_yet : Stop

-- The loop of recv_request_timed_n.
pub recv_loop : Bytes → List Arrival → Stop
recv_loop got [] = not_yet
recv_loop got (silent ∷ rest) = by_select got
recv_loop got (eof ∷ rest) = by_test got (pos 0)
recv_loop got (failed ∷ rest) = by_test got (negsuc 0)
recv_loop got (chunk bs ∷ rest) =
    let part = take (message_size - length got) bs in
    let next = recv_loop (got ++ part) rest in
    if length (got ++ part) == message_size || length part == 0
    then by_test (got ++ part) (pos (length part))
    else next

-- What recv_request_timed_n returns and leaves: the returned value, the request array, whether it
-- closed the socket, and the processor affinity that it read.
pub record Received : Type 0 where
  pub ret : ℤ
  pub array : List ℕ
  pub closed : Bool
  pub affinity : Option ℕ

-- The array after `got` bytes were written over its front.
abbrev pub overlay : Endian → Bytes → List ℕ → List ℕ
overlay e got array = words e (got ++ drop (length got) (memory e array))

-- The end of recv_request_timed_n, once the loop has stopped by its test.
pub finish_request : Endian → ℕ → List ℕ → Bytes → ℤ → Received
finish_request e count array got (negsuc k) = record {
  ret = negsuc 0;
  array = convert_first (ntohl e) count (overlay e got array);
  closed = true;
  affinity = none;
}
finish_request e count array got (pos zero) = record {
  ret = pos 0;
  array = convert_first (ntohl e) count (overlay e got array);
  closed = true;
  affinity = none;
}
finish_request e count array got (pos (suc k)) =
    let array' = convert_first (ntohl e) count (overlay e got array) in
    if ltb (length got) message_size
    then record { ret = negsuc 0; array = array'; closed = true; affinity = none }
    else record {
      ret = pos message_size;
      array = array';
      closed = false;
      affinity = some (get_or array' 1 0);
    }

-- What follows the loop of recv_request_timed_n; `none`: it still waits.
pub after_loop : Endian → ℤ → List ℕ → Stop → Option Received
after_loop e n array not_yet = none
after_loop e n array (by_select got) =
    some (record { ret = negsuc 0; array = overlay e got array; closed = true; affinity = none })
after_loop e n array (by_test got last) =
    some (finish_request e (conversion_count n) array got last)

-- recv_request_timed_n
pub recv_request_timed_n : Endian → ℤ → List Arrival → List ℕ → Option Received
recv_request_timed_n e n arrivals array = after_loop e n array (recv_loop [] arrivals)

-- recv_request
pub recv_request : Endian → List Arrival → List ℕ → Option Received
recv_request e arrivals array = recv_request_timed_n e (negsuc 0) arrivals array

-- The loop of recv_response_timed_n. It does not select, so a pause is only waited out; at a full
-- buffer it stops without another recv().
pub response_loop : Bytes → ℤ → List Arrival → Stop
response_loop got last [] = if length got == message_size then by_test got last else not_yet
response_loop got last (silent ∷ rest) =
    if length got == message_size then by_test got last else response_loop got last rest
response_loop got last (eof ∷ rest) =
    if length got == message_size then by_test got last else by_test got (pos 0)
response_loop got last (failed ∷ rest) =
    if length got == message_size then by_test got last else by_test got (negsuc 0)
response_loop got last (chunk bs ∷ rest) =
    let part = take (message_size - length got) bs in
    let next = response_loop (got ++ part) (pos (length part)) rest in
    if length got == message_size
    then by_test got last
    else if length part == 0
    then by_test got (pos 0)
    else next

-- How recv_response_timed_n ends: it returns and leaves the array, the process exits, or it waits.
pub data Answer : Type 0 where
  answered : List ℕ → Answer
  exits : Answer
  waits : Answer

-- What follows the loop.
pub finish_response : Endian → ℕ → Bytes → ℤ → Answer
finish_response e count got (negsuc k) = exits
finish_response e count got (pos k) =
    if ltb (length got) message_size
    then exits
    else answered (convert_first (ntohl e) count (overlay e got (replicate message_words 0)))

pub after_response : Endian → ℤ → Stop → Answer
after_response e n (by_test got last) = finish_response e (conversion_count n) got last
after_response e n (by_select got) = exits
after_response e n not_yet = waits

-- recv_response_timed_n: the response array is zeroed first, and one select() comes before the loop.
pub recv_response_timed_n : Endian → ℤ → List Arrival → Answer
recv_response_timed_n e n [] = waits
recv_response_timed_n e n (silent ∷ rest) = exits
recv_response_timed_n e n (first ∷ rest) =
    after_response e n (response_loop [] (pos 0) (first ∷ rest))
