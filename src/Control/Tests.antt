-- ===== src/Control/Tests.antt =====
-- Messages of src/netlib.c on the wire, and the theorems at concrete inputs.
use netperf_copilot.Common.{
  ℕ, ◌≡◌, refl, true, false, List, [], ◌∷◌, ◌++◌, none, some, arith, take, drop, map, get_or, set,
  replicate, All, pos, negsuc, Bytes,
}
use netperf_copilot.Control.{
  little, big, htonl, ntohl, memory, words, message_words, message_size, conversion_count,
  convert_first, send_request_n, send_response_n, fixup_request_n, chunk, eof, recv_loop, Received,
  finish_request, after_loop, recv_request_timed_n, recv_request, answered, recv_response_timed_n,
}
use netperf_copilot.Control.Words.{IsWord, recode}
use netperf_copilot.Control.Transfer.{recv_request-send_request}
use netperf_copilot.Control.Fixup.{fixup_request_n-recv_request}
use netperf_copilot.Control.Outcome.{Outcome, recv_request-Outcome}
use netperf_copilot.Control.Response.{recv_response-send_response}
use netperf_copilot.Control.Doubles.{
  plain, mixed, network, significance, Octet, bytes, htond, double_on_wire, double_from_wire,
  ntohd-htond,
}

abbrev message : List ℕ
message = 16 ∷ 0 ∷ 1 ∷ 2 ∷ replicate 160 0x1020304

message-IsWord : All IsWord message
message-IsWord = omega arith

conversion_counts :
    (conversion_count (negsuc 0) ≡ 164)
    × (conversion_count (pos 38) ≡ 40)
    × (conversion_count (pos 500) ≡ 164)
unfolding conversion_count
conversion_counts = (refl, refl, refl)

-- The array that a little endian host has after the conversion of four words.
abbrev converted : List ℕ
converted = 0x10000000 ∷ 0xffffffff ∷ 0x1000000 ∷ 0x2000000 ∷ replicate 160 0x1020304

abbrev wire : Bytes
wire = memory little converted

sent_request :
    send_request_n little (pos 2) 0xffffffff (pos message_size) message ≡ some (converted, wire)
unfolding send_request_n conversion_count convert_first htonl
sent_request = refl

abbrev pieces : List Bytes
pieces = take 3 wire ∷ take 400 (drop 3 wire) ∷ drop 403 wire ∷ []

recv_request-send_request_example :
    (r : Received) × (recv_request_timed_n big
        (pos 2)
        (map chunk pieces ++ [])
        (replicate message_words 9)
      ≡ some r)
    × (r.ret ≡ pos message_size)
    × (r.closed ≡ false)
    × (r.array
        ≡ take (conversion_count (pos 2)) (set message 1 0xffffffff)
          ++ map (recode little big) (drop (conversion_count (pos 2)) (set message 1 0xffffffff)))
    × (r.affinity ≡ some (get_or r.array 1 0))
recv_request-send_request_example =
    recv_request-send_request little big (pos 2) 0xffffffff message (replicate message_words 9)
      converted wire pieces [] refl refl message-IsWord (omega arith) (omega arith) sent_request
      refl

abbrev blank_pieces : List Bytes
blank_pieces = replicate 6 0 ∷ replicate 650 0 ∷ []

fixup_request_n-recv_request_example :
    (r : Received) × (r' : Received) × (recv_request little (map chunk blank_pieces ++ []) message
      ≡ some r)
    × (recv_request_timed_n little (pos 38) (map chunk blank_pieces ++ []) message ≡ some r')
    × (r'.ret ≡ pos message_size)
    × (fixup_request_n little 38 r.array ≡ r'.array)
fixup_request_n-recv_request_example =
    fixup_request_n-recv_request little 38 message blank_pieces [] (omega arith) refl (omega arith)
      refl (omega arith)

-- Three bytes, then the end of the stream.
abbrev cut_off : Received
cut_off = record {
  ret = pos 0;
  array =
      convert_first (ntohl little) 164 (words little (1 ∷ 2 ∷ 3 ∷ drop 3 (memory little message)));
  closed = true;
  affinity = none;
}

cut_request : recv_request little (chunk (1 ∷ 2 ∷ 3 ∷ []) ∷ eof ∷ []) message ≡ some cut_off
unfolding recv_request recv_request_timed_n after_loop recv_loop finish_request conversion_count
cut_request = refl

recv_request-Outcome_example : Outcome (chunk (1 ∷ 2 ∷ 3 ∷ []) ∷ eof ∷ []) cut_off
unfolding recv_request
recv_request-Outcome_example =
    recv_request-Outcome little (negsuc 0) (chunk (1 ∷ 2 ∷ 3 ∷ []) ∷ eof ∷ []) message cut_off
      cut_request

sent_response :
    send_response_n big (negsuc 0) (pos message_size) message ≡ some (message, memory big message)
unfolding send_response_n conversion_count convert_first htonl
sent_response = refl

recv_response-send_response_example :
    recv_response_timed_n little (negsuc 0) (map chunk (memory big message ∷ []) ++ [])
    ≡ answered (
        take (conversion_count (negsuc 0)) message
        ++ map (recode big little) (drop (conversion_count (negsuc 0)) message))
recv_response-send_response_example =
    recv_response-send_response big little (negsuc 0) message message (memory big message)
      (memory big message ∷ []) [] refl message-IsWord sent_response (omega arith) refl

abbrev one : Octet
one = record { a = 1; b = 2; c = 3; d = 4; e = 5; f = 6; g = 7; h = 8 }

double_wired : double_on_wire plain (bytes one) ≡ 8 ∷ 7 ∷ 6 ∷ 5 ∷ 4 ∷ 3 ∷ 2 ∷ 1 ∷ []
unfolding htond htonl
double_wired = refl

ntohd-htond_example :
    significance network (double_from_wire network (double_on_wire mixed (bytes one)))
    ≡ significance mixed (bytes one)
ntohd-htond_example = ntohd-htond mixed network one (omega arith)
