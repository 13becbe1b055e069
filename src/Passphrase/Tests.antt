-- ===== src/Passphrase/Tests.antt =====
-- A passphrase on its way from netperf to netserver, src/netperf.c and src/netserver.c.
use netperf_copilot.Common.{
  ◌≡◌, refl, arith, ℕ, true, List, [], ◌∷◌, ◌++◌, some, replicate, take, drop, map, pos, negsuc,
  Bytes, codes,
}
use netperf_copilot.Control.{
  little, big, htonl, memory, message_words, message_size, conversion_count, convert_first,
  send_request_n, chunk,
}
use netperf_copilot.Passphrase.{strncpy, send_passphrase, recv_passphrase}
use netperf_copilot.Passphrase.Bytes4.{same_bytes}
use netperf_copilot.Passphrase.Check.{recv_passphrase-send_passphrase}

abbrev sent : List ℕ
sent = 0x6000000 ∷ 0xffffffff ∷ 0x6968 ∷ replicate 161 0

abbrev wire : Bytes
wire = memory little sent

sent_passphrase :
    send_passphrase little 0xffffffff (pos message_size) (codes "hi") [] ≡ some (sent, wire)
unfolding send_passphrase send_request_n conversion_count convert_first htonl strncpy
sent_passphrase = refl

abbrev pieces : List Bytes
pieces = take 9 wire ∷ drop 9 wire ∷ []

recv_passphrase-send_passphrase_example :
    recv_passphrase big (codes "ho") (map chunk pieces ++ []) (replicate message_words 9)
    ≡ some (negsuc 0, true)
unfolding same_bytes
recv_passphrase-send_passphrase_example =
    recv_passphrase-send_passphrase little big 0xffffffff (codes "hi") (codes "ho") []
      (replicate message_words 9) sent wire pieces [] (omega arith, omega arith)
      (omega arith, omega arith) refl tt (omega arith) (omega arith) sent_passphrase refl
