-- ===== src/Sockets/Tests.antt =====
-- Concrete runs of the socket routines of src/nettest_bsd.c and src/netlib.c.
use netperf_copilot.Common.{ℕ, ◌≡◌, refl, arith, [], ◌∷◌, some, pos, Bytes, codes, take}
use netperf_copilot.Platform.{Platform, linux}
use netperf_copilot.Control.{little, htonl}
use netperf_copilot.Sockets.{inet_ptos}
use netperf_copilot.Sockets.Addresses.{
  Sockaddr, set_sockaddr_family_addr_port, get_sockaddr_family_addr_port, got,
}
use netperf_copilot.Sockets.Addresses.ReadBack.{get_sockaddr-set_sockaddr}
use netperf_copilot.CString.{print_int, print_nat}

-- The numbers of another system.
abbrev other : Platform
other = record {
  af_unspec = 0;
  af_inet = 2;
  af_inet6 = 30;
  af_inet_sdp = 27;
  af_rds = 99;
  sock_stream = 2;
  sock_dgram = 1;
  sock_dccp = 9;
  sock_seqpacket = 5;
  ipproto_ip = 0;
  ipproto_tcp = 6;
  ipproto_udp = 17;
  ipproto_dccp = 33;
  ipproto_sctp = 132;
  ipproto_udplite = 136;
  families_distinct = refl;
  types_distinct = refl;
  protocols_distinct = refl;
}

unknown_protocol : inet_ptos linux (pos 99) ≡ codes "IPPROTO_UNKNOWN(99)"
unfolding inet_ptos print_int print_nat
unknown_protocol = refl

abbrev address : Bytes
address = 10 ∷ 1 ∷ 2 ∷ 3 ∷ 0 ∷ 0 ∷ 0 ∷ 0 ∷ 0 ∷ 0 ∷ 0 ∷ 0 ∷ 0 ∷ 0 ∷ 0 ∷ 0 ∷ []

abbrev host_address : Bytes
host_address = 3 ∷ 2 ∷ 1 ∷ 10 ∷ 0 ∷ 0 ∷ 0 ∷ 0 ∷ 0 ∷ 0 ∷ 0 ∷ 0 ∷ 0 ∷ 0 ∷ 0 ∷ 0 ∷ []

abbrev stored : Sockaddr
stored = record { family = 2; port = 0x3930; addr = 10 ∷ 1 ∷ 2 ∷ 3 ∷ [] }

set_address :
    set_sockaddr_family_addr_port linux little 2 address 12345 ≡ some (stored, host_address)
unfolding set_sockaddr_family_addr_port htonl
set_address = refl

get_sockaddr-set_sockaddr_example :
    (ret : ℕ) × (out : Bytes) × (get_sockaddr_family_addr_port linux little stored 2 address
      ≡ got ret out 12345)
    × (take 4 out ≡ take 4 host_address)
get_sockaddr-set_sockaddr_example =
    get_sockaddr-set_sockaddr linux little 2 12345 address host_address address stored (omega arith)
      (omega arith) (omega arith) set_address
