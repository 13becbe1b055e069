-- ===== src/Sockets.antt =====
-- src/nettest_bsd.c and src/netlib.c: address families, socket types and protocols between the
-- hosts' numbers and netperf's own, their names, and addresses and ports in a sockaddr.
pub mod Kinds
pub mod Addresses
mod Tests
use netperf_copilot.Common.{
  ℕ, zero, suc, ◌+◌, ◌*◌, ◌/◌, ◌%◌, ◌^◌, Bool, true, false, ◌&&◌, ◌||◌, List, [], ◌∷◌, ◌++◌, Option,
  none, some, leb, ◌==◌, if◌then◌else◌, ℤ, pos, negsuc, Bytes, codes, take, drop, length, not,
}
use netperf_copilot.CString.{print_int}
use netperf_copilot.Platform.{Platform}
use netperf_copilot.Control.{Endian, little, big, htonl, ntohl, to_bytes, of_bytes}

-- A `case` label.
abbrev pub is : ℤ → ℕ → Bool
is (pos m) n = m == n
is (negsuc m) n = false

-- NF_* and NST_*, src/nettest_bsd.h
abbrev pub nf_unspec : ℕ
nf_unspec = 0

abbrev pub nf_inet : ℕ
nf_inet = 4

abbrev pub nf_inet6 : ℕ
nf_inet6 = 6

abbrev pub nf_rds : ℕ
nf_rds = 7

abbrev pub nst_unkn : ℤ
nst_unkn = negsuc 0

abbrev pub nst_stream : ℕ
nst_stream = 1

abbrev pub nst_dgram : ℕ
nst_dgram = 2

abbrev pub nst_dccp : ℕ
nst_dccp = 3

abbrev pub nst_seqpacket : ℕ
nst_seqpacket = 4

-- nsec_enabled_to_str
pub nsec_enabled_to_str : ℤ → Bytes
nsec_enabled_to_str (negsuc n) = if n == 0 then codes "Unknown" else codes "UNKNOWN MODE"
nsec_enabled_to_str (pos n) =
    if n == 0
    then codes "Disabled"
    else if n == 1
    then codes "Permissive"
    else if n == 2
    then codes "Enforcing"
    else codes "UNKNOWN MODE"

-- nsec_type_to_str
pub nsec_type_to_str : ℤ → Bytes
nsec_type_to_str (negsuc n) = if n == 0 then codes "Unknown" else codes "UNKNOWN TYPE"
nsec_type_to_str (pos n) = if n == 1 then codes "SELinux" else codes "UNKNOWN TYPE"

module _ (p : Platform) where
  -- nf_to_af
  pub nf_to_af : ℤ → ℕ
  nf_to_af nf =
      if is nf nf_inet
      then p.af_inet
      else if is nf nf_unspec
      then p.af_unspec
      else if is nf nf_inet6
      then p.af_inet6
      else if is nf nf_rds
      then p.af_rds
      else p.af_unspec

  -- af_to_nf
  pub af_to_nf : ℤ → ℕ
  af_to_nf af =
      if is af p.af_inet
      then nf_inet
      else if is af p.af_unspec
      then nf_unspec
      else if is af p.af_inet6
      then nf_inet6
      else if is af p.af_rds
      then nf_rds
      else nf_unspec

  -- nst_to_hst: a sequenced-packet socket keeps netperf's own number.
  pub nst_to_hst : ℤ → ℤ
  nst_to_hst nst =
      if is nst nst_stream
      then pos p.sock_stream
      else if is nst nst_dgram
      then pos p.sock_dgram
      else if is nst nst_dccp
      then pos p.sock_dccp
      else if is nst nst_seqpacket
      then pos nst_seqpacket
      else negsuc 0

  -- hst_to_nst
  pub hst_to_nst : ℤ → ℤ
  hst_to_nst hst =
      if is hst p.sock_stream
      then pos nst_stream
      else if is hst p.sock_dgram
      then pos nst_dgram
      else if is hst p.sock_dccp
      then pos nst_dccp
      else if is hst p.sock_seqpacket
      then pos nst_seqpacket
      else nst_unkn

  -- hst_to_str
  pub hst_to_str : ℤ → Bytes
  hst_to_str hst =
      if is hst p.sock_stream
      then codes "Stream"
      else if is hst p.sock_dgram
      then codes "Datagram"
      else if is hst p.sock_dccp
      then codes "DCCP"
      else if is hst p.sock_seqpacket
      then codes "Seqpacket"
      else codes "Unknown"

  -- protocol_to_str, where the system has no IPPROTO_SDP
  pub protocol_to_str : ℤ → Bytes
  protocol_to_str protocol =
      if is protocol p.ipproto_tcp
      then codes "TCP"
      else if is protocol p.ipproto_udp
      then codes "UDP"
      else if is protocol p.ipproto_udplite
      then codes "UDPLite"
      else if is protocol p.ipproto_sctp
      then codes "SCTP"
      else if is protocol p.ipproto_dccp
      then codes "DCCP"
      else if is protocol p.ipproto_ip
      then codes "IP Default"
      else codes "Unknown Protocol"

  -- inet_ttos
  pub inet_ttos : ℤ → Bytes
  inet_ttos type =
      if is type p.sock_dgram
      then codes "SOCK_DGRAM"
      else if is type p.sock_stream
      then codes "SOCK_STREAM"
      else if is type p.sock_dccp
      then codes "SOCK_DCCP"
      else if is type p.sock_seqpacket
      then codes "SOCK_SEQPACKET"
      else codes "SOCK_UNKNOWN"

  -- inet_ptos: the buffer's 32 bytes hold every number of 32 bits.
  pub inet_ptos : ℤ → Bytes
  inet_ptos protocol =
      if is protocol p.ipproto_tcp
      then codes "IPPROTO_TCP"
      else if is protocol p.ipproto_udp
      then codes "IPPROTO_UDP"
      else if is protocol p.ipproto_sctp
      then codes "IPPROTO_SCTP"
      else if is protocol p.ipproto_dccp
      then codes "IPPROTO_DCCP"
      else if is protocol p.ipproto_udplite
      then codes "IPPROTO_UDPLITE"
      else take 31 (codes "IPPROTO_UNKNOWN(" ++ print_int protocol ++ codes ")")

  -- inet_ftos
  pub inet_ftos : ℤ → Bytes
  inet_ftos family =
      if is family p.af_inet
      then codes "AF_INET"
      else if is family p.af_inet6
      then codes "AF_INET6"
      else if is family p.af_inet_sdp
      then codes "AF_INET_SDP"
      else if is family p.af_rds
      then codes "AF_RDS"
      else codes "AF_UNSPEC"
