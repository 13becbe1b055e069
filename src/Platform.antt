-- ===== src/Platform.antt =====
-- The numbers that the system's headers give to address families, socket types and protocols. They
-- differ between systems and are a parameter here; the labels of one C switch are distinct.
use netperf_copilot.Common.{ℕ, Bool, true, false, not, ◌&&◌, ◌||◌, List, [], ◌∷◌, ◌==◌, ◌≡◌, refl}

abbrev pub is_in : ℕ → List ℕ → Bool
is_in n [] = false
is_in n (m ∷ ms) = n == m || is_in n ms

abbrev pub distinct : List ℕ → Bool
distinct [] = true
distinct (n ∷ ns) = not (is_in n ns) && distinct ns

pub record Platform : Type 0 where
  pub af_unspec : ℕ
  pub af_inet : ℕ
  pub af_inet6 : ℕ
  pub af_inet_sdp : ℕ
  pub af_rds : ℕ
  pub sock_stream : ℕ
  pub sock_dgram : ℕ
  pub sock_dccp : ℕ
  pub sock_seqpacket : ℕ
  pub ipproto_ip : ℕ
  pub ipproto_tcp : ℕ
  pub ipproto_udp : ℕ
  pub ipproto_dccp : ℕ
  pub ipproto_sctp : ℕ
  pub ipproto_udplite : ℕ
  pub families_distinct :
      distinct (af_unspec ∷ af_inet ∷ af_inet6 ∷ af_inet_sdp ∷ af_rds ∷ []) ≡ true
  pub types_distinct : distinct (sock_stream ∷ sock_dgram ∷ sock_dccp ∷ sock_seqpacket ∷ []) ≡ true
  pub protocols_distinct :
      distinct (
        ipproto_ip ∷ ipproto_tcp ∷ ipproto_udp ∷ ipproto_dccp ∷ ipproto_sctp ∷ ipproto_udplite ∷ [])
      ≡ true

-- The numbers of Linux.
abbrev pub linux : Platform
linux = record {
  af_unspec = 0;
  af_inet = 2;
  af_inet6 = 10;
  af_inet_sdp = 27;
  af_rds = 21;
  sock_stream = 1;
  sock_dgram = 2;
  sock_dccp = 6;
  sock_seqpacket = 5;
  ipproto_ip = 0;
  ipproto_tcp = 6;
  ipproto_udp = 17;
  ipproto_dccp = 33;
  ipproto_sctp = 132;
  ipproto_udplite = 136;
  families_distinct = refl;
  types_distinct = refl;
  protocols_distinct = refl;
}
