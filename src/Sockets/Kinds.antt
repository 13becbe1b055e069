-- ===== src/Sockets/Kinds.antt =====
-- The conversions of src/nettest_bsd.c between a host's address families and socket types and
-- netperf's own numbers, and the names of src/netlib.c.
use netperf_copilot.Common.{ℕ, ◌≡◌, ◌∙◌, refl, ap, arith, pos}
use netperf_copilot.Platform.{Platform}
use netperf_copilot.Sockets.{
  nf_to_af, af_to_nf, nst_to_hst, hst_to_nst, nf_unspec, nf_inet, nf_inet6, nf_rds, nst_stream,
  nst_dgram, nst_dccp, nst_seqpacket,
}

-- The address families that netperf has a number for.
pub data Family : Type 0 where
  unspec inet inet6 rds : Family

abbrev pub family_on : Platform → Family → ℕ
family_on p unspec = p.af_unspec
family_on p inet = p.af_inet
family_on p inet6 = p.af_inet6
family_on p rds = p.af_rds

abbrev pub family_number : Family → ℕ
family_number unspec = nf_unspec
family_number inet = nf_inet
family_number inet6 = nf_inet6
family_number rds = nf_rds

af_to_nf-family_on :
    (p : Platform) (f : Family) → af_to_nf p (pos (family_on p f)) ≡ family_number f
unfolding af_to_nf
af_to_nf-family_on p unspec = ground (arith, p.families_distinct)
af_to_nf-family_on p inet = ground (arith, p.families_distinct)
af_to_nf-family_on p inet6 = ground (arith, p.families_distinct)
af_to_nf-family_on p rds = ground (arith, p.families_distinct)

nf_to_af-family_number :
    (q : Platform) (f : Family) → nf_to_af q (pos (family_number f)) ≡ family_on q f
unfolding nf_to_af
nf_to_af-family_number q unspec = refl
nf_to_af-family_number q inet = refl
nf_to_af-family_number q inet6 = refl
nf_to_af-family_number q rds = refl

-- An address family that one host turns into netperf's number and another host back is the same
-- family there, though the two hosts number the families differently.
pub nf_to_af-af_to_nf :
    (p q : Platform) (f : Family)
    → nf_to_af q (pos (af_to_nf p (pos (family_on p f)))) ≡ family_on q f
nf_to_af-af_to_nf p q f =
    ap (λ n. nf_to_af q (pos n)) (af_to_nf-family_on p f) ∙ nf_to_af-family_number q f

-- The socket types that netperf has a number for.
pub data Kind : Type 0 where
  stream dgram dccp seqpacket : Kind

abbrev pub type_on : Platform → Kind → ℕ
type_on p stream = p.sock_stream
type_on p dgram = p.sock_dgram
type_on p dccp = p.sock_dccp
type_on p seqpacket = p.sock_seqpacket

abbrev pub type_number : Kind → ℕ
type_number stream = nst_stream
type_number dgram = nst_dgram
type_number dccp = nst_dccp
type_number seqpacket = nst_seqpacket

-- The type that arrives: the host's own, but netperf's number of a sequenced-packet socket.
abbrev pub arriving : Platform → Kind → ℕ
arriving q stream = q.sock_stream
arriving q dgram = q.sock_dgram
arriving q dccp = q.sock_dccp
arriving q seqpacket = nst_seqpacket

hst_to_nst-type_on :
    (p : Platform) (k : Kind) → hst_to_nst p (pos (type_on p k)) ≡ pos (type_number k)
unfolding hst_to_nst
hst_to_nst-type_on p stream = ground (arith, p.types_distinct)
hst_to_nst-type_on p dgram = ground (arith, p.types_distinct)
hst_to_nst-type_on p dccp = ground (arith, p.types_distinct)
hst_to_nst-type_on p seqpacket = ground (arith, p.types_distinct)

nst_to_hst-type_number :
    (q : Platform) (k : Kind) → nst_to_hst q (pos (type_number k)) ≡ pos (arriving q k)
unfolding nst_to_hst
nst_to_hst-type_number q stream = refl
nst_to_hst-type_number q dgram = refl
nst_to_hst-type_number q dccp = refl
nst_to_hst-type_number q seqpacket = refl

-- A socket type that one host turns into netperf's number and another host back is the same type
-- there for stream, datagram and DCCP sockets; for a sequenced-packet socket it is netperf's own
-- number 4, whatever number the other host has for it.
pub nst_to_hst-hst_to_nst :
    (p q : Platform) (k : Kind)
    → nst_to_hst q (hst_to_nst p (pos (type_on p k))) ≡ pos (arriving q k)
nst_to_hst-hst_to_nst p q k =
    ap (nst_to_hst q) (hst_to_nst-type_on p k) ∙ nst_to_hst-type_number q k
