-- ===== src/Sockets/Addresses.antt =====
-- Ports and addresses in a sockaddr: set_port_number, set_sockaddr_family_addr_port and
-- get_sockaddr_family_addr_port of src/nettest_bsd.c, and inet_nton of src/netlib.c.
pub mod ReadBack
use netperf_copilot.Common.{
  ℕ, zero, suc, ◌+◌, ◌*◌, ◌/◌, ◌%◌, ◌^◌, ◌≤◌, ◌<◌, ◌≡◌, ◌⊎◌, inl, inr, ◌∙◌, refl, sym, ap, ap₂,
  Bool, true, false, ◌&&◌, ◌||◌, not, Bool-cases, List, [], ◌∷◌, ◌++◌, Option, none, some, arith,
  leb, ◌==◌, if◌then◌else◌, ℤ, pos, negsuc, Bytes, take, drop, length, All, length-take,
  take-append, replicate, length-replicate,
}
use mathlib.Core.Path.{subst}
use mathlib.Core.Option.{some-injective}
use netperf_copilot.Platform.{Platform, distinct, is_in, linux}
use netperf_copilot.Control.{Endian, little, big, htonl, ntohl, to_bytes, of_bytes}

-- A sockaddr_storage: the family, the port as it is stored, and the bytes of the address.
pub record Sockaddr : Type 0 where
  pub family : ℕ
  pub port : ℕ
  pub addr : Bytes

-- `htons` and `ntohs`
abbrev pub htons : Endian → ℕ → ℕ
htons little n = n % 256 * 256 + n / 256 % 256
htons big n = n % 2 ^ 16

-- The `int` at the front of a buffer, and a write to it.
abbrev pub load : Endian → Bytes → ℕ
load e (a ∷ b ∷ c ∷ d ∷ rest) = of_bytes e a b c d
load e rest = 0

abbrev pub store : Endian → ℕ → Bytes → Bytes
store e w buffer = to_bytes e w ++ drop 4 buffer

-- What get_sockaddr_family_addr_port does: it returns a number, and has written the address and
-- the port; it returns -1 and has written nothing; the process exits.
pub data Got : Type 0 where
  got : ℕ → Bytes → ℕ → Got
  mismatch exits : Got

-- `for (i = 0; ...) if (s6_addr[i] != 0) ret = 0;` from `ret`
abbrev pub all_zero : Bytes → ℕ → ℕ
all_zero [] ret = ret
all_zero (b ∷ bs) ret = all_zero bs (if b == 0 then ret else 0)

module _ (p : Platform) where
  -- set_port_number; `none`: the process exits.
  pub set_port_number : Endian → Sockaddr → ℕ → Option Sockaddr
  set_port_number e res port =
      if res.family == p.af_inet || res.family == p.af_rds || res.family == p.af_inet6
      then some (record { family = res.family; port = htons e port; addr = res.addr })
      else none

  -- set_sockaddr_family_addr_port: the sockaddr, and what becomes of the caller's address.
  unfoldable pub set_sockaddr_family_addr_port : Endian → ℕ → Bytes → ℕ → Option (Sockaddr × Bytes)
  set_sockaddr_family_addr_port e family addr port =
      if family == p.af_rds || family == p.af_inet
      then some (
        record { family = family % 2 ^ 16; port = htons e port; addr = take 4 addr },
        store e (htonl e (load e addr)) addr,
      )
      else if family == p.af_inet6
      then some
          (record { family = family % 2 ^ 16; port = htons e port; addr = take 16 addr }, addr)
      else none

  -- get_sockaddr_family_addr_port
  pub get_sockaddr_family_addr_port : Endian → Sockaddr → ℕ → Bytes → Got
  get_sockaddr_family_addr_port e s family addr =
      if not (s.family == family)
      then mismatch
      else if family == p.af_rds || family == p.af_inet
      then got (if load e s.addr == 0 then 1 else 0) (store e (ntohl e (load e s.addr)) addr)
          (htons e s.port)
      else if family == p.af_inet6
      then got (all_zero s.addr 1) (s.addr ++ drop 16 addr) (htons e s.port)
      else exits

  -- inet_nton: the result and the bytes of `dst`, of which `cnt` may be written.
  pub inet_nton : ℤ → Bytes → Bytes → ℕ → ℤ × Bytes
  inet_nton (negsuc n) src dst cnt = (negsuc 0, dst)
  inet_nton (pos af) src dst cnt =
      if af == p.af_inet
      then if leb 4 cnt then (pos 4, take 4 src ++ drop 4 dst) else (negsuc 0, dst)
      else if af == p.af_inet6
      then if leb 16 cnt then (pos 16, take 16 src ++ drop 16 dst) else (negsuc 0, dst)
      else if af == p.af_rds && leb 4 cnt
      then (pos 4, take 4 src ++ drop 4 dst)
      else (negsuc 0, dst)
