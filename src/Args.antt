-- ===== src/Args.antt =====
-- The option values that src/netsh.c takes apart: pairs, address families, socket types,
-- directions and protocols. A string is at most as long as its C buffer.
pub mod Break
pub mod Direction
mod Tests
use netperf_copilot.Common.{
  ℕ, zero, suc, ◌+◌, ◌*◌, ◌-◌, ◌/◌, ◌%◌, ◌^◌, Bool, true, false, ◌&&◌, ◌||◌, List, [], ◌∷◌, Option,
  none, some, ltb, leb, ◌==◌, if◌then◌else◌, length, map, take, to_upper, ℤ, pos, negsuc, Bytes,
  codes,
}
use netperf_copilot.CString.{same_nocase, contains, cut, strtol, word_of}
use netperf_copilot.Platform.{Platform}
use netperf_copilot.Sockets.{nst_unkn}

-- What is left in `arg1`, in `arg2` and in the string itself, by what strchr() has found.
abbrev pub both_args : Bytes → Bytes × Option Bytes → Bytes × Bytes × Bytes
both_args s (before, some rest) = (before, rest, before)
both_args s (before, none) = (s, s, s)

abbrev pub explicit_args : Bytes → Bytes × Option Bytes → Bytes × Bytes × Bytes
explicit_args s (before, some rest) = (before, rest, before)
explicit_args s (before, none) = (s, [], s)

-- break_args
unfoldable pub break_args : Bytes → Bytes × Bytes × Bytes
break_args s = both_args s (cut b',' s)

-- break_args_explicit_sep
unfoldable pub break_args_explicit_sep : Bytes → ℕ → Bytes × Bytes × Bytes
break_args_explicit_sep s sep = explicit_args s (cut sep s)

-- break_args_explicit
unfoldable pub break_args_explicit : Bytes → Bytes × Bytes × Bytes
break_args_explicit s = break_args_explicit_sep s b','

-- `strncpy(temp, s, 10)` ends the text only if it is shorter than 10; `none`: it is not, and a
-- search in `temp` reads past its end.
unfoldable pub copy_10 : Bytes → Option Bytes
copy_10 s = if ltb (length s) 10 then some s else none

module _ (p : Platform) where
  -- parse_address_family; `none`: it reads past its copy of the string.
  unfoldable pub parse_address_family : Bytes → Option ℕ
  parse_address_family family_string = elim (copy_10 family_string) [
    | none ↦ none
    | some temp ↦
        if contains temp (codes "6")
        then some p.af_inet6
        else if contains temp (codes "inet") || contains temp (codes "4")
        then some p.af_inet
        else if contains temp (codes "af_rds") || contains temp (codes "32")
        then some p.af_rds
        else some p.af_unspec
  ]

  -- parse_socket_type; `none`: it reads past its copy of the string.
  pub parse_socket_type : Bytes → Option ℤ
  parse_socket_type socket_string = elim (copy_10 socket_string) [
    | none ↦ none
    | some temp ↦
        if contains temp (codes "stream")
        then some (pos p.sock_stream)
        else if contains temp (codes "dgram")
        then some (pos p.sock_dgram)
        else some nst_unkn
  ]

  -- parse_protocol with the socket type before: the protocol, and the socket type behind. The
  -- system has no IPPROTO_SDP. A longer string has ten characters in front, and no name has.
  pub parse_protocol : Bytes → ℤ → ℕ × ℤ
  parse_protocol protocol_string socket_type =
      if same_nocase protocol_string (codes "tcp")
      then (p.ipproto_tcp, pos p.sock_stream)
      else if same_nocase protocol_string (codes "udp")
      then (p.ipproto_udp, pos p.sock_dgram)
      else if same_nocase protocol_string (codes "sctp")
      then (p.ipproto_sctp, socket_type)
      else if same_nocase protocol_string (codes "dccp")
      then (p.ipproto_dccp, pos p.sock_dccp)
      else if same_nocase protocol_string (codes "udplite")
      then (p.ipproto_udplite, pos p.sock_dgram)
      else (p.ipproto_ip, socket_type)

-- `a | b` on 32 bits: the `bits` low bits of both.
abbrev pub or_bits : ℕ → ℕ → ℕ → ℕ
or_bits zero a b = 0
or_bits (suc bits) a b =
    (if a % 2 == 1 || b % 2 == 1 then 1 else 0) + 2 * or_bits bits (a / 2) (b / 2)

unfoldable pub bit_or : ℕ → ℕ → ℕ
bit_or a b = or_bits 32 a b

-- NETPERF_XMIT and NETPERF_RECV, src/netsh.h
abbrev pub netperf_xmit : ℕ
netperf_xmit = 2

abbrev pub netperf_recv : ℕ
netperf_recv = 4

-- What parse_direction makes of a part without `|`, in 32 bits.
pub direction_part : Bytes → ℕ
direction_part [] = 0
direction_part (c ∷ s) =
    let arg1 = c ∷ s in
    if same_nocase arg1 (codes "xmit")
      || same_nocase arg1 (codes "send")
      || same_nocase arg1 (codes "stream")
      || same_nocase arg1 (codes "transmit")
    then netperf_xmit
    else if same_nocase arg1 (codes "recv")
        || same_nocase arg1 (codes "receive")
        || same_nocase arg1 (codes "maerts")
    then netperf_recv
    else if same_nocase arg1 (codes "rr")
    then bit_or netperf_xmit netperf_recv
    else word_of (strtol arg1).0

-- parse_direction, with as many calls inside one another as `fuel` says; `none`: there are more. A
-- null pointer is an empty string here, and the result is the same.
pub parse_direction : ℕ → Bytes → Option ℕ
parse_direction zero s = none
parse_direction (suc fuel) [] = some 0
parse_direction (suc fuel) (c ∷ s) =
    let (arg1, arg2, direction_string) = break_args_explicit_sep (c ∷ s) b'|' in
    let right = parse_direction fuel arg2 in
    elim right [ none ↦ none | some n ↦ some (bit_or (direction_part arg1) n) ]

-- convert_to_upper
unfoldable pub convert_to_upper : Bytes → Bytes
convert_to_upper source = map to_upper source
