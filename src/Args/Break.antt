-- ===== src/Args/Break.antt =====
-- break_args(), break_args_explicit_sep(), break_args_explicit() and parse_protocol() of src/netsh.c.
use netperf_copilot.Common.{◌≡◌, refl, ap, true, [], ◌∷◌, ◌++◌, Bytes, codes, ℤ, map, to_upper}
use netperf_copilot.CString.{same_nocase}
use netperf_copilot.CString.Laws.{
  Lacks, cut-append, cut-Lacks, same_nocase_trans, same_nocase-to_upper,
}
use netperf_copilot.Platform.{Platform}
use netperf_copilot.Args.{
  both_args, explicit_args, break_args, break_args_explicit_sep, break_args_explicit,
  parse_protocol, convert_to_upper,
}

-- break_args() takes a pair apart at its first comma, and of a text without a comma it makes both
-- arguments; break_args_explicit() takes the same pair apart the same way, and leaves the second
-- argument empty where there is no comma.
pub break_args_pair :
    (s t : Bytes)
    → Lacks b',' s
    → (break_args (s ++ b',' ∷ t) ≡ (s, t, s))
      × (break_args s ≡ (s, s, s))
      × (break_args_explicit (s ++ b',' ∷ t) ≡ (s, t, s))
      × (break_args_explicit s ≡ (s, [], s))
unfolding break_args break_args_explicit_sep break_args_explicit
break_args_pair s t l = (
  ap (both_args (s ++ b',' ∷ t)) (cut-append b',' s t l),
  ap (both_args s) (cut-Lacks b',' s l),
  ap (explicit_args (s ++ b',' ∷ t)) (cut-append b',' s t l),
  ap (explicit_args s) (cut-Lacks b',' s l),
)

parse_protocol_same :
    (p : Platform) (s t : Bytes) (socket_type : ℤ)
    → same_nocase s t ≡ true
    → parse_protocol p s socket_type ≡ parse_protocol p t socket_type
unfolding parse_protocol
parse_protocol_same p s t socket_type h =
    rw
      (
        same_nocase_trans s t (codes "tcp") h,
        same_nocase_trans s t (codes "udp") h,
        same_nocase_trans s t (codes "sctp") h,
        same_nocase_trans s t (codes "dccp") h,
        same_nocase_trans s t (codes "udplite") h,
      )
      refl

-- parse_protocol() gives the same protocol and socket type for a name that convert_to_upper() has
-- put in capitals.
pub parse_protocol-convert_to_upper :
    (p : Platform) (s : Bytes) (socket_type : ℤ)
    → parse_protocol p (convert_to_upper s) socket_type ≡ parse_protocol p s socket_type
unfolding convert_to_upper
parse_protocol-convert_to_upper p s socket_type =
    parse_protocol_same p (map to_upper s) s socket_type (same_nocase-to_upper s)
