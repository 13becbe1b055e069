-- ===== src/Args/Tests.antt =====
-- Concrete runs of the option parsers of src/netsh.c.
use netperf_copilot.Common.{◌≡◌, refl, arith, [], ◌∷◌, some, none, pos, codes}
use netperf_copilot.CString.{
  same_nocase, contains, begins, digit, scan, skip_space, starts_digit, magnitude, signed, strtol,
  word_of,
}
use netperf_copilot.Platform.{linux}
use netperf_copilot.Args.{
  parse_address_family, copy_10, parse_socket_type, parse_protocol, bit_or, direction_part,
  parse_direction,
}
use netperf_copilot.Args.Direction.{or_all, parse_direction-join}

udp : parse_protocol linux (codes "UDP") (pos 1) ≡ (17, pos 2)
unfolding parse_protocol same_nocase
udp = refl

upper_family : parse_address_family linux (codes "INET") ≡ some 0
unfolding parse_address_family copy_10 contains begins
upper_family = refl

lower_family : parse_address_family linux (codes "inet") ≡ some 2
unfolding parse_address_family copy_10 contains begins
lower_family = refl

long_type : parse_socket_type linux (codes "sock_stream") ≡ none
unfolding parse_socket_type copy_10
long_type = refl

parts : or_all (codes "Send") (codes "recv" ∷ codes "0x10" ∷ []) ≡ 22
unfolding direction_part same_nocase bit_or strtol skip_space signed magnitude scan digit
    starts_digit word_of
parts = refl

parse_direction-join_example :
    parse_direction 15 (codes "Send|recv|0x10")
    ≡ some (or_all (codes "Send") (codes "recv" ∷ codes "0x10" ∷ []))
parse_direction-join_example =
    parse_direction-join 15 (codes "Send") (codes "recv" ∷ codes "0x10" ∷ [])
      (
        (λ e. omega arith, (λ e. omega arith, (λ e. omega arith, (λ e. omega arith, tt)))),
        (
          (λ e. omega arith, (λ e. omega arith, (λ e. omega arith, (λ e. omega arith, tt)))),
          ((λ e. omega arith, (λ e. omega arith, (λ e. omega arith, (λ e. omega arith, tt)))), tt),
        ),
      )
      (omega arith)
