-- ===== src/Dscp/Tests.antt =====
-- Concrete runs of src/dscp.c.
use netperf_copilot.Common.{◌≡◌, refl, true, some, pos, negsuc, codes}
use netperf_copilot.CString.{
  same_nocase, digit, scan, skip_space, starts_digit, magnitude, signed, strtol,
}
use netperf_copilot.Dscp.{parse_ipqos, in_byte, parse_number, find_name, iptos2str}
use netperf_copilot.Dscp.Names.{parse_ipqos-iptos2str}

hex_text : parse_ipqos (some (codes " 0x1F")) ≡ pos 31
unfolding parse_ipqos find_name same_nocase parse_number in_byte strtol skip_space signed magnitude
    scan digit starts_digit
hex_text = refl

too_large : parse_ipqos (some (codes "256")) ≡ negsuc 0
unfolding parse_ipqos find_name same_nocase parse_number in_byte strtol skip_space signed magnitude
    scan digit starts_digit
too_large = refl

same : same_nocase (codes "Ef") (codes "ef") ≡ true
unfolding same_nocase
same = refl

parse_ipqos-iptos2str_example : parse_ipqos (some (iptos2str (pos 0xb8))) ≡ pos 0
parse_ipqos-iptos2str_example = parse_ipqos-iptos2str (pos 0xb8)
