-- ===== src/Output.antt =====
-- How src/nettest_omni.c puts text into its CSV and JSON reports, and the name it gives to the
-- direction of a test.
pub mod Csv
pub mod Json
mod Tests
use netperf_copilot.Common.{
  ℕ, zero, suc, ◌+◌, ◌-◌, ◌/◌, ◌%◌, Bool, true, false, not, ◌&&◌, ◌||◌, List, [], ◌∷◌, ◌++◌, Option,
  none, some, ltb, leb, ◌==◌, if◌then◌else◌, Bytes, codes, length, get_or, take,
}

-- NETPERF_XMIT and NETPERF_RECV of src/netsh.h, in the 32 bits of a direction
abbrev pub has_xmit : ℕ → Bool
has_xmit x = x / 2 % 2 == 1

abbrev pub has_recv : ℕ → Bool
has_recv x = x / 4 % 2 == 1

-- direction_to_str
pub direction_to_str : Bool → ℕ → Bytes
direction_to_str connection_test direction =
    if has_recv direction && not (has_xmit direction)
    then codes "Receive"
    else if has_xmit direction && not (has_recv direction)
    then codes "Send"
    else if not (has_xmit direction) && not (has_recv direction)
    then codes "Connection"
    else if connection_test
    then codes "Connect|Send|Recv"
    else codes "Send|Recv"

abbrev pub quote : ℕ
quote = 34

abbrev pub backslash : ℕ
backslash = 92

-- csv_needs_quoting of a string
pub csv_needs_quoting : Bytes → ℕ → Bool
csv_needs_quoting [] delimiter = false
csv_needs_quoting (c ∷ s) delimiter =
    c == delimiter || c == quote || c == 10 || c == 13 || csv_needs_quoting s delimiter

-- The loop of csv_escape_field: what it writes from `i` on, for a `dest_size` of at least 3.
pub csv_loop : ℕ → ℕ → Bytes → Bytes
csv_loop dest_size i [] = []
csv_loop dest_size i (c ∷ s) = elim (ltb i (dest_size - 2)) [
  | false ↦ []
  | true ↦ elim (c == quote) [
    | false ↦ c ∷ csv_loop dest_size (i + 1) s
    | true ↦ elim (ltb (i + 1) (dest_size - 2)) [
      | false ↦ quote ∷ csv_loop dest_size (i + 1) s
      | true ↦ quote ∷ quote ∷ csv_loop dest_size (i + 2) s
    ]
  ]
]

-- The quote behind the loop, with what was written before.
pub csv_close : ℕ → Bool → Bytes → Bytes
csv_close dest_size needs_quoting written =
    if needs_quoting && ltb (length written) (dest_size - 1) then written ++ quote ∷ [] else written

-- csv_escape_field: the string in `dest`, or `none` if there is no room for its terminator and
-- nothing is written.
pub csv_escape_field : ℕ → Option Bytes → ℕ → Option Bytes
csv_escape_field dest_size none delimiter = if ltb 0 dest_size then some [] else none
csv_escape_field dest_size (some src) delimiter =
    if ltb dest_size 3
    then if ltb 0 dest_size then some [] else none
    else if csv_needs_quoting src delimiter
    then some (csv_close dest_size true (quote ∷ csv_loop dest_size 1 src))
    else some (csv_close dest_size false (csv_loop dest_size 0 src))

-- What follows the backslash for a character that JSON writes as a pair.
abbrev pub json_pair : ℕ → Option ℕ
json_pair ch =
    if ch == quote || ch == backslash
    then some ch
    else if ch == 10
    then some b'n'
    else if ch == 13
    then some b'r'
    else if ch == 9
    then some b't'
    else none

-- The loop of json_escape_string, from `i` on.
pub json_loop : ℕ → ℕ → Bytes → Bytes
json_loop dest_size i [] = []
json_loop dest_size i (ch ∷ s) = elim (ltb i (dest_size - 1)) [
  | false ↦ []
  | true ↦ elim (json_pair ch) [
    | some d ↦ elim (leb dest_size (i + 2)) [
      | true ↦ []
      | false ↦ backslash ∷ d ∷ json_loop dest_size (i + 2) s
    ]
    | none ↦ elim (leb 0x20 ch) [
      | true ↦ ch ∷ json_loop dest_size (i + 1) s
      | false ↦ json_loop dest_size i s
    ]
  ]
]

-- The string without quotes that enclose it.
abbrev pub json_strip : Bytes → Bytes
json_strip [] = []
json_strip (c ∷ s) =
    if leb 2 (length (c ∷ s)) && c == quote && get_or (c ∷ s) (length s) 0 == quote
    then take (length s - 1) s
    else c ∷ s

-- json_escape_string: the string in `dest`, or `none` if nothing is written.
pub json_escape_string : ℕ → Option Bytes → Option Bytes
json_escape_string dest_size none = if dest_size == 0 then none else some []
json_escape_string dest_size (some src) =
    if dest_size == 0 then none else some (json_loop dest_size 0 (json_strip src))
