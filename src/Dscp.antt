-- ===== src/Dscp.antt =====
-- src/dscp.c: names and numbers of the IP type of service and DiffServ code points.
pub mod Names
mod Tests
use netperf_copilot.Common.{
  ℕ, zero, suc, ◌+◌, ◌-◌, ◌/◌, ◌%◌, Bool, true, false, ◌&&◌, ◌||◌, List, [], ◌∷◌, Option, none,
  some, ltb, leb, ◌==◌, if◌then◌else◌, ℤ, pos, negsuc, Bytes, codes,
}
use netperf_copilot.CString.{same_nocase, strtol}

-- `ipqos`, up to the entry that ends it.
abbrev pub ipqos : List (Bytes × ℕ)
ipqos =
    (codes "af11", 0x28)
    ∷ (codes "af12", 0x30)
    ∷ (codes "af13", 0x38)
    ∷ (codes "af21", 0x48)
    ∷ (codes "af22", 0x50)
    ∷ (codes "af23", 0x58)
    ∷ (codes "af31", 0x68)
    ∷ (codes "af32", 0x70)
    ∷ (codes "af33", 0x78)
    ∷ (codes "af41", 0x88)
    ∷ (codes "af42", 0x90)
    ∷ (codes "af43", 0x98)
    ∷ (codes "cs0", 0x00)
    ∷ (codes "cs1", 0x20)
    ∷ (codes "cs2", 0x40)
    ∷ (codes "cs3", 0x60)
    ∷ (codes "cs4", 0x80)
    ∷ (codes "cs5", 0xa0)
    ∷ (codes "cs6", 0xc0)
    ∷ (codes "cs7", 0xe0)
    ∷ (codes "ef", 0xb8)
    ∷ (codes "lowdelay", 0x10)
    ∷ (codes "throughput", 0x08)
    ∷ (codes "reliability", 0x04)
    ∷ []

-- The loop of parse_ipqos over the names.
find_name : Bytes → List (Bytes × ℕ) → Option ℕ
find_name cp [] = none
find_name cp ((name, value) ∷ rest) = if same_nocase cp name then some value else find_name cp rest

-- The loop of iptos2str over the values.
find_value : ℕ → List (Bytes × ℕ) → Option Bytes
find_value iptos [] = none
find_value iptos ((name, value) ∷ rest) =
    if value == iptos then some name else find_value iptos rest

in_byte : ℤ → Bytes → ℤ
in_byte (pos n) [] = if ltb 255 n then negsuc 0 else pos n
in_byte (pos n) (c ∷ s) = negsuc 0
in_byte (negsuc n) rest = negsuc 0

-- What parse_ipqos makes of a text that is no name: strtol must read all of it.
parse_number : Bytes → ℤ
parse_number [] = negsuc 0
parse_number (c ∷ s) = let (val, rest) = strtol (c ∷ s) in in_byte val rest

-- parse_ipqos; a null pointer is `none`.
pub parse_ipqos : Option Bytes → ℤ
parse_ipqos none = negsuc 0
parse_ipqos (some cp) = elim (find_name cp ipqos) [
  | some value ↦ pos value
  | none ↦ parse_number cp
]

-- `%x` of a number below 16.
abbrev pub hex_digit : ℕ → ℕ
hex_digit n = if ltb n 10 then b'0' + n else n - 10 + b'a'

-- `snprintf(iptos_str, sizeof iptos_str, "0x%02x", iptos)` of a byte.
abbrev pub print_byte : ℕ → Bytes
print_byte n = b'0' ∷ b'x' ∷ hex_digit (n / 16) ∷ hex_digit (n % 16) ∷ []

-- The number that iptos2str looks for: one out of range becomes 0.
abbrev pub in_range : ℤ → ℕ
in_range (negsuc n) = 0
in_range (pos n) = if ltb 64 n then 0 else n

name_or_number : ℕ → Option Bytes → Bytes
name_or_number iptos none = print_byte iptos
name_or_number iptos (some name) = name

-- iptos2str
pub iptos2str : ℤ → Bytes
iptos2str iptos = name_or_number (in_range iptos) (find_value (in_range iptos) ipqos)
