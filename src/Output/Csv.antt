-- ===== src/Output/Csv.antt =====
-- csv_escape_field() of src/nettest_omni.c: it never writes past its buffer, and a reader of CSV
-- finds the field again.
use mathlib.Core.Option.{some-injective}
use netperf_copilot.Common.{
  ℕ, ◌+◌, ◌-◌, ◌≤◌, ◌<◌, ◌≡◌, ◌≢◌, inl, inr, ◌∙◌, refl, sym, ap, Bool, true, false, ◌||◌, [], ◌∷◌,
  ◌++◌, Option, none, some, arith, ◌==◌, if◌then◌else◌, Bytes, length, length-append, append_assoc,
  Bool-cases, ==→eq,
}
use netperf_copilot.Output.{quote, csv_needs_quoting, csv_loop, csv_close, csv_escape_field}

-- A reader of one field as RFC 4180 has it: what the field holds, and what follows it. `none`: the
-- closing quote is missing.
abbrev pub with_byte : ℕ → Option (Bytes × Bytes) → Option (Bytes × Bytes)
with_byte c none = none
with_byte c (some (s, rest)) = some (c ∷ s, rest)

abbrev pub read_quoted : Bytes → Option (Bytes × Bytes)
read_quoted [] = none
read_quoted (c ∷ []) = if c == quote then some ([], []) else none
read_quoted (c ∷ d ∷ s) = elim (c == quote) [
  | true ↦ elim (d == quote) [ true ↦ with_byte quote (read_quoted s) | false ↦ some ([], d ∷ s) ]
  | false ↦ with_byte c (read_quoted (d ∷ s))
]

abbrev pub is_end : ℕ → ℕ → Bool
is_end delimiter c = c == delimiter || c == 10 || c == 13

abbrev pub read_plain : ℕ → Bytes → Bytes × Bytes
read_plain delimiter [] = ([], [])
read_plain delimiter (c ∷ s) =
    let (field, rest) = read_plain delimiter s in
    if is_end delimiter c then ([], c ∷ s) else (c ∷ field, rest)

abbrev pub csv_read : ℕ → Bytes → Option (Bytes × Bytes)
csv_read delimiter [] = some ([], [])
csv_read delimiter (c ∷ s) =
    if c == quote then read_quoted s else some (read_plain delimiter (c ∷ s))

-- What may follow a field: nothing, the delimiter, or the end of the line.
abbrev pub ends_field : ℕ → Bytes → Bool
ends_field delimiter [] = true
ends_field delimiter (c ∷ s) = is_end delimiter c

-- How long a text is with its quotes doubled.
abbrev pub width : Bytes → ℕ
width [] = 0
width (c ∷ s) = (if c == quote then 2 else 1) + width s

abbrev pub doubled : Bytes → Bytes
doubled [] = []
doubled (c ∷ s) = if c == quote then quote ∷ quote ∷ doubled s else c ∷ doubled s

csv_loop_fits : (n i : ℕ) (s : Bytes) → i + width s ≤ n - 2 → csv_loop n i s ≡ doubled s
unfolding csv_loop
csv_loop_fits n i [] h = refl
csv_loop_fits n i (c ∷ s) h = ground (arith, csv_loop_fits n (i + 1) s, csv_loop_fits n (i + 2) s)

length-csv_loop : (n i : ℕ) (s : Bytes) → i ≤ n - 2 → i + length (csv_loop n i s) ≤ n - 2
unfolding csv_loop
length-csv_loop n i [] h = omega arith
length-csv_loop n i (c ∷ s) h =
    ground (arith, length-csv_loop n (i + 1) s, length-csv_loop n (i + 2) s)

read_quoted_other :
    (c : ℕ) (s tail : Bytes)
    → (c == quote) ≡ false
    → read_quoted (c ∷ s ++ quote ∷ tail) ≡ with_byte c (read_quoted (s ++ quote ∷ tail))
read_quoted_other c [] tail other = rw (other, read_quoted) refl
read_quoted_other c (d ∷ s) tail other = rw (other, read_quoted) refl

read_quoted-doubled :
    (delimiter : ℕ) (s tail : Bytes)
    → delimiter ≢ quote
    → ends_field delimiter tail ≡ true
    → read_quoted (doubled s ++ quote ∷ tail) ≡ some (s, tail)
read_quoted-doubled delimiter [] [] ne e = refl
read_quoted-doubled delimiter [] (c ∷ tail) ne e = ground arith
read_quoted-doubled delimiter (c ∷ s) tail ne e = elim (Bool-cases (c == quote)) [
  | inl q ↦
      rw (q)
        (rw (==→eq c quote q) (ap (with_byte quote) (read_quoted-doubled delimiter s tail ne e)))
  | inr other ↦ rw (other) (
      read_quoted_other c (doubled s) tail other
      ∙ ap (with_byte c) (read_quoted-doubled delimiter s tail ne e))
]

read_plain-append :
    (delimiter : ℕ) (s tail : Bytes)
    → csv_needs_quoting s delimiter ≡ false
    → ends_field delimiter tail ≡ true
    → read_plain delimiter (s ++ tail) ≡ (s, tail)
unfolding csv_needs_quoting
read_plain-append delimiter [] [] plain e = refl
read_plain-append delimiter [] (c ∷ tail) plain e = ground arith
read_plain-append delimiter (c ∷ s) tail plain e =
    ground (arith, read_plain-append delimiter s tail)

doubled_plain : (delimiter : ℕ) (s : Bytes) → csv_needs_quoting s delimiter ≡ false → doubled s ≡ s
unfolding csv_needs_quoting
doubled_plain delimiter [] plain = refl
doubled_plain delimiter (c ∷ s) plain = ground (arith, doubled_plain delimiter s)

length-doubled : (s : Bytes) → length (doubled s) ≡ width s
length-doubled [] = refl
length-doubled (c ∷ s) = ground (arith, length-doubled s)

escape_quoted :
    (n delimiter : ℕ) (s : Bytes)
    → csv_needs_quoting s delimiter ≡ true
    → width s + 3 ≤ n
    → csv_escape_field n (some s) delimiter ≡ some (quote ∷ doubled s ++ quote ∷ [])
unfolding csv_escape_field csv_close
escape_quoted n delimiter s needs room =
    rw (needs, csv_loop_fits n 1 s (omega arith)) (ground (arith, length-doubled s))

escape_plain :
    (n delimiter : ℕ) (s : Bytes)
    → csv_needs_quoting s delimiter ≡ false
    → width s + 3 ≤ n
    → csv_escape_field n (some s) delimiter ≡ some s
unfolding csv_escape_field csv_close
escape_plain n delimiter s plain room =
    rw (plain, csv_loop_fits n 0 s (omega arith), doubled_plain delimiter s plain) (ground arith)

read_unquoted :
    (delimiter : ℕ) (s tail : Bytes)
    → delimiter ≢ quote
    → csv_needs_quoting s delimiter ≡ false
    → ends_field delimiter tail ≡ true
    → csv_read delimiter (s ++ tail) ≡ some (s, tail)
unfolding csv_needs_quoting
read_unquoted delimiter [] [] ne plain e = refl
read_unquoted delimiter [] (c ∷ tail) ne plain e = ground arith
read_unquoted delimiter (c ∷ s) tail ne plain e =
    ground (arith, read_plain-append delimiter (c ∷ s) tail)

-- A field that csv_escape_field() writes into a buffer with room for it, its doubled quotes and
-- three bytes more is what a reader of CSV finds there, with nothing, the delimiter or the end of
-- the line behind it, if the delimiter is not a quote.
pub csv_read-csv_escape_field :
    (n delimiter : ℕ) (s out tail : Bytes)
    → delimiter ≢ quote
    → width s + 3 ≤ n
    → ends_field delimiter tail ≡ true
    → csv_escape_field n (some s) delimiter ≡ some out
    → csv_read delimiter (out ++ tail) ≡ some (s, tail)
csv_read-csv_escape_field n delimiter s out tail ne room e written =
    elim (Bool-cases (csv_needs_quoting s delimiter)) [
      | inl needs ↦ rw (some-injective _ _ (sym written ∙ escape_quoted n delimiter s needs room)) (
          rw (append_assoc (doubled s) (quote ∷ []) tail)
            (read_quoted-doubled delimiter s tail ne e))
      | inr plain ↦
          rw (some-injective _ _ (sym written ∙ escape_plain n delimiter s plain room))
            (read_unquoted delimiter s tail ne plain e)
    ]

-- csv_escape_field() writes no more than its buffer holds, the terminator included, whether it
-- has room for the field or not.
pub csv_escape_field_fits :
    (n delimiter : ℕ) (src : Option Bytes) (out : Bytes)
    → csv_escape_field n src delimiter ≡ some out
    → length out < n
unfolding csv_escape_field csv_close
csv_escape_field_fits n delimiter none out written = ground arith
csv_escape_field_fits n delimiter (some s) out written = ground (
  arith,
  length-csv_loop n 0 s,
  length-csv_loop n 1 s,
  length-append (quote ∷ csv_loop n 1 s) (quote ∷ []),
)
