-- ===== src/Output/Tests.antt =====
-- Concrete runs of the text routines of src/nettest_omni.c.
use netperf_copilot.Common.{
  ◌≡◌, ◌≤◌, ◌<◌, ◌⊎◌, refl, arith, true, [], ◌∷◌, ◌++◌, some, Bytes, codes, length,
}
use netperf_copilot.Output.{
  direction_to_str, quote, backslash, csv_needs_quoting, csv_loop, csv_close, csv_escape_field,
  json_loop, json_strip, json_escape_string,
}
use netperf_copilot.Output.Csv.{csv_read, csv_read-csv_escape_field}
use netperf_copilot.Output.Json.{
  json_read, kept, json_read-json_escape_string, json_escape_string_fits,
}

both_ways : direction_to_str true 6 ≡ codes "Connect|Send|Recv"
unfolding direction_to_str
both_ways = refl

-- `a"b,c`
abbrev field : Bytes
field = b'a' ∷ quote ∷ b'b' ∷ b',' ∷ b'c' ∷ []

abbrev written : Bytes
written = quote ∷ b'a' ∷ quote ∷ quote ∷ b'b' ∷ b',' ∷ b'c' ∷ quote ∷ []

write_field : csv_escape_field 20 (some field) b',' ≡ some written
unfolding csv_escape_field csv_needs_quoting csv_loop csv_close
write_field = refl

csv_read-csv_escape_field_example : csv_read b',' (written ++ codes ",d") ≡ some (field, codes ",d")
csv_read-csv_escape_field_example =
    csv_read-csv_escape_field 20 b',' field written (codes ",d") (λ e. omega arith) (omega arith)
      refl write_field

-- `"x\` with a line feed and `"y` behind it, in quotes, and a buffer too small for it
abbrev text : Bytes
text = quote ∷ b'x' ∷ backslash ∷ 10 ∷ quote ∷ b'y' ∷ quote ∷ []

abbrev escaped : Bytes
escaped = b'x' ∷ backslash ∷ backslash ∷ backslash ∷ b'n' ∷ []

write_text : json_escape_string 7 (some text) ≡ some escaped
unfolding json_escape_string json_loop
write_text = refl

json_read-json_escape_string_example :
    (p : Bytes) × (t : Bytes) × (json_read escaped ≡ some p)
    × (kept (json_strip text) ≡ p ++ t)
    × ((t ≡ []) ⊎ (7 ≤ 8))
json_read-json_escape_string_example = json_read-json_escape_string 7 text escaped write_text

json_escape_string_fits_example : length escaped < 7
json_escape_string_fits_example = json_escape_string_fits 7 (some text) escaped write_text
