-- ===== src/Output/Json.antt =====
-- json_escape_string() of src/nettest_omni.c: what it writes fits its buffer and is always the
-- inside of a JSON string.
use netperf_copilot.Common.{
  ℕ, ◌+◌, ◌-◌, ◌≤◌, ◌<◌, ◌≡◌, ◌⊎◌, inl, inr, ◌∙◌, refl, ap, Bool, true, false, ◌||◌, [], ◌∷◌, ◌++◌,
  Option, none, some, arith, ltb, leb, ◌==◌, if◌then◌else◌, Bytes, length, Bool-cases,
}
use netperf_copilot.Output.{quote, backslash, json_pair, json_loop, json_strip, json_escape_string}

-- A reader of the inside of a JSON string, with the pairs that the code uses. `none`: it is not
-- well formed.
abbrev pub pair_value : ℕ → Option ℕ
pair_value d =
    if d == quote || d == backslash
    then some d
    else if d == b'n'
    then some 10
    else if d == b'r'
    then some 13
    else if d == b't'
    then some 9
    else none

abbrev pub with_char : Option ℕ → Option Bytes → Option Bytes
with_char none o = none
with_char (some c) none = none
with_char (some c) (some s) = some (c ∷ s)

abbrev pub json_read : Bytes → Option Bytes
json_read [] = some []
json_read (c ∷ []) = if c == quote || c == backslash || ltb c 0x20 then none else some (c ∷ [])
json_read (c ∷ d ∷ s) = elim (c == backslash) [
  | true ↦ with_char (pair_value d) (json_read s)
  | false ↦ if c == quote || ltb c 0x20 then none else with_char (some c) (json_read (d ∷ s))
]

-- The text without the control characters that the code leaves out.
abbrev pub is_kept : ℕ → Bool
is_kept c = leb 0x20 c || c == 10 || c == 13 || c == 9

abbrev pub kept : Bytes → Bytes
kept [] = []
kept (c ∷ s) = if is_kept c then c ∷ kept s else kept s

-- How long the text is when it is written.
abbrev pub width : Bytes → ℕ
width [] = 0
width (c ∷ s) = elim (json_pair c) [ some d ↦ 2 | none ↦ if leb 0x20 c then 1 else 0 ] + width s

length-json_loop : (n i : ℕ) (s : Bytes) → i < n → i + length (json_loop n i s) < n
unfolding json_loop
length-json_loop n i [] h = omega arith
length-json_loop n i (c ∷ s) h =
    ground
      (arith, length-json_loop n i s, length-json_loop n (i + 1) s, length-json_loop n (i + 2) s)

pair_value_of : (c d : ℕ) → json_pair c ≡ some d → pair_value d ≡ some c
pair_value_of c d e = ground arith

not_backslash : (c : ℕ) → json_pair c ≡ none → (c == backslash) ≡ false
not_backslash c e = ground arith

not_special : (c : ℕ) → json_pair c ≡ none → leb 0x20 c ≡ true → (c == quote || ltb c 0x20) ≡ false
not_special c e h = ground arith

read_pair :
    (c d : ℕ) (s : Bytes)
    → json_pair c ≡ some d
    → json_read (backslash ∷ d ∷ s) ≡ with_char (some c) (json_read s)
read_pair c d s e = ap (λ o. with_char o (json_read s)) (pair_value_of c d e)

read_single :
    (c : ℕ) (s : Bytes)
    → json_pair c ≡ none
    → leb 0x20 c ≡ true
    → json_read (c ∷ s) ≡ with_char (some c) (json_read s)
read_single c [] e h = ground arith
read_single c (d ∷ s) e h = rw (not_backslash c e, not_special c e h, json_read) refl

pair_kept : (c d : ℕ) → json_pair c ≡ some d → is_kept c ≡ true
pair_kept c d e = ground arith

single_is_kept : (c : ℕ) → leb 0x20 c ≡ true → is_kept c ≡ true
single_is_kept c h = ground arith

single_kept : (c : ℕ) → json_pair c ≡ none → leb 0x20 c ≡ false → is_kept c ≡ false
single_kept c e h = ground arith

module _ (n i c : ℕ) (s : Bytes) where
  loop_stop : ltb i (n - 1) ≡ false → json_loop n i (c ∷ s) ≡ []
  unfolding json_loop
  loop_stop h = ground arith

  loop_cut :
      (d : ℕ)
      → ltb i (n - 1) ≡ true
      → json_pair c ≡ some d
      → leb n (i + 2) ≡ true
      → json_loop n i (c ∷ s) ≡ []
  unfolding json_loop
  loop_cut d h e l = ground arith

  loop_pair :
      (d : ℕ)
      → ltb i (n - 1) ≡ true
      → json_pair c ≡ some d
      → leb n (i + 2) ≡ false
      → json_loop n i (c ∷ s) ≡ backslash ∷ d ∷ json_loop n (i + 2) s
  unfolding json_loop
  loop_pair d h e l = ground arith

  loop_single :
      ltb i (n - 1) ≡ true
      → json_pair c ≡ none
      → leb 0x20 c ≡ true
      → json_loop n i (c ∷ s) ≡ c ∷ json_loop n (i + 1) s
  unfolding json_loop
  loop_single h e l = ground arith

  loop_skip :
      ltb i (n - 1) ≡ true
      → json_pair c ≡ none
      → leb 0x20 c ≡ false
      → json_loop n i (c ∷ s) ≡ json_loop n i s
  unfolding json_loop
  loop_skip h e l = ground arith

kept-width : (s : Bytes) → (kept s ≡ []) ⊎ (1 ≤ width s)
kept-width [] = inl refl
kept-width (c ∷ s) = ground (arith, kept-width s)

-- A prefix `p` of what is kept is read back, and `t` is what was cut off.
abbrev ReadsPrefix : ℕ → ℕ → Bytes → Type 0
ReadsPrefix n i s =
    (p : Bytes) × (t : Bytes) × (json_read (json_loop n i s) ≡ some p)
    × (kept s ≡ p ++ t)
    × ((t ≡ []) ⊎ (n ≤ i + width s))

Option-cases : (o : Option ℕ) → ((d : ℕ) × (o ≡ some d)) ⊎ (o ≡ none)
Option-cases none = inr refl
Option-cases (some d) = inl (d, refl)

stopped : (n i : ℕ) (s : Bytes) → json_loop n i s ≡ [] → n ≤ i + 1 → ReadsPrefix n i s
stopped n i s e le = ([], kept s, rw (e) refl, refl, ground (arith, kept-width s))

after_pair :
    (n i c d : ℕ) (s : Bytes)
    → json_pair c ≡ some d
    → json_loop n i (c ∷ s) ≡ backslash ∷ d ∷ json_loop n (i + 2) s
    → ReadsPrefix n (i + 2) s
    → ReadsPrefix n i (c ∷ s)
after_pair n i c d s e loop (p, t, r, k, room) = (
  c ∷ p,
  t,
  rw (loop) (read_pair c d (json_loop n (i + 2) s) e ∙ ap (with_char (some c)) r),
  rw (pair_kept c d e) (ap (λ r. c ∷ r) k),
  ground arith,
)

after_single :
    (n i c : ℕ) (s : Bytes)
    → json_pair c ≡ none
    → leb 0x20 c ≡ true
    → json_loop n i (c ∷ s) ≡ c ∷ json_loop n (i + 1) s
    → ReadsPrefix n (i + 1) s
    → ReadsPrefix n i (c ∷ s)
after_single n i c s e l loop (p, t, r, k, room) = (
  c ∷ p,
  t,
  rw (loop) (read_single c (json_loop n (i + 1) s) e l ∙ ap (with_char (some c)) r),
  rw (single_is_kept c l) (ap (λ r. c ∷ r) k),
  ground arith,
)

after_skip :
    (n i c : ℕ) (s : Bytes)
    → json_pair c ≡ none
    → leb 0x20 c ≡ false
    → json_loop n i (c ∷ s) ≡ json_loop n i s
    → ReadsPrefix n i s
    → ReadsPrefix n i (c ∷ s)
after_skip n i c s e l loop (p, t, r, k, room) =
    (p, t, rw (loop) r, rw (single_kept c e l) k, ground arith)

reads_prefix : (n i : ℕ) (s : Bytes) → ReadsPrefix n i s
unfolding json_loop
reads_prefix n i [] = ([], [], refl, refl, inl refl)
reads_prefix n i (c ∷ s) = elim (Bool-cases (ltb i (n - 1))) [
  | inr stop ↦ stopped n i (c ∷ s) (loop_stop n i c s stop) (ground arith)
  | inl go ↦ elim (Option-cases (json_pair c)) [
    | inl (d, e) ↦ elim (Bool-cases (leb n (i + 2))) [
      | inl full ↦ ([], kept (c ∷ s), rw (loop_cut n i c s d go e full) refl, refl, ground arith)
      | inr room ↦ after_pair n i c d s e (loop_pair n i c s d go e room) (reads_prefix n (i + 2) s)
    ]
    | inr e ↦ elim (Bool-cases (leb 0x20 c)) [
      | inl l ↦ after_single n i c s e l (loop_single n i c s go e l) (reads_prefix n (i + 1) s)
      | inr l ↦ after_skip n i c s e l (loop_skip n i c s go e l) (reads_prefix n i s)
    ]
  ]
]

-- What json_escape_string() writes is always well formed between the quotes of a JSON string, and
-- a reader gets a prefix of the text, without enclosing quotes and without the control characters
-- that JSON forbids; what is cut off is empty if the text with its pairs is shorter than the
-- buffer.
pub json_read-json_escape_string :
    (n : ℕ) (src out : Bytes)
    → json_escape_string n (some src) ≡ some out
    → (p : Bytes) × (t : Bytes) × (json_read out ≡ some p)
      × (kept (json_strip src) ≡ p ++ t)
      × ((t ≡ []) ⊎ (n ≤ width (json_strip src)))
unfolding json_escape_string
json_read-json_escape_string n src out written =
    let (p, t, r, k, room) = reads_prefix n 0 (json_strip src) in
    (p, t, rw (out_is) r, k, from_start t room)
  where
    out_is : out ≡ json_loop n 0 (json_strip src)
    out_is = ground arith

    from_start :
        (t : Bytes)
        → ((t ≡ []) ⊎ (n ≤ 0 + width (json_strip src)))
        → (t ≡ []) ⊎ (n ≤ width (json_strip src))
    from_start t (inl e) = inl e
    from_start t (inr l) = inr (omega arith)

-- json_escape_string() writes no more than its buffer holds, the terminator included.
pub json_escape_string_fits :
    (n : ℕ) (src : Option Bytes) (out : Bytes)
    → json_escape_string n src ≡ some out
    → length out < n
unfolding json_escape_string
json_escape_string_fits n none out written = ground arith
json_escape_string_fits n (some src) out written =
    ground (arith, length-json_loop n 0 (json_strip src))
