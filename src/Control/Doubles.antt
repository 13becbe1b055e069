-- ===== src/Control/Doubles.antt =====
-- ntohd() and htond() of src/netlib.c, which carry a double through the conversion of a message. A
-- double is the list of its eight bytes in memory.
use netperf_copilot.Common.{
  ℕ, zero, suc, ◌+◌, ◌-◌, ◌<◌, ◌≡◌, ◌∙◌, refl, sym, ap, [], ◌∷◌, ◌++◌, map, arith, get_or, set, All,
  Bytes,
}
use netperf_copilot.Control.{
  Endian, little, big, swap_word, to_bytes, of_bytes, htonl, memory, words,
}

-- The hosts that the code tells apart: a little endian one may keep the two words of a double in the
-- other order (`__FLOAT_WORD_ORDER != __BYTE_ORDER`).
pub data Host : Type 0 where
  plain mixed network : Host

abbrev pub endian : Host → Endian
endian plain = little
endian mixed = little
endian network = big

-- `words[0] = htonl(words[0]); words[1] = htonl(words[1]);` on the bytes in memory; ntohl does the
-- same.
abbrev pub convert_words : Host → Bytes → Bytes
convert_words h bs = memory (endian h) (map (htonl (endian h)) (words (endian h) bs))

-- `for (i = ...) { scratch = bytes[i]; bytes[i] = bytes[7-i]; bytes[7-i] = scratch; }`
unfoldable pub swap_bytes : ℕ → ℕ → Bytes → Bytes
swap_bytes i zero bs = bs
swap_bytes i (suc left) bs =
    let scratch = get_or bs i 0 in
    swap_bytes (i + 1) left (set (set bs i (get_or bs (7 - i) 0)) (7 - i) scratch)

-- The words of a double in the other order.
abbrev pub swap_halves : Bytes → Bytes
swap_halves (a ∷ b ∷ c ∷ d ∷ rest) = rest ++ (a ∷ b ∷ c ∷ d ∷ [])
swap_halves bs = bs

abbrev pub fix_mixed : Host → Bytes → Bytes
fix_mixed mixed bs = swap_halves bs
fix_mixed _ bs = bs

unfoldable pub ntohd : Host → Bytes → Bytes
unfolding swap_bytes
ntohd network net_double = net_double
ntohd plain net_double = fix_mixed plain (swap_bytes 0 4 (convert_words plain net_double))
ntohd mixed net_double = fix_mixed mixed (swap_bytes 0 4 (convert_words mixed net_double))

unfoldable pub htond : Host → Bytes → Bytes
unfolding swap_bytes
htond network host_double = host_double
htond plain host_double = convert_words plain (fix_mixed plain (swap_bytes 0 4 host_double))
htond mixed host_double = convert_words mixed (fix_mixed mixed (swap_bytes 0 4 host_double))

-- The double that eight bytes in a host's memory stand for, as its bytes from the highest on.
abbrev pub significance : Host → Bytes → Bytes
significance network bs = bs
significance plain (a ∷ b ∷ c ∷ d ∷ e ∷ f ∷ g ∷ h ∷ []) = h ∷ g ∷ f ∷ e ∷ d ∷ c ∷ b ∷ a ∷ []
significance mixed (a ∷ b ∷ c ∷ d ∷ e ∷ f ∷ g ∷ h ∷ []) = d ∷ c ∷ b ∷ a ∷ h ∷ g ∷ f ∷ e ∷ []
significance _ bs = bs

abbrev IsByte : ℕ → Type 0
IsByte b = b < 256

swap_of_bytes :
    (a b c d : ℕ)
    → IsByte a
    → IsByte b
    → IsByte c
    → IsByte d
    → swap_word (of_bytes little a b c d) ≡ of_bytes little d c b a
swap_of_bytes a b c d ha hb hc hd = omega arith

same_four :
    {a a' b b' c c' d d' : ℕ} (rest : Bytes)
    → a ≡ a'
    → b ≡ b'
    → c ≡ c'
    → d ≡ d'
    → ◌≡◌ {A = Bytes} (a ∷ b ∷ c ∷ d ∷ rest) (a' ∷ b' ∷ c' ∷ d' ∷ rest)
same_four rest p q r s = cc

to_bytes-of_bytes :
    (a b c d : ℕ) (rest : Bytes)
    → IsByte a
    → IsByte b
    → IsByte c
    → IsByte d
    → to_bytes little (of_bytes little a b c d) ++ rest ≡ a ∷ b ∷ c ∷ d ∷ rest
to_bytes-of_bytes a b c d rest ha hb hc hd =
    same_four rest (omega arith) (omega arith) (omega arith) (omega arith)

word_little :
    (a b c d : ℕ) (rest : Bytes)
    → IsByte a
    → IsByte b
    → IsByte c
    → IsByte d
    → memory little (map (htonl little) (words little (a ∷ b ∷ c ∷ d ∷ rest)))
      ≡ d ∷ c ∷ b ∷ a ∷ memory little (map (htonl little) (words little rest))
unfolding htonl
word_little a b c d rest ha hb hc hd =
    ap (λ w. to_bytes little w ++ memory little (map (htonl little) (words little rest)))
      (swap_of_bytes a b c d ha hb hc hd)
    ∙ to_bytes-of_bytes d c b a _ hd hc hb ha

word_big :
    (a b c d : ℕ) (rest : Bytes)
    → IsByte a
    → IsByte b
    → IsByte c
    → IsByte d
    → memory big (map (htonl big) (words big (a ∷ b ∷ c ∷ d ∷ rest)))
      ≡ a ∷ b ∷ c ∷ d ∷ memory big (map (htonl big) (words big rest))
unfolding htonl
word_big a b c d rest ha hb hc hd =
    same_four (memory big (map (htonl big) (words big rest))) (omega arith) (omega arith)
      (omega arith) (omega arith)

-- Eight bytes.
pub record Octet : Type 0 where
  pub a : ℕ
  pub b : ℕ
  pub c : ℕ
  pub d : ℕ
  pub e : ℕ
  pub f : ℕ
  pub g : ℕ
  pub h : ℕ

abbrev pub bytes : Octet → Bytes
bytes o = o.a ∷ o.b ∷ o.c ∷ o.d ∷ o.e ∷ o.f ∷ o.g ∷ o.h ∷ []

-- The conversion of two words in memory, as a rearrangement of their bytes.
abbrev turn : Host → Octet → Octet
turn network o = o
turn _ o = record { a = o.d; b = o.c; c = o.b; d = o.a; e = o.h; f = o.g; g = o.f; h = o.e }

convert_words-turn :
    (host : Host) (o : Octet)
    → All IsByte (bytes o)
    → convert_words host (bytes o) ≡ bytes (turn host o)
convert_words-turn network o (ha, (hb, (hc, (hd, (he, (hf, (hg, (hh, _)))))))) =
    word_big o.a o.b o.c o.d (o.e ∷ o.f ∷ o.g ∷ o.h ∷ []) ha hb hc hd
    ∙ ap (λ r. o.a ∷ o.b ∷ o.c ∷ o.d ∷ r) (word_big o.e o.f o.g o.h [] he hf hg hh)
convert_words-turn plain o (ha, (hb, (hc, (hd, (he, (hf, (hg, (hh, _)))))))) =
    word_little o.a o.b o.c o.d (o.e ∷ o.f ∷ o.g ∷ o.h ∷ []) ha hb hc hd
    ∙ ap (λ r. o.d ∷ o.c ∷ o.b ∷ o.a ∷ r) (word_little o.e o.f o.g o.h [] he hf hg hh)
convert_words-turn mixed o (ha, (hb, (hc, (hd, (he, (hf, (hg, (hh, _)))))))) =
    word_little o.a o.b o.c o.d (o.e ∷ o.f ∷ o.g ∷ o.h ∷ []) ha hb hc hd
    ∙ ap (λ r. o.d ∷ o.c ∷ o.b ∷ o.a ∷ r) (word_little o.e o.f o.g o.h [] he hf hg hh)

turn-IsByte : (host : Host) (o : Octet) → All IsByte (bytes o) → All IsByte (bytes (turn host o))
turn-IsByte network o h = h
turn-IsByte plain o h = omega arith
turn-IsByte mixed o h = omega arith

-- What the sending host puts on the connection for a double: htond(), then the conversion that
-- send_request_n() or send_response_n() makes of the message's words.
abbrev pub double_on_wire : Host → Bytes → Bytes
double_on_wire host x = convert_words host (htond host x)

-- What the receiving host makes of it: the conversion of the message's words, then ntohd().
abbrev pub double_from_wire : Host → Bytes → Bytes
double_from_wire host wire = ntohd host (convert_words host wire)

-- The loop of four swaps, and the exchange of halves behind it where there is one.
abbrev mirrored : Host → Octet → Octet
mirrored network o = o
mirrored plain o = record { a = o.h; b = o.g; c = o.f; d = o.e; e = o.d; f = o.c; g = o.b; h = o.a }
mirrored mixed o = record { a = o.d; b = o.c; c = o.b; d = o.a; e = o.h; f = o.g; g = o.f; h = o.e }

mirrored-IsByte :
    (host : Host) (o : Octet) → All IsByte (bytes o) → All IsByte (bytes (mirrored host o))
mirrored-IsByte network o h = h
mirrored-IsByte plain o h = omega arith
mirrored-IsByte mixed o h = omega arith

-- A conversion of words twice.
turn_twice :
    (host : Host) (o : Octet)
    → All IsByte (bytes o)
    → convert_words host (convert_words host (bytes o)) ≡ bytes (turn host (turn host o))
turn_twice host o hb =
    ap (convert_words host) (convert_words-turn host o hb)
    ∙ convert_words-turn host (turn host o) (turn-IsByte host o hb)

htond-wire :
    (host : Host) (o : Octet)
    → All IsByte (bytes o)
    → double_on_wire host (bytes o) ≡ significance host (bytes o)
unfolding htond
htond-wire network o hb = convert_words-turn network o hb
htond-wire plain o hb = turn_twice plain (mirrored plain o) (mirrored-IsByte plain o hb)
htond-wire mixed o hb = turn_twice mixed (mirrored mixed o) (mirrored-IsByte mixed o hb)

ntohd-wire :
    (host : Host) (o : Octet)
    → All IsByte (bytes o)
    → significance host (double_from_wire host (bytes o)) ≡ bytes o
unfolding ntohd
ntohd-wire network o hb = convert_words-turn network o hb
ntohd-wire plain o hb = ap (λ x. significance plain (swap_bytes 0 4 x)) (turn_twice plain o hb)
ntohd-wire mixed o hb =
    ap (λ x. significance mixed (swap_halves (swap_bytes 0 4 x))) (turn_twice mixed o hb)

significance-mirrored :
    (host : Host) (o : Octet) → significance host (bytes o) ≡ bytes (mirrored host o)
significance-mirrored network o = refl
significance-mirrored plain o = refl
significance-mirrored mixed o = refl

-- A double sent by one host and received by another, of any of the three kinds each, stands for the
-- same bytes from the highest on at both ends.
pub ntohd-htond :
    (from to : Host) (o : Octet)
    → All IsByte (bytes o)
    → significance to (double_from_wire to (double_on_wire from (bytes o)))
      ≡ significance from (bytes o)
ntohd-htond from to o hb =
    ap (λ w. significance to (double_from_wire to w))
      (htond-wire from o hb ∙ significance-mirrored from o)
    ∙ ntohd-wire to (mirrored from o) (mirrored-IsByte from o hb)
    ∙ sym (significance-mirrored from o)
