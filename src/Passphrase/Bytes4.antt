-- ===== src/Passphrase/Bytes4.antt =====
-- Bytes that are put into words, moved and taken out again, as a passphrase is in the requests of
-- src/netperf.c and src/netserver.c.
use netperf_copilot.Common.{
  ℕ, zero, suc, ◌*◌, ◌<◌, ◌≡◌, ◌∙◌, refl, ap, ap₂, sym, arith, Bool, true, false, ◌&&◌, [], ◌∷◌,
  ◌++◌, length, All, map, Bytes, if◌then◌else◌, ◌==◌,
}
use netperf_copilot.Control.{Endian, little, big, to_bytes, of_bytes, memory, words}
use netperf_copilot.Control.Words.{IsWord, recode, words-memory}
use netperf_copilot.Passphrase.{strncpy, same_text}

abbrev pub IsByte : ℕ → Type 0
IsByte c = c < 256

four :
    {a a' b b' c c' d d' : ℕ}
    → a ≡ a'
    → b ≡ b'
    → c ≡ c'
    → d ≡ d'
    → a ∷ b ∷ c ∷ d ∷ [] ≡ a' ∷ b' ∷ c' ∷ d' ∷ []
four p q r s = cc

to_bytes-of_bytes :
    (e : Endian) (a b c d : ℕ)
    → IsByte a
    → IsByte b
    → IsByte c
    → IsByte d
    → to_bytes e (of_bytes e a b c d) ≡ a ∷ b ∷ c ∷ d ∷ []
to_bytes-of_bytes little a b c d ha hb hc hd =
    four (omega arith) (omega arith) (omega arith) (omega arith)
to_bytes-of_bytes big a b c d ha hb hc hd =
    four (omega arith) (omega arith) (omega arith) (omega arith)

memory-words :
    (e : Endian) (k : ℕ) (bs : Bytes)
    → length bs ≡ 4 * k
    → All IsByte bs
    → memory e (words e bs) ≡ bs
memory-words e zero [] l h = refl
memory-words e (suc k) (a ∷ b ∷ c ∷ d ∷ bs) l (ha, (hb, (hc, (hd, h)))) =
    ap₂ (λ x y. x ++ y) (to_bytes-of_bytes e a b c d ha hb hc hd)
      (memory-words e k bs (omega arith) h)
memory-words e zero (a ∷ bs) l h = absurd (omega arith)
memory-words e (suc k) [] l h = absurd (omega arith)
memory-words e (suc k) (a ∷ []) l h = absurd (omega arith)
memory-words e (suc k) (a ∷ b ∷ []) l h = absurd (omega arith)
memory-words e (suc k) (a ∷ b ∷ c ∷ []) l h = absurd (omega arith)

of_bytes-IsWord :
    (e : Endian) (a b c d : ℕ)
    → IsByte a
    → IsByte b
    → IsByte c
    → IsByte d
    → IsWord (of_bytes e a b c d)
of_bytes-IsWord little a b c d ha hb hc hd = omega arith
of_bytes-IsWord big a b c d ha hb hc hd = omega arith

pub words-IsWord : (e : Endian) (bs : Bytes) → All IsByte bs → All IsWord (words e bs)
words-IsWord e [] h = tt
words-IsWord e (a ∷ []) h = tt
words-IsWord e (a ∷ b ∷ []) h = tt
words-IsWord e (a ∷ b ∷ c ∷ []) h = tt
words-IsWord e (a ∷ b ∷ c ∷ d ∷ bs) (ha, (hb, (hc, (hd, h)))) =
    (of_bytes-IsWord e a b c d ha hb hc hd, words-IsWord e bs h)

-- Another host finds the same bytes.
pub memory-recode-words :
    (e e' : Endian) (k : ℕ) (bs : Bytes)
    → length bs ≡ 4 * k
    → All IsByte bs
    → memory e' (map (recode e e') (words e bs)) ≡ bs
memory-recode-words e e' k bs l h =
    ap (memory e') (sym (words-memory e e' (words e bs) (words-IsWord e bs h)))
    ∙ ap (λ m. memory e' (words e' m)) (memory-words e k bs l h)
    ∙ memory-words e' k bs l h

pub length-words : (e : Endian) (k : ℕ) (bs : Bytes) → length bs ≡ 4 * k → length (words e bs) ≡ k
length-words e zero [] l = refl
length-words e (suc k) (a ∷ b ∷ c ∷ d ∷ bs) l = omega (arith, length-words e k bs (omega arith))
length-words e zero (a ∷ bs) l = absurd (omega arith)
length-words e (suc k) [] l = absurd (omega arith)
length-words e (suc k) (a ∷ []) l = absurd (omega arith)
length-words e (suc k) (a ∷ b ∷ []) l = absurd (omega arith)
length-words e (suc k) (a ∷ b ∷ c ∷ []) l = absurd (omega arith)

pub length-strncpy : (n : ℕ) (s : Bytes) → length (strncpy n s) ≡ n
unfolding strncpy
length-strncpy zero s = refl
length-strncpy (suc n) [] = omega (arith, length-strncpy n [])
length-strncpy (suc n) (c ∷ s) = omega (arith, length-strncpy n s)

-- A text's characters are bytes other than the terminator.
abbrev pub IsChar : ℕ → Type 0
IsChar c = (0 < c) × (c < 256)

pub strncpy-IsByte : (n : ℕ) (s : Bytes) → All IsChar s → All IsByte (strncpy n s)
unfolding strncpy
strncpy-IsByte zero s h = tt
strncpy-IsByte (suc n) [] h = (omega arith, strncpy-IsByte n [] tt)
strncpy-IsByte (suc n) (c ∷ s) (hc, hs) = (hc.1, strncpy-IsByte n s hs)

-- Equality of texts.
unfoldable pub same_bytes : Bytes → Bytes → Bool
same_bytes [] [] = true
same_bytes (a ∷ s) (c ∷ t) = a == c && same_bytes s t
same_bytes _ _ = false

pub same_text-strncpy :
    (n : ℕ) (s t : Bytes)
    → length s < n
    → length t < n
    → All IsChar s
    → All IsChar t
    → same_text s (strncpy n t) ≡ same_bytes s t
unfolding same_text strncpy same_bytes
same_text-strncpy zero s t ls lt hs ht = absurd (omega arith)
same_text-strncpy (suc n) [] [] ls lt hs ht = refl
same_text-strncpy (suc n) [] (c ∷ t) ls lt hs (hc, ht) = ground (arith, hc.0)
same_text-strncpy (suc n) (a ∷ s) [] ls lt (ha, hs) ht = ground (arith, ha.0)
same_text-strncpy (suc n) (a ∷ s) (c ∷ t) ls lt (ha, hs) (hc, ht) =
    rw (same_text-strncpy n s t (omega arith) (omega arith) hs ht) (both (a == c) (same_bytes s t))
  where
    both : (x y : Bool) → (if x then y else false) ≡ (x && y)
    both true y = refl
    both false y = refl
