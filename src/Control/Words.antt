-- ===== src/Control/Words.antt =====
-- Byte order: `htonl` and `ntohl` as src/netlib.c uses them, on single words and on messages.
use netperf_copilot.Common.{
  ℕ, zero, suc, ◌*◌, ◌<◌, ◌≡◌, ◌∙◌, refl, ap, ap₂, List, [], ◌∷◌, ◌++◌, arith, length, take, drop,
  map, All, Bytes,
}
use netperf_copilot.Control.{
  Endian, little, big, word_mod, swap_word, htonl, ntohl, to_bytes, memory, words, convert_first,
  convert_from,
}

abbrev pub IsWord : ℕ → Type 0
IsWord w = w < word_mod

-- A word that one host puts into memory, as another reads it.
abbrev pub recode : Endian → Endian → ℕ → ℕ
recode little little w = w
recode little big w = swap_word w
recode big little w = swap_word w
recode big big w = w

pub htonl-IsWord : (e : Endian) (w : ℕ) → IsWord w → IsWord (htonl e w)
unfolding htonl
htonl-IsWord little w h = omega arith
htonl-IsWord big w h = h

pub htonl_twice : (e : Endian) (w : ℕ) → IsWord w → htonl e (htonl e w) ≡ w
unfolding htonl
htonl_twice little w h = omega arith
htonl_twice big w h = refl

-- A word put into network order, moved, and put into host order again.
pub ntohl-recode-htonl : (e e' : Endian) (w : ℕ) → IsWord w → ntohl e' (recode e e' (htonl e w)) ≡ w
unfolding ntohl
ntohl-recode-htonl little little w h = omega arith
ntohl-recode-htonl little big w h = omega arith
ntohl-recode-htonl big little w h = omega arith
ntohl-recode-htonl big big w h = refl

words_step :
    (e e' : Endian) (w : ℕ) (bs : Bytes)
    → IsWord w
    → words e' (to_bytes e w ++ bs) ≡ recode e e' w ∷ words e' bs
words_step little little w bs h = ap (λ v. v ∷ words little bs) (omega arith)
words_step little big w bs h = ap (λ v. v ∷ words big bs) (omega arith)
words_step big little w bs h = ap (λ v. v ∷ words little bs) (omega arith)
words_step big big w bs h = ap (λ v. v ∷ words big bs) (omega arith)

pub words-memory :
    (e e' : Endian) (ws : List ℕ) → All IsWord ws → words e' (memory e ws) ≡ map (recode e e') ws
words-memory e e' [] h = refl
words-memory e e' (w ∷ ws) (hw, hs) =
    words_step e e' w (memory e ws) hw ∙ ap (λ r. recode e e' w ∷ r) (words-memory e e' ws hs)

length-to_bytes : (e : Endian) (w : ℕ) → length (to_bytes e w) ≡ 4
length-to_bytes little w = refl
length-to_bytes big w = refl

pub length-memory : (e : Endian) (ws : List ℕ) → length (memory e ws) ≡ 4 * length ws
length-memory e [] = refl
length-memory little (w ∷ ws) = omega (arith, length-memory little ws)
length-memory big (w ∷ ws) = omega (arith, length-memory big ws)

pub length-convert_first :
    (f : ℕ → ℕ) (n : ℕ) (ws : List ℕ) → length (convert_first f n ws) ≡ length ws
unfolding convert_first
length-convert_first f zero ws = refl
length-convert_first f (suc n) [] = refl
length-convert_first f (suc n) (w ∷ ws) = ap suc (length-convert_first f n ws)

pub convert_first-IsWord :
    (e : Endian) (n : ℕ) (ws : List ℕ) → All IsWord ws → All IsWord (convert_first (htonl e) n ws)
unfolding convert_first
convert_first-IsWord e zero ws h = h
convert_first-IsWord e (suc n) [] h = h
convert_first-IsWord e (suc n) (w ∷ ws) (hw, hs) =
    (htonl-IsWord e w hw, convert_first-IsWord e n ws hs)

-- The words that were converted arrive as they were; the others as the bytes that they are.
pub convert_first-moved :
    (e e' : Endian) (n : ℕ) (ws : List ℕ)
    → All IsWord ws
    → convert_first (ntohl e') n (map (recode e e') (convert_first (htonl e) n ws))
      ≡ take n ws ++ map (recode e e') (drop n ws)
unfolding convert_first
convert_first-moved e e' zero ws h = refl
convert_first-moved e e' (suc n) [] h = refl
convert_first-moved e e' (suc n) (w ∷ ws) (hw, hs) =
    ap₂ (λ v r. v ∷ r) (ntohl-recode-htonl e e' w hw) (convert_first-moved e e' n ws hs)

-- Converting all of a message and undoing it from a point on leaves the words before that point
-- converted.
pub convert_from-convert_first :
    (e : Endian) (n : ℕ) (ws : List ℕ)
    → All IsWord ws
    → convert_from (htonl e) n (convert_first (ntohl e) (length ws) ws)
      ≡ convert_first (ntohl e) n ws
unfolding convert_from convert_first ntohl
convert_from-convert_first e zero [] h = refl
convert_from-convert_first e zero (w ∷ ws) (hw, hs) =
    ap₂ (λ v r. v ∷ r) (htonl_twice e w hw) (convert_from-convert_first e zero ws hs)
convert_from-convert_first e (suc n) [] h = refl
convert_from-convert_first e (suc n) (w ∷ ws) (hw, hs) =
    ap (λ r. ntohl e w ∷ r) (convert_from-convert_first e n ws hs)
