-- ===== src/Passphrase/Check.antt =====
-- netserver's check of netperf's passphrase, recv_passphrase() of src/netserver.c and main() of
-- src/netperf.c.
use netperf_copilot.Common.{
  ℕ, zero, suc, ◌≤◌, ◌≡◌, ◌∙◌, refl, ap, arith, true, false, List, [], ◌∷◌, ◌++◌, some, length, All,
  map, get_or, if◌then◌else◌, pos, negsuc, Bytes,
}
use netperf_copilot.Requests.{passphrase}
use netperf_copilot.Control.{
  Endian, memory, words, message_words, message_size, conversion_count, Arrival, chunk, Received,
}
use netperf_copilot.Control.Words.{IsWord, recode}
use netperf_copilot.Control.Transfer.{concat, IsPiece, recv_request-send_request}
use netperf_copilot.Passphrase.{
  max_spec_data, strncpy, same_text, passphrase_request, send_passphrase, recv_passphrase,
  check_request, if_received,
}
use netperf_copilot.Passphrase.Bytes4.{
  IsChar, words-IsWord, memory-recode-words, length-words, length-strncpy, strncpy-IsByte,
  same_bytes, same_text-strncpy,
}

-- A passphrase as -Z leaves it.
abbrev pub IsPhrase : Bytes → Type 0
IsPhrase s = (length s ≤ 647) × All IsChar s

get_or-IsWord : (ws : List ℕ) (i : ℕ) → All IsWord ws → IsWord (get_or ws i 0)
get_or-IsWord [] i h = omega arith
get_or-IsWord (w ∷ ws) zero (hw, hs) = hw
get_or-IsWord (w ∷ ws) (suc i) (hw, hs) = get_or-IsWord ws i hs

-- The words that netserver has behind the header are the passphrase's bytes.
arrived :
    (e e' : Endian) (phrase : Bytes)
    → IsPhrase phrase
    → memory e' (map (recode e e') (words e (strncpy max_spec_data phrase)))
      ≡ strncpy max_spec_data phrase
arrived e e' phrase ok =
    memory-recode-words e e' 162 (strncpy max_spec_data phrase)
      (length-strncpy max_spec_data phrase) (strncpy-IsByte max_spec_data phrase ok.1)

check_request_lem :
    (e : Endian) (mine phrase : Bytes) (affinity : ℕ) (data_words : List ℕ) (r : Received)
    → r.ret ≡ pos message_size
    → r.closed ≡ false
    → r.array ≡ passphrase ∷ affinity ∷ data_words
    → memory e data_words ≡ strncpy max_spec_data phrase
    → check_request e mine r
      ≡ (if same_text mine (strncpy max_spec_data phrase) then (pos 0, false) else (negsuc 0, true))
check_request_lem e mine phrase affinity data_words r ret open_ same there =
    rw (ret, open_, same, there) refl

-- netserver takes its passphrase from netperf if and only if it is the same, between hosts of any
-- byte orders and in pieces of any sizes that are not empty: it returns 0 and keeps the connection
-- if the phrases are equal, and otherwise returns -1 and has closed it.
pub recv_passphrase-send_passphrase :
    (e e' : Endian) (affinity : ℕ) (phrase mine : Bytes) (array old sent : List ℕ) (on_wire : Bytes)
    (pieces : List Bytes) (rest : List Arrival)
    → IsPhrase phrase
    → IsPhrase mine
    → length old ≡ message_words
    → All IsWord array
    → IsWord affinity
    → All IsPiece pieces
    → send_passphrase e affinity (pos message_size) phrase array ≡ some (sent, on_wire)
    → concat pieces ≡ on_wire
    → recv_passphrase e' mine (map chunk pieces ++ rest) old
      ≡ some (if same_bytes mine phrase then (pos 0, false) else (negsuc 0, true))
unfolding send_passphrase recv_passphrase conversion_count
recv_passphrase-send_passphrase e e' affinity phrase mine array old sent on_wire pieces rest ok ok'
      lo wa wf hp wire cat =
    let ws = words e (strncpy max_spec_data phrase) in
    let long : length ws ≡ 162 =
      length-words e 162 (strncpy max_spec_data phrase) (length-strncpy max_spec_data phrase) in
    let got =
      recv_request-send_request e e' (pos 0) affinity (passphrase_request e phrase array) old sent
        on_wire pieces rest (omega arith) lo
        (
          omega arith,
          (
            get_or-IsWord array 1 wa,
            words-IsWord e (strncpy max_spec_data phrase)
                (strncpy-IsByte max_spec_data phrase ok.1),
          ),
        )
        wf hp wire cat in
    let (r, received, ret, open_, same, read) = got in
    ap (if_received e' mine) received
    ∙ ap some (
        check_request_lem e' mine phrase affinity (map (recode e e') ws) r ret open_ same
          (arrived e e' phrase ok))
    ∙ ap (λ b. some (if b then (pos 0, false) else (negsuc 0, true)))
        (same_text-strncpy max_spec_data mine phrase (omega (arith, ok'.0)) (omega (arith, ok.0))
          ok'.1 ok.1)
