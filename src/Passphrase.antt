-- ===== src/Passphrase.antt =====
-- The passphrase that netperf sends in front of its requests, main() of src/netperf.c, and the check
-- of netserver, recv_passphrase() of src/netserver.c.
pub mod Bytes4
pub mod Check
mod Tests
use netperf_copilot.Common.{
  ℕ, zero, suc, Bool, true, false, ◌&&◌, List, [], ◌∷◌, Option, none, some, ◌==◌, if◌then◌else◌,
  get_or, drop, ℤ, pos, negsuc, Bytes,
}
use netperf_copilot.Control.{
  Endian, memory, words, Arrival, Received, send_request_n, recv_request_timed_n,
}
use netperf_copilot.Engine.{is_positive}
use netperf_copilot.Requests.{passphrase}

-- sizeof(test_specific_data)
abbrev pub max_spec_data : ℕ
max_spec_data = 648

-- `strncpy(dest, s, n)`: the `n` bytes of `dest`.
pub strncpy : ℕ → Bytes → Bytes
strncpy zero s = []
strncpy (suc n) [] = 0 ∷ strncpy n []
strncpy (suc n) (c ∷ s) = c ∷ strncpy n s

-- `strcmp(s, dest) == 0` of a text and the bytes of an array; it does not get to the array's end if
-- the text is shorter than that.
pub same_text : Bytes → Bytes → Bool
same_text [] (c ∷ dest) = c == 0
same_text (a ∷ s) (c ∷ dest) = if a == c then same_text s dest else false
same_text s [] = false

-- The request of main in netperf.c, with the second word as it was.
abbrev pub passphrase_request : Endian → Bytes → List ℕ → List ℕ
passphrase_request e phrase array =
    passphrase ∷ get_or array 1 0 ∷ words e (strncpy max_spec_data phrase)

-- main in netperf.c
unfoldable pub send_passphrase : Endian → ℕ → ℤ → Bytes → List ℕ → Option (List ℕ × Bytes)
send_passphrase e affinity sent phrase array =
    send_request_n e (pos 0) affinity sent (passphrase_request e phrase array)

-- recv_passphrase behind recv_request_timed_n(), without a response: what it returns, and whether the
-- socket is closed.
abbrev pub check_request : Endian → Bytes → Received → ℤ × Bool
check_request e phrase r =
    if is_positive r.ret
      && get_or r.array 0 0 == passphrase
      && same_text phrase (memory e (drop 2 r.array))
    then (pos 0, r.closed)
    else (negsuc 0, true)

abbrev pub if_received : Endian → Bytes → Option Received → Option (ℤ × Bool)
if_received e phrase none = none
if_received e phrase (some r) = some (check_request e phrase r)

-- recv_passphrase; `none`: recv_request_timed_n() waits for more.
unfoldable pub recv_passphrase : Endian → Bytes → List Arrival → List ℕ → Option (ℤ × Bool)
recv_passphrase e phrase arrivals old =
    if_received e phrase (recv_request_timed_n e (pos 0) arrivals old)
