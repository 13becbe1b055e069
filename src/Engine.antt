-- ===== src/Engine.antt =====
-- What the two test loops of src/nettest_omni.c share: the directions of a test, and how a part of a
-- round ends.
use netperf_copilot.Common.{
  ℕ, zero, suc, Bool, true, false, not, ◌&&◌, ◌||◌, ℤ, pos, negsuc, if◌then◌else◌, sub_ℕ,
}

-- A test, as both sides read it from their globals and the request.
pub record Test : Type 0 where
  pub xmit : Bool
  pub recv : Bool
  pub connection_test : Bool
  pub null_message_ok : Bool
  pub is_udp : Bool
  pub need_to_connect : Bool
  pub local_connected : Bool
  pub use_fastopen : Bool
  pub keep_histogram : Bool
  pub bytes_to_send : ℕ
  pub first_burst_size : ℕ

-- NETPERF_IS_RR: both directions, or neither.
unfoldable pub is_rr : Test → Bool
is_rr t = (t.xmit && t.recv) || not (t.xmit || t.recv)

-- A part of a round goes on with the state, skips the rest of the round (`continue`), leaves the loop
-- (`break`), ends the process, or is still in a call.
pub data Step {ℓ} (S : Type ℓ) : Type ℓ where
  goes : S → Step S
  skips : S → Step S
  leaves : S → Step S
  dies : S → Step S
  waits : S → Step S

infixl 5 ◌>>=◌
abbrev pub ◌>>=◌ {ℓ} : {S : Type ℓ} → Step S → (S → Step S) → Step S
goes s >>= f = f s
leaves s >>= f = leaves s
dies s >>= f = dies s
skips s >>= f = skips s
waits s >>= f = waits s

-- How a loop over given rounds ends: by its test or a break, by exit(), or not yet.
pub data Run {ℓ} (S : Type ℓ) : Type ℓ where
  finished : S → Run S
  exited : S → Run S
  running : S → Run S

-- How a loop goes on after a round.
abbrev pub continue_with {ℓ} : {S : Type ℓ} → Step S → (S → Run S) → Run S
continue_with (goes s) rest = rest s
continue_with (skips s) rest = rest s
continue_with (leaves s) rest = finished s
continue_with (dies s) rest = exited s
continue_with (waits s) rest = running s

-- `units_remaining > 0`, and what `units_remaining -= n` and `if (units_remaining) units_remaining--`
-- leave.
abbrev pub is_positive : ℤ → Bool
is_positive (pos zero) = false
is_positive (pos (suc n)) = true
is_positive (negsuc k) = false

abbrev pub take_units : ℤ → ℕ → ℤ
take_units (pos u) n = sub_ℕ u n
take_units (negsuc k) n = negsuc k

abbrev pub one_unit : ℤ → ℤ
one_unit (pos zero) = pos zero
one_unit (pos (suc n)) = pos n
one_unit (negsuc k) = negsuc (suc k)

-- Where a test in one direction is limited by bytes, each transfer is taken off the rest.
unfoldable pub limited : Bool → ℤ → ℕ → ℤ
limited other_direction units n =
    if not other_direction && is_positive units then take_units units n else units

-- What a part of a round ends in: `P` where it goes on, `L` where it skips to the next round, and
-- `R` where the loop ends or waits.
module _ {ℓ} {S : Type ℓ} (L R : S → Type 0) where
  abbrev pub Ends : (S → Type 0) → Step S → Type 0
  Ends P (goes s) = P s
  Ends P (skips s) = L s
  Ends P (leaves s) = R s
  Ends P (dies s) = R s
  Ends P (waits s) = R s

  abbrev pub HoldsAtEnd : Run S → Type 0
  HoldsAtEnd (finished s) = R s
  HoldsAtEnd (exited s) = R s
  HoldsAtEnd (running s) = R s

  pub >>=-Ends :
      (P Q : S → Type 0) (m : Step S) (f : S → Step S)
      → Ends P m
      → ((s : S) → P s → Ends Q (f s))
      → Ends Q (m >>= f)
  >>=-Ends P Q (goes s) f now later = later s now
  >>=-Ends P Q (skips s) f now later = now
  >>=-Ends P Q (leaves s) f now later = now
  >>=-Ends P Q (dies s) f now later = now
  >>=-Ends P Q (waits s) f now later = now

  pub continue_with-Ends :
      (m : Step S) (f : S → Run S)
      → Ends L m
      → ((s : S) → L s → HoldsAtEnd (f s))
      → HoldsAtEnd (continue_with m f)
  continue_with-Ends (goes s) f now later = later s now
  continue_with-Ends (skips s) f now later = later s now
  continue_with-Ends (leaves s) f now later = now
  continue_with-Ends (dies s) f now later = now
  continue_with-Ends (waits s) f now later = now

-- The same property in each case.
abbrev pub Holds {ℓ} : {S : Type ℓ} → (S → Type 0) → Step S → Type 0
Holds P = Ends P P P
