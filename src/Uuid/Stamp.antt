-- ===== src/Uuid/Stamp.antt =====
-- The timestamps of src/net_uuid.c, and how an identifier carries one.
use netperf_copilot.Common.{
  ℕ, ◌+◌, ◌*◌, ◌/◌, ◌%◌, ◌^◌, ◌<◌, ◌≡◌, ◌⊎◌, refl, sym, ◌∙◌, arith, Bool, true, false, List, [],
  ◌∷◌, some, Bytes, All,
}
use netperf_copilot.Uuid.{uuids_per_tick, Clock, spin, get_current_time, format_uuid_v1}

-- A reading of the clock that stands still, or has passed every timestamp given at the last one.
abbrev pub Passes : ℕ → ℕ → ℕ → Type 0
Passes last given now = ((now ≡ last) ⊎ (last + given < now)) × (now + uuids_per_tick < 2 ^ 64)

spin_later :
    (readings later : List ℕ) (last given stamp : ℕ) (c : Clock)
    → All (Passes last given) readings
    → spin readings last given ≡ some (stamp, c, later)
    → (last + given < stamp) × (stamp ≡ c.time_last + c.uuids_this_tick)
unfolding spin
spin_later [] later last given stamp c all e = absurd (cc)
spin_later (now ∷ readings) later last given stamp c (pass, all) e =
    ground (arith, spin_later readings later last given stamp c all)

-- A timestamp is later than the one before, which the variables hold as `time_last` and the number
-- given since, if each reading of the clock either is `time_last` or lies beyond that number
-- behind it, and is more than 1024 below 2^64.
pub get_current_time_later :
    (readings later : List ℕ) (stamp : ℕ) (c c' : Clock)
    → c.inited ≡ true
    → All (Passes c.time_last c.uuids_this_tick) readings
    → get_current_time readings c ≡ some (stamp, c', later)
    → (c.time_last + c.uuids_this_tick < stamp) × (stamp ≡ c'.time_last + c'.uuids_this_tick)
unfolding get_current_time
get_current_time_later [] later stamp c c' init all e = absurd (cc)
get_current_time_later (now ∷ readings) later stamp c c' init all e =
    spin_later (now ∷ readings) later c.time_last c.uuids_this_tick stamp c' all
      (sym (started c.inited init) ∙ e)
  where
    started :
        (b : Bool)
        → b ≡ true
        → (elim b [
          | true ↦ spin (now ∷ readings) c.time_last c.uuids_this_tick
          | false ↦ spin readings c.time_last uuids_per_tick
        ])
          ≡ spin (now ∷ readings) c.time_last c.uuids_this_tick
    started b h = rw (h) refl

-- The 60 low bits of the timestamp can be read back from the identifier's fields, which also show
-- version 1 and the variant in their highest bits; so do the 14 low bits of the clock sequence.
pub format_uuid_v1_lem :
    (clock_seq timestamp : ℕ) (node : Bytes)
    → let u = format_uuid_v1 clock_seq timestamp node in
      (u.time_low + u.time_mid * 2 ^ 32 + u.time_hi_and_version % 2 ^ 12 * 2 ^ 48
        ≡ timestamp % 2 ^ 60)
      × (u.time_hi_and_version / 2 ^ 12 ≡ 1)
      × (u.clock_seq_hi_and_reserved / 2 ^ 6 ≡ 2)
      × (u.clock_seq_low + u.clock_seq_hi_and_reserved % 2 ^ 6 * 2 ^ 8 ≡ clock_seq % 2 ^ 14)
unfolding format_uuid_v1
format_uuid_v1_lem clock_seq timestamp node = (omega arith, omega arith, omega arith, omega arith)
