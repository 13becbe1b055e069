-- ===== src/Uuid.antt =====
-- The identifiers of a run, src/net_uuid.c.
pub mod Stamp
mod Tests
use netperf_copilot.Common.{
  ℕ, zero, suc, ◌+◌, ◌*◌, ◌-◌, ◌/◌, ◌%◌, ◌^◌, Bool, true, false, List, [], ◌∷◌, Option, none, some,
  ltb, ◌==◌, if◌then◌else◌, Bytes,
}

abbrev pub uuids_per_tick : ℕ
uuids_per_tick = 1024

-- get_system_time of what gettimeofday() gives
pub get_system_time : ℕ → ℕ → ℕ
get_system_time tv_sec tv_usec = (tv_sec * 10000000 + tv_usec * 10 + 0x01B21DD213814000) % 2 ^ 64

-- The static variables of get_current_time.
pub record Clock : Type 0 where
  pub inited : Bool
  pub time_last : ℕ
  pub uuids_this_tick : ℕ

-- The loop of get_current_time over what get_system_time() gives in each round: the timestamp, the
-- variables, and the readings left. `none`: it still spins.
pub spin : List ℕ → ℕ → ℕ → Option (ℕ × Clock × List ℕ)
spin [] time_last uuids_this_tick = none
spin (time_now ∷ later) time_last uuids_this_tick = elim (time_last == time_now) [
  | false ↦
      some (time_now, record { inited = true; time_last = time_now; uuids_this_tick = 0 }, later)
  | true ↦ elim (ltb uuids_this_tick uuids_per_tick) [
    | true ↦ some (
      (time_now + (uuids_this_tick + 1)) % 2 ^ 64,
      record { inited = true; time_last = time_last; uuids_this_tick = uuids_this_tick + 1 },
      later,
    )
    | false ↦ spin later time_last uuids_this_tick
  ]
]

-- get_current_time: the first call reads the clock once more.
pub get_current_time : List ℕ → Clock → Option (ℕ × Clock × List ℕ)
get_current_time [] c = none
get_current_time (time_now ∷ later) c = elim (c.inited) [
  | true ↦ spin (time_now ∷ later) c.time_last c.uuids_this_tick
  | false ↦ spin later c.time_last uuids_per_tick
]

-- netperf_uuid_t
pub record NetperfUuid : Type 0 where
  pub time_low : ℕ
  pub time_mid : ℕ
  pub time_hi_and_version : ℕ
  pub clock_seq_hi_and_reserved : ℕ
  pub clock_seq_low : ℕ
  pub node : Bytes

-- format_uuid_v1; the masks leave the bits of 1 << 12 and 0x80 free, so `|=` adds them.
pub format_uuid_v1 : ℕ → ℕ → Bytes → NetperfUuid
format_uuid_v1 clock_seq timestamp node = record {
  time_low = timestamp % 2 ^ 32;
  time_mid = timestamp / 2 ^ 32 % 2 ^ 16;
  time_hi_and_version = timestamp / 2 ^ 48 % 2 ^ 12 + 2 ^ 12;
  clock_seq_hi_and_reserved = clock_seq / 2 ^ 8 % 2 ^ 6 + 0x80;
  clock_seq_low = clock_seq % 2 ^ 8;
  node = node;
}
