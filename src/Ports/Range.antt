-- ===== src/Ports/Range.antt =====
-- The ports that pick_next_port_number() of src/nettest_omni.c picks.
use netperf_copilot.Common.{
  ℕ, ◌+◌, ◌-◌, ◌%◌, ◌^◌, ◌≤◌, ◌<◌, ◌≡◌, ◌≢◌, ◌⊎◌, arith, Bool, false, leb, ◌==◌, if◌then◌else◌,
}
use netperf_copilot.Ports.{Ports, short, first_port, pick_next_port_number}

-- No port is picked yet, or the last one is in the range.
abbrev pub IsReady : ℕ → ℕ → Ports → Type 0
IsReady low high p = (p.myport_init ≡ false) ⊎ ((low ≤ p.myport) × (p.myport < high))

mod_bound : (n d : ℕ) → 0 < d → n % d < d
mod_bound n d h = grind arith

around : (x : ℕ) → x < 65536 → short (short (short x + (2 ^ 16 - 1)) + 1) ≡ x
around x h = omega arith

spot : ℕ → ℕ → ℕ → ℕ
spot rand low high = if high == low then low else low + rand % (high - low)

spot_range :
    (rand low high : ℕ) → low < high → (low ≤ spot rand low high) × (spot rand low high < high)
unfolding spot
spot_range rand low high l = ground (arith, mod_bound rand (high - low) (omega arith))

first_port_range :
    (rand low high : ℕ)
    → low < high
    → high < 65535
    → (low ≤ short (first_port rand low high + 1)) × (short (first_port rand low high + 1) < high)
unfolding first_port spot
first_port_range rand low high l h =
    let (above, below) = spot_range rand low high l in
    (
      omega (arith, around (spot rand low high) (omega arith)),
      omega (arith, around (spot rand low high) (omega arith)),
    )

-- What is picked, from the first candidate on.
picked : ℕ → ℕ → ℕ → ℕ → ℕ
picked next server low high =
    let other = if next == server then short (next + 1) else next in
    if leb high other then short low else other

picked_range :
    (next server low high : ℕ)
    → low < high
    → high < 65535
    → low ≤ next
    → next ≤ high
    → (low ≤ picked next server low high)
      × (picked next server low high < high)
      × ((picked next server low high ≢ server) ⊎ (picked next server low high ≡ low))
unfolding picked
picked_range next server low high l h a b = (ground arith, ground arith, ground arith)

next_range :
    (rand low high : ℕ) (init : Bool) (last : ℕ)
    → low < high
    → high < 65535
    → ((init ≡ false) ⊎ ((low ≤ last) × (last < high)))
    → (low ≤ short ((if init then last else first_port rand low high) + 1))
      × (short ((if init then last else first_port rand low high) + 1) ≤ high)
next_range rand low high init last l h ready =
    let (above, below) = first_port_range rand low high l h in ground arith

-- If client_port_min is below client_port_max and that is below 65535, every port that is picked,
-- the first or one after another of the range, lies from client_port_min up to client_port_max,
-- the latter excluded; it is the port of the server only if it is client_port_min.
pub pick_next_port_number-IsReady :
    (rand server low high : ℕ) (p : Ports)
    → low < high
    → high < 65535
    → IsReady low high p
    → (low ≤ (pick_next_port_number rand server low high p).myport)
      × ((pick_next_port_number rand server low high p).myport < high)
      × (((pick_next_port_number rand server low high p).myport ≢ server)
          ⊎ ((pick_next_port_number rand server low high p).myport ≡ low))
unfolding pick_next_port_number picked
pick_next_port_number-IsReady rand server low high p l h ready =
    let (above, below) = next_range rand low high p.myport_init p.myport l h ready in
    picked_range (short ((if p.myport_init then p.myport else first_port rand low high) + 1)) server
      low high l h above below
