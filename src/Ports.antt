-- ===== src/Ports.antt =====
-- The choice of a local port for each connection in src/nettest_omni.c.
pub mod Range
mod Tests
use netperf_copilot.Common.{ℕ, ◌+◌, ◌-◌, ◌%◌, ◌^◌, Bool, true, false, leb, ◌==◌, if◌then◌else◌}

-- `myport_init` and `myport`
pub record Ports : Type 0 where
  pub myport_init : Bool
  pub myport : ℕ

-- `unsigned short`
abbrev pub short : ℕ → ℕ
short n = n % 2 ^ 16

-- The first port of all, less one; client_port_min is at most client_port_max.
pub first_port : ℕ → ℕ → ℕ → ℕ
first_port rand client_port_min client_port_max =
    let myport =
      if client_port_max == client_port_min
      then client_port_min
      else client_port_min + rand % (client_port_max - client_port_min) in
    short (short myport + (2 ^ 16 - 1))

-- pick_next_port_number: `rand` is what rand() gives, `server` the port of the server. The new
-- `myport` is the port that is set in the local address.
pub pick_next_port_number : ℕ → ℕ → ℕ → ℕ → Ports → Ports
pick_next_port_number rand server client_port_min client_port_max p =
    let last =
      if p.myport_init then p.myport else first_port rand client_port_min client_port_max in
    let next = short (last + 1) in
    let other = if next == server then short (next + 1) else next in
    record {
      myport_init = true;
      myport = if leb client_port_max other then short client_port_min else other;
    }
