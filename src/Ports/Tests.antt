-- ===== src/Ports/Tests.antt =====
-- Concrete runs of the choice of ports in src/nettest_omni.c.
use netperf_copilot.Common.{◌≤◌, ◌<◌, ◌≡◌, ◌≢◌, ◌⊎◌, inl, refl, arith, true, false}
use netperf_copilot.Ports.{Ports, pick_next_port_number}
use netperf_copilot.Ports.Range.{pick_next_port_number-IsReady}

abbrev fresh : Ports
fresh = record { myport_init = false; myport = 0 }

abbrev last : Ports
last = record { myport_init = true; myport = 65534 }

-- A server on the highest port, and the default range: the port goes round to 0.
round_to_zero : (pick_next_port_number 0 65535 5000 65535 last).myport ≡ 0
unfolding pick_next_port_number
round_to_zero = refl

pick_next_port_number-IsReady_example :
    (5000 ≤ (pick_next_port_number 77 5077 5000 6000 fresh).myport)
    × ((pick_next_port_number 77 5077 5000 6000 fresh).myport < 6000)
    × (((pick_next_port_number 77 5077 5000 6000 fresh).myport ≢ 5077)
        ⊎ ((pick_next_port_number 77 5077 5000 6000 fresh).myport ≡ 5000))
pick_next_port_number-IsReady_example =
    pick_next_port_number-IsReady 77 5077 5000 6000 fresh (omega arith) (omega arith) (inl refl)
