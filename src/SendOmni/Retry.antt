-- ===== src/SendOmni/Retry.antt =====
-- Transient errors of connect() in the loop of send_omni_inner() of src/nettest_omni.c.
use netperf_copilot.Common.{
  ℕ, zero, suc, ◌+◌, ◌*◌, ◌≡◌, refl, ◌∙◌, arith, true, false, List, ◌∷◌, ◌++◌, pos, negsuc,
  replicate,
}
use netperf_copilot.Engine.{Test, goes}
use netperf_copilot.SendOmni.{Driving, Attempt, open_socket, retry, after_connect, connect_loop}

-- A socket that meets a transient error, and one that connects.
abbrev pub transient : Attempt
transient = record { created = true; connecting = negsuc 1 }

abbrev pub connects : Attempt
connects = record { created = true; connecting = pos 0 }

-- A state with a connection, after so many more sockets and ports.
pub record IsConnected (s : Driving) (sockets ports : ℕ) (s' : Driving) : Type 0 where
  pub connected : s'.connected ≡ true
  pub need_socket : s'.need_socket ≡ false
  pub need_to_connect : s'.need_to_connect ≡ false
  pub sockets_made : s'.sockets ≡ s.sockets + sockets
  pub ports_taken : s'.ports_picked ≡ s.ports_picked + ports

still_to_connect :
    (t : Test) (s : Driving) → s.need_to_connect ≡ true → (open_socket t s).need_to_connect ≡ true
unfolding open_socket
still_to_connect t s connect = ground arith

connect_again :
    (t : Test) (more : List Attempt) (s : Driving)
    → t.connection_test ≡ true
    → t.use_fastopen ≡ false
    → s.need_to_connect ≡ true
    → connect_loop t (transient ∷ more) s ≡ connect_loop t more (retry (open_socket t s))
unfolding connect_loop after_connect
connect_again t more s ct slow connect = ground (arith, still_to_connect t s connect)

-- In a connection test connect() is tried again after each transient error, with one more socket but
-- two more ports: the one picked at the error is passed over for the next.
pub connect_loop-transient :
    (t : Test) (k : ℕ) (later : List Attempt) (s : Driving)
    → t.connection_test ≡ true
    → t.use_fastopen ≡ false
    → s.need_socket ≡ true
    → s.need_to_connect ≡ true
    → (s' : Driving) × (connect_loop t (replicate k transient ++ connects ∷ later) s ≡ goes s')
      × IsConnected s (k + 1) (2 * k + 1) s'
unfolding connect_loop open_socket after_connect retry
connect_loop-transient t zero later s ct slow socket connect = (
  record (open_socket t s) { connected = true; need_to_connect = false },
  rw (socket, connect, slow) refl,
  rw (socket, ct)
      (record {
        connected = refl;
        need_socket = refl;
        need_to_connect = refl;
        sockets_made = refl;
        ports_taken = refl;
      }),
)
connect_loop-transient t (suc k) later s ct slow socket connect =
    let again = connect_loop-transient t k later (retry (open_socket t s)) ct slow refl refl in
    (
      again.0,
      connect_again t (replicate k transient ++ connects ∷ later) s ct slow connect ∙ again.1,
      more again.0 again.2,
    )
  where
    more :
        (s' : Driving)
        → IsConnected (retry (open_socket t s)) (k + 1) (2 * k + 1) s'
        → IsConnected s (suc k + 1) (2 * suc k + 1) s'
    more s' i = ground (arith, i)
