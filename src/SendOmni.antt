-- ===== src/SendOmni.antt =====
-- The test loop of send_omni_inner() in src/nettest_omni.c, by which netperf runs its side of a test:
-- it makes a socket and connects where it must, fills the first burst, sends, receives, ends the
-- connection of a connection test, and counts.
pub mod Balance
pub mod Stream
pub mod Retry
mod Tests
use netperf_copilot.Common.{
  ℕ, zero, suc, ◌+◌, ◌-◌, ◌%◌, Bool, true, false, not, ◌&&◌, ◌||◌, List, [], ◌∷◌, ltb, ◌==◌,
  if◌then◌else◌, ℤ, pos, negsuc,
}
use netperf_copilot.Engine.{
  Test, is_rr, Step, goes, skips, leaves, dies, waits, ◌>>=◌, Run, finished, exited, running,
  is_positive, take_units, one_unit, limited, continue_with,
}

-- `stamps`, `producer` and `consumer` are the histogram's `count` and the places of its ring,
-- `ports_picked` counts the calls of pick_next_port_number and `sockets` those of
-- omni_create_data_socket.
pub record Driving : Type 0 where
  pub times_up : Bool
  pub timed_out : Bool
  pub need_socket : Bool
  pub need_to_connect : Bool
  pub connected : Bool
  pub units_remaining : ℤ
  pub requests_outstanding : ℕ
  pub stamps : ℕ
  pub producer : ℕ
  pub consumer : ℕ
  pub trans_completed : ℕ
  pub bytes_sent : ℕ
  pub bytes_received : ℕ
  pub local_send_calls : ℕ
  pub local_receive_calls : ℕ
  pub failed_sends : ℕ
  pub send_ring : ℕ
  pub recv_ring : ℕ
  pub ports_picked : ℕ
  pub sockets : ℕ

-- What omni_create_data_socket and connect_data_socket give.
pub record Attempt : Type 0 where
  pub created : Bool
  pub connecting : ℤ

-- What the calls of a round give: the attempts to connect, the sends of the burst, send_data(),
-- recv_data() with its num_receives and disconnect_data_socket(); and whether the timer fires in it.
pub record Round : Type 0 where
  pub attempts : List Attempt
  pub burst : List ℤ
  pub sent : ℤ
  pub received : ℤ
  pub temp_recvs : ℕ
  pub disconnecting : ℤ
  pub fires : Bool

unfoldable pub goes_on : Driving → Bool
goes_on s = not s.times_up || is_positive s.units_remaining

abbrev pub out_of_time : Driving → Driving
out_of_time s = record s { times_up = true; timed_out = true }

-- The places of the ring, from HIST_new_n().
unfoldable pub ring_limit : Test → ℕ
ring_limit t = (if ltb 0 t.first_burst_size then t.first_burst_size + 1 else 1) + 1

-- HIST_timestamp_start, where the histogram is kept. It writes into a full ring all the same.
pub stamp : Test → Driving → Driving
stamp t s =
    if t.keep_histogram
    then record s { producer = (s.producer + 1) % ring_limit t; stamps = s.stamps + 1 }
    else s

-- HIST_timestamp_stop_add, where the histogram is kept: the process exits if the ring is empty, or
-- looks so since it is full.
pub unstamp : Test → Driving → Step Driving
unstamp t s =
    if not t.keep_histogram
    then goes s
    else if s.consumer == s.producer
    then dies s
    else goes (record s { consumer = (s.consumer + 1) % ring_limit t; stamps = s.stamps - 1 })

-- The part after `again:` that makes a socket.
pub open_socket : Test → Driving → Driving
open_socket t s =
    if s.need_socket
    then record s {
      need_socket = false;
      sockets = s.sockets + 1;
      ports_picked = s.ports_picked + (if t.connection_test then 1 else 0);
    }
    else s

-- A transient error of a connection test: the socket is closed and the next port picked.
pub retry : Driving → Driving
retry s = record s {
  connected = false;
  need_socket = true;
  need_to_connect = true;
  ports_picked = s.ports_picked + 1;
}

-- What follows connect_data_socket(); `again` is the jump back.
pub after_connect : Test → ℤ → Step Driving → Driving → Step Driving
after_connect t (pos zero) again s = goes (record s { connected = true; need_to_connect = false })
after_connect t (pos (suc n)) again s = dies s
after_connect t (negsuc zero) again s = leaves (out_of_time s)
after_connect t (negsuc (suc zero)) again s = if t.connection_test then again else dies s
after_connect t (negsuc (suc (suc k))) again s = dies s

-- From `again:` to the connection.
pub connect_loop : Test → List Attempt → Driving → Step Driving
connect_loop t [] s =
    if s.need_socket || s.need_to_connect && not t.use_fastopen then waits s else goes s
connect_loop t (a ∷ attempts) s =
    let s' = open_socket t s in
    let again = connect_loop t attempts (retry s') in
    if s.need_socket && not a.created
    then dies s'
    else if s'.need_to_connect && not t.use_fastopen
    then after_connect t a.connecting again s'
    else goes s'

-- The test of the burst's loop.
pub wants_burst : Test → Driving → Bool
wants_burst t s =
    ltb 0 t.first_burst_size
    && ltb s.requests_outstanding t.first_burst_size
    && is_rr t
    && not t.connection_test

-- What follows a send of the burst; the timestamp is taken whether or not it failed.
pub after_burst : Test → ℤ → Driving → Step Driving
after_burst t (pos n) s =
    if n == t.bytes_to_send
    then goes (
        stamp t (record s {
          local_send_calls = s.local_send_calls + 1;
          requests_outstanding = s.requests_outstanding + 1;
        }))
    else dies s
after_burst t (negsuc zero) s = dies s
after_burst t (negsuc (suc zero)) s =
    goes (stamp t (record s { failed_sends = s.failed_sends + 1 }))
after_burst t (negsuc (suc (suc k))) s = dies s

-- The loop of the burst.
pub burst_loop : Test → List ℤ → Driving → Step Driving
burst_loop t [] s = if wants_burst t s then waits s else goes s
burst_loop t (v ∷ sends) s =
    let rest = after_burst t v s >>= burst_loop t sends in if wants_burst t s then rest else goes s

-- What follows send_data().
pub after_send : Test → ℤ → Driving → Step Driving
after_send t (pos n) s =
    if n == t.bytes_to_send
    then goes (record s {
      units_remaining = limited t.recv s.units_remaining n;
      bytes_sent = s.bytes_sent + n;
      send_ring = s.send_ring + 1;
      local_send_calls = s.local_send_calls + 1;
    })
    else if n == 0
    then goes s
    else dies s
after_send t (negsuc zero) s = leaves (out_of_time s)
after_send t (negsuc (suc zero)) s = goes (record s { failed_sends = s.failed_sends + 1 })
after_send t (negsuc (suc (suc k))) s = dies s

-- The send, if any, and the request that is outstanding after it.
pub send_part : Test → Round → Driving → Step Driving
send_part t r s = (if t.xmit then after_send t r.sent s else goes s) >>= λ s'.
    goes (record s' { requests_outstanding = s'.requests_outstanding + 1 })

-- A response has come; there was a request for it in this round at least.
abbrev pub responded : Driving → Driving
responded s = record s {
  recv_ring = s.recv_ring + 1;
  requests_outstanding = s.requests_outstanding - 1;
}

-- What follows recv_data(). At a timeout of the receive the burst and the histogram start afresh.
pub after_recv : Test → ℤ → ℕ → Driving → Step Driving
after_recv t (pos zero) temp_recvs s =
    if not (t.connection_test || t.null_message_ok)
    then leaves (record s { times_up = true })
    else goes (responded (record s { local_receive_calls = s.local_receive_calls + temp_recvs }))
after_recv t (pos (suc n)) temp_recvs s = goes (
    responded (record s {
      units_remaining = limited t.xmit s.units_remaining (suc n);
      bytes_received = s.bytes_received + suc n;
      local_receive_calls = s.local_receive_calls + temp_recvs;
    }))
after_recv t (negsuc zero) temp_recvs s = leaves (out_of_time s)
after_recv t (negsuc (suc zero)) temp_recvs s = skips (record s {
  requests_outstanding = if t.first_burst_size == 0 then s.requests_outstanding else 0;
  stamps = if t.keep_histogram then 0 else s.stamps;
  producer = if t.keep_histogram then 0 else s.producer;
  consumer = if t.keep_histogram then 0 else s.consumer;
})
after_recv t (negsuc (suc (suc k))) temp_recvs s = dies s

pub recv_part : Test → Round → Driving → Step Driving
recv_part t r s = if t.recv then after_recv t r.received r.temp_recvs s else goes s

-- What follows disconnect_data_socket() in a connection test.
pub after_disconnect : ℤ → Driving → Step Driving
after_disconnect (pos zero) s =
    goes (record s { need_to_connect = true; connected = false; need_socket = true })
after_disconnect (pos (suc n)) s = dies s
after_disconnect (negsuc zero) s = leaves (out_of_time s)
after_disconnect (negsuc (suc k)) s = dies s

pub close_part : Test → Round → Driving → Step Driving
close_part t r s = if t.connection_test then after_disconnect r.disconnecting s else goes s

-- The end of a round: a timestamp is taken away, and a transaction is counted.
pub count_transaction : Test → Driving → Driving
count_transaction t s =
    if is_rr t
    then record s {
      trans_completed = s.trans_completed + 1;
      units_remaining = one_unit s.units_remaining;
    }
    else s

pub count_part : Test → Driving → Step Driving
count_part t s = unstamp t s >>= λ s'. goes (count_transaction t s')

-- One round of the loop. Only the loop's own test reads `times_up`.
pub drive_round : Test → Round → Driving → Step Driving
drive_round t r s =
    connect_loop t r.attempts (stamp t (record s { times_up = s.times_up || r.fires }))
    >>= burst_loop t r.burst
    >>= send_part t r
    >>= recv_part t r
    >>= close_part t r
    >>= count_part t

-- The loop of send_omni_inner.
pub drive_loop : Test → List Round → Driving → Run Driving
drive_loop t [] s = if goes_on s then running s else finished s
drive_loop t (r ∷ rounds) s =
    let rest = continue_with (drive_round t r s) (drive_loop t rounds) in
    if goes_on s then rest else finished s
