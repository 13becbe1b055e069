-- ===== src/RecvOmni.antt =====
-- The test loop of recv_omni() in src/nettest_omni.c, by which netserver runs its side of a test: it
-- accepts if it must, receives, sends, closes the connection of a connection test, and counts.
pub mod Count
pub mod Balance
mod Tests
use netperf_copilot.Common.{
  ℕ, zero, suc, ◌+◌, ◌-◌, Bool, true, false, not, ◌&&◌, ◌||◌, List, [], ◌∷◌, ◌==◌, if◌then◌else◌, ℤ,
  pos, negsuc,
}
use netperf_copilot.Engine.{
  Test, is_rr, Step, goes, leaves, dies, ◌>>=◌, Run, finished, exited, running, is_positive,
  take_units, one_unit, limited, continue_with,
}

pub record Serving : Type 0 where
  pub times_up : Bool
  pub timed_out : Bool
  pub need_to_accept : Bool
  pub connected : Bool
  pub peeraddr_set : Bool
  pub first_receive : Bool
  pub units_remaining : ℤ
  pub trans_completed : ℕ
  pub bytes_sent : ℕ
  pub bytes_received : ℕ
  pub local_send_calls : ℕ
  pub local_receive_calls : ℕ
  pub failed_sends : ℕ
  pub send_ring : ℕ
  pub recv_ring : ℕ

-- What accept() does: it gives a connection, is interrupted by the timer, or fails.
pub data Accepted : Type 0 where
  connection : Accepted
  interrupted : Accepted
  refused : Accepted

-- What the calls of a round give: accept(), recv_data() with its num_receives, connect(), send_data()
-- and close_data_socket(); and whether the timer fires before the receive, before the send, or after.
pub record Round : Type 0 where
  pub accepting : Accepted
  pub fires_first : Bool
  pub received : ℤ
  pub temp_recvs : ℕ
  pub fires_between : Bool
  pub connecting : Bool
  pub sent : ℤ
  pub closing : ℤ
  pub fires_last : Bool

unfoldable pub goes_on : Serving → Bool
goes_on s = not s.times_up || is_positive s.units_remaining

-- What the signal handler does.
abbrev pub fires : Bool → Serving → Serving
fires fired s = record s { times_up = s.times_up || fired }

abbrev pub out_of_time : Serving → Serving
out_of_time s = record s { times_up = true; timed_out = true }

-- The first part of a round: a connection is accepted, or the peer's address is set once.
pub accept_part : Test → Accepted → Serving → Step Serving
accept_part t connection s =
    if s.need_to_accept
    then goes (record s { need_to_accept = false; connected = true })
    else goes (record s { peeraddr_set = s.peeraddr_set || t.is_udp })
accept_part t interrupted s =
    if s.need_to_accept
    then leaves (out_of_time s)
    else goes (record s { peeraddr_set = s.peeraddr_set || t.is_udp })
accept_part t refused s =
    if s.need_to_accept
    then dies s
    else goes (record s { peeraddr_set = s.peeraddr_set || t.is_udp })

-- What follows recv_data().
pub after_recv : Test → ℤ → ℕ → Serving → Step Serving
after_recv t (pos zero) temp_recvs s =
    if not (t.connection_test || t.null_message_ok)
    then leaves (record s { times_up = true })
    else goes (record s {
      local_receive_calls = s.local_receive_calls + temp_recvs;
      recv_ring = s.recv_ring + 1;
    })
after_recv t (pos (suc n)) temp_recvs s = goes (record s {
  units_remaining = limited t.xmit s.units_remaining (suc n);
  bytes_received = s.bytes_received + suc n;
  local_receive_calls = s.local_receive_calls + temp_recvs;
  first_receive = s.first_receive && not t.local_connected;
  recv_ring = s.recv_ring + 1;
})
after_recv t (negsuc zero) temp_recvs s = leaves (out_of_time s)
after_recv t (negsuc (suc k)) temp_recvs s = dies s

pub recv_part : Test → Round → Serving → Step Serving
recv_part t r s =
    let s' = fires r.fires_first s in
    if t.recv && goes_on s' then after_recv t r.received r.temp_recvs s' else goes s'

-- What follows send_data().
pub after_send : Test → ℤ → Serving → Step Serving
after_send t (pos n) s =
    if n == t.bytes_to_send
    then goes (record s {
      units_remaining = limited t.recv s.units_remaining n;
      bytes_sent = s.bytes_sent + n;
      send_ring = s.send_ring + 1;
      local_send_calls = s.local_send_calls + 1;
    })
    else if n == 0
    then goes s
    else dies s
after_send t (negsuc zero) s = leaves (out_of_time s)
after_send t (negsuc (suc zero)) s = goes (record s { failed_sends = s.failed_sends + 1 })
after_send t (negsuc (suc (suc k))) s = dies s

-- On UDP the first send may have to connect.
pub connect_first : Test → Bool → Serving → Step Serving
connect_first t connecting s =
    let needs = t.is_udp && t.need_to_connect && not s.connected in
    if needs && not connecting then dies s else goes (record s { connected = s.connected || needs })

pub send_part : Test → Round → Serving → Step Serving
send_part t r s =
    let s' = fires r.fires_between s in
    if t.xmit && goes_on s'
    then connect_first t r.connecting s' >>= after_send t r.sent
    else goes s'

-- What follows close_data_socket() in a connection test.
pub after_close : ℤ → Serving → Step Serving
after_close (pos n) s = goes (record s { need_to_accept = true; connected = false })
after_close (negsuc zero) s = leaves (out_of_time s)
after_close (negsuc (suc k)) s = dies s

pub close_part : Test → Round → Serving → Step Serving
close_part t r s = if t.connection_test then after_close r.closing s else goes s

-- The end of a round.
pub count_part : Test → Round → Serving → Step Serving
count_part t r s =
    let s' = fires r.fires_last s in
    if is_rr t
    then goes (record s' {
      trans_completed = s'.trans_completed + 1;
      units_remaining = one_unit s'.units_remaining;
    })
    else goes s'

-- One round of the loop.
pub serve_round : Test → Round → Serving → Step Serving
serve_round t r s =
    accept_part t r.accepting s
    >>= recv_part t r
    >>= send_part t r
    >>= close_part t r
    >>= count_part t r

-- The loop of recv_omni.
pub serve_loop : Test → List Round → Serving → Run Serving
serve_loop t [] s = if goes_on s then running s else finished s
serve_loop t (r ∷ rounds) s =
    let rest = continue_with (serve_round t r s) (serve_loop t rounds) in
    if goes_on s then rest else finished s
