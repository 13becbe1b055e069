-- ===== src/SendOmni/Tests.antt =====
-- Concrete runs of the loop of send_omni_inner() in src/nettest_omni.c.
use netperf_copilot.Common.{
  ◌+◌, ◌*◌, ◌≤◌, ◌<◌, ◌≡◌, refl, arith, Bool, true, false, List, [], ◌∷◌, pos, negsuc,
}
use netperf_copilot.Engine.{Test, is_rr, limited, goes, Run, finished, exited, running, HoldsAtEnd}
use netperf_copilot.SendOmni.{
  Driving, Round, connect_loop, drive_loop, drive_round, goes_on, open_socket, after_connect,
  burst_loop, wants_burst, after_burst, after_send, send_part, after_recv, recv_part, close_part,
  count_part, stamp, unstamp, ring_limit,
}
use netperf_copilot.SendOmni.Balance.{IsPaired, IsPairedAtEnd, drive_loop-IsPaired}
use netperf_copilot.SendOmni.Stream.{drive_loop_stream}
use netperf_copilot.SendOmni.Retry.{transient, connects, IsConnected, connect_loop-transient}

abbrev tcp_crr : Test
tcp_crr = record {
  xmit = true;
  recv = true;
  connection_test = true;
  null_message_ok = false;
  is_udp = false;
  need_to_connect = true;
  local_connected = false;
  use_fastopen = false;
  keep_histogram = true;
  bytes_to_send = 100;
  first_burst_size = 0;
}

abbrev udp_rr : Test
udp_rr = record tcp_crr { connection_test = false; is_udp = true; first_burst_size = 2 }

abbrev tcp_stream : Test
tcp_stream = record tcp_crr { recv = false; connection_test = false }

abbrev start : Driving
start = record {
  times_up = true;
  timed_out = false;
  need_socket = true;
  need_to_connect = true;
  connected = false;
  units_remaining = pos 250;
  requests_outstanding = 0;
  stamps = 0;
  producer = 0;
  consumer = 0;
  trans_completed = 0;
  bytes_sent = 0;
  bytes_received = 0;
  local_send_calls = 0;
  local_receive_calls = 0;
  failed_sends = 0;
  send_ring = 0;
  recv_ring = 0;
  ports_picked = 0;
  sockets = 0;
}

connect_loop-transient_example :
    (s' : Driving) × (connect_loop tcp_crr (transient ∷ transient ∷ connects ∷ []) start ≡ goes s')
    × IsConnected start 3 5 s'
connect_loop-transient_example = connect_loop-transient tcp_crr 2 [] start refl refl refl refl

-- A round whose burst loses a send and whose receive times out, and one that is interrupted.
abbrev rounds : List Round
rounds =
    record {
      attempts = connects ∷ [];
      burst = pos 100 ∷ negsuc 1 ∷ pos 100 ∷ [];
      sent = pos 100;
      received = negsuc 1;
      temp_recvs = 0;
      disconnecting = pos 0;
      fires = false;
    }
    ∷ record {
      attempts = [];
      burst = pos 100 ∷ pos 100 ∷ [];
      sent = pos 100;
      received = negsuc 0;
      temp_recvs = 0;
      disconnecting = pos 0;
      fires = true;
    }
    ∷ []

drive_loop-IsPaired_example :
    HoldsAtEnd (IsPaired udp_rr 0) (IsPairedAtEnd udp_rr) (drive_loop udp_rr rounds start)
unfolding ring_limit
drive_loop-IsPaired_example =
    drive_loop-IsPaired udp_rr refl refl (omega arith) rounds start (record {
      burst = omega arith;
      stamped = omega arith;
      extra = omega arith;
      ring = record { consumer_in = omega arith; producer_at = refl };
    })

-- A send of the burst fails, and its timestamp fills the ring of four places: the first response
-- finds it empty and ends the process.
abbrev failed_send : Round
failed_send = record {
  attempts = connects ∷ [];
  burst = pos 100 ∷ negsuc 1 ∷ pos 100 ∷ [];
  sent = pos 100;
  received = pos 100;
  temp_recvs = 1;
  disconnecting = pos 0;
  fires = false;
}

abbrev has_exited : Run Driving → Bool
has_exited (exited s) = true
has_exited (finished s) = false
has_exited (running s) = false

full_ring : has_exited (drive_loop udp_rr (failed_send ∷ []) start) ≡ true
unfolding drive_loop drive_round goes_on connect_loop open_socket after_connect burst_loop
    wants_burst after_burst after_send send_part after_recv recv_part close_part count_part stamp
    unstamp ring_limit is_rr limited
full_ring = refl

abbrev send_100 : Round
send_100 = record {
  attempts = [];
  burst = [];
  sent = pos 100;
  received = pos 0;
  temp_recvs = 0;
  disconnecting = pos 0;
  fires = false;
}

abbrev first : Round
first = record send_100 { attempts = connects ∷ []; fires = true }

drive_loop_stream_example :
    (s' : Driving) × (drive_loop tcp_stream (first ∷ send_100 ∷ send_100 ∷ send_100 ∷ []) start
      ≡ finished s')
    × (s'.bytes_sent ≡ s'.local_send_calls * 100)
    × (250 ≤ s'.bytes_sent)
    × (s'.bytes_sent < 250 + 100)
unfolding ring_limit
drive_loop_stream_example =
    drive_loop_stream tcp_stream
      (record { xmit = refl; recv = refl; plain = refl; some_bytes = omega arith }) 250 first
      (send_100 ∷ send_100 ∷ send_100 ∷ []) start (refl, (refl, (refl, (refl, tt)))) (omega arith)
      (record {
        untimed = refl;
        count = refl;
        sent = refl;
        rest = refl;
        consumer_in = omega arith;
        empty = refl;
      })
      (λ h. refl, λ h. refl)
