-- ===== src/RecvOmni/Tests.antt =====
-- Concrete runs of the loop of recv_omni() in src/nettest_omni.c.
use netperf_copilot.Common.{◌≡◌, refl, arith, true, false, [], ◌∷◌, pos, negsuc}
use netperf_copilot.Engine.{Test, is_rr, finished, HoldsAtEnd}
use netperf_copilot.RecvOmni.{Serving, connection, Round, serve_loop}
use netperf_copilot.RecvOmni.Balance.{IsBalanced, serve_loop-IsBalanced}
use netperf_copilot.RecvOmni.Count.{IsFine, IsCounted, serve_loop-IsCounted}

-- A TCP_RR of two transactions with requests and responses of one byte.
abbrev tcp_rr : Test
tcp_rr = record {
  xmit = true;
  recv = true;
  connection_test = false;
  null_message_ok = false;
  is_udp = false;
  need_to_connect = false;
  local_connected = false;
  use_fastopen = false;
  keep_histogram = false;
  bytes_to_send = 1;
  first_burst_size = 0;
}

abbrev start : Serving
start = record {
  times_up = true;
  timed_out = false;
  need_to_accept = true;
  connected = false;
  peeraddr_set = false;
  first_receive = true;
  units_remaining = pos 2;
  trans_completed = 0;
  bytes_sent = 0;
  bytes_received = 0;
  local_send_calls = 0;
  local_receive_calls = 0;
  failed_sends = 0;
  send_ring = 0;
  recv_ring = 0;
}

abbrev fine : Round
fine = record {
  accepting = connection;
  fires_first = false;
  received = pos 1;
  temp_recvs = 1;
  fires_between = true;
  connecting = true;
  sent = pos 1;
  closing = pos 0;
  fires_last = false;
}

abbrev fine-IsFine : IsFine tcp_rr fine
fine-IsFine = record {
  accepted = refl;
  given = (0, refl);
  able = refl;
  whole = refl;
  closed = refl;
}

serve_loop-IsCounted_example :
    (s' : Serving) × (serve_loop tcp_rr (fine ∷ fine ∷ fine ∷ []) start ≡ finished s')
    × IsCounted 2 2 (pos 0) s'
unfolding is_rr
serve_loop-IsCounted_example =
    serve_loop-IsCounted tcp_rr 2 0 0 (fine ∷ fine ∷ fine ∷ []) start refl
      (fine-IsFine, (fine-IsFine, (fine-IsFine, tt))) (omega arith)
      (record { untimed = refl; in_time = refl; done = refl; moved = refl; left = refl })

-- The second receive is interrupted.
serve_loop-IsBalanced_example :
    HoldsAtEnd
      (IsBalanced tcp_rr)
      (IsBalanced tcp_rr)
      (serve_loop tcp_rr (fine ∷ record fine { received = negsuc 0 } ∷ []) start)
unfolding is_rr
serve_loop-IsBalanced_example =
    serve_loop-IsBalanced tcp_rr (fine ∷ record fine { received = negsuc 0 } ∷ []) start (record {
      bytes = refl;
      buffers = refl;
      timeout = λ h. absurd (cc);
      one_way = λ h. refl;
      receives = λ h. absurd (cc);
      sends = λ h. absurd (cc);
    })
