-- ===== src/Omni/Tests.antt =====
-- Concrete runs of the data routines of src/nettest_omni.c.
use netperf_copilot.Common.{
  ◌≤◌, ◌≡◌, refl, arith, true, false, List, [], ◌∷◌, ◌++◌, map, some, pos, negsuc,
}
use netperf_copilot.Omni.{
  Errors, Call, gave, failed, connect_data_socket, SendState, send_data, receive_loop, Taken,
  recv_result, recv_copy, SpliceState, open_pipe, recv_data,
}
use netperf_copilot.Omni.Recv.{Receives, recv_data-Outcome}
use netperf_copilot.Omni.Whole.{recv_data_whole}
use netperf_copilot.Omni.Send.{send_data_enobufs}

-- The numbers of Linux.
abbrev linux_errors : Errors
linux_errors = record {
  eintr = 4;
  eaddrinuse = 98;
  eaddrnotavail = 99;
  eagain = 11;
  ewouldblock = 11;
  enobufs = 105;
  enomem = 12;
}

in_use : connect_data_socket linux_errors false (failed 98) ≡ negsuc 1
unfolding connect_data_socket
in_use = refl

abbrev no_splice : SpliceState
no_splice = record { loc_rcvavoid = true; has_pipe = false; has_null = false }

abbrev pieces : List Call
pieces = gave 3 ∷ gave 4 ∷ gave 9 ∷ []

abbrev all_ten : Taken
all_ten = record {
  ret = pos 10;
  num_receives = 3;
  errno = 0;
  asked = (0, 10) ∷ (3, 7) ∷ (7, 3) ∷ [];
}

by_copies :
    recv_data linux_errors false true no_splice true 10 0 pieces
    ≡ (record no_splice { loc_rcvavoid = false }, some all_ten)
unfolding recv_data open_pipe recv_copy recv_result receive_loop
by_copies = refl

recv_data-Outcome_example : Receives linux_errors false true 10 0 0 0 pieces all_ten
unfolding recv_data open_pipe recv_copy recv_result receive_loop
recv_data-Outcome_example =
    recv_data-Outcome linux_errors true 10 0 false true no_splice pieces all_ten refl

recv_data_whole_example :
    (t : Taken) × ((recv_data linux_errors true true no_splice true 10 0
        (map gave (3 ∷ 4 ∷ 9 ∷ []) ++ [])).1
      ≡ some t)
    × (t.ret ≡ pos 10)
    × (t.num_receives ≤ 3)
recv_data_whole_example =
    recv_data_whole linux_errors true true no_splice 10 0 (3 ∷ 4 ∷ 9 ∷ []) [] (omega arith)
      (omega arith, (omega arith, (omega arith, tt))) (omega arith)

abbrev zero_copy : SendState
zero_copy = record {
  use_zerocopy = true;
  use_fastopen = false;
  use_write = false;
  have_pktinfo = false;
  zc_send_counter = 30;
}

send_data_enobufs_example :
    (send_data linux_errors 11 zero_copy false false 1024 (failed 105) 0).ret ≡ negsuc 2
send_data_enobufs_example =
    send_data_enobufs linux_errors 11 zero_copy false 1024 0 (omega arith) refl (omega arith)
      (omega arith) (omega arith) (omega arith)

abbrev fine : Call
fine = gave 0
