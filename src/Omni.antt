-- ===== src/Omni.antt =====
-- The routines of src/nettest_omni.c that move data: connect_data_socket, send_data, recv_data,
-- recv_data_no_copy, close_data_socket and disconnect_data_socket, as functions of what the system
-- calls give. -1 means that the time is up, -2 a passing error, -3 a hard one.
pub mod Recv
pub mod Whole
pub mod Send
pub mod Close
mod Tests
use netperf_copilot.Common.{
  ℕ, zero, suc, ◌+◌, ◌-◌, ◌*◌, ◌%◌, ◌^◌, Bool, true, false, not, ◌&&◌, ◌||◌, List, [], ◌∷◌, ◌++◌,
  Option, none, some, ltb, leb, ◌==◌, if◌then◌else◌, min, ℤ, pos, negsuc,
}

-- The numbers of <errno.h> that the code names.
pub record Errors : Type 0 where
  pub eintr : ℕ
  pub eaddrinuse : ℕ
  pub eaddrnotavail : ℕ
  pub eagain : ℕ
  pub ewouldblock : ℕ
  pub enobufs : ℕ
  pub enomem : ℕ

-- What a system call gives: a count, which leaves errno, or -1 with a new errno.
pub data Call : Type 0 where
  gave : ℕ → Call
  failed : ℕ → Call

abbrev pub value : Call → ℤ
value (gave n) = pos n
value (failed e) = negsuc 0

abbrev pub errno_after : Call → ℕ → ℕ
errno_after (gave n) errno = errno
errno_after (failed e) errno = e

abbrev pub is_failure : Call → Bool
is_failure (gave n) = false
is_failure (failed e) = true

-- SOCKET_EINTR and its kin: on Unix they test errno and ignore the value of the call.
unfoldable pub socket_eintr : Errors → ℕ → Bool
socket_eintr sys errno = errno == sys.eintr

-- connect_data_socket: what it returns.
pub connect_data_socket : Errors → Bool → Call → ℤ
unfolding socket_eintr
connect_data_socket sys dont_give_up (gave n) = pos 0
connect_data_socket sys dont_give_up (failed e) =
    if socket_eintr sys e
    then negsuc 0
    else if e == sys.eaddrinuse || e == sys.eaddrnotavail || dont_give_up
    then negsuc 1
    else negsuc 2

-- The call that send_data makes.
pub data Way : Type 0 where
  sendmsg : Way
  sendto : (fastopen : Bool) → Way
  send : Way
  write : Way

-- The options that send_data reads, and the counter that it keeps.
pub record SendState : Type 0 where
  pub use_zerocopy : Bool
  pub use_fastopen : Bool
  pub use_write : Bool
  pub have_pktinfo : Bool
  pub zc_send_counter : ℕ

pub way_of : SendState → Bool → Bool → Way
way_of s has_destination is_tcp =
    if has_destination
    then if s.have_pktinfo then sendmsg else sendto (s.use_fastopen && is_tcp)
    else if s.use_write
    then write
    else send

abbrev pub is_send : Way → Bool
is_send send = true
is_send _ = false

-- An int where C turns it into a uint32_t.
abbrev pub as_unsigned : ℤ → ℕ
as_unsigned (pos n) = n % 2 ^ 32
as_unsigned (negsuc k) = 2 ^ 32 - 1 - k

-- The counter of zero-copy sends, and whether the completions are drained before this one.
pub zc_step : SendState → ℕ
zc_step s = if s.use_zerocopy then (s.zc_send_counter + 1) % 2 ^ 32 else s.zc_send_counter

pub drains_first : SendState → Bool
drains_first s = s.use_zerocopy && zc_step s % 32 == 0

-- Whether a failed send() drains the completions.
pub drains_after : Errors → SendState → Way → Call → Bool
drains_after sys s way (gave n) = false
drains_after sys s way (failed e) =
    is_send way && s.use_zerocopy && (e == sys.enobufs || e == sys.enomem)

-- What send_data returns for the value of the call and the errno that it then finds.
pub send_result : Errors → ℕ → ℤ → ℕ → ℤ
unfolding socket_eintr
send_result sys bytes_to_send (pos len) errno = if len == bytes_to_send then pos len else negsuc 0
send_result sys bytes_to_send (negsuc k) errno =
    if as_unsigned (negsuc k) == bytes_to_send
    then negsuc k
    else if socket_eintr sys errno
    then negsuc 0
    else if errno == sys.enobufs || errno == sys.enomem
    then negsuc 1
    else negsuc 2

-- What a send_data leaves.
pub record Sent : Type 0 where
  pub ret : ℤ
  pub state : SendState
  pub way : Way
  pub drains : ℕ
  pub errno : ℕ

-- send_data, for fewer than 2^31 bytes. `drained` is the errno of the failing recvmsg() that ends
-- drain_zerocopy_completions.
pub send_data : Errors → ℕ → SendState → Bool → Bool → ℕ → Call → ℕ → Sent
send_data sys drained s has_destination is_tcp bytes_to_send call errno =
    let first = drains_first s in
    let way = way_of s has_destination is_tcp in
    let after = drains_after sys s way call in
    let found = if after then drained else errno_after call (if first then drained else errno) in
    record {
      ret = send_result sys bytes_to_send (value call) found;
      state = record s { zc_send_counter = zc_step s };
      way = way;
      drains = (if first then 1 else 0) + (if after then 1 else 0);
      errno = found;
    }

-- How a receive loop ends: the value of its last call, what is left to receive, the receives that
-- gave bytes, errno, and the offset and length that each call was given, the first one first.
pub record Ended : Type 0 where
  pub bytes_recvd : ℤ
  pub bytes_left : ℕ
  pub recvs : ℕ
  pub errno : ℕ
  pub asked : List (ℕ × ℕ)

abbrev pub after_call : ℕ × ℕ → Ended → Ended
after_call call e = record e { asked = call ∷ e.asked }

-- The loop of recv_data and that of recv_data_no_copy, over what recv(), recvfrom(), recvmsg() or
-- splice() give, no more than they are asked for. `none`: the next call has not returned yet.
pub receive_loop : Bool → ℕ → ℕ → ℕ → ℕ → List Call → Option Ended
receive_loop wait_all offset left recvs errno [] = none
receive_loop wait_all offset left recvs errno (failed e ∷ calls) = some (record {
  bytes_recvd = negsuc 0;
  bytes_left = left;
  recvs = recvs;
  errno = e;
  asked = (offset, left) ∷ [];
})
receive_loop wait_all offset left recvs errno (gave n ∷ calls) =
    let part = min n left in
    let rest = receive_loop wait_all (offset + part) (left - part) (recvs + 1) errno calls in
    if part == 0
    then some (record {
      bytes_recvd = pos 0;
      bytes_left = left;
      recvs = recvs;
      errno = errno;
      asked = (offset, left) ∷ [];
    })
    else if ltb 0 (left - part) && wait_all
    then elim rest [ none ↦ none | some e ↦ some (after_call (offset, left) e) ]
    else some (record {
      bytes_recvd = pos part;
      bytes_left = left - part;
      recvs = recvs + 1;
      errno = errno;
      asked = (offset, left) ∷ [];
    })

-- What a receive returns, its num_receives, errno, the calls' offsets and lengths.
pub record Taken : Type 0 where
  pub ret : ℤ
  pub num_receives : ℕ
  pub errno : ℕ
  pub asked : List (ℕ × ℕ)

-- The end of recv_data, for `bytes_to_recv` below 2^31: what it returns for the value of the last
-- call, what is left to receive and errno.
pub recv_result : Errors → ℕ → ℤ → ℕ → ℕ → ℤ
unfolding socket_eintr
recv_result sys bytes_to_recv (negsuc k) left errno =
    if socket_eintr sys errno
    then negsuc 0
    else if errno == sys.eagain || errno == sys.ewouldblock
    then negsuc 1
    else negsuc 2
recv_result sys bytes_to_recv (pos n) left errno = if left == 0 then pos bytes_to_recv else pos n

abbrev pub taken : (ℤ → ℕ → ℕ → ℤ) → Option Ended → Option Taken
taken result none = none
taken result (some e) = some (record {
  ret = result e.bytes_recvd e.bytes_left e.errno;
  num_receives = e.recvs;
  errno = e.errno;
  asked = e.asked;
})

-- recv_data without the avoidance of copies. `calls` are those of recv(), or of recvfrom() and
-- recv_pktinfo() where a source is wanted.
pub recv_copy : Errors → Bool → ℕ → ℕ → List Call → Option Taken
recv_copy sys wait_all bytes_to_recv errno calls =
    taken (recv_result sys bytes_to_recv) (receive_loop wait_all 0 bytes_to_recv 0 errno calls)

-- The end of recv_data_no_copy: every error but an interrupt is a hard one.
pub splice_result : Errors → ℕ → ℤ → ℕ → ℕ → ℤ
unfolding socket_eintr
splice_result sys bytes_to_recv (negsuc k) left errno =
    if socket_eintr sys errno then negsuc 0 else negsuc 2
splice_result sys bytes_to_recv (pos n) left errno = if left == 0 then pos bytes_to_recv else pos n

-- The static descriptors of recv_data_no_copy, and the global that recv_data clears.
pub record SpliceState : Type 0 where
  pub loc_rcvavoid : Bool
  pub has_pipe : Bool
  pub has_null : Bool

-- How its first part ends: with the descriptors, and whether it goes on. `pipe_ok` and `open_ok` say
-- whether pipe() and open() succeed; the pipe is made once, and /dev/null is opened right after it.
pub open_pipe : Bool → Bool → SpliceState → SpliceState × Bool
open_pipe pipe_ok open_ok s =
    if s.has_pipe
    then (s, true)
    else if not pipe_ok
    then (s, false)
    else (record s { has_pipe = true; has_null = open_ok }, open_ok)

-- recv_data: the receive through splice() if it is asked for and its descriptors can be had, else
-- the one that copies, which then serves the rest of the test.
pub recv_data :
    Errors → Bool → Bool → SpliceState → Bool → ℕ → ℕ → List Call → SpliceState × Option Taken
recv_data sys pipe_ok open_ok s wait_all bytes_to_recv errno calls =
    let (s', ready) = open_pipe pipe_ok open_ok s in
    if s.loc_rcvavoid
    then if ready
      then (
        s',
        taken (splice_result sys bytes_to_recv)
            (receive_loop wait_all 0 bytes_to_recv 0 errno calls),
      )
      else (record s' { loc_rcvavoid = false }, recv_copy sys wait_all bytes_to_recv errno calls)
    else (s, recv_copy sys wait_all bytes_to_recv errno calls)
