-- ===== src/Omni/Close.antt =====
-- close_data_socket() and disconnect_data_socket() of src/nettest_omni.c: the definitions, and how
-- often they close the socket and what they return.
use netperf_copilot.Common.{
  ℕ, zero, suc, ◌+◌, ◌≤◌, ◌≡◌, arith, Bool, true, false, not, ◌&&◌, ◌||◌, List, [], ◌∷◌, ◌==◌,
  if◌then◌else◌, ℤ, pos, negsuc,
}
use netperf_copilot.Omni.{Errors, Call, gave, failed, errno_after, is_failure, socket_eintr}

-- What closing does: its value, errno, the empty datagrams it tried to send, and how often it
-- called close().
pub record Closed : Type 0 where
  pub ret : ℤ
  pub errno : ℕ
  pub datagrams : ℕ
  pub closes : ℕ

-- The loop of empty datagrams: errno, how many were tried, and whether errno was EINTR after one.
unfoldable pub datagram_loop : Errors → ℕ → ℕ → List Call → ℕ × ℕ × Bool
datagram_loop sys tried errno [] = (errno, tried, false)
datagram_loop sys tried errno (c ∷ calls) =
    let errno' = errno_after c errno in
    let rest = datagram_loop sys (tried + 1) errno' calls in
    if socket_eintr sys errno' then (errno', tried + 1, true) else rest

abbrev pub three : Call → Call → Call → List Call
three a b c = a ∷ b ∷ c ∷ []

-- The last part of close_data_socket.
unfoldable pub close_result : Errors → Call → ℕ → ℤ
close_result sys close errno =
    if socket_eintr sys (errno_after close errno)
    then negsuc 0
    else if is_failure close
    then negsuc 2
    else pos 0

-- close_data_socket, with what the three sends and close() give.
unfoldable pub close_data_socket : Errors → Bool → Call → Call → Call → Call → ℕ → Closed
close_data_socket sys is_udp a b c close errno =
    let (sent, tried, up) = datagram_loop sys 0 errno (if is_udp then three a b c else []) in
    if up
    then record { ret = negsuc 0; errno = errno_after close sent; datagrams = tried; closes = 1 }
    else record {
      ret = close_result sys close sent;
      errno = errno_after close sent;
      datagrams = tried;
      closes = 1;
    }

-- The end of disconnect_data_socket on a connection, after the value and errno of its recv().
unfoldable pub after_shutdown : Errors → Bool → Call → ℕ → Closed
after_shutdown sys do_close (gave zero) errno = record {
  ret = pos 0;
  errno = errno;
  datagrams = 0;
  closes = if do_close then 1 else 0;
}
after_shutdown sys do_close (gave (suc n)) errno = record {
  ret = if socket_eintr sys errno then negsuc 0 else negsuc 2;
  errno = errno;
  datagrams = 0;
  closes = 0;
}
after_shutdown sys do_close (failed e) errno = record {
  ret = if socket_eintr sys e then negsuc 0 else negsuc 2;
  errno = e;
  datagrams = 0;
  closes = 0;
}

-- disconnect_data_socket: `peeked` is what its recv() gives, `errno` the one after shutdown(). The
-- close() is taken to succeed.
unfoldable pub disconnect_data_socket :
    Errors → Bool → Bool → Call → Call → Call → Call → ℕ → Closed
disconnect_data_socket sys is_udp do_close peeked a b c errno =
    let (sent, tried, up) = datagram_loop sys 0 errno (three a b c) in
    if not is_udp then after_shutdown sys do_close peeked errno else record {
      ret = if up then negsuc 0 else pos 0;
      errno = sent;
      datagrams = tried;
      closes = if do_close then 1 else 0;
    }

abbrev pub is_zero : ℤ → Bool
is_zero (pos zero) = true
is_zero _ = false

-- close_data_socket() calls close() exactly once on every path, tries at most three empty datagrams,
-- and only for UDP, and returns 0 only where close() succeeded.
pub close_data_socket_once :
    (sys : Errors) (is_udp : Bool) (a b c close : Call) (errno : ℕ)
    → ((close_data_socket sys is_udp a b c close errno).closes ≡ 1)
      × ((close_data_socket sys is_udp a b c close errno).datagrams ≤ (if is_udp then 3 else 0))
      × ((close_data_socket sys is_udp a b c close errno).ret ≡ pos 0 → is_failure close ≡ false)
unfolding close_data_socket datagram_loop close_result socket_eintr
close_data_socket_once sys is_udp a b c close errno = (ground arith, ground arith, ground arith)

-- disconnect_data_socket() closes the socket at most once, and only if it is asked to; on a
-- connection it does so exactly where it returns 0, so an error of its recv() leaves the socket open.
pub disconnect_data_socket_closes :
    (sys : Errors) (is_udp do_close : Bool) (peeked a b c : Call) (errno : ℕ)
    → (disconnect_data_socket sys is_udp do_close peeked a b c errno).closes ≡ (
        if do_close
          && (is_udp || is_zero (disconnect_data_socket sys is_udp do_close peeked a b c errno).ret)
        then 1
        else 0)
unfolding disconnect_data_socket after_shutdown socket_eintr
disconnect_data_socket_closes sys true do_close peeked a b c errno = ground arith
disconnect_data_socket_closes sys false do_close (gave zero) a b c errno = ground arith
disconnect_data_socket_closes sys false do_close (gave (suc n)) a b c errno = ground arith
disconnect_data_socket_closes sys false do_close (failed e) a b c errno = ground arith

-- Where every call succeeds, what disconnect_data_socket() does on a UDP socket hangs on the errno of
-- an earlier call: after an interrupt it sends one empty datagram, not three, and returns -1.
pub disconnect_data_socket_stale :
    (sys : Errors) (do_close : Bool) (peeked : Call) (a b c errno : ℕ)
    → ((disconnect_data_socket sys true do_close peeked (gave a) (gave b) (gave c) errno).datagrams
        ≡ (if errno == sys.eintr then 1 else 3))
      × ((disconnect_data_socket sys true do_close peeked (gave a) (gave b) (gave c) errno).ret
          ≡ (if errno == sys.eintr then negsuc 0 else pos 0))
unfolding disconnect_data_socket datagram_loop socket_eintr
disconnect_data_socket_stale sys do_close peeked a b c errno = (ground arith, ground arith)
