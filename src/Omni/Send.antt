-- ===== src/Omni/Send.antt =====
-- send_data() of src/nettest_omni.c: what it returns, and when it drains completions.
use netperf_copilot.Common.{
  ℕ, zero, suc, ◌+◌, ◌/◌, ◌^◌, ◌<◌, ◌≡◌, ◌≢◌, arith, Bool, true, false, if◌then◌else◌, Bool-cases,
  inl, inr, ==_self, pos, negsuc,
}
use netperf_copilot.Omni.{
  Errors, Call, gave, failed, socket_eintr, SendState, way_of, zc_step, drains_first, drains_after,
  send_result, send_data,
}

-- send_data() of fewer than 2^31 bytes returns a count only where the system took all of them.
pub send_data_whole :
    (sys : Errors) (drained : ℕ) (s : SendState) (has_destination is_tcp : Bool)
    (bytes_to_send errno n : ℕ) (call : Call)
    → bytes_to_send < 2 ^ 31
    → (send_data sys drained s has_destination is_tcp bytes_to_send call errno).ret ≡ pos n
    → (call ≡ gave bytes_to_send) × (n ≡ bytes_to_send)
unfolding send_data send_result socket_eintr
send_data_whole sys drained s has_destination is_tcp bytes_to_send errno n (gave k) small h =
    ground arith
send_data_whole sys drained s has_destination is_tcp bytes_to_send errno n (failed e) small h =
    ground arith

-- Where a connected send() finds no buffers, send_data() says that the error passes; with zero copy
-- it drains the completions first, which changes errno, and says that the error is a hard one.
pub send_data_enobufs :
    (sys : Errors) (drained : ℕ) (s : SendState) (is_tcp : Bool) (bytes_to_send errno : ℕ)
    → bytes_to_send < 2 ^ 31
    → s.use_write ≡ false
    → sys.enobufs ≢ sys.eintr
    → drained ≢ sys.eintr
    → drained ≢ sys.enobufs
    → drained ≢ sys.enomem
    → (send_data sys drained s false is_tcp bytes_to_send (failed sys.enobufs) errno).ret
      ≡ (if s.use_zerocopy then negsuc 2 else negsuc 1)
unfolding send_data send_result socket_eintr way_of drains_after
send_data_enobufs sys drained s is_tcp bytes_to_send errno small plain no_eintr a b c =
    rw (plain, ==_self sys.enobufs)
      (elim (Bool-cases s.use_zerocopy) [
        | inl on ↦ rw (on) (ground arith)
        | inr off ↦ rw (off, ==_self sys.enobufs) (ground arith)
      ])

-- How often completions are drained before the sends, over so many of them.
abbrev pub drains_over : ℕ → SendState → ℕ
drains_over zero s = 0
drains_over (suc n) s =
    (if drains_first s then 1 else 0) + drains_over n (record s { zc_send_counter = zc_step s })

-- With zero copy the completions are drained before every 32nd send.
pub drains_over_32 :
    (n : ℕ) (s : SendState)
    → s.use_zerocopy ≡ true
    → s.zc_send_counter + n < 2 ^ 32
    → s.zc_send_counter / 32 + drains_over n s ≡ (s.zc_send_counter + n) / 32
unfolding drains_first zc_step
drains_over_32 zero s on small = omega arith
drains_over_32 (suc n) s on small = ground (
  arith,
  drains_over_32 n (record s { zc_send_counter = s.zc_send_counter + 1 }) on (omega arith),
)
