-- ===== src/Requests.antt =====
-- The loop of process_requests in src/netserver.c: what netserver does for each request of a control
-- connection. The functions that run a test are a parameter.
pub mod Sticky
mod Tests
use netperf_copilot.Common.{
  ℕ, zero, suc, ◌+◌, ◌-◌, Bool, true, false, ◌||◌, List, [], ◌∷◌, ◌++◌, Option, none, some, ◌==◌,
  if◌then◌else◌,
}
use netperf_copilot.Platform.{is_in}

-- Request and response types, src/netlib.h
abbrev pub debug_on : ℕ
debug_on = 1

abbrev pub debug_off : ℕ
debug_off = 2

abbrev pub debug_ok : ℕ
debug_ok = 3

abbrev pub cpu_calibrate : ℕ
cpu_calibrate = 5

abbrev pub passphrase : ℕ
passphrase = 6

abbrev pub do_sysinfo : ℕ
do_sysinfo = 600

abbrev pub sysinfo_response : ℕ
sysinfo_response = 601

-- The requests for a test that the default build knows: the TCP and UDP tests and the omni test.
abbrev pub test_requests : List ℕ
test_requests = 10 ∷ 94 ∷ 13 ∷ 34 ∷ 300 ∷ 16 ∷ 19 ∷ 97 ∷ []

-- `debug`, and the head of `netperf_response`
pub record Netserver : Type 0 where
  pub debug : ℕ
  pub response_type : ℕ
  pub serv_errno : ℕ

-- What the client gets to see: a response, or a test with its request type.
pub data Event : Type 0 where
  responded : ℕ → ℕ → Event
  tested : ℕ → Event

-- `send_response()` of the response as it stands
abbrev pub respond : Netserver → Netserver × List Event
respond s = (s, responded s.response_type s.serv_errno ∷ [])

module _ (run_test : ℕ → Netserver → Netserver) (suppress_debug : Bool) where
  -- One turn of the switch on the request type.
  pub serve : ℕ → Netserver → Netserver × List Event
  serve request_type s =
      if request_type == debug_on
      then respond (record {
        debug = if suppress_debug then s.debug else s.debug + 1;
        response_type = debug_ok;
        serv_errno = s.serv_errno;
      })
      else if request_type == debug_off
      then respond
          (record { debug = s.debug - 1; response_type = debug_ok; serv_errno = s.serv_errno })
      else if request_type == do_sysinfo
      then respond (record s { response_type = sysinfo_response })
      else if request_type == cpu_calibrate
      then respond (record s { response_type = cpu_calibrate })
      else if is_in request_type test_requests
      then (run_test request_type s, tested request_type ∷ [])
      else if request_type == passphrase
      then (s, [])
      else respond (record s { serv_errno = 998 })

  -- process_requests on the types of the requests that arrive, until recv_request() gives none: the
  -- state at the end, and the events.
  pub process_requests : List ℕ → Netserver → Netserver × List Event
  process_requests [] s = (s, [])
  process_requests (request_type ∷ requests) s =
      let (s', events) = serve request_type s in
      let (last, more) = process_requests requests s' in (last, events ++ more)
