-- ===== src/Requests/Tests.antt =====
-- Concrete runs of the request loop of src/netserver.c.
use netperf_copilot.Common.{ℕ, ◌≡◌, refl, false, [], ◌∷◌}
use netperf_copilot.Requests.{Netserver, responded, tested, serve, process_requests}

abbrev start : Netserver
start = record { debug = 0; response_type = 0; serv_errno = 0 }

-- A test that leaves the response alone.
abbrev no_change : ℕ → Netserver → Netserver
no_change t s = s

stays :
    (process_requests no_change false (4 ∷ 1 ∷ 13 ∷ []) start).1
    ≡ responded 0 998 ∷ responded 3 998 ∷ tested 13 ∷ []
unfolding process_requests serve
stays = refl
