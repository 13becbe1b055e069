-- ===== src/Server/Tests.antt =====
-- Concrete runs of the listening side of src/netserver.c.
use netperf_copilot.Common.{◌≡◌, refl, [], ◌∷◌, some, arith, pos}
use netperf_copilot.Platform.{is_in}
use netperf_copilot.Server.{FdSet, set_fdset, fdset_loop, accept_loop}
use netperf_copilot.Server.Accept.{accept_loop-ready_from}

abbrev ready : FdSet
ready fd = is_in fd (5 ∷ 3 ∷ [])

accept_loop-ready_from_example : accept_loop 12 0 5 2 ready ≡ some (3 ∷ 5 ∷ [])
accept_loop-ready_from_example = accept_loop-ready_from 12 5 ready (omega arith)

highest : (set_fdset (4 ∷ 9 ∷ 6 ∷ [])).0 ≡ pos 9
unfolding set_fdset fdset_loop
highest = refl
