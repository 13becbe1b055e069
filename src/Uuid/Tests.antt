-- ===== src/Uuid/Tests.antt =====
-- Concrete runs of src/net_uuid.c.
use netperf_copilot.Common.{◌≡◌, refl, true, [], ◌∷◌, some}
use netperf_copilot.Uuid.{Clock, spin, get_current_time}

abbrev before : Clock
before = record { inited = true; time_last = 5000; uuids_this_tick = 7 }

abbrev after : Clock
after = record { inited = true; time_last = 5000; uuids_this_tick = 8 }

still : get_current_time (5000 ∷ []) before ≡ some (5008, after, [])
unfolding get_current_time spin
still = refl

-- The clock moves on by less than the number of timestamps given, and one is given twice.
twice :
    get_current_time (5008 ∷ []) after
    ≡ some (5008, record { inited = true; time_last = 5008; uuids_this_tick = 0 }, [])
unfolding get_current_time spin
twice = refl
