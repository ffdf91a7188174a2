-- ===== src/Phase0/Tests.antt =====
-- internal/congestion/phase0sim at a concrete controller.
use red_mpudp.Prelude.{◌≡◌, refl, true, List, [], ◌∷◌, arith}
use red_mpudp.Phase0.{Controller, tick, evaluate, adjust, clamp}
use red_mpudp.Phase0.Rate.{Event, lost, report, ticked, run}
use red_mpudp.Phase0.Halving.{tick_once}

abbrev controller : Controller
controller = record {
  mtu_bytes = 1268;
  rate_bps = 1000000;
  min_bps = 16000;
  max_bps = 12500000;
  queue_target_ns = 15000000;
  feedback_stale_ns = 500000000;
  srtt_ns = 40000000;
  next_eval = 40000000;
  loss_since = true;
  high_delay_runs = 0;
  last_feedback = 0;
}

abbrev events : List Event
events = lost ∷ report 50000000 48000000 ∷ ticked 60000000 0 ∷ []

-- A loss halves the rate.
halved : (tick controller 40000000 0).rate_bps ≡ 500000
unfolding tick evaluate adjust clamp
halved = refl

-- A second loss and a tick 20 ms later leave the rate where the first left it.
tick_once_example :
    (run (tick controller 40000000 0) events).rate_bps ≡ (tick controller 40000000 0).rate_bps
tick_once_example = tick_once controller 40000000 0 events (omega arith) refl
