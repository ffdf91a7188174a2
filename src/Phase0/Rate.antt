-- ===== src/Phase0/Rate.antt =====
-- internal/congestion/phase0sim/sim.go: the rate over sequences of events, its bounds, and its minimum.
use red_mpudp.Prelude.{
  ℕ, ◌+◌, ◌*◌, ◌/◌, ◌≤◌, ◌<◌, ◌≡◌, refl, inl, inr, Bool, true, false, List, [], ◌∷◌, arith, leb,
  ◌&&◌, tests, Bool-cases,
}
use red_mpudp.Phase0.{Controller, observe_loss, feedback, clamp, adjust, evaluate, tick, second}

-- What the simulator does to the controller.
pub data Event : Type 0 where
  lost : Event
  report : ℕ → ℕ → Event
  ticked : ℕ → ℕ → Event

unfoldable pub handle : Controller → Event → Controller
handle c lost = observe_loss c
handle c (report now rtt) = feedback c now rtt
handle c (ticked now queue_delay) = tick c now queue_delay

unfoldable pub run : Controller → List Event → Controller
run c [] = c
run c (e ∷ es) = run (handle c e) es

-- The bounds on the rate, in order, and the rate between them.
abbrev pub IsBounded : Controller → Type 0
IsBounded c = (c.min_bps ≤ c.rate_bps) × (c.rate_bps ≤ c.max_bps)

-- The settings that no event changes.
abbrev Same : Controller → Controller → Type 0
Same c c' = (c'.min_bps ≡ c.min_bps) × (c'.max_bps ≡ c.max_bps)

adjust-Same : (c : Controller) (q : ℕ) → Same c (adjust c q)
unfolding adjust
adjust-Same c q = ground arith

evaluate-IsBounded :
    (c : Controller) (now q : ℕ)
    → c.min_bps ≤ c.max_bps
    → IsBounded (evaluate c now q) × Same c (evaluate c now q)
unfolding evaluate clamp
evaluate-IsBounded c now q h = let s = adjust-Same c q in ground arith

handle-IsBounded :
    (c : Controller) (e : Event) → IsBounded c → IsBounded (handle c e) × Same c (handle c e)
unfolding handle observe_loss feedback tick
handle-IsBounded c lost h = (h, (refl, refl))
handle-IsBounded c (report now rtt) h = ground arith
handle-IsBounded c (ticked now q) h =
    let k = evaluate-IsBounded c now q (omega arith) in ground arith

-- From a rate within the bounds every sequence of losses, reports and ticks leaves a rate within the
-- same bounds.
pub run-IsBounded :
    (c : Controller) (es : List Event)
    → IsBounded c
    → (c.min_bps ≤ (run c es).rate_bps) × ((run c es).rate_bps ≤ c.max_bps)
unfolding run
run-IsBounded c [] h = h
run-IsBounded c (e ∷ es) h =
    let (b, s) = handle-IsBounded c e h in
    let rest = run-IsBounded (handle c e) es b in
    let (low, high) = rest in let (s0, s1) = s in (omega arith, omega arith)

-- A tick raises the rate by no more than one MTU per smoothed round trip.
pub tick_increase :
    (c : Controller) (now q : ℕ)
    → IsBounded c
    → (tick c now q).rate_bps ≤ c.rate_bps + c.mtu_bytes * second / c.srtt_ns
unfolding tick evaluate clamp adjust
tick_increase c now q h = ground arith

-- No report among the events, and no tick before `from`.
abbrev pub quiet_from : ℕ → List Event → Bool
quiet_from from [] = true
quiet_from from (lost ∷ es) = quiet_from from es
quiet_from from (report now rtt ∷ es) = false
quiet_from from (ticked now q ∷ es) = leb from now && quiet_from from es

-- At the minimum and without fresh feedback.
abbrev IsLow : Controller → ℕ → ℕ → Type 0
IsLow c low expiry =
    (c.rate_bps ≡ low) × (c.min_bps ≡ low) × (c.last_feedback + c.feedback_stale_ns ≡ expiry)

tick-IsLow :
    (c : Controller) (now q low expiry : ℕ)
    → c.min_bps ≡ low
    → c.last_feedback + c.feedback_stale_ns ≡ expiry
    → c.next_eval ≤ now
    → expiry < now
    → IsLow (tick c now q) low expiry
unfolding tick evaluate
tick-IsLow c now q low expiry e f due stale = ground arith

tick_keeps_IsLow :
    (c : Controller) (now q low expiry : ℕ)
    → IsLow c low expiry
    → expiry < now
    → IsLow (tick c now q) low expiry
unfolding tick evaluate
tick_keeps_IsLow c now q low expiry h stale = ground arith

run-IsLow :
    (c : Controller) (es : List Event) (low expiry : ℕ)
    → IsLow c low expiry
    → quiet_from (expiry + 1) es ≡ true
    → (run c es).rate_bps ≡ low
unfolding run handle observe_loss
run-IsLow c [] low expiry h quiet = h.0
run-IsLow c (lost ∷ es) low expiry h quiet = run-IsLow (observe_loss c) es low expiry h quiet
run-IsLow c (report now rtt ∷ es) low expiry h quiet = cc
run-IsLow c (ticked now q ∷ es) low expiry h quiet = elim (Bool-cases (leb (expiry + 1) now)) [
  | inl e ↦
      run-IsLow (tick c now q) es low expiry (tick_keeps_IsLow c now q low expiry h (omega tests))
        (rw e at quiet)
  | inr e ↦ absurd (let no : false ≡ true = rw e at quiet in cc)
]

-- The first tick that is due after the feedback has gone stale sets the rate to the minimum, and it stays
-- there through losses and later ticks until a report arrives.
pub tick_stale :
    (c : Controller) (now q : ℕ) (es : List Event)
    → c.next_eval ≤ now
    → c.last_feedback + c.feedback_stale_ns < now
    → quiet_from (c.last_feedback + c.feedback_stale_ns + 1) es ≡ true
    → (run (tick c now q) es).rate_bps ≡ c.min_bps
tick_stale c now q es due stale quiet =
    let low =
      tick-IsLow c now q c.min_bps (c.last_feedback + c.feedback_stale_ns) refl refl due stale in
    run-IsLow (tick c now q) es c.min_bps (c.last_feedback + c.feedback_stale_ns) low quiet
