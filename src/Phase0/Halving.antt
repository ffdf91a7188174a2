-- ===== src/Phase0/Halving.antt =====
-- internal/congestion/phase0sim/sim.go: the rate between two evaluations.
use red_mpudp.Prelude.{
  ℕ, ◌+◌, ◌≤◌, ◌<◌, ◌≡◌, ◌∙◌, ap, refl, inl, inr, Bool, true, false, List, [], ◌∷◌, arith, tests,
  ltb, ◌&&◌, Bool-cases,
}
use red_mpudp.Phase0.{
  Controller, observe_loss, feedback, clamp, adjust, evaluate, tick, eval_period,
}
use red_mpudp.Phase0.Rate.{Event, lost, report, ticked, handle, run}

-- Every tick of the sequence comes before `time`.
abbrev pub ticks_before : ℕ → List Event → Bool
ticks_before time [] = true
ticks_before time (lost ∷ es) = ticks_before time es
ticks_before time (report now rtt ∷ es) = ticks_before time es
ticks_before time (ticked now q ∷ es) = ltb now time && ticks_before time es

feedback_lem :
    (c : Controller) (now rtt : ℕ)
    → ((feedback c now rtt).rate_bps ≡ c.rate_bps) × ((feedback c now rtt).next_eval ≡ c.next_eval)
unfolding feedback
feedback_lem c now rtt = ground arith

early_tick : (c : Controller) (now q : ℕ) → now < c.next_eval → tick c now q ≡ c
unfolding tick
early_tick c now q h = ground arith

run_between :
    (c : Controller) (es : List Event)
    → ticks_before c.next_eval es ≡ true
    → (run c es).rate_bps ≡ c.rate_bps
unfolding run handle observe_loss
run_between c [] h = refl
run_between c (lost ∷ es) h = run_between (observe_loss c) es h
run_between c (report now rtt ∷ es) h =
    let (r, n) = feedback_lem c now rtt in run_between (feedback c now rtt) es (rw n h) ∙ r
run_between c (ticked now q ∷ es) h = elim (Bool-cases (ltb now c.next_eval)) [
  | inl e ↦
      ap (λ x. (run x es).rate_bps) (early_tick c now q (omega tests))
      ∙ run_between c es (rw e at h)
  | inr e ↦ absurd (let no : false ≡ true = rw e at h in cc)
]

tick-next_eval :
    (c : Controller) (now q : ℕ)
    → c.next_eval ≤ now
    → (tick c now q).next_eval ≡ now + eval_period c
unfolding tick evaluate clamp adjust
tick-next_eval c now q h = ground arith

-- After a tick that is due the rate stays as that tick left it, whatever is lost and reported and however
-- often it ticks, until a tick one round trip later: so it halves at most once per round trip.
pub tick_once :
    (c : Controller) (now q : ℕ) (es : List Event)
    → c.next_eval ≤ now
    → ticks_before (now + eval_period c) es ≡ true
    → (run (tick c now q) es).rate_bps ≡ (tick c now q).rate_bps
tick_once c now q es due before =
    run_between (tick c now q) es (let e = tick-next_eval c now q due in rw e before)
