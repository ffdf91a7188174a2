-- ===== src/Phase0.antt =====
-- internal/congestion/phase0sim/sim.go: the integer AIMD `Controller` of the simulator. Its `int64` times
-- and rates are natural numbers here; the floating-point rates of the link and the TCP flow are left out.
pub mod Rate
pub mod Halving
pub mod Tests
use red_mpudp.Prelude.{
  ℕ, ◌+◌, ◌*◌, ◌/◌, Bool, true, false, List, [], ◌∷◌, ltb, leb, ◌==◌, if◌then◌else◌,
}
use red_mpudp.Prelude.Int.{ℤ}

-- The controller: its settings, and its state.
pub record Controller : Type 0 where
  pub mtu_bytes : ℕ
  pub rate_bps : ℕ
  pub min_bps : ℕ
  pub max_bps : ℕ
  pub queue_target_ns : ℕ
  pub feedback_stale_ns : ℕ
  pub srtt_ns : ℕ
  pub next_eval : ℕ
  pub loss_since : Bool
  pub high_delay_runs : ℕ
  pub last_feedback : ℕ

abbrev pub second : ℕ
second = 1000000000

unfoldable pub observe_loss : Controller → Controller
observe_loss c = record c { loss_since = true }

-- A fresh report with a round trip of `rtt`.
unfoldable pub feedback : Controller → ℕ → ℕ → Controller
feedback c now rtt =
    if c.srtt_ns == 0
    then record c { last_feedback = now; srtt_ns = rtt }
    else record c { last_feedback = now; srtt_ns = (7 * c.srtt_ns + rtt) / 8 }

unfoldable pub clamp : Controller → Controller
clamp c =
    let low = if ltb c.rate_bps c.min_bps then c.min_bps else c.rate_bps in
    record c { rate_bps = if ltb c.max_bps low then c.max_bps else low }

abbrev pub eval_period : Controller → ℕ
eval_period c = if ltb 0 c.srtt_ns then c.srtt_ns else c.feedback_stale_ns

-- The `switch` of `tick`: after loss, at high delay, or otherwise.
unfoldable pub adjust : Controller → ℕ → Controller
adjust c queue_delay =
    if c.loss_since
    then record c { rate_bps = c.rate_bps / 2; high_delay_runs = 0 }
    else if ltb c.queue_target_ns queue_delay
    then (if leb 2 (c.high_delay_runs + 1)
        then record c { rate_bps = c.rate_bps / 2; high_delay_runs = 0 }
        else record c { high_delay_runs = c.high_delay_runs + 1 })
    else if ltb 0 c.srtt_ns
    then record c { high_delay_runs = 0; rate_bps = c.rate_bps + c.mtu_bytes * second / c.srtt_ns }
    else record c { high_delay_runs = 0 }

-- `now - lastFeedback > FeedbackStaleNs`.
abbrev pub is_stale : Controller → ℕ → Bool
is_stale c now = ltb (c.last_feedback + c.feedback_stale_ns) now

-- One evaluation, without the time of the next.
unfoldable pub evaluate : Controller → ℕ → ℕ → Controller
evaluate c now queue_delay =
    if is_stale c now
    then record c { rate_bps = c.min_bps; high_delay_runs = 0; loss_since = false }
    else clamp (record (adjust c queue_delay) { loss_since = false })

-- The deferred statement sets the time of the next evaluation last.
abbrev pub schedule : Controller → ℕ → Controller
schedule c now = record c { next_eval = now + eval_period c }

unfoldable pub tick : Controller → ℕ → ℕ → Controller
unfolding evaluate
tick c now queue_delay =
    if ltb now c.next_eval then c else schedule (evaluate c now queue_delay) now
