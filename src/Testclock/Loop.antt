-- ===== src/Testclock/Loop.antt =====
-- internal/testclock/clock.go: the loop of `Set`, and `Advance`. What a callback does to the clock is a
-- parameter; it runs with the lock released, on the clock as the loop has left it.
use red_mpudp.Prelude.{ℕ, zero, suc, Option, none, some, ltb, if◌then◌else◌}
use red_mpudp.Prelude.Int.{ℤ, pos, ltb_ℤ}
use red_mpudp.Testclock.{
  Clock, Entry, Outcome, returned, panicked, out_of_fuel, add_duration, earliest_due, taken, send,
}

module _ {F : Type 0} (run : F → Clock F → Clock F) where
  -- The callback, or else the channel.
  unfoldable pub notify : Option F → Entry F → Clock F → Clock F
  notify (some f) e c = run f c
  notify none e c =
      if e.has_channel then record c { buffers = send e.id e.deadline c.buffers } else c

  unfoldable pub fire : Entry F → Clock F → Clock F
  fire e c = notify e.callback e (taken e c)

  -- One round: the loop ends when nothing is due.
  abbrev pub round :
      Option (Entry F) → ℕ → Clock F → (Clock F → Outcome (Clock F)) → Outcome (Clock F)
  round none t c again = returned (record c { now = t })
  round (some e) t c again = again (fire e c)

  unfoldable pub fire_due : ℕ → ℕ → Clock F → Outcome (Clock F)
  fire_due zero t c = out_of_fuel
  fire_due (suc fuel) t c = round (earliest_due t c.timers) t c (λ d. fire_due fuel t d)

  unfoldable pub set_time : ℕ → ℕ → Clock F → Outcome (Clock F)
  set_time fuel t c = if ltb t c.now then panicked else fire_due fuel t c

  unfoldable pub advance : ℕ → ℤ → Clock F → Outcome (Clock F)
  advance fuel d c = if ltb_ℤ d (pos 0) then panicked else set_time fuel (add_duration c.now d) c
