-- ===== src/Testclock/Tests.antt =====
-- internal/testclock at a concrete clock: two callbacks at the same instant, a timer, and a ticker.
use red_mpudp.Prelude.{
  ℕ, ◌+◌, ◌*◌, ◌<◌, ◌≤◌, ◌≡◌, refl, ◌⊎◌, Bool, true, false, List, [], ◌∷◌, ◌++◌, Option, none, some,
  arith,
}
use red_mpudp.Testclock.{
  Clock, Entry, Firing, Handle, returned, lookup, delete, update, earliest_due, all_due, insert,
  sort_due, head, expire, send, has_buffered,
}
use red_mpudp.Testclock.Loop.{fire, fire_due, notify, set_time}
use red_mpudp.Testclock.Handles.{tick_count}
use red_mpudp.Testclock.Due.{work}
use red_mpudp.Testclock.Table.{Distinct}
use red_mpudp.Testclock.Settled.{Runs, FiresWithin, set_time_lem, set_time-FiresWithin}
use red_mpudp.Testclock.Order.{NotBefore, Ascending, set_time-Ascending}
use red_mpudp.Testclock.Ticks.{tick_count-set_time}

-- A callback leaves a note of its name and of the instant it saw.
abbrev run : ℕ → Clock ℕ → Clock ℕ
run f c = record c { buffers = (f, c.now) ∷ c.buffers }

abbrev entry : ℕ → ℕ → ℕ → Bool → Option ℕ → Entry ℕ
entry id deadline period has_channel callback = record {
  id = id;
  deadline = deadline;
  period = period;
  seq = id;
  active = true;
  ticks = 0;
  has_channel = has_channel;
  callback = callback;
}

abbrev timers : List (Entry ℕ)
timers =
    entry 1 20 0 false (some 71)
    ∷ entry 2 17 0 true none
    ∷ entry 3 12 4 true none
    ∷ entry 4 20 0 false (some 72)
    ∷ []

abbrev clock : Clock ℕ
clock = record { now = 10; next_id = 4; timers = timers; buffers = []; fired = [] }

abbrev ticker : Handle
ticker = record { id = 3; has_channel = true }

abbrev after : Clock ℕ
after = record {
  now = 21;
  next_id = 4;
  timers = record (entry 3 24 4 true none) { ticks = 3 } ∷ [];
  buffers = (72, 20) ∷ (71, 20) ∷ (2, 17) ∷ (3, 12) ∷ [];
  fired =
      record { entry = 3; instant = 12 }
      ∷ record { entry = 3; instant = 16 }
      ∷ record { entry = 2; instant = 17 }
      ∷ record { entry = 1; instant = 20 }
      ∷ record { entry = 3; instant = 20 }
      ∷ record { entry = 4; instant = 20 }
      ∷ [];
}

clock_at_21 : set_time run 7 21 clock ≡ returned after
unfolding set_time fire_due fire notify earliest_due all_due sort_due insert head expire update
    delete send has_buffered
clock_at_21 = refl

clock-NotBefore : NotBefore 10 timers
clock-NotBefore =
    ((λ a. omega arith), ((λ a. omega arith), ((λ a. omega arith), ((λ a. omega arith), tt))))

work-timers : work 21 timers ≡ 19
unfolding work
work-timers = refl

timers-Distinct : Distinct timers
unfolding lookup
timers-Distinct = (refl, (refl, (refl, (refl, tt))))

ticker_found : lookup 3 timers ≡ some (entry 3 12 4 true none)
unfolding lookup
ticker_found = refl

set_time_lem_example : (d : Clock ℕ) × (set_time run 20 21 clock ≡ returned d) × Runs run 21 clock d
set_time_lem_example =
    set_time_lem run 20 21 clock (λ f c. omega arith) (λ f c v. v) timers-Distinct (omega arith)
      (omega (arith, work-timers))

-- The ticker is due at 12, before all else.
set_time-FiresWithin_example :
    (d : Clock ℕ) × (g : Clock ℕ) × (set_time run 20 21 clock ≡ returned d)
    × FiresWithin run 21 (entry 3 12 4 true none) clock g
    × (d ≡ record g { now = 21 })
set_time-FiresWithin_example =
    set_time-FiresWithin run 20 21 (entry 3 12 4 true none) clock (λ f c. omega arith) (λ f c v. v)
      (λ f c. refl) timers-Distinct ticker_found refl (omega arith) (omega (arith, work-timers))

set_time-Ascending_example :
    (d : Clock ℕ) × (set_time run 20 21 clock ≡ returned d)
    × ((new : List Firing) × (d.fired ≡ clock.fired ++ new) × Ascending 10 21 new)
set_time-Ascending_example =
    set_time-Ascending run 20 21 clock (λ f c. omega arith) (λ f c h. (h, refl)) clock-NotBefore
      (omega arith) (omega (arith, work-timers))

tick_count-set_time_example :
    (d : Clock ℕ) × (k : ℕ) × (set_time run 20 21 clock ≡ returned d)
    × (tick_count ticker d ≡ tick_count ticker clock + k)
    × ((y : Entry ℕ) × (lookup 3 d.timers ≡ some y)
        × (y.deadline ≡ 12 + k * 4)
        × (21 < y.deadline)
        × ((k ≡ 0) ⊎ (y.deadline ≤ 21 + 4)))
tick_count-set_time_example =
    tick_count-set_time run 20 21 ticker (entry 3 12 4 true none) clock (λ f c. omega arith)
      (λ f c v. v) (λ f c. refl) timers-Distinct (ticker_found, refl, omega arith) (omega arith)
      (omega (arith, work-timers))
