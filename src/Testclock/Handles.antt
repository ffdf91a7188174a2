-- ===== src/Testclock/Handles.antt =====
-- internal/testclock/clock.go: `Stop` and `Reset` of a timer and of a ticker, and `TickCount` of a ticker of
-- this clock.
use red_mpudp.Prelude.{ℕ, ◌+◌, Bool, true, false, Option, none, some, if◌then◌else◌}
use red_mpudp.Prelude.Int.{ℤ, pos, pos_part, leb_ℤ}
use red_mpudp.Testclock.{
  Clock, Entry, Handle, Outcome, returned, panicked, add_duration, lookup, delete, update, assign,
}

module _ {F : Type 0} where
  abbrev pub after_find : Option (Entry F) → Handle → Clock F → Clock F × Bool
  after_find none h c = (c, false)
  after_find (some e) h c =
      if e.active then (record c { timers = delete h.id c.timers }, true) else (c, false)

  -- `timer.Stop`. The entry is taken out, so its `active` flag is seen no more.
  unfoldable pub stop : Handle → Clock F → Clock F × Bool
  stop h c = after_find (lookup h.id c.timers) h c

  -- The entry that `timer.Reset` makes again: it has the channel of the handle, and no callback.
  abbrev pub revived : ℤ → Handle → Clock F → Entry F
  revived d h c = record {
    id = h.id;
    deadline = add_duration c.now d;
    period = 0;
    seq = c.next_id + 1;
    active = true;
    ticks = 0;
    has_channel = h.has_channel;
    callback = none;
  }

  abbrev pub restarted : ℤ → Clock F → Entry F → Entry F
  restarted d c e = record e { deadline = add_duration c.now d; active = true }

  abbrev pub after_lookup : Option (Entry F) → ℤ → Handle → Clock F → Clock F × Bool
  after_lookup none d h c =
      (record c { next_id = c.next_id + 1; timers = assign (revived d h c) c.timers }, false)
  after_lookup (some e) d h c =
      (record c { timers = update h.id (restarted d c) c.timers }, e.active)

  -- `timer.Reset`.
  unfoldable pub reset : ℤ → Handle → Clock F → Clock F × Bool
  reset d h c = after_lookup (lookup h.id c.timers) d h c

  -- `ticker.Stop`: the entry stays.
  unfoldable pub stop_ticker : Handle → Clock F → Clock F
  stop_ticker h c = record c { timers = update h.id (λ e. record e { active = false }) c.timers }

  -- `ticker.Reset`.
  unfoldable pub reset_ticker : ℤ → Handle → Clock F → Outcome (Clock F)
  reset_ticker d h c =
      if leb_ℤ d (pos 0)
      then panicked
      else returned (record c {
        timers =
            update h.id
              (λ e. record e {
                period = pos_part d;
                deadline = add_duration c.now d;
                active = true;
              })
              c.timers;
      })

  abbrev ticks_of : Option (Entry F) → ℕ
  ticks_of none = 0
  ticks_of (some e) = e.ticks

  unfoldable pub tick_count : Handle → Clock F → ℕ
  tick_count h c = ticks_of (lookup h.id c.timers)
