-- ===== src/Testclock/Rounds.antt =====
-- internal/testclock/clock.go: the runs of the loop of `Set` as a relation, and that the loop ends.
use red_mpudp.Prelude.{
  ℕ, zero, suc, ◌<◌, ◌≤◌, ◌≡◌, ◌∙◌, Option, none, some, inl, inr, ltb, arith, tests, Option-cases,
  Bool-cases,
}
use red_mpudp.Testclock.{Clock, Entry, returned, earliest_due, taken}
use red_mpudp.Testclock.Loop.{notify, fire, fire_due, set_time}
use red_mpudp.Testclock.Table.{Distinct, expire-Distinct}
use red_mpudp.Testclock.Due.{work, work-expire, NoneDue, earliest_due_lem, IsEarliest}

module _ {F : Type 0} (run : F → Clock F → Clock F) where
  -- The loop with target `t` takes the first clock to the second.
  pub data Settles (t : ℕ) : Clock F → Clock F → Type 0 where
    settled : {c : Clock F} → NoneDue t c.timers → Settles t c (record c { now = t })
    fired :
        {c d : Clock F} (e : Entry F)
        → IsEarliest t c.timers e
        → Settles t (fire run e c) d
        → Settles t c d

  -- No callback gives the clock more to do before the instant `t`.
  abbrev pub AddsNoWork : ℕ → Type 0
  AddsNoWork t = (f : F) (c : Clock F) → work t (run f c).timers ≤ work t c.timers

  work-notify :
      (t : ℕ) (o : Option F) (e : Entry F) (c : Clock F)
      → AddsNoWork t
      → work t (notify run o e c).timers ≤ work t c.timers
  unfolding notify
  work-notify t (some f) e c h = h f c
  work-notify t none e c h = elim (Bool-cases e.has_channel) [
    | inl b ↦ rw b (omega arith)
    | inr b ↦ rw b (omega arith)
  ]

  work-fire :
      (t : ℕ) (e : Entry F) (c : Clock F)
      → AddsNoWork t
      → IsEarliest t c.timers e
      → work t (fire run e c).timers < work t c.timers
  unfolding fire
  work-fire t e c h (m, d, n) =
      omega (arith, work-notify t e.callback e (taken e c) h, work-expire t e c.timers m d)

  -- No callback makes two ids the same; the source's table is a map, where this cannot be.
  abbrev pub KeepsDistinct : Type 0
  KeepsDistinct = (f : F) (c : Clock F) → Distinct c.timers → Distinct (run f c).timers

  notify-Distinct :
      (o : Option F) (e : Entry F) (c : Clock F)
      → KeepsDistinct
      → Distinct c.timers
      → Distinct (notify run o e c).timers
  unfolding notify
  notify-Distinct (some f) e c k v = k f c v
  notify-Distinct none e c k v = elim (Bool-cases e.has_channel) [ inl b ↦ rw b v | inr b ↦ rw b v ]

  pub fire-Distinct :
      (e : Entry F) (c : Clock F)
      → KeepsDistinct
      → Distinct c.timers
      → Distinct (fire run e c).timers
  unfolding fire
  fire-Distinct e c k v = notify-Distinct e.callback e (taken e c) k (expire-Distinct e c.timers v)

  abbrev Returns : ℕ → ℕ → Clock F → Type 0
  Returns fuel t c = (d : Clock F) × (fire_due run fuel t c ≡ returned d) × Settles t c d

  fire_due-none :
      (fuel t : ℕ) (c : Clock F)
      → earliest_due t c.timers ≡ none
      → fire_due run (suc fuel) t c ≡ returned (record c { now = t })
  unfolding fire_due
  fire_due-none fuel t c h = rw h

  fire_due-some :
      (fuel t : ℕ) (c : Clock F) (e : Entry F)
      → earliest_due t c.timers ≡ some e
      → fire_due run (suc fuel) t c ≡ fire_due run fuel t (fire run e c)
  unfolding fire_due
  fire_due-some fuel t c e h = rw h

  fire_due_lem :
      (fuel t : ℕ) (c : Clock F) → AddsNoWork t → work t c.timers < fuel → Returns fuel t c
  fire_due_lem zero t c h k = absurd (omega arith)
  fire_due_lem (suc fuel) t c h k = elim (Option-cases (earliest_due t c.timers)) [
    | inl e ↦ (
      record c { now = t },
      fire_due-none fuel t c e,
      settled (rw e at (earliest_due_lem t c.timers)),
    )
    | inr (x, e) ↦
        let first = rw e at (earliest_due_lem t c.timers) in
        let (d, p, s) =
          fire_due_lem fuel t (fire run x c) h (omega (arith, work-fire t x c h first)) in
        (d, fire_due-some fuel t c x e ∙ p, fired x first s)
  ]

  -- When no callback gives the clock more to do before `t`, `Set` to an instant `t` that is not before the
  -- present returns, on fuel above the work that is due, with a clock that the loop's rounds lead to.
  pub set_time-Settles :
      (fuel t : ℕ) (c : Clock F)
      → AddsNoWork t
      → c.now ≤ t
      → work t c.timers < fuel
      → (d : Clock F) × (set_time run fuel t c ≡ returned d) × Settles t c d
  unfolding set_time
  set_time-Settles fuel t c h le k = elim (Bool-cases (ltb t c.now)) [
    | inl b ↦ absurd (omega tests)
    | inr b ↦ rw b (fire_due_lem fuel t c h k)
  ]
