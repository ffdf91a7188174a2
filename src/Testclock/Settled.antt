-- ===== src/Testclock/Settled.antt =====
-- internal/testclock/clock.go: what a run of the loop of `Set` does, told without the code that does it: one
-- firing after the other, each of the entry that is due first, until none is due.
use mathlib.Core.Path.{subst}
use red_mpudp.Prelude.{
  ℕ, ◌<◌, ◌≤◌, ◌≡◌, ◌≢◌, refl, sym, ◌∙◌, Bool, true, false, List, [], ◌∷◌, Option, none, some, inl,
  inr, ◌==◌, if◌then◌else◌, Bool-cases, ==→eq, ==→ne,
}
use red_mpudp.Testclock.{Clock, Entry, returned, lookup, taken, due, has_buffered, send}
use red_mpudp.Testclock.Loop.{notify, fire, set_time}
use red_mpudp.Testclock.Due.{work, NoneDue, NoneBefore, IsEarliest}
use red_mpudp.Testclock.Table.{
  Distinct, left_over, lookup-cons_some, lookup-here, lookup-expire_here, lookup-expire_ne,
}
use red_mpudp.Testclock.Rounds.{Settles, AddsNoWork, KeepsDistinct, fire-Distinct, set_time-Settles}

module _ {F : Type 0} where
  -- The clock `b` is the clock `c` with the entry taken: it shows the entry's deadline, holds a ticker one
  -- period later with one more tick and a timer no more, and has the other entries and the channels as they
  -- were.
  abbrev pub IsTaken : Entry F → Clock F → Clock F → Type 0
  IsTaken e c b =
      (b.now ≡ e.deadline)
      × (b.buffers ≡ c.buffers)
      × (b.next_id ≡ c.next_id)
      × (lookup e.id b.timers ≡ left_over e)
      × ((i : ℕ) → i ≢ e.id → lookup i b.timers ≡ lookup i c.timers)

  taken-IsTaken :
      (t : ℕ) (e : Entry F) (c : Clock F)
      → Distinct c.timers
      → IsEarliest t c.timers e
      → IsTaken e c (taken e c)
  taken-IsTaken t e c v (m, d, n) = (
    refl,
    refl,
    refl,
    lookup-expire_here e c.timers (lookup-here e c.timers v m),
    λ i ne. lookup-expire_ne i e c.timers (λ p. ne (sym p)),
  )

  pub lookup-NoneDue :
      (t i : ℕ) (x : Entry F) (es : List (Entry F))
      → NoneDue t es
      → lookup i es ≡ some x
      → due t x ≡ false
  unfolding lookup
  lookup-NoneDue t i x [] n h = absurd (cc)
  lookup-NoneDue t i x (e ∷ es) (n, ns) h = elim (lookup-cons_some i e x es h) [
    | inl (b, p) ↦ rw (sym p) n
    | inr (b, p) ↦ lookup-NoneDue t i x es ns p
  ]

module _ {F : Type 0} (run : F → Clock F → Clock F) where
  -- The clock `g` is the clock `b` after the entry's notification: its callback has run on `b`; or it has
  -- none, and its deadline has been sent to its channel, or dropped since the channel is full; or it has
  -- neither callback nor channel.
  pub data Notified (e : Entry F) (b : Clock F) : Clock F → Type 0 where
    called : (f : F) → e.callback ≡ some f → Notified e b (run f b)
    sent :
        e.callback ≡ none
        → e.has_channel ≡ true
        → has_buffered e.id b.buffers ≡ false
        → Notified e b (record b { buffers = (e.id, e.deadline) ∷ b.buffers })
    dropped :
        e.callback ≡ none
        → e.has_channel ≡ true
        → has_buffered e.id b.buffers ≡ true
        → Notified e b b
    silent : e.callback ≡ none → e.has_channel ≡ false → Notified e b b

  -- The entry fires: it is in the table and due, no due entry comes before it, it is taken, and then
  -- notified.
  abbrev pub Fires : ℕ → Entry F → Clock F → Clock F → Type 0
  Fires t e c g =
      (b : Clock F) × (lookup e.id c.timers ≡ some e)
      × (due t e ≡ true)
      × NoneBefore t e c.timers
      × IsTaken e c b
      × Notified e b g

  -- Some firings, one after the other.
  pub data Firings (t : ℕ) : Clock F → Clock F → Type 0 where
    none_yet : {c : Clock F} → Firings t c c
    after : {c d g : Clock F} (e : Entry F) → Fires t e c g → Firings t g d → Firings t c d

  -- Firings until nothing is due; the clock then shows `t`.
  abbrev pub Runs : ℕ → Clock F → Clock F → Type 0
  Runs t c d = (g : Clock F) × Firings t c g × NoneDue t g.timers × (d ≡ record g { now = t })

  channel-Notified :
      (e : Entry F) (b : Clock F) (h k : Bool)
      → e.callback ≡ none
      → e.has_channel ≡ h
      → has_buffered e.id b.buffers ≡ k
      → Notified e b (
          if h
          then record b { buffers = if k then b.buffers else (e.id, e.deadline) ∷ b.buffers }
          else b)
  channel-Notified e b true true p h k = dropped p h k
  channel-Notified e b true false p h k = sent p h k
  channel-Notified e b false k p h q = silent p h

  notify-Notified :
      (o : Option F) (e : Entry F) (b : Clock F) → e.callback ≡ o → Notified e b (notify run o e b)
  unfolding notify send
  notify-Notified (some f) e b p = called f p
  notify-Notified none e b p =
      channel-Notified e b e.has_channel (has_buffered e.id b.buffers) p refl refl

  fire-Fires :
      (t : ℕ) (e : Entry F) (c : Clock F)
      → Distinct c.timers
      → IsEarliest t c.timers e
      → Fires t e c (fire run e c)
  unfolding fire
  fire-Fires t e c v (m, d, n) = (
    taken e c,
    lookup-here e c.timers v m,
    d,
    n,
    taken-IsTaken t e c v (m, d, n),
    notify-Notified e.callback e (taken e c) refl,
  )

  Settles-Runs :
      (t : ℕ) {c d : Clock F}
      → KeepsDistinct run
      → Settles run t c d
      → Distinct c.timers
      → Runs t c d
  Settles-Runs t k (Settles.settled {c} n) v = (c, none_yet, n, refl)
  Settles-Runs t k (Settles.fired {c} {d} e first s) v =
      let (g, firings, n, p) = Settles-Runs t k s (fire-Distinct run e c k v) in
      (g, after e (fire-Fires t e c v first) firings, n, p)

  -- When the ids are distinct, as in a map, and no callback makes two the same or gives the clock more to do
  -- before `t`, `Set` to an instant `t` that is not before the present returns on fuel above the work that
  -- is due. Its run is a sequence of firings, until nothing is due at `t`: each takes the due entry with
  -- the least deadline, made first among those, shows its deadline, moves a ticker on by its period or
  -- takes a timer out, and then runs the callback on that clock, or else sends the deadline to the channel
  -- unless it is full. The clock that is returned shows `t` and is otherwise what the last firing left.
  pub set_time_lem :
      (fuel t : ℕ) (c : Clock F)
      → AddsNoWork run t
      → KeepsDistinct run
      → Distinct c.timers
      → c.now ≤ t
      → work t c.timers < fuel
      → (d : Clock F) × (set_time run fuel t c ≡ returned d) × Runs t c d
  set_time_lem fuel t c h k v le enough =
      let (d, p, s) = set_time-Settles run fuel t c h le enough in (d, p, Settles-Runs t k s v)

  -- The entry at `i` is left alone by the callbacks.
  abbrev pub KeepsEntry : ℕ → Type 0
  KeepsEntry i = (f : F) (c : Clock F) → lookup i (run f c).timers ≡ lookup i c.timers

  Notified-lookup :
      (i : ℕ) {e : Entry F} {b g : Clock F}
      → KeepsEntry i
      → Notified e b g
      → lookup i g.timers ≡ lookup i b.timers
  Notified-lookup i {b = b} k (Notified.called f p) = k f b
  Notified-lookup i {b = b} k (Notified.sent p h q) = refl
  Notified-lookup i {b = b} k (Notified.dropped p h q) = refl
  Notified-lookup i {b = b} k (Notified.silent p h) = refl

  -- The entry fires in the course of a run.
  abbrev pub FiresWithin : ℕ → Entry F → Clock F → Clock F → Type 0
  FiresWithin t x c d =
      (c1 : Clock F) × (c2 : Clock F) × Firings t c c1 × Fires t x c1 c2 × Firings t c2 d

  Firings-FiresWithin :
      (t : ℕ) (x : Entry F) {c g : Clock F}
      → KeepsEntry x.id
      → Firings t c g
      → NoneDue t g.timers
      → lookup x.id c.timers ≡ some x
      → due t x ≡ true
      → FiresWithin t x c g
  Firings-FiresWithin t x k (Firings.none_yet {c}) n p h =
      let late = lookup-NoneDue t x.id x c.timers n p in absurd (cc)
  Firings-FiresWithin t x k (Firings.after {c} {d} {g} e (b, here, early, first, taking, told) rest)
        n p h =
      elim (Bool-cases (e.id == x.id)) [
        | inl q ↦
            let same : e ≡ x = cc (==→eq e.id x.id q, here, p) in
            (
              c,
              g,
              none_yet,
              subst (λ y. Fires t y c g) same (b, here, early, first, taking, told),
              rest,
            )
        | inr q ↦
            let kept =
              Notified-lookup x.id k told ∙ taking.4 x.id (λ r. ==→ne e.id x.id q (sym r)) in
            let (c1, c2, before, fires, later) = Firings-FiresWithin t x k rest n (kept ∙ p) h in
            (c1, c2, after e (b, here, early, first, taking, told) before, fires, later)
      ]

  -- When the ids are distinct, as in a map, and no callback makes two the same or gives the clock more to do
  -- before `t`, each entry of the table that is due at `t` and that no callback touches fires in the run of
  -- `Set` to an instant `t` that is not before the present: `Set` returns, and somewhere in its run of
  -- firings there is one of this very entry, which takes it at its deadline and notifies it.
  pub set_time-FiresWithin :
      (fuel t : ℕ) (x : Entry F) (c : Clock F)
      → AddsNoWork run t
      → KeepsDistinct run
      → KeepsEntry x.id
      → Distinct c.timers
      → lookup x.id c.timers ≡ some x
      → due t x ≡ true
      → c.now ≤ t
      → work t c.timers < fuel
      → (d : Clock F) × (g : Clock F) × (set_time run fuel t c ≡ returned d)
        × FiresWithin t x c g
        × (d ≡ record g { now = t })
  set_time-FiresWithin fuel t x c h k alone v found early le enough =
      let (d, p, (g, firings, n, q)) = set_time_lem fuel t c h k v le enough in
      (d, g, p, Firings-FiresWithin t x alone firings n found early, q)
