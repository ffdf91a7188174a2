-- ===== src/Testclock/Ticks.antt =====
-- internal/testclock/clock.go: how often `Set` fires a ticker, and what `Reset` makes of a timer that is gone.
use native.Mathlib.Nat.{suc-mul}
use red_mpudp.Prelude.{
  ℕ, suc, ◌+◌, ◌*◌, ◌<◌, ◌≤◌, ◌≡◌, refl, sym, ◌∙◌, ap, ◌⊎◌, true, false, Option, none, some, inl,
  inr, lt→ltb, ◌==◌, arith, Bool-cases, ==→eq, ==→ne,
}
use red_mpudp.Testclock.{Clock, Entry, Handle, returned, lookup, next_tick, expire, taken, due}
use red_mpudp.Testclock.Loop.{notify, fire, set_time}
use red_mpudp.Testclock.Handles.{tick_count}
use red_mpudp.Testclock.Due.{work, IsEarliest}
use red_mpudp.Testclock.Rounds.{Settles, AddsNoWork, KeepsDistinct, fire-Distinct, set_time-Settles}
use red_mpudp.Testclock.Settled.{KeepsEntry, lookup-NoneDue}
use red_mpudp.Testclock.Table.{Distinct, lookup-here, lookup-expire_here, lookup-expire_ne}

module _ {F : Type 0} where
  -- A ticker that runs.
  abbrev pub IsTicking : ℕ → Entry F → Clock F → Type 0
  IsTicking i x c = (lookup i c.timers ≡ some x) × (x.active ≡ true) × (0 < x.period)

  -- The running ticker is the entry that fires.
  ticker_fires :
      (t i : ℕ) (e x : Entry F) (c : Clock F)
      → Distinct c.timers
      → IsEarliest t c.timers e
      → IsTicking i x c
      → e.id ≡ i
      → (lookup i (expire e c.timers) ≡ some (next_tick x)) × (due t x ≡ true)
  ticker_fires t i e x c d (m, early, n) (p, on, runs) q =
      let here = lookup-here e c.timers d m in
      let same : e ≡ x = cc (here, p, q) in
      (
        ap (λ j. lookup j (expire e c.timers)) (sym q)
            ∙ lookup-expire_here e c.timers here
            ∙ rw (same, lt→ltb 0 x.period runs) refl,
        rw same at early,
      )

  -- The entry after `k` more ticks, the last of which is the last that is due.
  abbrev Ticked : ℕ → Entry F → Entry F → ℕ → Type 0
  Ticked t x y k =
      (y.deadline ≡ x.deadline + k * x.period)
      × (y.ticks ≡ x.ticks + k)
      × (t < y.deadline)
      × ((k ≡ 0) ⊎ (y.deadline ≤ t + x.period))

  Ticked-none : (t : ℕ) (x : Entry F) → x.active ≡ true → due t x ≡ false → Ticked t x x 0
  Ticked-none t x on h = (omega arith, omega arith, ground arith, inl refl)

  Ticked-next :
      (t : ℕ) (x y : Entry F) (k : ℕ)
      → due t x ≡ true
      → Ticked t (next_tick x) y k
      → Ticked t x y (suc k)
  Ticked-next t x y k h (a, b, c, d) =
      let early : x.deadline ≤ t = ground arith in
      (
        omega (arith, suc-mul k x.period),
        omega arith,
        c,
        inr (elim d [ inl z ↦ omega (arith, rw z at a) | inr l ↦ l ]),
      )

module _ {F : Type 0} (run : F → Clock F → Clock F) where
  lookup-notify :
      (i : ℕ) (o : Option F) (e : Entry F) (c : Clock F)
      → KeepsEntry run i
      → lookup i (notify run o e c).timers ≡ lookup i c.timers
  unfolding notify
  lookup-notify i (some f) e c k = k f c
  lookup-notify i none e c k = elim (Bool-cases e.has_channel) [
    | inl b ↦ rw b refl
    | inr b ↦ rw b refl
  ]

  lookup-fire :
      (i : ℕ) (e : Entry F) (c : Clock F)
      → KeepsEntry run i
      → lookup i (fire run e c).timers ≡ lookup i (expire e c.timers)
  unfolding fire
  lookup-fire i e c k = lookup-notify i e.callback e (taken e c) k

  abbrev Result : ℕ → ℕ → Entry F → Clock F → Type 0
  Result t i x d = (y : Entry F) × (k : ℕ) × (lookup i d.timers ≡ some y) × Ticked t x y k

  Settles-Ticked :
      (t i : ℕ) (x : Entry F) {c d : Clock F}
      → KeepsDistinct run
      → KeepsEntry run i
      → Settles run t c d
      → Distinct c.timers
      → IsTicking i x c
      → Result t i x d
  Settles-Ticked t i x v k (Settles.settled {c} n) valid (p, on, runs) =
      (x, 0, p, Ticked-none t x on (lookup-NoneDue t i x c.timers n p))
  Settles-Ticked t i x v k (Settles.fired {c} {d} e first s) valid (p, on, runs) =
      let next = fire-Distinct run e c v valid in
      elim (Bool-cases (e.id == i)) [
        | inl b ↦
            let (q, early) = ticker_fires t i e x c valid first (p, on, runs) (==→eq e.id i b) in
            let (y, n, found, ticked) =
              Settles-Ticked t i (next_tick x) v k s next (lookup-fire i e c k ∙ q, on, runs) in
            (y, suc n, found, Ticked-next t x y n early ticked)
        | inr b ↦
            Settles-Ticked t i x v k s next
              (lookup-fire i e c k ∙ lookup-expire_ne i e c.timers (==→ne e.id i b) ∙ p, on, runs)
      ]

  -- When the ids are distinct, as in a map, and no callback touches the ticker, makes two ids the same or
  -- gives the clock more to do before `t`, `Set` to `t` adds to the ticker's `TickCount` the number `k` of
  -- its deadlines up to `t`: in the clock that `Set` leaves, the ticker's deadline lies `k` periods after
  -- the one before, is after `t`, and, when `k` is not 0, is at most one period after `t`.
  pub tick_count-set_time :
      (fuel t : ℕ) (h : Handle) (x : Entry F) (c : Clock F)
      → AddsNoWork run t
      → KeepsDistinct run
      → KeepsEntry run h.id
      → Distinct c.timers
      → IsTicking h.id x c
      → c.now ≤ t
      → work t c.timers < fuel
      → (d : Clock F) × (k : ℕ) × (set_time run fuel t c ≡ returned d)
        × (tick_count h d ≡ tick_count h c + k)
        × ((y : Entry F) × (lookup h.id d.timers ≡ some y)
            × (y.deadline ≡ x.deadline + k * x.period)
            × (t < y.deadline)
            × ((k ≡ 0) ⊎ (y.deadline ≤ t + x.period)))
  unfolding tick_count
  tick_count-set_time fuel t h x c adds v k valid (p, on, runs) le enough =
      let (d, q, s) = set_time-Settles run fuel t c adds le enough in
      let (y, n, found, (a, b, late, last)) = Settles-Ticked t h.id x v k s valid (p, on, runs) in
      (d, n, q, rw (found, p) b, (y, found, a, late, last))
