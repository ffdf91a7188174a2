-- ===== src/Testclock/Order.antt =====
-- internal/testclock/clock.go: the order in which `Set` fires.
use mathlib.Core.List.{append-nil, Memᴰ}
use red_mpudp.Prelude.{
  ℕ, ◌<◌, ◌≤◌, ◌≡◌, refl, sym, ◌∙◌, ap, true, false, List, [], ◌∷◌, ◌++◌, Option, none, some, inl,
  inr, ltb, ◌==◌, arith, All, Bool-cases, append_assoc,
}
use red_mpudp.Testclock.{
  Clock, Entry, Firing, returned, taken, expire, update, delete, next_tick, due,
}
use red_mpudp.Testclock.Loop.{notify, fire, set_time}
use red_mpudp.Testclock.Due.{work, IsEarliest, NoneBefore, fires_before_le}
use red_mpudp.Testclock.Rounds.{Settles, AddsNoWork, set_time-Settles}

-- No instant before `m`, none before the one ahead of it, and none after `t`.
abbrev pub Ascending : ℕ → ℕ → List Firing → Type 0
Ascending m t [] = Unit
Ascending m t (x ∷ xs) = (m ≤ x.instant) × (x.instant ≤ t) × Ascending x.instant t xs

module _ {F : Type 0} where
  -- No active entry has a deadline before `m`.
  abbrev pub NotBefore : ℕ → List (Entry F) → Type 0
  NotBefore m es = All (λ x. x.active ≡ true → m ≤ x.deadline) es

  NotBefore-update :
      (m i : ℕ) (es : List (Entry F)) → NotBefore m es → NotBefore m (update i next_tick es)
  unfolding update
  NotBefore-update m i [] h = tt
  NotBefore-update m i (e ∷ es) (h, hs) = elim (Bool-cases (e.id == i)) [
    | inl b ↦ rw b ((λ a. omega (arith, h a)), NotBefore-update m i es hs)
    | inr b ↦ rw b (h, NotBefore-update m i es hs)
  ]

  NotBefore-delete : (m i : ℕ) (es : List (Entry F)) → NotBefore m es → NotBefore m (delete i es)
  unfolding delete
  NotBefore-delete m i [] h = tt
  NotBefore-delete m i (e ∷ es) (h, hs) = elim (Bool-cases (e.id == i)) [
    | inl b ↦ rw b (NotBefore-delete m i es hs)
    | inr b ↦ rw b (h, NotBefore-delete m i es hs)
  ]

  NotBefore-expire :
      (m : ℕ) (e : Entry F) (es : List (Entry F)) → NotBefore m es → NotBefore m (expire e es)
  unfolding expire
  NotBefore-expire m e es h = elim (Bool-cases (ltb 0 e.period)) [
    | inl b ↦ rw b (NotBefore-update m e.id es h)
    | inr b ↦ rw b (NotBefore-delete m e.id es h)
  ]

  not_due_late : (t : ℕ) (x : Entry F) → due t x ≡ false → x.active ≡ true → t < x.deadline
  not_due_late t x h a = ground arith

  due_lem : (t : ℕ) (x : Entry F) → due t x ≡ true → (x.active ≡ true) × (x.deadline ≤ t)
  due_lem t x h = ground arith

  NoneBefore-NotBefore :
      (t : ℕ) (e : Entry F) (es : List (Entry F))
      → e.deadline ≤ t
      → NoneBefore t e es
      → NotBefore e.deadline es
  NoneBefore-NotBefore t e [] h n = tt
  NoneBefore-NotBefore t e (x ∷ es) h (n, ns) = (
    (λ a. elim (Bool-cases (due t x)) [
      | inl d ↦ fires_before_le x e (n d)
      | inr d ↦ omega (arith, not_due_late t x d a)
    ]),
    NoneBefore-NotBefore t e es h ns,
  )

  NotBefore-least :
      (m t : ℕ) (e : Entry F) (es : List (Entry F))
      → IsEarliest t es e
      → NotBefore m es
      → m ≤ e.deadline
  NotBefore-least m t e [] (k, d, n) h = elim k [ ]
  NotBefore-least m t e (x ∷ es) (k, d, n) h = elim k [
    | Memᴰ.head p ↦ rw p (h.0 (rw p at (due_lem t e d).0))
    | Memᴰ.tail l ↦ NotBefore-least m t e es (l, d, n.1) h.1
  ]

module _ {F : Type 0} (run : F → Clock F → Clock F) where
  -- A callback sets no timer to fire before the present, and does not move the clock itself.
  abbrev pub KeepsOrder : Type 0
  KeepsOrder =
      (f : F) (c : Clock F)
      → NotBefore c.now c.timers
      → NotBefore c.now (run f c).timers × ((run f c).fired ≡ c.fired)

  notify_keeps :
      (o : Option F) (e : Entry F) (c : Clock F)
      → KeepsOrder
      → NotBefore c.now c.timers
      → NotBefore c.now (notify run o e c).timers × ((notify run o e c).fired ≡ c.fired)
  unfolding notify
  notify_keeps (some f) e c k h = k f c h
  notify_keeps none e c k h = elim (Bool-cases e.has_channel) [
    | inl b ↦ rw b (h, refl)
    | inr b ↦ rw b (h, refl)
  ]

  fire_keeps :
      (t : ℕ) (e : Entry F) (c : Clock F)
      → KeepsOrder
      → IsEarliest t c.timers e
      → NotBefore e.deadline (fire run e c).timers
        × ((fire run e c).fired ≡ c.fired ++ record { entry = e.id; instant = e.deadline } ∷ [])
  unfolding fire
  fire_keeps t e c k (m, d, n) = notify_keeps e.callback e (taken e c) k (
      NotBefore-expire e.deadline e c.timers
        (NoneBefore-NotBefore t e c.timers (due_lem t e d).1 n))

  Settles-Ascending :
      (t m : ℕ) {c d : Clock F}
      → KeepsOrder
      → Settles run t c d
      → NotBefore m c.timers
      → (new : List Firing) × (d.fired ≡ c.fired ++ new) × Ascending m t new
  Settles-Ascending t m k (Settles.settled {c} n) h = ([], sym (append-nil _), tt)
  Settles-Ascending t m k (Settles.fired {c} {d} e first s) h =
      let (late, log) = fire_keeps t e c k first in
      let (new, p, a) = Settles-Ascending t e.deadline k s late in
      (
        record { entry = e.id; instant = e.deadline } ∷ new,
        p ∙ ap (λ l. l ++ new) log ∙ append_assoc c.fired _ new,
        (NotBefore-least m t e c.timers first h, (due_lem t e first.1).1, a),
      )

  -- When no active deadline lies before the present, and no callback gives the clock more to do before `t`
  -- or sets a timer to fire before the present, `Set` to `t` fires in the order of the deadlines, each
  -- between the present and `t`.
  pub set_time-Ascending :
      (fuel t : ℕ) (c : Clock F)
      → AddsNoWork run t
      → KeepsOrder
      → NotBefore c.now c.timers
      → c.now ≤ t
      → work t c.timers < fuel
      → (d : Clock F) × (set_time run fuel t c ≡ returned d)
        × ((new : List Firing) × (d.fired ≡ c.fired ++ new) × Ascending c.now t new)
  set_time-Ascending fuel t c h k b le enough =
      let (d, p, s) = set_time-Settles run fuel t c h le enough in
      (d, p, Settles-Ascending t c.now k s b)
