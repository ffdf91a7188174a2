-- ===== src/Testclock.antt =====
-- internal/testclock/clock.go: the clock that only `Advance` and `Set` move. An instant is a number of
-- nanoseconds since an origin that no deadline precedes. A channel holds one instant and is named by the
-- entry it is made for. A callback is a name of type `F`, and what it does to the clock is a parameter.
pub mod Loop
pub mod Due
pub mod Rounds
pub mod Settled
pub mod Table
pub mod Order
pub mod Ticks
pub mod Handles
pub mod Tests
use red_mpudp.Prelude.{
  ℕ, ◌≡◌, zero, suc, ◌+◌, ◌-◌, Bool, true, false, not, ◌&&◌, List, [], ◌∷◌, ◌++◌, Option, none,
  some, ltb, leb, ◌==◌, if◌then◌else◌, length,
}
use red_mpudp.Prelude.Int.{ℤ, pos, pos_part, neg_part, ltb_ℤ, leb_ℤ}

pub record Entry (F : Type 0) : Type 0 where
  pub id : ℕ
  pub deadline : ℕ
  -- 0 for a timer that fires once.
  pub period : ℕ
  pub seq : ℕ
  pub active : Bool
  pub ticks : ℕ
  pub has_channel : Bool
  pub callback : Option F

-- One run of the loop of `Set`: which entry, at which instant. The log of them is the model's own.
pub record Firing : Type 0 where
  pub entry : ℕ
  pub instant : ℕ

pub record Clock (F : Type 0) : Type 0 where
  pub now : ℕ
  pub next_id : ℕ
  pub timers : List (Entry F)
  -- The instants that wait in channels.
  pub buffers : List (ℕ × ℕ)
  pub fired : List Firing

-- The handle of a timer or of a ticker.
pub record Handle : Type 0 where
  pub id : ℕ
  pub has_channel : Bool

pub data Outcome (A : Type 0) : Type 0 where
  returned : A → Outcome A
  panicked out_of_fuel : Outcome A

pub returned-injective : {A : Type 0} {a b : A} → returned a ≡ returned b → a ≡ b
returned-injective h = cc

-- `Time.Add`.
abbrev pub add_duration : ℕ → ℤ → ℕ
add_duration t d = t + pos_part d - neg_part d

-- `Time.Sub`.
abbrev pub sub_instant : ℕ → ℕ → ℤ
sub_instant t u = if leb u t then pos (t - u) else ℤ.negsuc (u - t - 1)

unfoldable pub has_buffered : ℕ → List (ℕ × ℕ) → Bool
has_buffered i [] = false
has_buffered i ((j, t) ∷ bs) = if j == i then true else has_buffered i bs

-- The send that is dropped when the channel is full.
unfoldable pub send : ℕ → ℕ → List (ℕ × ℕ) → List (ℕ × ℕ)
send i t bs = if has_buffered i bs then bs else (i, t) ∷ bs

module _ {F : Type 0} where
  abbrev pub new_clock : ℕ → Clock F
  new_clock start = record { now = start; next_id = 0; timers = []; buffers = []; fired = [] }

  unfoldable pub since : ℕ → Clock F → ℤ
  since t c = sub_instant c.now t

  -- `c.timers[id]`, with the entries that have the id taken out, and with each of them changed.
  unfoldable pub lookup : ℕ → List (Entry F) → Option (Entry F)
  lookup i [] = none
  lookup i (e ∷ es) = if e.id == i then some e else lookup i es

  unfoldable pub delete : ℕ → List (Entry F) → List (Entry F)
  delete i [] = []
  delete i (e ∷ es) = let rest = delete i es in if e.id == i then rest else e ∷ rest

  unfoldable pub update : ℕ → (Entry F → Entry F) → List (Entry F) → List (Entry F)
  update i f [] = []
  update i f (e ∷ es) = (if e.id == i then f e else e) ∷ update i f es

  -- `c.timers[e.id] = e`.
  unfoldable pub assign : Entry F → List (Entry F) → List (Entry F)
  assign e es = delete e.id es ++ e ∷ []

  -- The entry that `add` makes, with its channel or its callback.
  abbrev pub new_entry : ℤ → ℕ → Bool → Option F → Clock F → Entry F
  new_entry d period has_channel callback c = record {
    id = c.next_id + 1;
    deadline = add_duration c.now d;
    period = period;
    seq = c.next_id + 1;
    active = true;
    ticks = 0;
    has_channel = has_channel;
    callback = callback;
  }

  unfoldable pub add : ℤ → ℕ → Bool → Option F → Clock F → Clock F
  add d period has_channel callback c = record c {
    next_id = c.next_id + 1;
    timers = assign (new_entry d period has_channel callback c) c.timers;
  }

  abbrev pub handle : Bool → Clock F → Handle
  handle has_channel c = record { id = c.next_id + 1; has_channel = has_channel }

  unfoldable pub new_timer : ℤ → Clock F → Clock F × Handle
  new_timer d c = (add d 0 true none c, handle true c)

  unfoldable pub after_func : ℤ → F → Clock F → Clock F × Handle
  after_func d f c = (add d 0 false (some f) c, handle false c)

  unfoldable pub new_ticker : ℤ → Clock F → Outcome (Clock F × Handle)
  new_ticker d c =
      if leb_ℤ d (pos 0) then panicked else returned (add d (pos_part d) true none c, handle true c)

  abbrev pub due : ℕ → Entry F → Bool
  due target e = e.active && leb e.deadline target

  unfoldable pub all_due : ℕ → List (Entry F) → List (Entry F)
  all_due target [] = []
  all_due target (e ∷ es) = let rest = all_due target es in if due target e then e ∷ rest else rest

  -- The order of the sort: deadlines, then creation.
  abbrev pub fires_before : Entry F → Entry F → Bool
  fires_before a b =
      if not (a.deadline == b.deadline) then ltb a.deadline b.deadline else ltb a.seq b.seq

  unfoldable pub insert : Entry F → List (Entry F) → List (Entry F)
  insert e [] = e ∷ []
  insert e (x ∷ xs) = let rest = insert e xs in if fires_before e x then e ∷ x ∷ xs else x ∷ rest

  unfoldable pub sort_due : List (Entry F) → List (Entry F)
  sort_due [] = []
  sort_due (e ∷ es) = insert e (sort_due es)

  unfoldable pub head : List (Entry F) → Option (Entry F)
  head [] = none
  head (e ∷ es) = some e

  unfoldable pub earliest_due : ℕ → List (Entry F) → Option (Entry F)
  earliest_due target es = head (sort_due (all_due target es))

  abbrev pub next_tick : Entry F → Entry F
  next_tick e = record e { deadline = e.deadline + e.period; ticks = e.ticks + 1 }

  -- The table after an entry is taken: a ticker goes on, a timer is gone.
  unfoldable pub expire : Entry F → List (Entry F) → List (Entry F)
  expire e es = if ltb 0 e.period then update e.id next_tick es else delete e.id es

  abbrev pub taken : Entry F → Clock F → Clock F
  taken e c = record c {
    now = e.deadline;
    timers = expire e c.timers;
    fired = c.fired ++ record { entry = e.id; instant = e.deadline } ∷ [];
  }

  unfoldable pub active_entries : List (Entry F) → List (Entry F)
  active_entries [] = []
  active_entries (e ∷ es) = let rest = active_entries es in if e.active then e ∷ rest else rest

  unfoldable pub len : Clock F → ℕ
  len c = length (active_entries c.timers)
