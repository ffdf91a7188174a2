-- ===== src/Testclock/Due.antt =====
-- internal/testclock/clock.go: the entry that `earliestDue` gives, and the work that firing it does away
-- with.
use mathlib.Core.List.{Memᴰ}
use red_mpudp.Prelude.{
  ℕ, ◌+◌, ◌-◌, ◌<◌, ◌≤◌, ◌≡◌, refl, sym, Bool, true, false, List, [], ◌∷◌, Option, none, some, ltb,
  ◌==◌, if◌then◌else◌, inl, inr, All, Bool-cases, tests, arith, ==_of_eq,
}
use red_mpudp.Testclock.{
  Entry, due, all_due, insert, sort_due, head, earliest_due, fires_before, update, delete, expire,
  next_tick,
}

module _ {F : Type 0} where
  -- The nanoseconds from a due deadline to the target, and one more; and those of a table.
  abbrev owed : ℕ → Entry F → ℕ
  owed target e = if e.active then target + 1 - e.deadline else 0

  unfoldable pub work : ℕ → List (Entry F) → ℕ
  work target [] = 0
  work target (e ∷ es) = owed target e + work target es

  abbrev sooner : Entry F → Option (Entry F) → Option (Entry F)
  sooner e none = some e
  sooner e (some x) = some (if fires_before e x then e else x)

  head-insert : (e : Entry F) (l : List (Entry F)) → head (insert e l) ≡ sooner e (head l)
  unfolding head insert
  head-insert e [] = refl
  head-insert e (x ∷ xs) = elim (Bool-cases (fires_before e x)) [ inl h ↦ rw h | inr h ↦ rw h ]

  earliest_due-due :
      (t : ℕ) (e : Entry F) (es : List (Entry F))
      → due t e ≡ true
      → earliest_due t (e ∷ es) ≡ sooner e (earliest_due t es)
  unfolding earliest_due all_due sort_due
  earliest_due-due t e es h = rw h (head-insert e (sort_due (all_due t es)))

  earliest_due-late :
      (t : ℕ) (e : Entry F) (es : List (Entry F))
      → due t e ≡ false
      → earliest_due t (e ∷ es) ≡ earliest_due t es
  unfolding earliest_due all_due
  earliest_due-late t e es h = rw h

  pub fires_before_le : (a b : Entry F) → fires_before a b ≡ false → b.deadline ≤ a.deadline
  fires_before_le a b h = ground arith

  fires_before_lt : (a b : Entry F) → fires_before a b ≡ true → a.deadline ≤ b.deadline
  fires_before_lt a b h = ground arith

  fires_before_trans :
      (a b c : Entry F)
      → fires_before a c ≡ false
      → fires_before b c ≡ true
      → fires_before a b ≡ false
  fires_before_trans a b c h k = ground arith

  fires_before_self : (a : Entry F) → fires_before a a ≡ false
  fires_before_self a = ground arith

  fires_before_asym : (a b : Entry F) → fires_before a b ≡ true → fires_before b a ≡ false
  fires_before_asym a b h = ground arith

  -- Each due entry of the table does not come before this one.
  abbrev pub NoneBefore : ℕ → Entry F → List (Entry F) → Type 0
  NoneBefore t e es = All (λ x. due t x ≡ true → fires_before x e ≡ false) es

  abbrev pub IsEarliest : ℕ → List (Entry F) → Entry F → Type 0
  IsEarliest t es e = Memᴰ e es × (due t e ≡ true) × NoneBefore t e es

  abbrev pub NoneDue : ℕ → List (Entry F) → Type 0
  NoneDue t es = All (λ x. due t x ≡ false) es

  abbrev pub IsEarliestOf : ℕ → List (Entry F) → Option (Entry F) → Type 0
  IsEarliestOf t es none = NoneDue t es
  IsEarliestOf t es (some e) = IsEarliest t es e

  NoneBefore-NoneDue :
      (t : ℕ) (e : Entry F) (es : List (Entry F)) → NoneDue t es → NoneBefore t e es
  NoneBefore-NoneDue t e [] n = tt
  NoneBefore-NoneDue t e (x ∷ es) (n, ns) = (λ h. absurd (cc), NoneBefore-NoneDue t e es ns)

  NoneBefore-trans :
      (t : ℕ) (e x : Entry F) (es : List (Entry F))
      → fires_before e x ≡ true
      → NoneBefore t x es
      → NoneBefore t e es
  NoneBefore-trans t e x [] h n = tt
  NoneBefore-trans t e x (y ∷ es) h (n, ns) =
      (λ k. fires_before_trans y e x (n k) h, NoneBefore-trans t e x es h ns)

  sooner_some :
      (t : ℕ) (e x : Entry F) (es : List (Entry F)) (b : Bool)
      → fires_before e x ≡ b
      → due t e ≡ true
      → IsEarliest t es x
      → IsEarliest t (e ∷ es) (if b then e else x)
  sooner_some t e x es true f h (mem, d, n) =
      (Memᴰ.head refl, h, (λ k. fires_before_self e, NoneBefore-trans t e x es f n))
  sooner_some t e x es false f h (mem, d, n) = (Memᴰ.tail mem, d, (λ k. f, n))

  sooner_lem :
      (t : ℕ) (e : Entry F) (es : List (Entry F)) (o : Option (Entry F))
      → due t e ≡ true
      → IsEarliestOf t es o
      → IsEarliestOf t (e ∷ es) (sooner e o)
  sooner_lem t e es none h n =
      (Memᴰ.head refl, h, (λ k. fires_before_self e, NoneBefore-NoneDue t e es n))
  sooner_lem t e es (some x) h (mem, d, n) =
      sooner_some t e x es (fires_before e x) refl h (mem, d, n)

  later_lem :
      (t : ℕ) (e : Entry F) (es : List (Entry F)) (o : Option (Entry F))
      → due t e ≡ false
      → IsEarliestOf t es o
      → IsEarliestOf t (e ∷ es) o
  later_lem t e es none h n = (h, n)
  later_lem t e es (some x) h (mem, d, n) = (Memᴰ.tail mem, d, (λ k. absurd (cc), n))

  earliest_due_nil : (t : ℕ) → earliest_due {F = F} t [] ≡ none
  unfolding earliest_due head sort_due all_due
  earliest_due_nil t = refl

  -- What `earliestDue` gives is a due entry of the table, and no due entry has an earlier deadline, or the
  -- same deadline and an earlier creation; it gives none only when no entry is due.
  pub earliest_due_lem : (t : ℕ) (es : List (Entry F)) → IsEarliestOf t es (earliest_due t es)
  earliest_due_lem t [] = rw (earliest_due_nil t) tt
  earliest_due_lem t (e ∷ es) = elim (Bool-cases (due t e)) [
    | inl h ↦
        rw (earliest_due-due t e es h)
          (sooner_lem t e es (earliest_due t es) h (earliest_due_lem t es))
    | inr h ↦
        rw (earliest_due-late t e es h)
          (later_lem t e es (earliest_due t es) h (earliest_due_lem t es))
  ]

  -- The deadline of the earliest entry is the least.
  pub IsEarliest-least :
      (t : ℕ) (e x : Entry F) (es : List (Entry F))
      → NoneBefore t e es
      → Memᴰ x es
      → due t x ≡ true
      → e.deadline ≤ x.deadline
  IsEarliest-least t e x [] n m h = elim m [ ]
  IsEarliest-least t e x (y ∷ es) n m h = elim m [
    | Memᴰ.head p ↦ fires_before_le x e (rw p (n.0 (rw (sym p) h)))
    | Memᴰ.tail k ↦ IsEarliest-least t e x es n.1 k h
  ]

  owed-next_tick : (t : ℕ) (e : Entry F) → owed t (next_tick e) ≤ owed t e
  owed-next_tick t e = ground arith

  owed-next_tick_lt :
      (t : ℕ) (e : Entry F) → due t e ≡ true → 0 < e.period → owed t (next_tick e) < owed t e
  owed-next_tick_lt t e h k = ground arith

  owed_positive : (t : ℕ) (e : Entry F) → due t e ≡ true → 0 < owed t e
  owed_positive t e h = ground arith

  work-update : (t i : ℕ) (es : List (Entry F)) → work t (update i next_tick es) ≤ work t es
  unfolding work update
  work-update t i [] = omega arith
  work-update t i (e ∷ es) =
      let r = work-update t i es in
      elim (Bool-cases (e.id == i)) [
        | inl h ↦ rw h (omega (arith, owed-next_tick t e))
        | inr h ↦ rw h (omega arith)
      ]

  work-update_lt :
      (t : ℕ) (e : Entry F) (es : List (Entry F))
      → Memᴰ e es
      → due t e ≡ true
      → 0 < e.period
      → work t (update e.id next_tick es) < work t es
  unfolding work update
  work-update_lt t e [] m h k = elim m [ ]
  work-update_lt t e (x ∷ es) m h k = elim m [
    | Memᴰ.head p ↦
        rw (sym p, ==_of_eq e.id e.id refl)
          (omega (arith, owed-next_tick_lt t e h k, work-update t e.id es))
    | Memᴰ.tail l ↦
        let r = work-update_lt t e es l h k in
        elim (Bool-cases (x.id == e.id)) [
          | inl i ↦ rw i (omega (arith, owed-next_tick t x))
          | inr i ↦ rw i (omega arith)
        ]
  ]

  work-delete : (t i : ℕ) (es : List (Entry F)) → work t (delete i es) ≤ work t es
  unfolding work delete
  work-delete t i [] = omega arith
  work-delete t i (e ∷ es) =
      let r = work-delete t i es in
      elim (Bool-cases (e.id == i)) [ inl h ↦ rw h (omega arith) | inr h ↦ rw h (omega arith) ]

  work-delete_lt :
      (t : ℕ) (e : Entry F) (es : List (Entry F))
      → Memᴰ e es
      → due t e ≡ true
      → work t (delete e.id es) < work t es
  unfolding work delete
  work-delete_lt t e [] m h = elim m [ ]
  work-delete_lt t e (x ∷ es) m h = elim m [
    | Memᴰ.head p ↦
        rw (sym p, ==_of_eq e.id e.id refl)
          (omega (arith, owed_positive t e h, work-delete t e.id es))
    | Memᴰ.tail l ↦
        let r = work-delete_lt t e es l h in
        elim (Bool-cases (x.id == e.id)) [ inl i ↦ rw i (omega arith) | inr i ↦ rw i (omega arith) ]
  ]

  -- Taking the earliest entry does away with work.
  pub work-expire :
      (t : ℕ) (e : Entry F) (es : List (Entry F))
      → Memᴰ e es
      → due t e ≡ true
      → work t (expire e es) < work t es
  unfolding expire
  work-expire t e es m h = elim (Bool-cases (ltb 0 e.period)) [
    | inl p ↦ rw p (work-update_lt t e es m h (omega tests))
    | inr p ↦ rw p (work-delete_lt t e es m h)
  ]
