-- ===== src/Testclock/Table.antt =====
-- internal/testclock/clock.go: the table of the clock. The source keeps it in a map, so that no two entries
-- have the same id; here it is a list, and what keeps the ids apart is shown.
use mathlib.Core.List.{Memᴰ}
use red_mpudp.Prelude.{
  ℕ, ◌+◌, ◌≡◌, ◌≢◌, refl, sym, ◌∙◌, ap, ◌⊎◌, true, false, List, [], ◌∷◌, ◌++◌, Option, none, some,
  inl, inr, ltb, ◌==◌, if◌then◌else◌, Bool-cases, ==_of_eq, ==_of_ne, ==→eq, ==→ne,
}
use red_mpudp.Testclock.{Entry, lookup, update, delete, assign, next_tick, expire}

module _ {F : Type 0} where
  -- No two entries have the same id.
  abbrev pub Distinct : List (Entry F) → Type 0
  Distinct [] = Unit
  Distinct (e ∷ es) = (lookup e.id es ≡ none) × Distinct es

  lookup-cons_none :
      (i : ℕ) (e : Entry F) (es : List (Entry F))
      → lookup i (e ∷ es) ≡ none
      → ((e.id == i) ≡ false) × (lookup i es ≡ none)
  unfolding lookup
  lookup-cons_none i e es h = elim (Bool-cases (e.id == i)) [
    | inl b ↦ absurd (cc)
    | inr b ↦ (b, rw b at h)
  ]

  pub lookup-cons_some :
      (i : ℕ) (e x : Entry F) (es : List (Entry F))
      → lookup i (e ∷ es) ≡ some x
      → (((e.id == i) ≡ true) × (e ≡ x)) ⊎ (((e.id == i) ≡ false) × (lookup i es ≡ some x))
  unfolding lookup
  lookup-cons_some i e x es h = elim (Bool-cases (e.id == i)) [
    | inl b ↦ inl (b, cc (rw b at h))
    | inr b ↦ inr (b, rw b at h)
  ]

  lookup-append_none :
      (i : ℕ) (es : List (Entry F)) (e : Entry F)
      → lookup i es ≡ none
      → (e.id == i) ≡ false
      → lookup i (es ++ e ∷ []) ≡ none
  unfolding lookup
  lookup-append_none i [] e h k = rw k refl
  lookup-append_none i (x ∷ es) e h k =
      let (a, b) = lookup-cons_none i x es h in rw a (lookup-append_none i es e b k)

  lookup-update-none :
      (i j : ℕ) (es : List (Entry F)) → lookup i es ≡ none → lookup i (update j next_tick es) ≡ none
  unfolding lookup update
  lookup-update-none i j [] h = refl
  lookup-update-none i j (e ∷ es) h =
      let (a, b) = lookup-cons_none i e es h in
      elim (Bool-cases (e.id == j)) [
        | inl c ↦ rw (c, a) (lookup-update-none i j es b)
        | inr c ↦ rw (c, a) (lookup-update-none i j es b)
      ]

  lookup-delete-none :
      (i j : ℕ) (es : List (Entry F)) → lookup i es ≡ none → lookup i (delete j es) ≡ none
  unfolding lookup delete
  lookup-delete-none i j [] h = refl
  lookup-delete-none i j (e ∷ es) h =
      let (a, b) = lookup-cons_none i e es h in
      elim (Bool-cases (e.id == j)) [
        | inl c ↦ rw c (lookup-delete-none i j es b)
        | inr c ↦ rw (c, a) (lookup-delete-none i j es b)
      ]

  Distinct-append :
      (es : List (Entry F)) (e : Entry F)
      → lookup e.id es ≡ none
      → Distinct es
      → Distinct (es ++ e ∷ [])
  unfolding lookup
  Distinct-append [] e h d = (refl, tt)
  Distinct-append (x ∷ es) e h (d, ds) =
      let (a, b) = lookup-cons_none e.id x es h in
      (
        lookup-append_none x.id es e d (==_of_ne e.id x.id (λ p. ==→ne x.id e.id a (sym p))),
        Distinct-append es e b ds,
      )

  Distinct-update : (i : ℕ) (es : List (Entry F)) → Distinct es → Distinct (update i next_tick es)
  unfolding update
  Distinct-update i [] d = tt
  Distinct-update i (e ∷ es) (d, ds) = elim (Bool-cases (e.id == i)) [
    | inl b ↦ rw b (lookup-update-none e.id i es d, Distinct-update i es ds)
    | inr b ↦ rw b (lookup-update-none e.id i es d, Distinct-update i es ds)
  ]

  Distinct-delete : (i : ℕ) (es : List (Entry F)) → Distinct es → Distinct (delete i es)
  unfolding delete
  Distinct-delete i [] d = tt
  Distinct-delete i (e ∷ es) (d, ds) = elim (Bool-cases (e.id == i)) [
    | inl b ↦ rw b (Distinct-delete i es ds)
    | inr b ↦ rw b (lookup-delete-none e.id i es d, Distinct-delete i es ds)
  ]

  lookup-delete_here : (i : ℕ) (es : List (Entry F)) → lookup i (delete i es) ≡ none
  unfolding lookup delete
  lookup-delete_here i [] = refl
  lookup-delete_here i (e ∷ es) = elim (Bool-cases (e.id == i)) [
    | inl b ↦ rw b (lookup-delete_here i es)
    | inr b ↦ rw (b, b) (lookup-delete_here i es)
  ]

  -- An assignment to the map keeps the ids apart, whatever the id is.
  assign-Distinct : (e : Entry F) (es : List (Entry F)) → Distinct es → Distinct (assign e es)
  unfolding assign
  assign-Distinct e es d =
      Distinct-append (delete e.id es) e (lookup-delete_here e.id es) (Distinct-delete e.id es d)

  pub expire-Distinct : (e : Entry F) (es : List (Entry F)) → Distinct es → Distinct (expire e es)
  unfolding expire
  expire-Distinct e es d = elim (Bool-cases (ltb 0 e.period)) [
    | inl b ↦ rw b (Distinct-update e.id es d)
    | inr b ↦ rw b (Distinct-delete e.id es d)
  ]

  lookup-append_new :
      (e : Entry F) (es : List (Entry F))
      → lookup e.id es ≡ none
      → lookup e.id (es ++ e ∷ []) ≡ some e
  unfolding lookup
  lookup-append_new e [] h = rw (==_of_eq e.id e.id refl) refl
  lookup-append_new e (x ∷ es) h =
      let (a, b) = lookup-cons_none e.id x es h in rw a (lookup-append_new e es b)

  pub lookup-assign_here : (e : Entry F) (es : List (Entry F)) → lookup e.id (assign e es) ≡ some e
  unfolding assign
  lookup-assign_here e es = lookup-append_new e (delete e.id es) (lookup-delete_here e.id es)

  pub lookup-here :
      (e : Entry F) (es : List (Entry F)) → Distinct es → Memᴰ e es → lookup e.id es ≡ some e
  unfolding lookup
  lookup-here e [] d m = elim m [ ]
  lookup-here e (x ∷ es) (d, ds) m = elim m [
    | Memᴰ.head p ↦ rw (==_of_eq x.id e.id (ap (λ y. y.id) (sym p))) (ap some (sym p))
    | Memᴰ.tail k ↦
        let rest = lookup-here e es ds k in rw (==_of_ne x.id e.id (λ p. cc (rest, rw p at d))) rest
  ]

  lookup-update_here :
      (i : ℕ) (x : Entry F) (es : List (Entry F))
      → lookup i es ≡ some x
      → lookup i (update i next_tick es) ≡ some (next_tick x)
  unfolding lookup update
  lookup-update_here i x [] h = absurd (cc)
  lookup-update_here i x (e ∷ es) h = elim (lookup-cons_some i e x es h) [
    | inl (b, p) ↦ rw (b, b) (ap (λ y. some (next_tick y)) p)
    | inr (b, p) ↦ rw (b, b) (lookup-update_here i x es p)
  ]

  lookup-update_ne :
      (i j : ℕ) (es : List (Entry F)) → j ≢ i → lookup i (update j next_tick es) ≡ lookup i es
  unfolding lookup update
  lookup-update_ne i j [] h = refl
  lookup-update_ne i j (e ∷ es) h = elim (Bool-cases (e.id == j)) [
    | inl b ↦
        let other = ==_of_ne e.id i (λ p. h (sym (==→eq e.id j b) ∙ p)) in
        rw (b, other) (lookup-update_ne i j es h)
    | inr b ↦ rw b (ap (λ l. if e.id == i then some e else l) (lookup-update_ne i j es h))
  ]

  lookup-delete_ne : (i j : ℕ) (es : List (Entry F)) → j ≢ i → lookup i (delete j es) ≡ lookup i es
  unfolding lookup delete
  lookup-delete_ne i j [] h = refl
  lookup-delete_ne i j (e ∷ es) h = elim (Bool-cases (e.id == j)) [
    | inl b ↦
        let other = ==_of_ne e.id i (λ p. h (sym (==→eq e.id j b) ∙ p)) in
        rw (b, other) (lookup-delete_ne i j es h)
    | inr b ↦ rw b (ap (λ l. if e.id == i then some e else l) (lookup-delete_ne i j es h))
  ]

  pub lookup-expire_ne :
      (i : ℕ) (e : Entry F) (es : List (Entry F)) → e.id ≢ i → lookup i (expire e es) ≡ lookup i es
  unfolding expire
  lookup-expire_ne i e es h = elim (Bool-cases (ltb 0 e.period)) [
    | inl b ↦ rw b (lookup-update_ne i e.id es h)
    | inr b ↦ rw b (lookup-delete_ne i e.id es h)
  ]

  -- What firing leaves of an entry: a ticker one period later, and nothing of a timer.
  abbrev pub left_over : Entry F → Option (Entry F)
  left_over e =
      if ltb 0 e.period
      then some (record e { deadline = e.deadline + e.period; ticks = e.ticks + 1 })
      else none

  pub lookup-expire_here :
      (e : Entry F) (es : List (Entry F))
      → lookup e.id es ≡ some e
      → lookup e.id (expire e es) ≡ left_over e
  unfolding expire
  lookup-expire_here e es h = elim (Bool-cases (ltb 0 e.period)) [
    | inl b ↦ rw b (lookup-update_here e.id e es h)
    | inr b ↦ rw b (lookup-delete_here e.id es)
  ]
