-- ===== src/Bounded/Ring/Refine.antt =====
-- internal/bounded/ring.go against a FIFO: the elements that a ring holds, oldest first, each operation
-- on them, and the slots outside of these (`IsReleased`).
use native.Mathlib.Nat.{mod-add-mod, mod-eq_of_lt, add-zero}
use native.Mathlib.Numerals.{add-one}
use red_mpudp.Prelude.{
  ℕ, suc, ◌+◌, ◌-◌, ◌%◌, ◌≤◌, ◌<◌, ◌≡◌, refl, sym, ◌∙◌, ap, ap₂, ◌≢◌, ◌⊎◌, inl, inr, true, false,
  List, [], ◌∷◌, ◌++◌, arith, length, get_or, set, length-set, get_or-set_self, get_or-set_ne,
  tabulate, tabulate-ext, tabulate-first, tabulate-last, tabulate-zero, dec_lt, ==_of_eq, ==_of_ne,
  Bool-cases, tests, length-tabulate, ◌==◌,
}
use red_mpudp.Bounded.Fifo
use red_mpudp.Bounded.Ring.{Ring, push, push_evict, pop, peek, remove_oldest}
use red_mpudp.Bounded.Ring.Inv.{IsValid, no_wrap, wrap_cases, remove_oldest-IsValid}

-- Two distances below `c` that lead from `h` to one index are the same.
wrap_injective : (h j k c : ℕ) → h < c → j < c → k < c → (h + j) % c ≡ (h + k) % c → j ≡ k
wrap_injective h j k c p q r e =
    omega (arith, wrap_cases h j c p (omega arith), wrap_cases h k c p (omega arith))

wrap_in : (h k c : ℕ) → h < c → k ≤ c → (h + k) % c < c
wrap_in h k c p q = omega (arith, wrap_cases h k c p q)

pub wrap_next : (h k c : ℕ) → ((h + 1) % c + k) % c ≡ (h + suc k) % c
wrap_next h k c = mod-add-mod (h + 1) c k ∙ ap (λ m. m % c) (omega arith)

-- The ring after a write just past its last element.
abbrev pub appended {ℓ} : {A : Type ℓ} → Ring A → A → Ring A
appended r x = record r { buf = set r.buf ((r.head + r.n) % length r.buf) x; n = r.n + 1 }

module _ {ℓ} {A : Type ℓ} (z : A) where
  -- The slot `k` places after the oldest element.
  abbrev pub slot : Ring A → ℕ → A
  slot r k = get_or r.buf ((r.head + k) % length r.buf) z

  abbrev pub contents : Ring A → List A
  contents r = tabulate (slot r) r.n

  -- Every slot that holds no element holds the zero value.
  abbrev pub IsReleased : Ring A → Type ℓ
  IsReleased r = (k : ℕ) → r.n ≤ k → k < length r.buf → slot r k ≡ z

  module _ (r : Ring A) (v : IsValid r) where
    -- A write `m` places after the oldest element changes that slot.
    slot-set_self :
        (x : A) (m : ℕ)
        → m < length r.buf
        → get_or (set r.buf ((r.head + m) % length r.buf) x) ((r.head + m) % length r.buf) z ≡ x
    slot-set_self x m h = get_or-set_self r.buf _ x z (wrap_in r.head m _ v.head_in (omega arith))

    -- It changes no other slot.
    pub slot-set_ne :
        (x : A) (m k : ℕ)
        → m < length r.buf
        → k < length r.buf
        → k ≢ m
        → get_or (set r.buf ((r.head + m) % length r.buf) x) ((r.head + k) % length r.buf) z
          ≡ slot r k
    slot-set_ne x m k hm hk ne =
        get_or-set_ne r.buf x z (λ e. ne (sym (wrap_injective r.head m k _ v.head_in hm hk e)))

    pub length-contents : length (contents r) ≡ r.n
    length-contents = length-tabulate (slot r) r.n

    slot-appended_lt :
        (x : A) (k : ℕ) → r.n < length r.buf → k < r.n → slot (appended r x) k ≡ slot r k
    slot-appended_lt x k h p =
        rw length-set (slot-set_ne x r.n k h (omega arith) (λ e. absurd (omega arith)))

    slot-appended_last : (x : A) → r.n < length r.buf → slot (appended r x) r.n ≡ x
    slot-appended_last x h = rw length-set (slot-set_self x r.n h)

    contents-appended :
        (x : A) → r.n < length r.buf → contents (appended r x) ≡ contents r ++ (x ∷ [])
    contents-appended x h = rw add-one (
        tabulate-last (slot (appended r x)) r.n
        ∙ ap₂ (λ l y. l ++ (y ∷ []))
            (tabulate-ext (slot (appended r x)) (slot r) r.n (λ k p. slot-appended_lt x k h p))
            (slot-appended_last x h))

    pub slot-remove_oldest :
        (k : ℕ) → suc k < length r.buf → slot (remove_oldest z r) k ≡ slot r (suc k)
    unfolding remove_oldest
    slot-remove_oldest k h =
        rw (length-set, (no_wrap r v).2, wrap_next)
          (get_or-set_ne r.buf z z
            (λ e. absurd (omega (arith, wrap_cases r.head (suc k) _ v.head_in (omega arith)))))

    -- Taking the oldest element away leaves the others in order.
    pub contents-remove_oldest :
        0 < r.n → contents r ≡ get_or r.buf r.head z ∷ contents (remove_oldest z r)
    unfolding remove_oldest
    contents-remove_oldest h =
        tabulate-first (slot r) r.n h
        ∙ ap₂ ◌∷◌ (rw (add-zero, mod-eq_of_lt v.head_in))
            (tabulate-ext _ _ (r.n - 1) (λ k p. sym (slot-remove_oldest k (omega (arith, v.n_in)))))

    pub room-remove_oldest : (remove_oldest z r).n < length (remove_oldest z r).buf
    unfolding remove_oldest
    room-remove_oldest = rw length-set (omega (arith, v.n_in, v.positive))

    pub push-appended : (x : A) → r.n < length r.buf → push r x ≡ (appended r x, true)
    unfolding push
    push-appended x h = ground (arith, no_wrap r v)

  -- The two tests on a valid ring, as tests of its contents.
  pub full_cases :
      (r : Ring A)
      → IsValid r
      → ((r.n < length r.buf)
          × ((r.n == length r.buf) ≡ false)
          × ((length (contents r) == length r.buf) ≡ false))
        ⊎ (((r.n == length r.buf) ≡ true) × ((length (contents r) == length r.buf) ≡ true))
  full_cases r v = elim (dec_lt r.n (length r.buf)) [
    | yes h ↦ inl (h, ==_of_ne _ _ (omega arith), ==_of_ne _ _ (omega (arith, length-contents r v)))
    | no h ↦ inr (
      ==_of_eq _ _ (omega (arith, v.n_in)),
      ==_of_eq _ _ (omega (arith, v.n_in, length-contents r v)),
    )
  ]

  -- `Push` is the FIFO's: it appends, or refuses at the limit and changes nothing.
  pub push_refines :
      (r : Ring A) (x : A)
      → IsValid r
      → let (r', ok) = push r x in (contents r', ok) ≡ Fifo.push (length r.buf) (contents r) x
  unfolding Fifo.push
  push_refines r x v = elim (full_cases r v) [
    | inl (lt, _, spare) ↦ rw (push-appended r v x lt, spare) (rw (contents-appended r v x lt))
    | inr (full, full') ↦ unfold push in rw (full, full')
  ]

  -- The two cases of `Pop` and `Peek`.
  pub pop_cases :
      (r : Ring A)
      → IsValid r
      → ((contents r ≡ []) × (pop z r ≡ (r, z, false)) × (peek z r ≡ (z, false)))
        ⊎ ((contents r ≡ get_or r.buf r.head z ∷ contents (remove_oldest z r))
            × (pop z r ≡ (remove_oldest z r, get_or r.buf r.head z, true))
            × (peek z r ≡ (get_or r.buf r.head z, true)))
  unfolding pop peek
  pop_cases r v = elim (Bool-cases (r.n == 0)) [
    | inl e ↦ inl (tabulate-zero (slot r) r.n (omega tests), rw e, rw e)
    | inr e ↦ inr (contents-remove_oldest r v (omega tests), rw e, rw e)
  ]

  -- `Pop` is the FIFO's: the oldest element and the rest, or nothing from an empty ring.
  pub pop_refines :
      (r : Ring A)
      → IsValid r
      → let (r', x, ok) = pop z r in (contents r', x, ok) ≡ Fifo.pop z (contents r)
  unfolding pop Fifo.pop
  pop_refines r v = elim (Bool-cases (r.n == 0)) [
    | inl e ↦ rw e (rw (tabulate-zero (slot r) r.n (omega tests)))
    | inr e ↦ rw e (rw (contents-remove_oldest r v (omega tests)))
  ]

  -- `Peek` is the FIFO's.
  pub peek_refines : (r : Ring A) → IsValid r → peek z r ≡ Fifo.peek z (contents r)
  unfolding peek Fifo.peek
  peek_refines r v = elim (Bool-cases (r.n == 0)) [
    | inl e ↦ rw e (rw (tabulate-zero (slot r) r.n (omega tests)))
    | inr e ↦ rw e (rw (contents-remove_oldest r v (omega tests)))
  ]

  -- `PushEvict` is the FIFO's: at the limit the oldest element is dropped and handed back.
  pub push_evict_refines :
      (r : Ring A) (x : A)
      → IsValid r
      → let (r', y, evicted) = push_evict z r x in
        (contents r', y, evicted) ≡ Fifo.push_evict z (length r.buf) (contents r) x
  unfolding push_evict Fifo.push_evict
  push_evict_refines r x v = elim (full_cases r v) [
    | inl (lt, spare, spare') ↦
        rw (spare, spare', (no_wrap r v).0, (no_wrap r v).1) (rw (contents-appended r v x lt))
    | inr (full, full') ↦
        let w = remove_oldest-IsValid z r v in
        rw (full, full', (no_wrap _ w).0, (no_wrap _ w).1)
          (rw
            (
              contents-appended _ w x (room-remove_oldest r v),
              contents-remove_oldest r v (omega (tests, v.positive)),
            )
            (unfold Fifo.pop in refl))
  ]
