-- ===== src/Bounded/Ring/Run.antt =====
-- internal/bounded/ring.go: a client's calls in any order, against the FIFO of Bounded/Fifo.antt.
use red_mpudp.Prelude.{
  ℕ, ◌≡◌, ◌≤◌, ◌<◌, refl, Bool, List, [], ◌∷◌, some, true, length, length-set, set, tabulate-zero,
  ◌%◌, ◌-◌, ap, length-replicate, arith, ap₂, ◌∙◌,
}
use red_mpudp.Prelude.Int.{pos}
use red_mpudp.Bounded.Fifo
use red_mpudp.Bounded.Ring.{
  Ring, add_int, new_ring, push, push_evict, pop, peek, reset, remove_oldest,
}
use red_mpudp.Bounded.Ring.Inv.{
  IsValid, max_cap, new_ring-IsValid, new_ring_lem, push-IsValid, push_evict-IsValid, pop-IsValid,
  reset-IsValid,
}
use red_mpudp.Bounded.Ring.Refine.{
  IsReleased, slot, contents, push_refines, push_evict_refines, pop_refines, peek_refines,
}
use red_mpudp.Bounded.Ring.Released.{
  new_ring-IsReleased, push-IsReleased, push_evict-IsReleased, pop-IsReleased, reset-IsReleased,
}

pub data Op {ℓ} (A : Type ℓ) : Type ℓ where
  push_call : A → Op A
  push_evict_call : A → Op A
  pop_call peek_call reset_call : Op A

-- What a call answers: an element, the zero value where there is none, and a flag.
abbrev pub Reply {ℓ} : Type ℓ → Type ℓ
Reply A = A × Bool

module _ {ℓ} {A : Type ℓ} (z : A) where
  unfoldable pub step : Ring A → Op A → Ring A × Reply A
  step r (push_call x) = let (r', ok) = push r x in (r', (z, ok))
  step r (push_evict_call x) = let (r', y, evicted) = push_evict z r x in (r', (y, evicted))
  step r pop_call = let (r', y, ok) = pop z r in (r', (y, ok))
  step r peek_call = (r, peek z r)
  step r reset_call = (reset z r, (z, true))

  unfoldable pub run : Ring A → List (Op A) → Ring A × List (Reply A)
  run r [] = (r, [])
  run r (o ∷ ops) = let (r', a) = step r o in let (r'', replies) = run r' ops in (r'', a ∷ replies)

  -- The same calls of a FIFO that holds at most `c` elements.
  unfoldable pub fifo_step : ℕ → List A → Op A → List A × Reply A
  fifo_step c q (push_call x) = let (q', ok) = Fifo.push c q x in (q', (z, ok))
  fifo_step c q (push_evict_call x) =
      let (q', y, evicted) = Fifo.push_evict z c q x in (q', (y, evicted))
  fifo_step c q pop_call = let (q', y, ok) = Fifo.pop z q in (q', (y, ok))
  fifo_step c q peek_call = (q, Fifo.peek z q)
  fifo_step c q reset_call = ([], (z, true))

  unfoldable pub fifo_run : ℕ → List A → List (Op A) → List (Reply A)
  fifo_run c q [] = []
  fifo_run c q (o ∷ ops) = let (q', a) = fifo_step c q o in a ∷ fifo_run c q' ops

  step_refines :
      (r : Ring A) (o : Op A)
      → IsValid r
      → let (r', a) = step r o in (contents z r', a) ≡ fifo_step (length r.buf) (contents z r) o
  unfolding step fifo_step
  step_refines r (push_call x) v = ap (λ p. (p.0, (z, p.1))) (push_refines z r x v)
  step_refines r (push_evict_call x) v = ap (λ p. (p.0, (p.1, p.2))) (push_evict_refines z r x v)
  step_refines r pop_call v = ap (λ p. (p.0, (p.1, p.2))) (pop_refines z r v)
  step_refines r peek_call v = ap (λ a. (contents z r, a)) (peek_refines z r v)
  step_refines r reset_call v = unfold reset in ap (λ q. (q, (z, true))) (tabulate-zero _ 0 refl)

  length-step : (r : Ring A) (o : Op A) → length (step r o).0.buf ≡ length r.buf
  unfolding step
  length-step r (push_call x) =
      unfold push in ground (arith, length-set r.buf (add_int r.head r.n % length r.buf) x)
  length-step r (push_evict_call x) =
      unfold push_evict remove_oldest in
      ground (
        arith,
        length-set r.buf r.head z,
        length-set r.buf (add_int r.head r.n % length r.buf) x,
        length-set (set r.buf r.head z)
            (add_int (add_int r.head 1 % length r.buf) (r.n - 1) % length (set r.buf r.head z)) x,
      )
  length-step r pop_call = unfold pop remove_oldest in ground (arith, length-set r.buf r.head z)
  length-step r peek_call = refl
  length-step r reset_call = unfold reset in length-replicate (length r.buf) z

  step-IsValid : (r : Ring A) (o : Op A) → IsValid r → IsValid (step r o).0
  unfolding step
  step-IsValid r (push_call x) v = push-IsValid r x v
  step-IsValid r (push_evict_call x) v = push_evict-IsValid z r x v
  step-IsValid r pop_call v = pop-IsValid z r v
  step-IsValid r peek_call v = v
  step-IsValid r reset_call v = reset-IsValid z r v

  step-IsReleased : (r : Ring A) (o : Op A) → IsValid r → IsReleased z r → IsReleased z (step r o).0
  unfolding step
  step-IsReleased r (push_call x) v h = push-IsReleased z r x v h
  step-IsReleased r (push_evict_call x) v h = push_evict-IsReleased z r x v h
  step-IsReleased r pop_call v h = pop-IsReleased z r v h
  step-IsReleased r peek_call v h = h
  step-IsReleased r reset_call v h = reset-IsReleased z r

  run_keeps :
      (ops : List (Op A)) (r : Ring A)
      → IsValid r
      → IsReleased z r
      → IsValid (run r ops).0 × IsReleased z (run r ops).0
  unfolding run
  run_keeps [] r v h = (v, h)
  run_keeps (o ∷ ops) r v h =
      run_keeps ops (step r o).0 (step-IsValid r o v) (step-IsReleased r o v h)

  run_simulates :
      (ops : List (Op A)) (r : Ring A)
      → IsValid r
      → (run r ops).1 ≡ fifo_run (length r.buf) (contents z r) ops
  unfolding run fifo_run
  run_simulates [] r v = refl
  run_simulates (o ∷ ops) r v =
      rw (run_simulates ops _ (step-IsValid r o v), ← step_refines r o v, length-step)

  -- After any calls on a ring that `NewRing` returned for a capacity up to 2^62, the ring is valid.
  pub run-IsValid :
      (c : ℕ) (r : Ring A) (ops : List (Op A))
      → c ≤ max_cap
      → new_ring z (pos c) ≡ some r
      → IsValid (run r ops).0
  run-IsValid c r ops small e =
      (run_keeps ops r (new_ring-IsValid z c r small e) (new_ring-IsReleased z c r e)).0

  -- After any calls on a ring that `NewRing` returned for a capacity up to 2^62, every slot past the
  -- elements held holds the zero value.
  pub run_released :
      (c : ℕ) (r : Ring A) (ops : List (Op A)) (k : ℕ)
      → c ≤ max_cap
      → new_ring z (pos c) ≡ some r
      → (run r ops).0.n ≤ k
      → k < length (run r ops).0.buf
      → slot z (run r ops).0 k ≡ z
  run_released c r ops k small e =
      (run_keeps ops r (new_ring-IsValid z c r small e) (new_ring-IsReleased z c r e)).1 k

  -- No calls, in any order, tell a ring that `NewRing` returned for a capacity up to 2^62 from an empty
  -- FIFO of that capacity: every call gives the same answer.
  pub run_refines :
      (c : ℕ) (r : Ring A) (ops : List (Op A))
      → c ≤ max_cap
      → new_ring z (pos c) ≡ some r
      → (run r ops).1 ≡ fifo_run c [] ops
  run_refines c r ops small e =
      let (size, none_held) = new_ring_lem z c r e in
      run_simulates ops r (new_ring-IsValid z c r small e)
      ∙ ap₂ (λ k q. fifo_run k q ops) size (tabulate-zero _ r.n none_held)
