-- ===== src/Bounded/Ring/Released.antt =====
-- internal/bounded/ring.go: the slots that hold no element ("release reference so GC can reclaim").
use mathlib.Core.Path.{subst}
use mathlib.Core.Option.{some-injective}
use red_mpudp.Prelude.{
  none, replicate, ℕ, suc, ◌+◌, ◌%◌, ◌<◌, ◌≡◌, ◌∙◌, inl, inr, some, arith, length, length-set,
  get_or-replicate, get_or-set_self, dec_lt, Bool-cases, ◌==◌,
}
use red_mpudp.Prelude.Int.{pos}
use red_mpudp.Bounded.Ring.{Ring, new_ring, push, push_evict, pop, reset, remove_oldest}
use red_mpudp.Bounded.Ring.Inv.{IsValid, no_wrap, wrap_cases, remove_oldest-IsValid}
use red_mpudp.Bounded.Ring.Refine.{
  slot, IsReleased, appended, slot-set_ne, slot-remove_oldest, push-appended, wrap_next, full_cases,
  room-remove_oldest,
}

module _ {ℓ} {A : Type ℓ} (z : A) where
  pub new_ring-IsReleased : (c : ℕ) (r : Ring A) → new_ring z (pos c) ≡ some r → IsReleased z r
  unfolding new_ring
  new_ring-IsReleased c r e k h p = elim (Bool-cases (c == 0)) [
    | inl t ↦ let e' : none ≡ some r = rw t at e in cc
    | inr t ↦
        let e' : some (record { buf = replicate c z; head = 0; n = 0 }) ≡ some r = rw t at e in
        subst (λ s. slot z s k ≡ z) (some-injective _ _ e') (get_or-replicate c _ z)
  ]

  pub reset-IsReleased : (r : Ring A) → IsReleased z (reset z r)
  unfolding reset
  reset-IsReleased r k h p = get_or-replicate (length r.buf) _ z

  appended-IsReleased :
      (r : Ring A) (x : A)
      → IsValid r
      → r.n < length r.buf
      → IsReleased z r
      → IsReleased z (appended r x)
  appended-IsReleased r x v lt h k p q =
      let q' : k < length r.buf = rw length-set at q in
      rw length-set
        (slot-set_ne z r v x r.n k lt q' (λ e. absurd (omega arith)) ∙ h k (omega arith) q')

  goes_round :
      (r : Ring A)
      → IsValid r
      → (k : ℕ) → suc k ≡ length r.buf
      → (r.head + suc k) % length r.buf ≡ r.head
  goes_round r v k e = omega (arith, wrap_cases r.head (suc k) _ v.head_in (omega arith), v.head_in)

  remove_oldest-IsReleased :
      (r : Ring A) → IsValid r → IsReleased z r → IsReleased z (remove_oldest z r)
  unfolding remove_oldest
  remove_oldest-IsReleased r v h k p q = elim (dec_lt (suc k) (length r.buf)) [
    | yes lt ↦ slot-remove_oldest z r v k lt ∙ h (suc k) (omega arith) lt
    | no ge ↦
        let q' : k < length r.buf = rw length-set at q in
        rw (length-set, (no_wrap r v).2, wrap_next)
          (rw (goes_round r v k (omega arith)) (get_or-set_self r.buf r.head z z v.head_in))
  ]

  pub push-IsReleased :
      (r : Ring A) (x : A) → IsValid r → IsReleased z r → IsReleased z (push r x).0
  push-IsReleased r x v h = elim (full_cases z r v) [
    | inl (lt, _, _) ↦ rw (push-appended z r v x lt) (appended-IsReleased r x v lt h)
    | inr (full, _) ↦ unfold push in rw full h
  ]

  pub pop-IsReleased : (r : Ring A) → IsValid r → IsReleased z r → IsReleased z (pop z r).0
  unfolding pop
  pop-IsReleased r v h = elim (Bool-cases (r.n == 0)) [
    | inl e ↦ rw e h
    | inr e ↦ rw e (remove_oldest-IsReleased r v h)
  ]

  pub push_evict-IsReleased :
      (r : Ring A) (x : A) → IsValid r → IsReleased z r → IsReleased z (push_evict z r x).0
  unfolding push_evict
  push_evict-IsReleased r x v h = elim (full_cases z r v) [
    | inl (lt, spare, _) ↦
        rw (spare, (no_wrap r v).0, (no_wrap r v).1) (appended-IsReleased r x v lt h)
    | inr (full, _) ↦
        let w = remove_oldest-IsValid z r v in
        rw (full, (no_wrap _ w).0, (no_wrap _ w).1)
          (appended-IsReleased _ x w (room-remove_oldest z r v) (remove_oldest-IsReleased r v h))
  ]
