-- ===== src/Bounded/Ring/Inv.antt =====
-- internal/bounded/ring.go: the representation invariant and each operation.
use native.Mathlib.Nat.{mod-eq_of_lt, mod-eq-sub-mod}
use red_mpudp.Prelude.{
  ℕ, ◌+◌, ◌-◌, ◌%◌, ◌^◌, ◌≤◌, ◌<◌, ◌≡◌, ◌⊎◌, inl, inr, some, arith, dec_lt, length, set, length-set,
  length-replicate,
}
use red_mpudp.Prelude.Int.{pos}
use red_mpudp.Bounded.Ring.{Ring, add_int, new_ring, push, push_evict, pop, reset, remove_oldest}

-- The largest capacity for which no index sum can overflow an `int`.
abbrev pub max_cap : ℕ
max_cap = 2 ^ 62

pub record IsValid {ℓ} {A : Type ℓ} (r : Ring A) : Type 0 where
  pub positive : 0 < length r.buf
  pub small : length r.buf ≤ max_cap
  pub head_in : r.head < length r.buf
  pub n_in : r.n ≤ length r.buf

-- Where an index that goes round at `c` comes to lie.
pub wrap_cases :
    (h k c : ℕ)
    → h < c
    → k ≤ c
    → ((h + k < c) × ((h + k) % c ≡ h + k)) ⊎ ((c ≤ h + k) × ((h + k) % c + c ≡ h + k))
wrap_cases h k c p q = elim (dec_lt (h + k) c) [
  | yes lt ↦ inl (lt, mod-eq_of_lt lt)
  | no ge ↦ inr (
    omega arith,
    omega (
      arith,
      mod-eq-sub-mod {n = h + k} {m = c} (omega arith),
      mod-eq_of_lt {n = h + k - c} {m = c} (omega arith),
    ),
  )
]

module _ {ℓ} {A : Type ℓ} where
  -- In a valid ring the sums of `Push` and `Pop` are exact.
  pub no_wrap :
      (r : Ring A)
      → IsValid r
      → (add_int r.head r.n ≡ r.head + r.n)
        × (add_int r.n 1 ≡ r.n + 1)
        × (add_int r.head 1 ≡ r.head + 1)
  no_wrap r v = omega arith

  pub push-IsValid : (r : Ring A) (x : A) → IsValid r → IsValid (push r x).0
  unfolding push
  push-IsValid r x v = ground (arith, length-set r.buf (add_int r.head r.n % length r.buf) x)

  pub new_ring-IsValid :
      (z : A) (c : ℕ) (r : Ring A) → c ≤ max_cap → new_ring z (pos c) ≡ some r → IsValid r
  unfolding new_ring
  new_ring-IsValid z c r h e = ground (arith, length-replicate c z)

  -- What `NewRing` returns is empty and has the capacity asked for.
  pub new_ring_lem :
      (z : A) (c : ℕ) (r : Ring A) → new_ring z (pos c) ≡ some r → (length r.buf ≡ c) × (r.n ≡ 0)
  unfolding new_ring
  new_ring_lem z c r e = ground (arith, length-replicate c z)

module _ {ℓ} {A : Type ℓ} (z : A) where
  pub remove_oldest-IsValid : (r : Ring A) → IsValid r → IsValid (remove_oldest z r)
  unfolding remove_oldest
  remove_oldest-IsValid r v = ground (arith, length-set r.buf r.head z)

  pub pop-IsValid : (r : Ring A) → IsValid r → IsValid (pop z r).0
  unfolding pop remove_oldest
  pop-IsValid r v = ground (arith, length-set r.buf r.head z)

  pub push_evict-IsValid : (r : Ring A) (x : A) → IsValid r → IsValid (push_evict z r x).0
  unfolding push_evict remove_oldest
  push_evict-IsValid r x v = ground (
    arith,
    length-set r.buf r.head z,
    length-set r.buf (add_int r.head r.n % length r.buf) x,
    length-set (set r.buf r.head z)
        (add_int (add_int r.head 1 % length r.buf) (r.n - 1) % length (set r.buf r.head z)) x,
  )

  pub reset-IsValid : (r : Ring A) → IsValid r → IsValid (reset z r)
  unfolding reset
  reset-IsValid r v = ground (arith, length-replicate (length r.buf) z)
