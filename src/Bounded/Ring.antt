-- ===== src/Bounded/Ring.antt =====
-- internal/bounded/ring.go, the circular buffer. `zero_value` is Go's zero value of the element type.
-- An operation that mutates the ring returns it beside its results. An `int` sum is kept as its 64-bit
-- pattern; under the invariant of `Ring.Inv` no sum reaches the sign bit.
pub mod Inv
pub mod Refine
pub mod Released
pub mod Run
use red_mpudp.Prelude.{
  ℕ, ◌+◌, ◌-◌, ◌%◌, ◌^◌, Bool, true, false, List, Option, none, some, ◌==◌, if◌then◌else◌, length,
  get_or, set, replicate,
}
use red_mpudp.Prelude.Int.{ℤ, pos, negsuc}

pub record Ring {ℓ} (A : Type ℓ) : Type ℓ where
  pub buf : List A
  pub head : ℕ
  pub n : ℕ

-- The sum of two `int`s, as a bit pattern.
abbrev pub add_int : ℕ → ℕ → ℕ
add_int a b = (a + b) % 2 ^ 64

module _ {ℓ} {A : Type ℓ} where
  -- `none` is the panic at a capacity that is not positive.
  unfoldable pub new_ring : A → ℤ → Option (Ring A)
  new_ring zero_value (negsuc c) = none
  new_ring zero_value (pos c) =
      if c == 0 then none else some (record { buf = replicate c zero_value; head = 0; n = 0 })

  abbrev pub cap : Ring A → ℕ
  cap r = length r.buf

  abbrev pub len : Ring A → ℕ
  len r = r.n

  unfoldable pub is_empty : Ring A → Bool
  is_empty r = r.n == 0

  unfoldable pub is_full : Ring A → Bool
  is_full r = r.n == length r.buf

  unfoldable pub push : Ring A → A → Ring A × Bool
  push r v = if r.n == length r.buf then (r, false) else (
    record r { buf = set r.buf (add_int r.head r.n % length r.buf) v; n = add_int r.n 1 },
    true,
  )

module _ {ℓ} {A : Type ℓ} (zero_value : A) where
  -- Reading and removing the oldest element: the same statements in `PushEvict` and `Pop`.
  unfoldable pub remove_oldest : Ring A → Ring A
  remove_oldest r = record r {
    buf = set r.buf r.head zero_value;
    head = add_int r.head 1 % length r.buf;
    n = r.n - 1;
  }

  unfoldable pub push_evict : Ring A → A → Ring A × A × Bool
  push_evict r v =
      let evicted = r.n == length r.buf in
      let r' = if evicted then remove_oldest r else r in
      (
        record r' { buf = set r'.buf (add_int r'.head r'.n % length r'.buf) v; n = add_int r'.n 1 },
        if evicted then get_or r.buf r.head zero_value else zero_value,
        evicted,
      )

  unfoldable pub pop : Ring A → Ring A × A × Bool
  pop r =
      if r.n == 0
      then (r, zero_value, false)
      else (remove_oldest r, get_or r.buf r.head zero_value, true)

  unfoldable pub peek : Ring A → A × Bool
  peek r = if r.n == 0 then (zero_value, false) else (get_or r.buf r.head zero_value, true)

  unfoldable pub reset : Ring A → Ring A
  reset r = record { buf = replicate (length r.buf) zero_value; head = 0; n = 0 }
