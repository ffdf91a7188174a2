-- ===== src/Config/Checks/Dedup.antt =====
-- internal/config/validate.go, `checkDedupWindow`: the bits of `n & (n - 1)` and the powers of two.
use Prim.Native.Nat.{min, bit_and, digits, bit_and-bitwise}
use native.Mathlib.Nat.{pow-suc, one-le-pow, pow-le-pow_right}
use native.Mathlib.Decide.{dec_lt, ℕ_discrete}
use red_mpudp.Prelude.{
  ℕ, zero, suc, ◌+◌, ◌-◌, ◌*◌, ◌/◌, ◌%◌, ◌^◌, ◌≤◌, ◌<◌, ◌≡◌, refl, ◌∙◌, sym, ap, ap₂, ◌↔◌, [],
  arith,
}
use red_mpudp.Prelude.Int.{ℤ, pos, negsuc}
use red_mpudp.Config.Checks.{check_dedup_window}

-- The common bits of two numbers, digit by digit, with `n` digits looked at.
abbrev common : ℕ → ℕ → ℕ → ℕ
common n a b = digits (λ x. 0) min n a b

common-zero : (n b : ℕ) → common n 0 b ≡ 0
common-zero zero b = refl
common-zero (suc n) b = refl

-- As many digits as the number itself are enough.
common_enough : (n m a b : ℕ) → a ≤ n → a ≤ m → common n a b ≡ common m a b
common_enough n m zero b h k = common-zero n b ∙ sym (common-zero m b)
common_enough zero m (suc a) b h k = absurd (omega arith)
common_enough (suc n) zero (suc a) b h k = absurd (omega arith)
common_enough (suc n) (suc m) (suc a) b h k =
    let ih = common_enough n m (suc a / 2) (b / 2) (omega arith) (omega arith) in omega (arith, ih)

-- The lowest bit and the rest.
and_halves : (a b : ℕ) → bit_and a b ≡ bit_and (a / 2) (b / 2) * 2 + min (a % 2) (b % 2)
and_halves zero b = omega (arith, bit_and-bitwise 0 b, bit_and-bitwise 0 (b / 2))
and_halves (suc a) b =
    let rest = common_enough a (suc a / 2) (suc a / 2) (b / 2) (omega arith) (omega arith) in
    omega (arith, bit_and-bitwise (suc a) b, bit_and-bitwise (suc a / 2) (b / 2), rest)

-- A number shares all of its bits with itself.
and_self : (fuel a : ℕ) → a ≤ fuel → bit_and a a ≡ a
and_self fuel zero h = refl
and_self zero (suc a) h = absurd (omega arith)
and_self (suc fuel) (suc a) h =
    omega (arith, and_halves (suc a) (suc a), and_self fuel (suc a / 2) (omega arith))

-- With no bit in common with its predecessor a positive number is a power of two.
power_of_and : (fuel n : ℕ) → n ≤ fuel → 0 < n → bit_and n (n - 1) ≡ 0 → (k : ℕ) × (n ≡ 2 ^ k)
power_of_and zero n h pos_n e = absurd (omega arith)
power_of_and (suc fuel) n h pos_n e = elim (ℕ_discrete n 1) [
  | yes one ↦ (0, one)
  | no ne ↦ elim (ℕ_discrete (n % 2) 0) [
    | yes even ↦
        let half : (n - 1) / 2 ≡ n / 2 - 1 = omega arith in
        let halves : bit_and (n / 2) (n / 2 - 1) ≡ 0 =
          omega (arith, and_halves n (n - 1), ap (bit_and (n / 2)) half) in
        let (k, p) = power_of_and fuel (n / 2) (omega arith) (omega arith) halves in
        (suc k, omega (arith, pow-suc 2 k))
    | no odd ↦
        let half : (n - 1) / 2 ≡ n / 2 = omega arith in
        absurd (
          omega (
            arith,
            and_halves n (n - 1),
            ap (bit_and (n / 2)) half,
            and_self (n / 2) (n / 2) (omega arith),
          ))
  ]
]

and_of_power : (k : ℕ) → bit_and (2 ^ k) (2 ^ k - 1) ≡ 0
and_of_power zero = refl
and_of_power (suc k) =
    let grows : 1 ≤ 2 ^ k = one-le-pow k 2 (omega arith) in
    let whole : 2 ^ suc k ≡ 2 ^ k * 2 = pow-suc 2 k in
    let left : 2 ^ suc k / 2 ≡ 2 ^ k = omega arith in
    let right : (2 ^ suc k - 1) / 2 ≡ 2 ^ k - 1 = omega arith in
    omega (arith, and_halves (2 ^ suc k) (2 ^ suc k - 1), ap₂ bit_and left right, and_of_power k)

power_mono : (i j : ℕ) → i ≤ j → 2 ^ i ≤ 2 ^ j
power_mono i j h = pow-le-pow_right {n = 2} (omega arith) {i = i} {j = j} h

-- The powers of two within the bounds of the window.
exponent_range : (k : ℕ) → 4096 ≤ 2 ^ k → 2 ^ k ≤ 1048576 → (12 ≤ k) × (k ≤ 20)
exponent_range k lo hi = (
  elim (dec_lt k 12) [
    | yes h ↦ let p : 2 ^ k ≤ 2 ^ 11 = power_mono k 11 (omega arith) in absurd (omega arith)
    | no h ↦ omega arith
  ],
  elim (dec_lt 20 k) [
    | yes h ↦ let p : 2 ^ 21 ≤ 2 ^ k = power_mono 21 k h in absurd (omega arith)
    | no h ↦ omega arith
  ],
)

window_accepts :
    (n : ℕ)
    → (check_dedup_window (pos n) ≡ []) ↔ ((4096 ≤ n) × (n ≤ 1048576) × (bit_and n (n - 1) ≡ 0))
unfolding check_dedup_window
window_accepts n = ground arith

-- `checkDedupWindow` adds no problem exactly for the powers of two from 2^12 to 2^20.
pub check_dedup_window_iff :
    (n : ℤ) → (check_dedup_window n ≡ []) ↔ ((k : ℕ) × (n ≡ pos (2 ^ k)) × (12 ≤ k) × (k ≤ 20))
check_dedup_window_iff (negsuc n) = unfold check_dedup_window in (λ h. cc, λ h. let c = h.1 in cc)
check_dedup_window_iff (pos n) = (
  λ h.
      let (lo, hi, none_shared) = (window_accepts n).0 h in
      let (k, e) = power_of_and n n (omega arith) (omega arith) none_shared in
      let (a, b) = exponent_range k (omega arith) (omega arith) in (k, ap pos e, a, b),
  λ (k, e, a, b).
      let lo : 2 ^ 12 ≤ 2 ^ k = power_mono 12 k a in
      let hi : 2 ^ k ≤ 2 ^ 20 = power_mono k 20 b in
      rw e ((window_accepts (2 ^ k)).1 (lo, hi, and_of_power k)),
)
