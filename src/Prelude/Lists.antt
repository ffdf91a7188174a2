-- ===== src/Prelude/Lists.antt =====
-- Lists measured and indexed by native numbers, under the library's names.
use Prim.Native.Nat.{ℕ, zero, suc, ◌+◌, ◌-◌, ◌<◌}
use mathlib.Core.Path.{◌≡◌, refl, ap, ap₂}
use mathlib.Core.Logic.{◌≢◌, ◌↔◌}
use mathlib.Core.List.{List, [], ◌∷◌, ◌++◌}
use native.Mathlib.Omega.{arith}

module _ {ℓ} {A : Type ℓ} where
  abbrev pub length : List A → ℕ
  length [] = 0
  length (x ∷ xs) = suc (length xs)

  abbrev pub get_or : List A → ℕ → A → A
  get_or [] i d = d
  get_or (x ∷ xs) zero d = x
  get_or (x ∷ xs) (suc i) d = get_or xs i d

  -- A write out of bounds changes nothing.
  abbrev pub set : List A → ℕ → A → List A
  set [] i v = []
  set (x ∷ xs) zero v = v ∷ xs
  set (x ∷ xs) (suc i) v = x ∷ set xs i v

  abbrev pub replicate : ℕ → A → List A
  replicate zero a = []
  replicate (suc n) a = a ∷ replicate n a

  -- A predicate of every element, as nested pairs.
  abbrev pub All {κ} : (A → Type κ) → List A → Type κ
  All P [] = Unit
  All P (x ∷ xs) = P x × All P xs

module _ {ℓ} {A : Type ℓ} where
  pub length-append : (xs ys : List A) → length (xs ++ ys) ≡ length xs + length ys
  length-append [] ys = omega arith
  length-append (x ∷ xs) ys = omega (arith, length-append xs ys)

  pub length-set : (xs : List A) (i : ℕ) (v : A) → length (set xs i v) ≡ length xs
  length-set [] i v = refl
  length-set (x ∷ xs) zero v = refl
  length-set (x ∷ xs) (suc i) v = ap suc (length-set xs i v)

  pub length-replicate : (n : ℕ) (a : A) → length (replicate n a) ≡ n
  length-replicate zero a = refl
  length-replicate (suc n) a = ap suc (length-replicate n a)

  pub get_or-set_self :
      (xs : List A) (i : ℕ) (v d : A) → i < length xs → get_or (set xs i v) i d ≡ v
  get_or-set_self [] i v d h = absurd (omega arith)
  get_or-set_self (x ∷ xs) zero v d h = refl
  get_or-set_self (x ∷ xs) (suc i) v d h = get_or-set_self xs i v d (omega arith)

  pub get_or-set_ne :
      (xs : List A) {i j : ℕ} (v d : A) → i ≢ j → get_or (set xs i v) j d ≡ get_or xs j d
  get_or-set_ne [] v d h = refl
  get_or-set_ne (x ∷ xs) {i = zero} {j = zero} v d h = absurd (h refl)
  get_or-set_ne (x ∷ xs) {i = zero} {j = suc j} v d h = refl
  get_or-set_ne (x ∷ xs) {i = suc i} {j = zero} v d h = refl
  get_or-set_ne (x ∷ xs) {i = suc i} {j = suc j} v d h = get_or-set_ne xs v d (λ e. h (ap suc e))

  -- A concatenation is empty exactly when both parts are.
  pub append-eq_nil : (xs ys : List A) → (xs ++ ys ≡ []) ↔ ((xs ≡ []) × (ys ≡ []))
  append-eq_nil [] ys = (λ h. (refl, h), λ h. h.1)
  append-eq_nil (x ∷ xs) ys = (λ h. cc, λ h. cc)

module _ {ℓ} {A : Type ℓ} where
  -- `f 0 ∷ … ∷ f (n - 1) ∷ []`
  unfoldable pub tabulate : (ℕ → A) → ℕ → List A
  tabulate f zero = []
  tabulate f (suc n) = f 0 ∷ tabulate (λ k. f (suc k)) n

  pub length-tabulate : (f : ℕ → A) (n : ℕ) → length (tabulate f n) ≡ n
  unfolding tabulate
  length-tabulate f zero = refl
  length-tabulate f (suc n) = ap suc (length-tabulate (λ k. f (suc k)) n)

  pub tabulate-ext :
      (f g : ℕ → A) (n : ℕ) → ((k : ℕ) → k < n → f k ≡ g k) → tabulate f n ≡ tabulate g n
  unfolding tabulate
  tabulate-ext f g zero h = refl
  tabulate-ext f g (suc n) h =
      ap₂ ◌∷◌ (h 0 (omega arith))
        (tabulate-ext (λ k. f (suc k)) (λ k. g (suc k)) n (λ k p. h (suc k) (omega arith)))

  -- The first element of a table, and the last.
  pub tabulate-first :
      (f : ℕ → A) (n : ℕ) → 0 < n → tabulate f n ≡ f 0 ∷ tabulate (λ k. f (suc k)) (n - 1)
  unfolding tabulate
  tabulate-first f zero h = absurd (omega arith)
  tabulate-first f (suc n) h = ap (λ m. f 0 ∷ tabulate (λ k. f (suc k)) m) (omega arith)

  pub tabulate-zero : (f : ℕ → A) (n : ℕ) → n ≡ 0 → tabulate f n ≡ []
  unfolding tabulate
  tabulate-zero f zero h = refl
  tabulate-zero f (suc n) h = absurd (omega arith)

  pub tabulate-last : (f : ℕ → A) (n : ℕ) → tabulate f (suc n) ≡ tabulate f n ++ (f n ∷ [])
  unfolding tabulate
  tabulate-last f zero = refl
  tabulate-last f (suc n) = ap (λ l. f 0 ∷ l) (tabulate-last (λ k. f (suc k)) n)

  pub get_or-replicate : (n i : ℕ) (z : A) → get_or (replicate n z) i z ≡ z
  get_or-replicate zero i z = refl
  get_or-replicate (suc n) zero z = refl
  get_or-replicate (suc n) (suc i) z = get_or-replicate n i z
