-- ===== src/Bounded/Fifo.antt =====
-- What internal/bounded/ring.go promises: a FIFO of at most `c` elements, oldest first.
use red_mpudp.Prelude.{ℕ, Bool, true, false, List, [], ◌∷◌, ◌++◌, ◌==◌, if◌then◌else◌, length}

module _ {ℓ} {A : Type ℓ} where
  unfoldable pub push : ℕ → List A → A → List A × Bool
  push c q x = if length q == c then (q, false) else (q ++ (x ∷ []), true)

module _ {ℓ} {A : Type ℓ} (z : A) where
  unfoldable pub peek : List A → A × Bool
  peek [] = (z, false)
  peek (y ∷ q) = (y, true)

  unfoldable pub pop : List A → List A × A × Bool
  pop [] = ([], z, false)
  pop (y ∷ q) = (q, y, true)

  -- At the limit the oldest element makes room.
  unfoldable pub push_evict : ℕ → List A → A → List A × A × Bool
  unfolding pop
  push_evict c q x =
      let (rest, oldest, _) = pop q in
      if length q == c then (rest ++ (x ∷ []), oldest, true) else (q ++ (x ∷ []), z, false)
