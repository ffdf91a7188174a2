-- ===== src/Packetbuf/Sizes.antt =====
-- internal/packetbuf/pool.go: the size class that `Get` chooses.
use red_mpudp.Prelude.{
  ℕ, zero, suc, ◌+◌, ◌<◌, ◌≤◌, ◌≡◌, refl, List, [], ◌∷◌, Option, none, some, inl, inr, leb, get_or,
  arith, leb→le, leb→lt, Bool-cases, Option-cases, All,
}
use red_mpudp.Packetbuf.{max_outer_datagram, size_classes, find_class}

-- The `j`th class is large enough, and none before it is.
abbrev pub IsFirstClass : ℕ → List ℕ → ℕ → ℕ → Type 0
IsFirstClass n classes j sz =
    (get_or classes j 0 ≡ sz) × (n ≤ sz) × ((m : ℕ) → m < j → get_or classes m 0 < n)

IsFirstClass-cons :
    (n j sz c : ℕ) (classes : List ℕ)
    → c < n
    → IsFirstClass n classes j sz
    → IsFirstClass n (c ∷ classes) (suc j) sz
IsFirstClass-cons n j sz c classes h (a, b, d) = (a, b, before)
  where
    before : (m : ℕ) → m < suc j → get_or (c ∷ classes) m 0 < n
    before zero k = h
    before (suc m) k = d m (omega arith)

abbrev Found : ℕ → List ℕ → ℕ → ℕ × ℕ → Type 0
Found n classes i r = (j : ℕ) × (r.0 ≡ i + j) × IsFirstClass n classes j r.1

abbrev FoundOf : ℕ → List ℕ → ℕ → Option (ℕ × ℕ) → Type 0
FoundOf n classes i none = All (λ c. c < n) classes
FoundOf n classes i (some r) = Found n classes i r

FoundOf-cons :
    (n i c : ℕ) (classes : List ℕ) (o : Option (ℕ × ℕ))
    → c < n
    → FoundOf n classes (suc i) o
    → FoundOf n (c ∷ classes) i o
FoundOf-cons n i c classes none h k = (h, k)
FoundOf-cons n i c classes (some r) h (j, e, f) =
    (suc j, omega arith, IsFirstClass-cons n j r.1 c classes h f)

find_class_from_lem : (n i : ℕ) (classes : List ℕ) → FoundOf n classes i (find_class n i classes)
unfolding find_class
find_class_from_lem n i [] = tt
find_class_from_lem n i (c ∷ classes) = elim (Bool-cases (leb n c)) [
  | inl b ↦ rw b (0, omega arith, (refl, leb→le n c b, λ m h. absurd (omega arith)))
  | inr b ↦ rw b (
      FoundOf-cons n i c classes (find_class n (suc i) classes) (leb→lt n c b)
        (find_class_from_lem n (suc i) classes))
]

pub find_class_lem :
    (n j sz : ℕ) (classes : List ℕ)
    → ◌≡◌ {A = Option (ℕ × ℕ)} (find_class n 0 classes) (some (j, sz))
    → IsFirstClass n classes j sz
find_class_lem n j sz classes h =
    let (k, e, f) = rw h at (find_class_from_lem n 0 classes) in
    let same : j ≡ k = omega (arith, e) in rw same f

-- No class is large enough only when the largest is not.
pub find_class-size_classes :
    (n : ℕ) → n ≤ max_outer_datagram → (r : ℕ × ℕ) × (find_class n 0 size_classes ≡ some r)
find_class-size_classes n h = elim (Option-cases (find_class n 0 size_classes)) [
  | inl e ↦
      let (_, (_, (large, _))) = rw e at (find_class_from_lem n 0 size_classes) in
      absurd (omega arith)
  | inr (r, e) ↦ (r, e)
]
