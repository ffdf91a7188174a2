-- ===== src/Packetbuf/Owned.antt =====
-- internal/packetbuf/pool.go: who holds a buffer.
use red_mpudp.Prelude.{
  ℕ, zero, suc, ◌<◌, ◌≡◌, ◌≢◌, refl, sym, ◌∙◌, ap, true, false, List, [], ◌∷◌, ◌++◌, Option, some,
  inl, inr, ◌==◌, length, get_or, set, arith, All, Bool-cases, Option-cases, length-set,
  length-append, get_or-set_self, get_or-set_ne, ==→eq,
}
use red_mpudp.Packetbuf.{Buffer, Free, Pool, buffer, no_buffer, take_free, write_buffer}

-- An entry of a pool: a buffer that was released, of the class and the pool that it says.
abbrev pub IsFree : Pool → Free → Type 0
IsFree pool f =
    (f.pointer < length pool.heap)
    × ((buffer pool f.pointer).released ≡ true)
    × ((buffer pool f.pointer).class ≡ get_or pool.classes f.index 0)
    × (length (buffer pool f.pointer).array ≡ (buffer pool f.pointer).class)

-- No entry has this pointer.
abbrev pub Misses : ℕ → List Free → Type 0
Misses p fs = All (λ f. f.pointer ≢ p) fs

abbrev pub Distinct : List Free → Type 0
Distinct [] = Unit
Distinct (f ∷ fs) = Misses f.pointer fs × Distinct fs

-- A buffer that someone holds.
abbrev pub IsHeld : Pool → ℕ → Type 0
IsHeld pool p =
    (p < length pool.heap)
    × ((buffer pool p).released ≡ false)
    × ((buffer pool p).pooled ≡ true)
    × ((buffer pool p).class ≡ get_or pool.classes (buffer pool p).pool_idx 0)
    × (length (buffer pool p).array ≡ (buffer pool p).class)

-- Each buffer lies in the pools at most once, and only when it was released.
abbrev pub IsValid : Pool → Type 0
IsValid pool = All (IsFree pool) pool.free × Distinct pool.free

module _ {ℓ} {A : Type ℓ} where
  get_or-append_lt :
      (xs ys : List A) (i : ℕ) (d : A) → i < length xs → get_or (xs ++ ys) i d ≡ get_or xs i d
  get_or-append_lt [] ys i d h = absurd (omega arith)
  get_or-append_lt (x ∷ xs) ys zero d h = refl
  get_or-append_lt (x ∷ xs) ys (suc i) d h = get_or-append_lt xs ys i d (omega arith)

  pub get_or-append_length : (xs : List A) (y d : A) → get_or (xs ++ y ∷ []) (length xs) d ≡ y
  get_or-append_length [] y d = refl
  get_or-append_length (x ∷ xs) y d = get_or-append_length xs y d

  pub All-middle :
      (P : A → Type 0) (xs ys : List A) (a : A) → All P (xs ++ a ∷ ys) → P a × All P (xs ++ ys)
  All-middle P [] ys a h = h
  All-middle P (x ∷ xs) ys a (h, hs) = let (p, ps) = All-middle P xs ys a hs in (p, (h, ps))

-- The buffers other than this one are as they were.
abbrev pub Elsewhere : ℕ → Pool → Pool → Type 0
Elsewhere p pool pool' =
    (q : ℕ)
    → q ≢ p
    → q < length pool.heap
    → (q < length pool'.heap) × (buffer pool' q ≡ buffer pool q)

pub Elsewhere-set :
    (p : ℕ) (b : Buffer) (free : List Free) (pool : Pool)
    → Elsewhere p pool (record pool { heap = set pool.heap p b; free = free })
Elsewhere-set p b free pool q ne h =
    (omega (arith, length-set pool.heap p b), get_or-set_ne pool.heap b no_buffer (λ e. ne (sym e)))

pub Elsewhere-append :
    (b : Buffer) (pool : Pool)
    → Elsewhere (length pool.heap) pool (record pool { heap = pool.heap ++ b ∷ [] })
Elsewhere-append b pool q ne h = (
  omega (arith, length-append pool.heap (b ∷ [])),
  get_or-append_lt pool.heap (b ∷ []) q no_buffer h,
)

pub IsFree-kept :
    (p : ℕ) (pool pool' : Pool) (fs : List Free)
    → Elsewhere p pool pool'
    → pool'.classes ≡ pool.classes
    → Misses p fs
    → All (IsFree pool) fs
    → All (IsFree pool') fs
IsFree-kept p pool pool' [] e c m h = tt
IsFree-kept p pool pool' (f ∷ fs) e c (m, ms) ((a, b, d, l), hs) =
    let (lt, same) = e f.pointer m a in
    (
      (
        lt,
        ap (λ x. x.released) same ∙ b,
        ap (λ x. x.class) same ∙ d ∙ ap (λ l. get_or l f.index 0) (sym c),
        rw same l,
      ),
      IsFree-kept p pool pool' fs e c ms hs,
    )

pub IsHeld-kept :
    (p q : ℕ) (pool pool' : Pool)
    → Elsewhere p pool pool'
    → pool'.classes ≡ pool.classes
    → q ≢ p
    → IsHeld pool q
    → IsHeld pool' q
IsHeld-kept p q pool pool' e c ne (a, b, d, k, l) =
    let (lt, same) = e q ne a in
    (
      lt,
      ap (λ x. x.released) same ∙ b,
      ap (λ x. x.pooled) same ∙ d,
      ap (λ x. x.class) same
          ∙ k
          ∙ ap (λ x. get_or pool.classes x.pool_idx 0) (sym same)
          ∙ ap (λ l. get_or l (buffer pool' q).pool_idx 0) (sym c),
      rw same l,
    )

-- A buffer that is held is in no pool.
pub IsHeld-Misses :
    (pool : Pool) (p : ℕ) (fs : List Free)
    → (buffer pool p).released ≡ false
    → All (IsFree pool) fs
    → Misses p fs
IsHeld-Misses pool p [] h k = tt
IsHeld-Misses pool p (f ∷ fs) h ((a, b, c, l), ks) =
    ((λ e. absurd (cc)), IsHeld-Misses pool p fs h ks)

-- Nor is a buffer that is not there yet.
pub length-Misses :
    (pool : Pool) (fs : List Free) → All (IsFree pool) fs → Misses (length pool.heap) fs
length-Misses pool [] k = tt
length-Misses pool (f ∷ fs) ((a, b, c, l), ks) =
    ((λ e. omega (arith, e, a)), length-Misses pool fs ks)

taken_eq :
    {p q : ℕ} {fs gs : List Free}
    → ◌≡◌ {A = Option (ℕ × List Free)} (some (p, fs)) (some (q, gs))
    → (p ≡ q) × (fs ≡ gs)
taken_eq h = (cc, cc)

-- What `sync.Pool` gives: an entry with the index, and the entries without it.
abbrev pub Taken : Pool → ℕ → ℕ → List Free → Type 0
Taken pool i p rest =
    IsFree pool (record { index = i; pointer = p })
    × (All (IsFree pool) rest × Distinct rest)
    × Misses p rest

take_free-Misses :
    (i k p q : ℕ) (fs rest : List Free)
    → take_free i k fs ≡ some (p, rest)
    → Misses q fs
    → (p ≢ q) × Misses q rest
unfolding take_free
take_free-Misses i k p q [] rest h m = absurd (cc)
take_free-Misses i zero p q (f ∷ fs) rest h (m, ms) = elim (Bool-cases (f.index == i)) [
  | inl b ↦ let (e, l) = taken_eq (rw b at h) in (rw (sym e) m, rw (sym l) ms)
  | inr b ↦ absurd (cc (rw b at h))
]
take_free-Misses i (suc k) p q (f ∷ fs) rest h (m, ms) = elim (Option-cases (take_free i k fs)) [
  | inl e ↦ absurd (cc (rw e at h))
  | inr ((r, l), e) ↦
      let (a, b) = take_free-Misses i k r q fs l e ms in
      let (s, t) = taken_eq (rw e at h) in (rw (sym s) a, rw (sym t) (m, b))
]

pub take_free_lem :
    (pool : Pool) (i k p : ℕ) (fs rest : List Free)
    → take_free i k fs ≡ some (p, rest)
    → All (IsFree pool) fs
    → Distinct fs
    → Taken pool i p rest
unfolding take_free
take_free_lem pool i k p [] rest h v d = absurd (cc)
take_free_lem pool i zero p (f ∷ fs) rest h (v, vs) (d, ds) = elim (Bool-cases (f.index == i)) [
  | inl b ↦
      let (e, l) = taken_eq (rw b at h) in
      rw (sym e, sym l, sym (==→eq f.index i b)) (v, (vs, ds), d)
  | inr b ↦ absurd (cc (rw b at h))
]
take_free_lem pool i (suc k) p (f ∷ fs) rest h (v, vs) (d, ds) =
    elim (Option-cases (take_free i k fs)) [
      | inl e ↦ absurd (cc (rw e at h))
      | inr ((r, l), e) ↦
          let (a, (b, c), m) = take_free_lem pool i k r fs l e vs ds in
          let (ne, misses) = take_free-Misses i k r f.pointer fs l e d in
          let (s, t) = taken_eq (rw e at h) in
          rw (sym s, sym t) (a, ((v, b), (misses, c)), ((λ q. ne (sym q)), m))
    ]

-- What a holder may make of its buffer.
abbrev pub IsLike : Buffer → Buffer → Type 0
IsLike b x =
    (x.released ≡ b.released)
    × (x.pooled ≡ b.pooled)
    × (x.class ≡ b.class)
    × (x.pool_idx ≡ b.pool_idx)
    × (length x.array ≡ length b.array)

-- The buffer after a write of it, which its holder still holds.
pub buffer-write_buffer :
    (p : ℕ) (x : Buffer) (pool : Pool) → IsHeld pool p → buffer (write_buffer p x pool) p ≡ x
buffer-write_buffer p x pool h = get_or-set_self pool.heap p x no_buffer h.0

pub write_buffer-IsHeld :
    (p : ℕ) (x : Buffer) (pool : Pool)
    → IsHeld pool p
    → IsLike (buffer pool p) x
    → IsHeld (write_buffer p x pool) p
write_buffer-IsHeld p x pool (a, b, c, d, l) (r, s, t, u, v) =
    let here = buffer-write_buffer p x pool (a, b, c, d, l) in
    (
      omega (arith, length-set pool.heap p x),
      rw here (r ∙ b),
      rw here (s ∙ c),
      rw (here, t, u) d,
      rw (here, v, t) l,
    )
