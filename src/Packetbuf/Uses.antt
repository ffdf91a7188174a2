-- ===== src/Packetbuf/Uses.antt =====
-- internal/packetbuf/pool.go: the holders of buffers over sequences of calls.
use red_mpudp.Prelude.{
  ℕ, ◌≤◌, ◌≡◌, ◌≢◌, refl, sym, ◌∙◌, ap, Bool, true, false, List, [], ◌∷◌, ◌++◌, Option, none, some,
  inl, inr, ◌==◌, ◌||◌, length, arith, All, Bool-cases, Option-cases, length-set, length-append,
  length-replicate, get_or-set_self, ==→eq, ==→ne,
}
use red_mpudp.Prelude.Int.{ℤ, pos, pos_part, ltb_ℤ}
use red_mpudp.Packetbuf.{
  Free, Pool, buffer, no_buffer, find_class, take_free, handed_out, fresh, get_from, get, put,
  release, write_buffer, resize, is_live, size_classes, max_outer_datagram, new_pool_with_classes,
}
use red_mpudp.Packetbuf.Sizes.{find_class_lem, find_class-size_classes, IsFirstClass}
use red_mpudp.Packetbuf.Owned.{
  IsHeld, IsValid, Elsewhere, Elsewhere-set, Elsewhere-append, IsFree-kept, IsHeld-kept,
  IsHeld-Misses, length-Misses, take_free_lem, get_or-append_length, All-middle,
}

-- `Get` of `n` bytes: a buffer that nobody held, of the first class that is large enough.
abbrev pub Got : ℕ → Pool → Pool → ℕ → Type 0
Got n pool pool' p =
    IsValid pool'
    × IsHeld pool' p
    × (IsHeld pool p → ⊥)
    × (Elsewhere p pool pool' × (pool'.classes ≡ pool.classes))
    × (((buffer pool' p).len ≡ n)
        × IsFirstClass n pool.classes (buffer pool' p).pool_idx (buffer pool' p).class)

get_from-Got :
    (choice n i sz : ℕ) (pool : Pool) (o : Option (ℕ × List Free))
    → take_free i choice pool.free ≡ o
    → IsFirstClass n pool.classes i sz
    → IsValid pool
    → Got n pool (get_from i sz n o pool).0 (get_from i sz n o pool).1
get_from-Got choice n i sz pool none e first (v, d) =
    let new = handed_out i n (fresh sz) in
    let pool' = (get_from i sz n none pool).0 in
    let here : buffer pool' (length pool.heap) ≡ new =
      get_or-append_length pool.heap new no_buffer in
    let misses = length-Misses pool pool.free v in
    let there = Elsewhere-append new pool in
    (
      (IsFree-kept (length pool.heap) pool pool' pool.free there refl misses v, d),
      (
        omega (arith, length-append pool.heap (new ∷ [])),
        ap (λ b. b.released) here,
        ap (λ b. b.pooled) here,
        rw here (sym first.0),
        rw here (length-replicate sz 0),
      ),
      (λ h. omega (arith, h.0)),
      (there, refl),
      (ap (λ b. b.len) here, rw here first),
    )
get_from-Got choice n i sz pool (some (p, rest)) e first (v, d) =
    let ((lt, free, class, size), valid, misses) =
      take_free_lem pool i choice p pool.free rest e v d in
    let new = handed_out i n (buffer pool p) in
    let pool' = (get_from i sz n (some (p, rest)) pool).0 in
    let here : buffer pool' p ≡ new = get_or-set_self pool.heap p new no_buffer lt in
    let there = Elsewhere-set p new rest pool in
    (
      (IsFree-kept p pool pool' rest there refl misses valid.0, valid.1),
      (
        omega (arith, length-set pool.heap p new),
        ap (λ b. b.released) here,
        ap (λ b. b.pooled) here,
        rw here class,
        rw here size,
      ),
      (λ h. absurd (cc (h.1, free))),
      (there, refl),
      (ap (λ b. b.len) here, rw (here, class, first.0) (refl, first.1, first.2)),
    )

got_eq :
    {a b : Pool} {p q : ℕ}
    → ◌≡◌ {A = Option (Pool × ℕ)} (some (a, p)) (some (b, q))
    → (a ≡ b) × (p ≡ q)
got_eq h = (cc, cc)

-- `Get` that returns gives a buffer that nobody held, whose length is the length asked for and whose class
-- is the first that is large enough, and leaves every other buffer as it was.
pub get_lem :
    (choice : ℕ) (n : ℤ) (pool pool' : Pool) (p : ℕ)
    → get choice n pool ≡ some (pool', p)
    → IsValid pool
    → Got (pos_part n) pool pool' p
unfolding get
get_lem choice n pool pool' p h v = elim (Bool-cases (ltb_ℤ n (pos 0))) [
  | inl b ↦ absurd (cc (rw b at h))
  | inr b ↦ elim (Option-cases (find_class (pos_part n) 0 pool.classes)) [
    | inl e ↦ absurd (cc (rw (b, e) at h))
    | inr ((i, sz), e) ↦
        let (a, c) = got_eq (rw (b, e) at h) in
        rw (sym a, sym c)
          (get_from-Got choice (pos_part n) i sz pool (take_free i choice pool.free) refl
            (find_class_lem (pos_part n) i sz pool.classes e) v)
  ]
]

-- On the size classes of the program, `Get` of at most 1560 bytes returns a buffer that nobody held, with
-- the length asked for, of the first class that is large enough; no other buffer changes.
pub get_returns :
    (choice n : ℕ) (pool : Pool)
    → pool.classes ≡ size_classes
    → IsValid pool
    → n ≤ max_outer_datagram
    → (pool' : Pool) × (p : ℕ) × (get choice (pos n) pool ≡ some (pool', p)) × Got n pool pool' p
unfolding get
get_returns choice n pool c v h =
    let (r, e) = find_class-size_classes n h in
    let found : find_class n 0 pool.classes ≡ some r = rw c e in
    let natural : ltb_ℤ (pos n) (pos 0) ≡ false = ground arith in
    let given = get_from r.0 r.1 n (take_free r.0 choice pool.free) pool in
    let out : get choice (pos n) pool ≡ some given = rw (natural, found) refl in
    (given.0, given.1, out, get_lem choice (pos n) pool given.0 given.1 out v)

module _ (debug : Bool) where
  -- `Release` by the holder returns, and the buffer lies in its pool.
  pub release-put :
      (p : ℕ) (pool : Pool)
      → IsHeld pool p
      → release debug p pool ≡ some (put p (buffer pool p) pool)
  unfolding release
  release-put p pool (a, b, c, d, l) = rw (b, c) refl

  put-IsValid :
      (p : ℕ) (pool : Pool) → IsHeld pool p → IsValid pool → IsValid (put p (buffer pool p) pool)
  put-IsValid p pool (a, b, c, d, l) (v, ds) =
      let free = record { index = (buffer pool p).pool_idx; pointer = p } ∷ pool.free in
      let pool' = put p (buffer pool p) pool in
      let x = record (buffer pool p) {
        released = true;
        len = (buffer pool p).class;
        pooled = false;
      } in
      let here : buffer pool' p ≡ x = get_or-set_self pool.heap p x no_buffer a in
      let misses = IsHeld-Misses pool p pool.free b v in
      (
        (
          (
            omega (arith, length-set pool.heap p x),
            ap (λ y. y.released) here,
            rw here d,
            rw here l,
          ),
          IsFree-kept p pool pool' pool.free (Elsewhere-set p x free pool) refl misses v,
        ),
        (misses, ds),
      )

  -- The pool after calls one after the other, and the holders of its buffers: a caller of `Get` holds what
  -- it got, `Resize` is for a holder, and a holder holds no more after `Release`.
  pub data Uses : Pool → List ℕ → Type 0 where
    opened : (classes : List ℕ) → Uses (new_pool_with_classes classes) []
    got :
        {pool pool' : Pool} {held : List ℕ} (choice : ℕ) (n : ℤ) (p : ℕ)
        → Uses pool held
        → get choice n pool ≡ some (pool', p)
        → Uses pool' (p ∷ held)
    resized :
        {pool pool' : Pool} (before later : List ℕ) (p : ℕ) (n : ℤ)
        → Uses pool (before ++ p ∷ later)
        → resize debug p n pool ≡ some pool'
        → Uses pool' (before ++ p ∷ later)
    freed :
        {pool pool' : Pool} (before later : List ℕ) (p : ℕ)
        → Uses pool (before ++ p ∷ later)
        → release debug p pool ≡ some pool'
        → Uses pool' (before ++ later)

  -- Each is held, and none is listed twice.
  abbrev pub AreHeld : Pool → List ℕ → Type 0
  AreHeld pool [] = Unit
  AreHeld pool (p ∷ held) = IsHeld pool p × All (λ q. q ≢ p) held × AreHeld pool held

  AreHeld-kept :
      (p : ℕ) (pool pool' : Pool) (held : List ℕ)
      → Elsewhere p pool pool'
      → pool'.classes ≡ pool.classes
      → All (λ q. q ≢ p) held
      → AreHeld pool held
      → AreHeld pool' held
  AreHeld-kept p pool pool' [] e c m h = tt
  AreHeld-kept p pool pool' (q ∷ held) e c (m, ms) (h, k, hs) =
      (IsHeld-kept p q pool pool' e c m h, k, AreHeld-kept p pool pool' held e c ms hs)

  -- A pointer that is held is not one that is not.
  AreHeld-ne :
      (p : ℕ) (pool : Pool) (held : List ℕ)
      → (IsHeld pool p → ⊥)
      → AreHeld pool held
      → All (λ q. q ≢ p) held
  AreHeld-ne p pool [] n h = tt
  AreHeld-ne p pool (q ∷ held) n (h, k, hs) = ((λ e. n (rw e at h)), AreHeld-ne p pool held n hs)

  AreHeld-middle :
      (p : ℕ) (pool : Pool) (before later : List ℕ)
      → AreHeld pool (before ++ p ∷ later)
      → IsHeld pool p × All (λ q. q ≢ p) (before ++ later) × AreHeld pool (before ++ later)
  AreHeld-middle p pool [] later h = h
  AreHeld-middle p pool (q ∷ before) later (h, k, hs) =
      let (a, b, c) = AreHeld-middle p pool before later hs in
      let (x, y) = All-middle (λ r. r ≢ q) before later p k in (a, ((λ e. x (sym e)), b), (h, y, c))

  AreHeld-all :
      (pool pool' : Pool) (held : List ℕ)
      → ((q : ℕ) → IsHeld pool q → IsHeld pool' q)
      → AreHeld pool held
      → AreHeld pool' held
  AreHeld-all pool pool' [] f h = tt
  AreHeld-all pool pool' (q ∷ held) f (h, k, hs) = (f q h, k, AreHeld-all pool pool' held f hs)

  resize_returned :
      (p : ℕ) (n : ℤ) (pool pool' : Pool)
      → resize debug p n pool ≡ some pool'
      → write_buffer p (record (buffer pool p) { len = pos_part n }) pool ≡ pool'
  unfolding resize
  resize_returned p n pool pool' h = elim (Bool-cases (is_live debug (buffer pool p))) [
    | inl b ↦ elim (Bool-cases (ltb_ℤ n (pos 0) || ltb_ℤ (pos (buffer pool p).class) n)) [
      | inl c ↦ absurd (cc (rw (b, c) at h))
      | inr c ↦ cc (rw (b, c) at h)
    ]
    | inr b ↦ absurd (cc (rw b at h))
  ]

  -- `Resize` of a buffer that is held.
  resized_lem :
      (p len : ℕ) (pool : Pool)
      → IsHeld pool p
      → IsValid pool
      → IsValid (write_buffer p (record (buffer pool p) { len = len }) pool)
        × ((q : ℕ)
            → IsHeld pool q
            → IsHeld (write_buffer p (record (buffer pool p) { len = len }) pool) q)
  resized_lem p len pool (a, b, c, d, l) (v, ds) =
      let x = record (buffer pool p) { len = len } in
      let pool' = write_buffer p x pool in
      let there = Elsewhere-set p x pool.free pool in
      let here : buffer pool' p ≡ x = get_or-set_self pool.heap p x no_buffer a in
      let held : IsHeld pool' p = (
        omega (arith, length-set pool.heap p x),
        ap (λ y. y.released) here ∙ b,
        ap (λ y. y.pooled) here ∙ c,
        rw here d,
        rw here l,
      ) in
      (
        (IsFree-kept p pool pool' pool.free there refl (IsHeld-Misses pool p pool.free b v) v, ds),
        λ q h. elim (Bool-cases (q == p)) [
          | inl e ↦ rw (==→eq q p e) held
          | inr e ↦ IsHeld-kept p q pool pool' there refl (==→ne q p e) h
        ],
      )

  put-AreHeld :
      (p : ℕ) (pool : Pool) (held : List ℕ)
      → All (λ q. q ≢ p) held
      → AreHeld pool held
      → AreHeld (put p (buffer pool p) pool) held
  put-AreHeld p pool held ne h =
      let b = buffer pool p in
      AreHeld-kept p pool (put p b pool) held
        (Elsewhere-set p (record b { released = true; len = b.class; pooled = false })
          (put p b pool).free pool)
        refl ne h

  -- Over any calls in which only a holder resizes or releases a buffer, no two holders hold the same
  -- buffer, what is held lies in no pool, and each pool has a buffer at most once.
  pub Uses-AreHeld :
      {pool : Pool} {held : List ℕ} → Uses pool held → IsValid pool × AreHeld pool held
  Uses-AreHeld (Uses.opened classes) = ((tt, tt), tt)
  Uses-AreHeld (Uses.got {pool} {pool'} {held} choice n p u h) =
      let (v, hs) = Uses-AreHeld u in
      let (valid, mine, others, (there, classes), _) = get_lem choice n pool pool' p h v in
      (
        valid,
        let apart = AreHeld-ne p pool held others hs in
            (mine, apart, AreHeld-kept p pool pool' held there classes apart hs),
      )
  Uses-AreHeld (Uses.resized {pool} {pool'} before later p n u h) =
      let (v, hs) = Uses-AreHeld u in
      let (mine, ne, rest) = AreHeld-middle p pool before later hs in
      let (valid, keeps) = resized_lem p (pos_part n) pool mine v in
      rw (sym (resize_returned p n pool pool' h)) (
        valid,
        AreHeld-all pool (write_buffer p (record (buffer pool p) { len = pos_part n }) pool)
            (before ++ p ∷ later) keeps hs,
      )
  Uses-AreHeld (Uses.freed {pool} {pool'} before later p u h) =
      let (v, hs) = Uses-AreHeld u in
      let (mine, ne, rest) = AreHeld-middle p pool before later hs in
      let done : put p (buffer pool p) pool ≡ pool' = cc (release-put p pool mine, h) in
      rw (sym done) (put-IsValid p pool mine v, put-AreHeld p pool (before ++ later) ne rest)

  -- Its holder's `Release` returns also with the tag `debug`, and puts the buffer into its pool.
  pub Uses-release :
      {pool : Pool} (before later : List ℕ) (p : ℕ)
      → Uses pool (before ++ p ∷ later)
      → release debug p pool ≡ some (put p (buffer pool p) pool)
  Uses-release {pool} before later p u =
      release-put p pool (AreHeld-middle p pool before later (Uses-AreHeld u).1).0
