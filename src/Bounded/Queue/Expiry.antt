-- ===== src/Bounded/Queue/Expiry.antt =====
-- internal/bounded/queue.go, `DropExpired`: its loop, and the run of expired items at the head.
use mathlib.Core.List.{append-nil}
use red_mpudp.Prelude.{
  ℕ, zero, suc, ◌+◌, ◌<◌, ◌≡◌, refl, sym, ap, ◌∙◌, inl, inr, true, false, List, [], ◌∷◌, ◌++◌,
  Option, get_or, some, arith, append_assoc, length, Bool-cases, ltb, if◌then◌else◌,
}
use red_mpudp.Bounded.Ring.Refine.{contents, pop_cases, length-contents}
use red_mpudp.Bounded.Ring.Inv.{remove_oldest-IsValid}
use red_mpudp.Bounded.Ring.{remove_oldest}
use red_mpudp.Bounded.Queue.{ByteQueue, QueueItem, no_item, drop_expired, drop_expired_from}
use red_mpudp.Bounded.Queue.Inv.{held, IsValid, shortened, shortened-IsValid}

module _ {ℓ} {A : Type ℓ} where
  -- The items at the head that were enqueued at or before `cutoff`, and what follows them.
  pub expired : ℕ → List (QueueItem A) → List (QueueItem A)
  expired cutoff [] = []
  expired cutoff (x ∷ xs) = if ltb cutoff x.enqueued then [] else x ∷ expired cutoff xs

  pub unexpired : ℕ → List (QueueItem A) → List (QueueItem A)
  unexpired cutoff [] = []
  unexpired cutoff (x ∷ xs) = if ltb cutoff x.enqueued then x ∷ xs else unexpired cutoff xs

  pub expired-append-unexpired :
      (cutoff : ℕ) (xs : List (QueueItem A)) → expired cutoff xs ++ unexpired cutoff xs ≡ xs
  unfolding expired unexpired
  expired-append-unexpired cutoff [] = refl
  expired-append-unexpired cutoff (x ∷ xs) = elim (Bool-cases (ltb cutoff x.enqueued)) [
    | inl e ↦ rw e
    | inr e ↦ rw e (ap (λ l. x ∷ l) (expired-append-unexpired cutoff xs))
  ]

  expired-nil : (cutoff : ℕ) → (expired cutoff [] ≡ []) × (unexpired cutoff [] ≡ [])
  unfolding expired unexpired
  expired-nil cutoff = (refl, refl)

  -- The head is late enough: nothing is expired.
  expired-late :
      (cutoff : ℕ) (x : QueueItem A) (xs : List (QueueItem A))
      → ltb cutoff x.enqueued ≡ true
      → (expired cutoff (x ∷ xs) ≡ []) × (unexpired cutoff (x ∷ xs) ≡ x ∷ xs)
  unfolding expired unexpired
  expired-late cutoff x xs e = (rw e, rw e)

  expired-early :
      (cutoff : ℕ) (x : QueueItem A) (xs : List (QueueItem A))
      → ltb cutoff x.enqueued ≡ false
      → (expired cutoff (x ∷ xs) ≡ x ∷ expired cutoff xs)
        × (unexpired cutoff (x ∷ xs) ≡ unexpired cutoff xs)
  unfolding expired unexpired
  expired-early cutoff x xs e = (rw e, rw e)

module _ {ℓ} {A : Type ℓ} (z : A) where
  -- What `DropExpired` returns, after the items dropped before.
  abbrev pub Dropped :
      ByteQueue A → ℕ → List (QueueItem A) → Option (ByteQueue A × List (QueueItem A)) → Type ℓ
  Dropped q cutoff before out =
      (q' : ByteQueue A) × (out ≡ some (q', before ++ expired cutoff (held z q)))
      × (held z q' ≡ unexpired cutoff (held z q))
      × IsValid z q'

  -- The loop stops: nothing at the head is expired.
  Dropped-stop :
      (q : ByteQueue A) (cutoff : ℕ) (before : List (QueueItem A))
      → IsValid z q
      → (expired cutoff (held z q) ≡ []) × (unexpired cutoff (held z q) ≡ held z q)
      → Dropped q cutoff before (some (q, before))
  Dropped-stop q cutoff before v (a, b) = (q, rw (a, append-nil), sym b, v)

  -- The loop has taken one item, and goes on.
  Dropped-next :
      (q t : ByteQueue A) (cutoff : ℕ) (before : List (QueueItem A)) (x : QueueItem A)
      (out : Option (ByteQueue A × List (QueueItem A)))
      → held z q ≡ x ∷ held z t
      → ltb cutoff x.enqueued ≡ false
      → Dropped t cutoff (before ++ (x ∷ [])) out
      → Dropped q cutoff before out
  Dropped-next q t cutoff before x out e early (q', p, h, w) =
      let (a, b) = expired-early cutoff x (held z t) early in
      (
        q',
        p
            ∙ ap (λ l. some (q', l))
                (append_assoc before (x ∷ []) (expired cutoff (held z t))
                  ∙ ap (λ l. before ++ l) (sym a ∙ ap (expired cutoff) (sym e))),
        h ∙ sym b ∙ ap (unexpired cutoff) (sym e),
        w,
      )

  drop_expired_from_lem :
      (fuel : ℕ) (q : ByteQueue A) (cutoff : ℕ) (before : List (QueueItem A))
      → IsValid z q
      → length (held z q) < fuel
      → Dropped q cutoff before (drop_expired_from z fuel q cutoff before)
  unfolding drop_expired_from
  drop_expired_from_lem zero q cutoff before v h = absurd (omega arith)
  drop_expired_from_lem (suc fuel) q cutoff before v h =
      elim (pop_cases (no_item z) q.items v.ring) [
        | inl (none_held, p, k) ↦
            rw (k) (Dropped-stop q cutoff before v (rw none_held (expired-nil cutoff)))
        | inr (some_held, p, k) ↦
            let x = get_or q.items.buf q.items.head (no_item z) in
            let r = remove_oldest (no_item z) q.items in
            elim (Bool-cases (ltb cutoff x.enqueued)) [
              | inl late ↦
                  rw (k, late)
                    (Dropped-stop q cutoff before v
                      (rw some_held (expired-late cutoff x (contents (no_item z) r) late)))
              | inr early ↦
                  rw (p, k, early)
                    (Dropped-next q (shortened z q r x) cutoff before x _ some_held early (
                      drop_expired_from_lem fuel (shortened z q r x) cutoff (before ++ (x ∷ []))
                        (shortened-IsValid z q x r v
                          (remove_oldest-IsValid (no_item z) q.items v.ring) some_held).0
                        (omega (arith, ap length some_held))))
            ]
      ]

  -- `DropExpired` on a valid queue returns, and returns exactly the items at the head that were enqueued
  -- at or before the cutoff, in order; the queue keeps the others, in order, and stays valid.
  pub drop_expired_lem :
      (q : ByteQueue A) (cutoff : ℕ)
      → IsValid z q
      → (q' : ByteQueue A) × (drop_expired z q cutoff ≡ some (q', expired cutoff (held z q)))
        × (held z q' ≡ unexpired cutoff (held z q))
        × IsValid z q'
  unfolding drop_expired
  drop_expired_lem q cutoff v =
      drop_expired_from_lem (q.items.n + 1) q cutoff [] v
        (omega (arith, length-contents (no_item z) q.items v.ring))
