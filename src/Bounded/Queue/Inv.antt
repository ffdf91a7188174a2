-- ===== src/Bounded/Queue/Inv.antt =====
-- internal/bounded/queue.go: the invariant of the queue, and each operation on the items held.
use mathlib.Core.Path.{subst}
use mathlib.Core.Option.{some-injective}
use red_mpudp.Prelude.{
  tabulate-zero, ℕ, ◌+◌, ◌^◌, ◌≤◌, ◌<◌, ◌≡◌, refl, sym, ap, ◌∙◌, ◌⊎◌, inl, inr, Bool, true, false,
  List, [], ◌∷◌, ◌++◌, Option, none, some, arith, length, Bool-cases, ==_of_ne, Option-cases, ◌≢◌,
  ltb, ◌==◌, if◌then◌else◌,
}
use red_mpudp.Prelude.Int.{pos}
use red_mpudp.Bounded.Fifo
use red_mpudp.Bounded.Ring
use red_mpudp.Bounded.Ring.{Ring, add_int}
use red_mpudp.Bounded.Ring.Inv
use red_mpudp.Bounded.Ring.Inv.{
  max_cap, push-IsValid, remove_oldest-IsValid, new_ring-IsValid, new_ring_lem,
}
use red_mpudp.Bounded.Ring.Refine.{contents, push_refines, pop_cases, length-contents}
use red_mpudp.Bounded.Queue.{
  ByteQueue, QueueItem, QueueError, queue_full_packets, queue_full_bytes, item_too_large, no_item,
  sub_int, enqueue, refusal, admit, enqueue_sized, dequeue, new_byte_queue,
}

-- The guards of `Enqueue` in exact sums.
refusal_lem :
    (full : Bool) (max_bytes cur_bytes s : ℕ)
    → max_bytes < 2 ^ 62
    → cur_bytes ≤ max_bytes
    → s < 2 ^ 63
    → refusal full max_bytes cur_bytes s ≡ (
        if ltb max_bytes s
        then some item_too_large
        else if full
        then some queue_full_packets
        else if ltb max_bytes (cur_bytes + s)
        then some queue_full_bytes
        else none)
unfolding refusal
refusal_lem full m c s small within h = ground arith

room_of_refusal :
    (full : Bool) (max_bytes cur_bytes s : ℕ)
    → max_bytes < 2 ^ 62
    → cur_bytes ≤ max_bytes
    → s < 2 ^ 63
    → refusal full max_bytes cur_bytes s ≡ none
    → (full ≡ false) × (cur_bytes + s ≤ max_bytes) × (add_int cur_bytes s ≡ cur_bytes + s)
unfolding refusal
room_of_refusal full m c s small within h e = ground arith

module _ {ℓ} {A : Type ℓ} where
  -- The serialized size of the items.
  unfoldable pub total : List (QueueItem A) → ℕ
  total [] = 0
  total (x ∷ xs) = x.bytes + total xs

  pub total-append : (xs ys : List (QueueItem A)) → total (xs ++ ys) ≡ total xs + total ys
  unfolding total
  total-append [] ys = omega arith
  total-append (x ∷ xs) ys = omega (arith, total-append xs ys)

total_one {ℓ} : {A : Type ℓ} (x : QueueItem A) → total (x ∷ []) ≡ x.bytes
unfolding total
total_one x = omega arith

pub total-cons {ℓ} :
    {A : Type ℓ} (x : QueueItem A) (xs : List (QueueItem A)) → total (x ∷ xs) ≡ x.bytes + total xs
unfolding total
total-cons x xs = refl

error-admit {ℓ} :
    {A : Type ℓ} (z : A) (q : ByteQueue A) (x : QueueItem A) (o : Option QueueError)
    → (admit z q x o).1 ≡ o
unfolding admit
error-admit z q x none = refl
error-admit z q x (some e) = refl

module _ {ℓ} {A : Type ℓ} (z : A) where
  abbrev pub held : ByteQueue A → List (QueueItem A)
  held q = contents (no_item z) q.items

  -- The byte count is the size of what the queue holds, and within the budget. The budget is below
  -- 2^62, so that no sum of sizes overflows an `int`.
  pub record IsValid (q : ByteQueue A) : Type 0 where
    pub ring : Ring.Inv.IsValid q.items
    pub exact : q.cur_bytes ≡ total (held q)
    pub within : q.cur_bytes ≤ q.max_bytes
    pub small : q.max_bytes < 2 ^ 62

  -- Whether the ring is full, seen by what the queue holds.
  full_lem :
      (q : ByteQueue A) → IsValid q → Ring.is_full q.items ≡ (length (held q) == length q.items.buf)
  unfolding Ring.is_full
  full_lem q v = rw (length-contents (no_item z) q.items v.ring)

  -- An item at the FIFO's end, when the ring has room.
  held-push :
      (q : ByteQueue A) (x : QueueItem A)
      → IsValid q
      → Ring.is_full q.items ≡ false
      → contents (no_item z) (Ring.push q.items x).0 ≡ held q ++ (x ∷ [])
  held-push q x v spare =
      let spare' = sym (full_lem q v) ∙ spare in
      ap (λ p. p.0) (push_refines (no_item z) q.items x v.ring) ∙ unfold Fifo.push in rw spare'

  -- With no error the item is appended and the queue stays valid; with an error nothing changes.
  abbrev pub Outcome : ByteQueue A → QueueItem A → ByteQueue A × Option QueueError → Type ℓ
  Outcome q x out =
      ((out.1 ≡ none) × (held out.0 ≡ held q ++ (x ∷ [])) × IsValid out.0)
      ⊎ ((out.1 ≢ none) × (out.0 ≡ q))

  module _ (q : ByteQueue A) (x : A) (s now : ℕ) (v : IsValid q) (fits : s < 2 ^ 63) where
    abbrev item : QueueItem A
    item = record { value = x; bytes = s; enqueued = now }

    -- The error of `Enqueue` on a valid queue is the first of: the item is larger than the whole budget,
    -- as many items as the packet limit are held, the size of all items would pass the budget.
    pub enqueue_sized-error : (enqueue_sized z q x s now).1 ≡ (
        if ltb q.max_bytes s
        then some item_too_large
        else if length (held q) == length q.items.buf
        then some queue_full_packets
        else if ltb q.max_bytes (total (held q) + s)
        then some queue_full_bytes
        else none)
    unfolding enqueue_sized
    enqueue_sized-error =
        error-admit z q item (refusal (Ring.is_full q.items) q.max_bytes q.cur_bytes s)
        ∙ rw (← full_lem q v, ← v.exact)
            (refusal_lem (Ring.is_full q.items) q.max_bytes q.cur_bytes s v.small v.within fits)

    admit_lem :
        (o : Option QueueError)
        → refusal (Ring.is_full q.items) q.max_bytes q.cur_bytes s ≡ o
        → Outcome q item (admit z q item o)
    unfolding admit
    admit_lem (some e) h = inr ((λ p. cc), refl)
    admit_lem none h =
        let (spare, fits_in, sum) = room_of_refusal _ _ _ s v.small v.within fits h in
        let end = held-push q item v spare in
        inl (
          refl,
          end,
          record {
            ring = push-IsValid q.items item v.ring;
            exact = omega (
              arith,
              v.exact,
              sum,
              ap total end,
              total-append (held q) (item ∷ []),
              total_one item,
            );
            within = omega arith;
            small = v.small;
          },
        )

    -- With no error the item is appended and the queue stays valid; with an error nothing changes.
    pub enqueue_sized_lem : Outcome q item (enqueue_sized z q x s now)
    unfolding enqueue_sized
    enqueue_sized_lem = admit_lem (refusal (Ring.is_full q.items) q.max_bytes q.cur_bytes s) refl

  -- `Enqueue` of a positive size on a valid queue returns. Its error is the first of: the item is larger
  -- than the whole budget, as many items as the packet limit are held, the size of all items would pass
  -- the budget. With no error the item is appended and the queue stays valid; with an error nothing
  -- changes.
  pub enqueue_lem :
      (q : ByteQueue A) (x : A) (s now : ℕ)
      → IsValid q
      → 0 < s
      → s < 2 ^ 63
      → (out : ByteQueue A × Option QueueError) × (enqueue z q x (pos s) now ≡ some out)
        × (out.1 ≡ (
            if ltb q.max_bytes s
            then some item_too_large
            else if length (held q) == length q.items.buf
            then some queue_full_packets
            else if ltb q.max_bytes (total (held q) + s)
            then some queue_full_bytes
            else none))
        × Outcome q (record { value = x; bytes = s; enqueued = now }) out
  unfolding enqueue
  enqueue_lem q x s now v positive fits = (
    enqueue_sized z q x s now,
    rw (==_of_ne s 0 (omega arith)),
    enqueue_sized-error q x s now v fits,
    enqueue_sized_lem q x s now v fits,
  )

  -- The queue after its oldest item is taken away.
  abbrev pub shortened : ByteQueue A → Ring (QueueItem A) → QueueItem A → ByteQueue A
  shortened q r x = record q { items = r; cur_bytes = sub_int q.cur_bytes x.bytes }

  pub shortened-IsValid :
      (q : ByteQueue A) (x : QueueItem A) (r : Ring (QueueItem A))
      → IsValid q
      → Ring.Inv.IsValid r
      → held q ≡ x ∷ contents (no_item z) r
      → IsValid (shortened q r x) × (q.cur_bytes ≡ x.bytes + (shortened q r x).cur_bytes)
  shortened-IsValid q x r v w e =
      let sizes : q.cur_bytes ≡ x.bytes + total (contents (no_item z) r) =
        v.exact ∙ ap total e ∙ total-cons x _ in
      (
        record {
          ring = w;
          exact = omega (arith, v.within, v.small);
          within = omega (arith, v.within, v.small);
          small = v.small;
        },
        omega (arith, v.within, v.small),
      )

  -- `Dequeue` on a valid queue: from an empty one nothing; else the oldest item, and the byte count falls
  -- by exactly its size. The queue stays valid.
  pub dequeue_lem :
      (q : ByteQueue A)
      → IsValid q
      → let (q', x, ok) = dequeue z q in
        IsValid q'
        × (((held q ≡ []) × (ok ≡ false) × (q' ≡ q))
            ⊎ ((held q ≡ x ∷ held q') × (ok ≡ true) × (q.cur_bytes ≡ x.bytes + q'.cur_bytes)))
  unfolding dequeue
  dequeue_lem q v = elim (pop_cases (no_item z) q.items v.ring) [
    | inl (none_held, p, _) ↦ rw p (v, inl (none_held, refl, refl))
    | inr (some_held, p, _) ↦
        let (w, sizes) =
          shortened-IsValid q _ _ v (remove_oldest-IsValid (no_item z) q.items v.ring) some_held in
        rw p (w, inr (some_held, refl, sizes))
  ]

  fresh-IsValid :
      (packets max_bytes : ℕ) (r : Ring (QueueItem A))
      → packets ≤ max_cap
      → max_bytes < 2 ^ 62
      → Ring.new_ring (no_item z) (pos packets) ≡ some r
      → let q : ByteQueue A = record { items = r; max_bytes = max_bytes; cur_bytes = 0 } in
        IsValid q × (held q ≡ [])
  fresh-IsValid packets max_bytes r h k p =
      let none_held : contents (no_item z) r ≡ [] =
        tabulate-zero _ r.n (new_ring_lem (no_item z) packets r p).1 in
      (
        record {
          ring = new_ring-IsValid (no_item z) packets r h p;
          exact = rw none_held (unfold total in refl);
          within = omega arith;
          small = k;
        },
        none_held,
      )

  -- A queue from `NewByteQueue` is valid and empty.
  pub new_byte_queue-IsValid :
      (packets max_bytes : ℕ) (q : ByteQueue A)
      → packets ≤ max_cap
      → max_bytes < 2 ^ 62
      → new_byte_queue z (pos packets) (pos max_bytes) ≡ some q
      → IsValid q × (held q ≡ [])
  unfolding new_byte_queue
  new_byte_queue-IsValid packets max_bytes q h k e = elim (Bool-cases (max_bytes == 0)) [
    | inl t ↦ let e' : none ≡ some q = rw t at e in cc
    | inr t ↦ elim (Option-cases (Ring.new_ring (no_item z) (pos packets))) [
      | inl p ↦ let e' : none ≡ some q = rw (t, p) at e in cc
      | inr (r, p) ↦
          let e' : some (record { items = r; max_bytes = max_bytes; cur_bytes = 0 }) ≡ some q =
            rw (t, p) at e in
          subst (λ q. IsValid q × (held q ≡ [])) (some-injective _ _ e')
            (fresh-IsValid packets max_bytes r h k p)
    ]
  ]
