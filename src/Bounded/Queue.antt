-- ===== src/Bounded/Queue.antt =====
-- internal/bounded/queue.go, the FIFO with a packet limit and a byte budget, on top of the ring.
-- An instant is a number; `now` is what the injected clock's `Now` answers. A Go `int` that takes part in
-- a sum is its 64-bit pattern. `none` is a panic, or a loop that ran out of fuel.
pub mod Inv
pub mod Expiry
use red_mpudp.Prelude.{
  ℕ, zero, suc, ◌+◌, ◌-◌, ◌%◌, ◌^◌, Bool, true, false, List, [], ◌∷◌, ◌++◌, Option, none, some, ltb,
  not, ◌||◌, if◌then◌else◌, ◌==◌,
}
use red_mpudp.Prelude.Int.{ℤ, pos, negsuc}
use red_mpudp.Bounded.Ring
use red_mpudp.Bounded.Ring.{Ring, add_int}

pub data QueueError : Type 0 where
  queue_full_packets queue_full_bytes item_too_large : QueueError

pub record QueueItem {ℓ} (A : Type ℓ) : Type ℓ where
  pub value : A
  pub bytes : ℕ
  pub enqueued : ℕ

pub record ByteQueue {ℓ} (A : Type ℓ) : Type ℓ where
  pub items : Ring (QueueItem A)
  pub max_bytes : ℕ
  pub cur_bytes : ℕ

abbrev pub sub_int : ℕ → ℕ → ℕ
sub_int a b = (a + 2 ^ 64 - b) % 2 ^ 64

-- `a > b` on the bit patterns of two `int`s.
abbrev pub gt_int : ℕ → ℕ → Bool
gt_int a b = ltb ((b + 2 ^ 63) % 2 ^ 64) ((a + 2 ^ 63) % 2 ^ 64)

-- The three guards of `Enqueue`, in order.
unfoldable pub refusal : Bool → ℕ → ℕ → ℕ → Option QueueError
refusal full max_bytes cur_bytes size =
    if gt_int size max_bytes
    then some item_too_large
    else if full
    then some queue_full_packets
    else if gt_int (add_int cur_bytes size) max_bytes
    then some queue_full_bytes
    else none

module _ {ℓ} {A : Type ℓ} (zero_value : A) where
  -- Go's zero value of a queue item.
  abbrev pub no_item : QueueItem A
  no_item = record { value = zero_value; bytes = 0; enqueued = 0 }

  -- The panics of `NewByteQueue`; a nil clock is not modelled, since `now` is always given.
  unfoldable pub new_byte_queue : ℤ → ℤ → Option (ByteQueue A)
  new_byte_queue max_packets (negsuc b) = none
  new_byte_queue max_packets (pos b) =
      if b == 0 then none else elim (Ring.new_ring no_item max_packets) [
        | none ↦ none
        | some r ↦ some (record { items = r; max_bytes = b; cur_bytes = 0 })
      ]

  -- The end of `Enqueue`, after its guards.
  unfoldable pub admit :
      ByteQueue A → QueueItem A → Option QueueError → ByteQueue A × Option QueueError
  admit q item (some e) = (q, some e)
  admit q item none = (
    record q { items = (Ring.push q.items item).0; cur_bytes = add_int q.cur_bytes item.bytes },
    none,
  )

  -- `Enqueue` once `sizeBytes` is known to be positive.
  unfoldable pub enqueue_sized : ByteQueue A → A → ℕ → ℕ → ByteQueue A × Option QueueError
  enqueue_sized q value size now =
      admit q (record { value = value; bytes = size; enqueued = now })
        (refusal (Ring.is_full q.items) q.max_bytes q.cur_bytes size)

  unfoldable pub enqueue : ByteQueue A → A → ℤ → ℕ → Option (ByteQueue A × Option QueueError)
  enqueue q value (negsuc s) now = none
  enqueue q value (pos s) now = if s == 0 then none else some (enqueue_sized q value s now)

  unfoldable pub dequeue : ByteQueue A → ByteQueue A × QueueItem A × Bool
  dequeue q =
      let (r, item, ok) = Ring.pop no_item q.items in
      (
        record q {
          items = r;
          cur_bytes = if ok then sub_int q.cur_bytes item.bytes else q.cur_bytes;
        },
        item,
        ok,
      )

  unfoldable pub peek : ByteQueue A → QueueItem A × Bool
  peek q = Ring.peek no_item q.items

  unfoldable pub drop_oldest : ByteQueue A → ByteQueue A × QueueItem A × Bool
  drop_oldest q = dequeue q

  -- The loop of `DropExpired`. `head.Enqueued.After(cutoff)` is `cutoff < enqueued`.
  unfoldable pub drop_expired_from :
      ℕ → ByteQueue A → ℕ → List (QueueItem A) → Option (ByteQueue A × List (QueueItem A))
  drop_expired_from zero q cutoff dropped = none
  drop_expired_from (suc fuel) q cutoff dropped =
      let (front, ok) = Ring.peek no_item q.items in
      let (r, item, _) = Ring.pop no_item q.items in
      let rest =
        drop_expired_from fuel (record q { items = r; cur_bytes = sub_int q.cur_bytes item.bytes })
          cutoff (dropped ++ (item ∷ [])) in
      if not ok || ltb cutoff front.enqueued then some (q, dropped) else rest

  unfoldable pub drop_expired : ByteQueue A → ℕ → Option (ByteQueue A × List (QueueItem A))
  drop_expired q cutoff = drop_expired_from (q.items.n + 1) q cutoff []

module _ {ℓ} {A : Type ℓ} where
  unfoldable pub len : ByteQueue A → ℕ
  len q = Ring.len q.items

  unfoldable pub bytes : ByteQueue A → ℕ
  bytes q = q.cur_bytes

  unfoldable pub max_packets : ByteQueue A → ℕ
  max_packets q = Ring.cap q.items
