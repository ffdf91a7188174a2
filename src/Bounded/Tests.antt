-- ===== src/Bounded/Tests.antt =====
-- internal/bounded at concrete inputs.
use red_mpudp.Prelude.{
  ℕ, ◌+◌, ◌≡◌, refl, ◌⊎◌, true, false, List, [], ◌∷◌, Option, none, some, arith, length,
  if◌then◌else◌, ltb, ◌==◌, tabulate,
}
use red_mpudp.Prelude.Int.{pos}
use red_mpudp.Bounded.Ring
use red_mpudp.Bounded.Ring.{Ring, new_ring}
use red_mpudp.Bounded.Ring.Inv
use red_mpudp.Bounded.Ring.Refine.{slot}
use red_mpudp.Bounded.Ring.Run.{
  Op, push_call, push_evict_call, pop_call, peek_call, step, run, fifo_run, run_refines,
  run-IsValid, run_released,
}
use red_mpudp.Bounded.Queue.{
  ByteQueue, QueueItem, QueueError, queue_full_bytes, queue_full_packets, item_too_large, enqueue,
  enqueue_sized, admit, refusal, dequeue, drop_expired,
}
use red_mpudp.Bounded.Queue.Inv.{IsValid, held, total, Outcome, enqueue_lem, dequeue_lem}
use red_mpudp.Bounded.Queue.Expiry.{expired, unexpired, drop_expired_lem}

abbrev fresh : Ring ℕ
fresh = record { buf = 0 ∷ 0 ∷ []; head = 0; n = 0 }

abbrev calls : List (Op ℕ)
calls =
    push_call 5
    ∷ push_call 6
    ∷ push_call 7
    ∷ push_evict_call 8
    ∷ peek_call
    ∷ pop_call
    ∷ pop_call
    ∷ pop_call
    ∷ []

new_ring_two : new_ring {A = ℕ} 0 (pos 2) ≡ some fresh
unfolding new_ring
new_ring_two = refl

run_calls :
    (run {A = ℕ} 0 fresh calls).1
    ≡ (0, true)
      ∷ (0, true)
      ∷ (0, false)
      ∷ (5, true)
      ∷ (6, true)
      ∷ (6, true)
      ∷ (8, true)
      ∷ (0, false)
      ∷ []
unfolding run step Ring.push Ring.push_evict Ring.pop Ring.peek Ring.reset Ring.remove_oldest
run_calls = refl

run_refines_example : (run {A = ℕ} 0 fresh calls).1 ≡ fifo_run 0 2 [] calls
run_refines_example = run_refines 0 2 fresh calls (omega arith) new_ring_two

run-IsValid_example : Ring.Inv.IsValid (run {A = ℕ} 0 fresh calls).0
run-IsValid_example = run-IsValid 0 2 fresh calls (omega arith) new_ring_two

run_released_example : slot {A = ℕ} 0 (run 0 fresh calls).0 1 ≡ 0
unfolding run step Ring.push Ring.push_evict Ring.pop Ring.peek Ring.reset Ring.remove_oldest
run_released_example =
    run_released {A = ℕ} 0 2 fresh calls 1 (omega arith) new_ring_two (omega arith) (omega arith)

abbrev item : ℕ → ℕ → ℕ → QueueItem ℕ
item v b t = record { value = v; bytes = b; enqueued = t }

-- Two items of 60 and 40 bytes, enqueued at 10 and 20, of at most 3 items and 128 bytes.
abbrev filled : ByteQueue ℕ
filled = record {
  items = record { buf = item 1 60 10 ∷ item 2 40 20 ∷ item 0 0 0 ∷ []; head = 0; n = 2 };
  max_bytes = 128;
  cur_bytes = 100;
}

filled-IsValid : IsValid {A = ℕ} 0 filled
unfolding total tabulate
filled-IsValid = record {
  ring = omega arith;
  exact = refl;
  within = omega arith;
  small = omega arith;
}

byte_limit : enqueue {A = ℕ} 0 filled 3 (pos 29) 30 ≡ some (filled, some queue_full_bytes)
unfolding enqueue enqueue_sized admit refusal Ring.is_full
byte_limit = refl

enqueue_lem_example :
    (out : ByteQueue ℕ × Option QueueError) × (enqueue 0 filled 3 (pos 28) 30 ≡ some out)
    × (out.1 ≡ (
        if ltb 128 28
        then some item_too_large
        else if length (held {A = ℕ} 0 filled) == 3
        then some queue_full_packets
        else if ltb 128 (total (held {A = ℕ} 0 filled) + 28)
        then some queue_full_bytes
        else none))
    × Outcome 0 filled (item 3 28 30) out
enqueue_lem_example =
    enqueue_lem {A = ℕ} 0 filled 3 28 30 filled-IsValid (omega arith) (omega arith)

dequeue_lem_example :
    let (q', x, ok) = dequeue {A = ℕ} 0 filled in
    IsValid 0 q'
    × (((held {A = ℕ} 0 filled ≡ []) × (ok ≡ false) × (q' ≡ filled))
        ⊎ ((held {A = ℕ} 0 filled ≡ x ∷ held 0 q') × (ok ≡ true) × (100 ≡ x.bytes + q'.cur_bytes)))
dequeue_lem_example = dequeue_lem {A = ℕ} 0 filled filled-IsValid

drop_expired_lem_example :
    (q' : ByteQueue ℕ) × (drop_expired 0 filled 15 ≡ some (q', expired 15 (held {A = ℕ} 0 filled)))
    × (held 0 q' ≡ unexpired 15 (held {A = ℕ} 0 filled))
    × IsValid 0 q'
drop_expired_lem_example = drop_expired_lem {A = ℕ} 0 filled 15 filled-IsValid

abbrev empty_queue : ByteQueue ℕ
empty_queue = record {
  items = record { buf = item 0 0 0 ∷ item 0 0 0 ∷ []; head = 0; n = 0 };
  max_bytes = 128;
  cur_bytes = 0;
}
