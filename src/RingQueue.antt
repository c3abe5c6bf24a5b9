-- ===== src/RingQueue.antt =====
-- DataStructures/LockFreeQueue.h: `LockFreeQueueCpp11<T>`, a bounded queue on a ring of nodes, run
-- by one thread at a time. A `size_t` is a number below 2 ^ 64, and its arithmetic wraps.
-- `compare_exchange_weak` may fail although the value is the expected one: `spurious` is how often
-- it does so in a call.
pub mod Destroy
pub mod Holds
pub mod Make
pub mod Publish
pub mod Refines
pub mod Release
pub mod Threads
mod Tests
use mathlib.Core.Option
use cpp_concurrency_data_str.Fifo.{Op, put, take, Reply}
use cpp_concurrency_data_str.Base.{
  ℕ, zero, suc, ◌+◌, ◌-◌, ◌*◌, ◌/◌, ◌%◌, ◌^◌, Bool, true, false, Option, none, some, List, [], ◌∷◌,
  bit_and, bit_or, ◌==◌, leb, if◌then◌else◌, update,
}

-- the number of values of a `size_t`
abbrev pub word : ℕ
word = 2 ^ 64

-- `item` is `none` while the node holds raw memory.
pub record Node {ℓ} (A : Type ℓ) : Type ℓ where
  pub item : Option A
  pub tail : ℕ
  pub head : ℕ

pub record RingQueue {ℓ} (A : Type ℓ) : Type ℓ where
  pub capacity_mask : ℕ
  pub nodes : ℕ → Node A
  pub capacity : ℕ
  pub tail : ℕ
  pub head : ℕ

-- for(i; i <= sizeof(void*) * 4; i <<= 1) mask |= mask >> i, on fuel. Six rounds are made from 1.
widen : ℕ → ℕ → ℕ → ℕ
widen zero i mask = mask
widen (suc fuel) i mask =
    let rest = widen fuel (i * 2 % word) (bit_or mask (mask / 2 ^ i)) in
    if leb i 32 then rest else mask

unfoldable pub make {ℓ} : {A : Type ℓ} → ℕ → RingQueue A
unfolding widen
make capacity =
    let mask = widen 7 1 ((capacity + word - 1) % word) in
    record {
      capacity_mask = mask;
      nodes = λ i. record { item = none; tail = i; head = word - 1 };
      capacity = (mask + 1) % word;
      tail = 0;
      head = 0;
    }

module _ {ℓ} {A : Type ℓ} where
  -- size_t subtraction wraps
  unfoldable pub size : RingQueue A → ℕ
  size q = (q.tail + word - q.head) % word

  -- `_queue[ticket & _capacityMask]`
  abbrev pub index : RingQueue A → ℕ → ℕ
  index q ticket = bit_and ticket q.capacity_mask

  abbrev pub node : RingQueue A → ℕ → Node A
  node q ticket = q.nodes (index q ticket)

  abbrev pub set_node : RingQueue A → ℕ → Node A → RingQueue A
  set_node q ticket v = record q { nodes = update q.nodes (index q ticket) v }

  -- What follows a successful exchange of `_tail`: the value is constructed and published.
  unfoldable pub publish : RingQueue A → A → ℕ → RingQueue A
  publish q x tail = set_node q tail (record (node q tail) { item = some x; head = tail })

  -- `none` is a loop that goes on: a failed exchange although none was spurious.
  push_loop : ℕ → RingQueue A → A → ℕ → Option (Bool × RingQueue A)
  push_loop zero q x tail =
      if (node q tail).tail == tail
      then (if q.tail == tail
          then some (true, publish (record q { tail = (tail + 1) % word }) x tail)
          else none)
      else some (false, q)
  push_loop (suc spurious) q x tail =
      let rest = push_loop spurious q x q.tail in
      if (node q tail).tail == tail then rest else some (false, q)

  pub push : ℕ → RingQueue A → A → Option (Bool × RingQueue A)
  unfolding push_loop publish
  push spurious q x = push_loop spurious q x q.tail

  -- What follows a successful exchange of `_head`: the value is read and destroyed, the node freed.
  unfoldable pub release : RingQueue A → ℕ → RingQueue A
  release q head =
      set_node q head (record (node q head) { item = none; tail = (head + q.capacity) % word })

  -- The option is what is assigned to `result`: `none` for a read of raw memory.
  pop_loop : ℕ → RingQueue A → ℕ → Option (Bool × Option A × RingQueue A)
  pop_loop zero q head =
      if (node q head).head == head
      then (if q.head == head
          then some (true, (node q head).item, release (record q { head = (head + 1) % word }) head)
          else none)
      else some (false, none, q)
  pop_loop (suc spurious) q head =
      let rest = pop_loop spurious q q.head in
      if (node q head).head == head then rest else some (false, none, q)

  pub pop : ℕ → RingQueue A → Option (Bool × Option A × RingQueue A)
  unfolding pop_loop release
  pop spurious q = pop_loop spurious q q.head

  -- A caller's requests in order, each with the number of spurious failures that it meets.
  pub run : RingQueue A → List (ℕ × Op A) → Option (List (Reply A))
  run q [] = some []
  run q ((n, put x) ∷ ops) = elim (push n q x) [
    | none ↦ none
    | some (done, q') ↦ Option.map (λ rs. (done, none) ∷ rs) (run q' ops)
  ]
  run q ((n, take) ∷ ops) = elim (pop n q) [
    | none ↦ none
    | some (done, out, q') ↦ Option.map (λ rs. (done, out) ∷ rs) (run q' ops)
  ]
