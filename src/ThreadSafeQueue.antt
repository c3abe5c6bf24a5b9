-- ===== src/ThreadSafeQueue.antt =====
-- DataStructures/ThreadSafeQueue.h: a linked queue with a dummy node at its end, on an explicit
-- heap. Here each operation runs alone, as its mutexes see to; the child Wakeup has the threads that
-- wait. `new` gives the address `fresh`. The private head is a unique_ptr, which owns its node.
pub mod Chain
pub mod Refines
pub mod Wakeup
pub mod Threads
mod Tests
use cpp_concurrency_data_str.Base.{
  ℕ, zero, suc, Bool, true, false, Option, none, some, ◌==◌, if◌then◌else◌, update, ◌>>=◌,
}

abbrev pub Ptr : Type 0
Ptr = ℕ

abbrev pub null : Ptr
null = 0

-- `value` is the shared_ptr `data`, `none` if it is null.
pub record Node {ℓ} (A : Type ℓ) : Type ℓ where
  pub value : Option A
  pub next : Ptr

abbrev pub dummy {ℓ} : {A : Type ℓ} → Node A
dummy = record { value = none; next = null }

abbrev pub Heap {ℓ} : Type ℓ → Type ℓ
Heap A = Ptr → Option (Node A)

pub record Queue {ℓ} (A : Type ℓ) : Type ℓ where
  pub heap : Heap A
  pub head : Ptr
  pub tail : Ptr

module _ {ℓ} {A : Type ℓ} where
  unfoldable pub make : Ptr → Heap A → Queue A
  make fresh h = record { heap = update h fresh (some dummy); head = fresh; tail = fresh }

  -- Both overloads of `push`. `none` is a fault, here and below.
  unfoldable pub push : Ptr → A → Queue A → Option (Queue A)
  push fresh x q = do
    let h = update q.heap fresh (some dummy)
    t ← h q.tail
    some (record q {
      heap = update h q.tail (some (record t { value = some x; next = fresh }));
      tail = fresh;
    })

  unfoldable pub get_tail : Queue A → Ptr
  get_tail q = q.tail

  -- The old node leaves the chain; the caller owns it.
  pop_head : Queue A → Option (Ptr × Queue A)
  pop_head q = do
    n ← q.heap q.head
    some (
      q.head,
      record q { heap = update q.heap q.head (some (record n { next = null })); head = n.next },
    )

  -- The end of the life of a unique_ptr to a node that owns no other.
  free_node : Ptr → Queue A → Queue A
  free_node p q = record q { heap = update q.heap p none }

  -- std::shared_ptr<T> try_pop(): `none` inside is the null pointer.
  unfoldable pub try_pop : Queue A → Option (Option A × Queue A)
  unfolding pop_head free_node get_tail
  try_pop q =
      if q.head == get_tail q
      then some (none, q)
      else do (old, q') ← pop_head q; n ← q'.heap old; some (n.value, free_node old q')

  -- bool try_pop(T& value): the value is moved out of `*head->data` before the node leaves.
  unfoldable pub try_pop_into : Queue A → Option (Option A × Queue A)
  unfolding pop_head free_node get_tail
  try_pop_into q = if q.head == get_tail q then some (none, q) else do
    n ← q.heap q.head
    x ← n.value
    (old, q') ← pop_head q
    some (some x, free_node old q')

  -- The rest of `wait_pop` once `wait_for_data` has returned: no test is made.
  unfoldable pub take_head : Queue A → Option (Option A × Queue A)
  unfolding pop_head free_node
  take_head q = do (old, q') ← pop_head q; n ← q'.heap old; some (n.value, free_node old q')

  unfoldable pub is_empty : Queue A → Bool
  unfolding get_tail
  is_empty q = q.head == get_tail q

  -- The destructor destroys `head`, and with each node the next one. `none` is a fault or a chain
  -- longer than the fuel.
  unfoldable pub destroy : ℕ → Ptr → Heap A → Option (Heap A)
  destroy zero p h = none
  destroy (suc fuel) p h =
      let rest = (do n ← h p; destroy fuel n.next (update h p none)) in
      if p == null then some h else rest
