-- ===== src/Bench/Producers.antt =====
-- The producers of other/4_test_lock_free_queue.cpp, over the calls that they make of their queue.
-- A producer's place is what it does next, with the loop's index and the local `count` where the
-- code has need of it.
use cpp_concurrency_data_str.Base.{
  ℕ, ◌+◌, ◌/◌, Bool, true, false, Option, [], ◌∷◌, ◌++◌, if◌then◌else◌, ltb,
}
use cpp_concurrency_data_str.Bench.{Queue, Shared, Producer, xadd}

-- A queue that says whether it accepted a value.
module _ (Q : Queue) (enqueue : ℕ → Q.State → Bool × Q.State) (s_queue_item_num : ℕ) where
  -- A call of `enqueue`, with its outcome.
  abbrev pub enqueued : ℕ → Shared Q → Bool × Shared Q
  enqueued count h =
      let (done, queue) = enqueue count h.queue in
      (done, record h { queue = queue; given = if done then h.given ++ count ∷ [] else h.given })

  pub data Counted : Type 0 where
    looping : ℕ → Counted
    reading : ℕ → Counted
    enqueuing : ℕ → ℕ → Counted
    left : Counted

  -- The producer counts, then enqueues what the count returned; it does not look at the outcome.
  unfoldable pub count_then_enqueue : Counted → Shared Q → Counted × Shared Q
  count_then_enqueue (looping i) h =
      if ltb i s_queue_item_num
      then (reading i, record h { s_count_push = xadd h.s_count_push 1 })
      else (left, h)
  count_then_enqueue (reading i) h = (enqueuing i h.s_count_push, h)
  count_then_enqueue (enqueuing i count) h = (looping (i + 1), (enqueued count h).1)
  count_then_enqueue left h = (left, h)

  abbrev pub lockfreequeue_producer_thread : Producer Q
  lockfreequeue_producer_thread = record {
    Place = Counted;
    start = looping 0;
    produce = count_then_enqueue;
  }

  pub data Tried : Type 0 where
    enqueuing : ℕ → ℕ → Tried
    adding : ℕ → Tried
    reading : ℕ → Tried
    left : Tried

  -- The producer enqueues until the queue accepts the value, and then counts.
  unfoldable pub enqueue_then_count : Tried → Shared Q → Tried × Shared Q
  enqueue_then_count (enqueuing i count) h =
      if ltb i s_queue_item_num
      then (let (done, h') = enqueued count h in (if done then adding i else enqueuing i count, h'))
      else (left, h)
  enqueue_then_count (adding i) h = (reading i, record h { s_count_push = xadd h.s_count_push 1 })
  enqueue_then_count (reading i) h = (enqueuing (i + 1) h.s_count_push, h)
  enqueue_then_count left h = (left, h)

  abbrev pub arraylockfreequeue_producer_thread : Producer Q
  arraylockfreequeue_producer_thread = record {
    Place = Tried;
    start = enqueuing 0 0;
    produce = enqueue_then_count;
  }

-- The calls of `ypipe_t`: `write` with its flag `incomplete`, `flush` and `read`.
pub record Ypipe : Type 1 where
  pub State : Type 0
  pub write : ℕ → Bool → State → State
  pub flush : State → State × Bool
  pub read : State → State × Option ℕ

abbrev pub queue_of : Ypipe → Queue
queue_of Y = record { State = Y.State; try_dequeue = Y.read }

module _ (Y : Ypipe) (s_queue_item_num : ℕ) where
  abbrev pub written : ℕ → Bool → Shared (queue_of Y) → Shared (queue_of Y)
  written count incomplete h = record h {
    queue = Y.write count incomplete h.queue;
    given = h.given ++ count ∷ [];
  }

  abbrev pub flushed : Shared (queue_of Y) → Shared (queue_of Y)
  flushed h = record h { queue = (Y.flush h.queue).0 }

  pub data Piped : Type 0 where
    writing : ℕ → ℕ → Piped
    adding : ℕ → Piped
    reading : ℕ → Piped
    flushing : ℕ → ℕ → Piped
    left : Piped

  -- Every value is flushed.
  unfoldable pub write_one : Piped → Shared (queue_of Y) → Piped × Shared (queue_of Y)
  write_one (writing i count) h =
      if ltb i s_queue_item_num then (adding i, written count false h) else (left, h)
  write_one (adding i) h = (reading i, record h { s_count_push = xadd h.s_count_push 1 })
  write_one (reading i) h = (flushing (i + 1) h.s_count_push, h)
  write_one (flushing i count) h = (writing i count, flushed h)
  write_one left h = (left, h)

  abbrev pub yqueue_producer_thread : Producer (queue_of Y)
  yqueue_producer_thread = record { Place = Piped; start = writing 0 0; produce = write_one }

  pub data Batched : Type 0 where
    looping : ℕ → ℕ → Batched
    writing : ℕ → ℕ → ℕ → Batched
    adding : ℕ → ℕ → Batched
    reading : ℕ → ℕ → Batched
    flushing : ℕ → ℕ → Batched
    left : Batched

  -- Ten values are flushed together; `k` is how many of the ten have been counted. The tenth is
  -- written with `false`, the others with `true`.
  unfoldable pub write_ten : Batched → Shared (queue_of Y) → Batched × Shared (queue_of Y)
  write_ten (looping i count) h =
      if ltb i (s_queue_item_num / 10) then (adding i 0, written count true h) else (left, h)
  write_ten (writing i k count) h = (adding i k, written count (ltb k 9) h)
  write_ten (adding i k) h = (reading i k, record h { s_count_push = xadd h.s_count_push 1 })
  write_ten (reading i k) h =
      (if ltb k 9 then writing i (k + 1) h.s_count_push else flushing (i + 1) h.s_count_push, h)
  write_ten (flushing i count) h = (looping i count, flushed h)
  write_ten left h = (left, h)

  abbrev pub yqueue_producer_thread_batch : Producer (queue_of Y)
  yqueue_producer_thread_batch = record {
    Place = Batched;
    start = looping 0 0;
    produce = write_ten;
  }
