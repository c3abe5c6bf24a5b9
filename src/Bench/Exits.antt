-- ===== src/Bench/Exits.antt =====
-- When the consumers of other/4_test_lock_free_queue.cpp leave, for each of its queues.
use cpp_concurrency_data_str.Base.{
  ℕ, ◌*◌, ◌/◌, ◌%◌, ◌≡◌, ◌≢◌, refl, Bool, true, Option, none, some, List, [], length, arith,
}
use cpp_concurrency_data_str.BlockQueue
use cpp_concurrency_data_str.BlockQueue.{BlockQueue, Outcome, aborted, got, timed_out, finish}
use cpp_concurrency_data_str.Bench.Contract.{Dequeues, Enqueues, Pipes}
use cpp_concurrency_data_str.Bench.Producers.{
  lockfreequeue_producer_thread, arraylockfreequeue_producer_thread, Ypipe, queue_of,
  yqueue_producer_thread, yqueue_producer_thread_batch,
}
use cpp_concurrency_data_str.Bench.Keeps.{lockfreequeue-Keeps, arraylockfreequeue-Keeps}
use cpp_concurrency_data_str.Bench.PipeKeeps.{yqueue-Keeps, batch-Keeps}
use cpp_concurrency_data_str.Bench.Leaves.{left_lem, left_counted, counted_le}
use cpp_concurrency_data_str.Bench.{
  Queue, Shared, Producer, Bench, Consumer, left, consume, Event, make, Settings, run,
}

-- As many values as the consumers wait for went in, all came out, in the order in which they went
-- in, and were counted.
abbrev pub AllThrough : (Q : Queue) → (Q.State → List ℕ) → ℕ → Shared Q → Type 0
AllThrough Q contents n h =
    (h.s_count_pop ≡ n) × (length h.given ≡ n) × (h.taken ≡ h.given) × (contents h.queue ≡ [])

-- The consumers of the array queue and of the pipe do what that of the other queues does.
abbrev pub arraylockfreequeue_consumer_thread :
    (Q : Queue) → ℕ → Consumer → Shared Q → Consumer × Shared Q
arraylockfreequeue_consumer_thread Q = consume Q

abbrev pub yqueue_consumer_thread :
    (Y : Ypipe) → ℕ → Consumer → Shared (queue_of Y) → Consumer × Shared (queue_of Y)
yqueue_consumer_thread Y = consume (queue_of Y)

abbrev pub yqueue_consumer_thread_yield :
    (Y : Ypipe) → ℕ → Consumer → Shared (queue_of Y) → Consumer × Shared (queue_of Y)
yqueue_consumer_thread_yield Y = consume (queue_of Y)

-- What `main` runs: `test_queue` with the two functions and the counters reset.
module _ (Q : Queue) (enqueue : ℕ → Q.State → Bool × Q.State) (c : Settings) where
  abbrev pub lockfreequeue_run :
      List Event → Q.State → Bench Q (lockfreequeue_producer_thread Q enqueue c.s_queue_item_num)
  lockfreequeue_run es q =
      let T = lockfreequeue_producer_thread Q enqueue c.s_queue_item_num in
      run Q T c es (make Q T q)

  abbrev pub arraylockfreequeue_run :
      List Event
      → Q.State
      → Bench Q (arraylockfreequeue_producer_thread Q enqueue c.s_queue_item_num)
  arraylockfreequeue_run es q =
      let T = arraylockfreequeue_producer_thread Q enqueue c.s_queue_item_num in
      run Q T c es (make Q T q)

module _ (Q : Queue) (contents : Q.State → List ℕ) (law : Dequeues Q contents)
    (enqueue : ℕ → Q.State → Bool × Q.State) (accepts : Enqueues Q contents enqueue)
    (c : Settings) where
  -- The same for every queue that the first kind of producer serves.
  pub lockfreequeue_left :
      (es : List Event) (q : Q.State) (j last_value : ℕ)
      → contents q ≡ []
      → (lockfreequeue_run Q enqueue c es q).consumers j ≡ left last_value
      → AllThrough Q contents
          (c.s_queue_item_num * c.s_producer_thread_num)
          (lockfreequeue_run Q enqueue c es q).shared
  lockfreequeue_left es q j last_value e at =
      left_lem Q contents law (lockfreequeue_producer_thread Q enqueue c.s_queue_item_num) c
        (lockfreequeue-Keeps Q contents enqueue accepts c.s_queue_item_num) es q j last_value e at

  -- For a queue given by `dequeue` and `enqueue`, each call one step, that gives back in order what it
  -- accepted, and that may refuse a value or find nothing: in every schedule of any number of
  -- producers and consumers that starts with the queue empty, once a consumer has left its loop,
  -- exactly `s_queue_item_num` values for each producer have been accepted, all of them have been
  -- taken out in the order in which they were accepted, the queue is empty, and `s_count_pop` is
  -- their number.
  pub arraylockfreequeue_left :
      (es : List Event) (q : Q.State) (j last_value : ℕ)
      → contents q ≡ []
      → (arraylockfreequeue_run Q enqueue c es q).consumers j ≡ left last_value
      → AllThrough Q contents
          (c.s_queue_item_num * c.s_producer_thread_num)
          (arraylockfreequeue_run Q enqueue c es q).shared
  arraylockfreequeue_left es q j last_value e at =
      left_lem Q contents law (arraylockfreequeue_producer_thread Q enqueue c.s_queue_item_num) c
        (arraylockfreequeue-Keeps Q contents enqueue accepts c.s_queue_item_num) es q j last_value e
        at

-- `Dequeue` at the moment when it no longer waits; the consumer tests for the returned 1.
abbrev pub value_of : Outcome ℕ → Option ℕ
value_of aborted = none
value_of (got val) = some val
value_of timed_out = none

abbrev pub s_blockqueue : Queue
s_blockqueue = record {
  State = BlockQueue ℕ;
  try_dequeue = λ q. let (out, q') = finish q in (q', value_of out);
}

abbrev pub block_enqueue : ℕ → BlockQueue ℕ → Bool × BlockQueue ℕ
block_enqueue val q = (true, BlockQueue.enqueue val q)

abbrev pub blockqueue_producer_thread : ℕ → Producer s_blockqueue
blockqueue_producer_thread = lockfreequeue_producer_thread s_blockqueue block_enqueue

blockqueue-Dequeues : Dequeues s_blockqueue (λ q. q.queue)
unfolding finish
blockqueue-Dequeues = record {
  try_dequeue-some = λ q value e. ground arith;
  try_dequeue-none = λ q e. ground arith;
}

blockqueue-Enqueues : Enqueues s_blockqueue (λ q. q.queue) block_enqueue
unfolding BlockQueue.enqueue
blockqueue-Enqueues = record { contents-enqueue = λ value q. refl }

abbrev pub blockqueue_consumer_thread :
    ℕ → Consumer → Shared s_blockqueue → Consumer × Shared s_blockqueue
blockqueue_consumer_thread = consume s_blockqueue

abbrev pub blockqueue_run :
    (c : Settings) → List Event → Bench s_blockqueue (blockqueue_producer_thread c.s_queue_item_num)
blockqueue_run c es = lockfreequeue_run s_blockqueue block_enqueue c es BlockQueue.make

-- With the operations of BlockQueue.h and no `Abort`, in every schedule of any number of producers and
-- consumers, once a consumer has left its loop, exactly `s_queue_item_num` values for each producer
-- have been enqueued, all of them have been dequeued in the order in which they were enqueued, the
-- queue is empty, and `s_count_pop` is their number.
pub blockqueue_left :
    (c : Settings) (es : List Event) (j last_value : ℕ)
    → (blockqueue_run c es).consumers j ≡ left last_value
    → AllThrough s_blockqueue
        (λ q. q.queue)
        (c.s_queue_item_num * c.s_producer_thread_num)
        (blockqueue_run c es).shared
blockqueue_left c es j last_value at =
    lockfreequeue_left s_blockqueue (λ q. q.queue) blockqueue-Dequeues block_enqueue
      blockqueue-Enqueues c es BlockQueue.make j last_value refl at

module _ (Y : Ypipe) (s_queue_item_num : ℕ) where
  -- The `ypipe_t` is run with one producer and one consumer only.
  abbrev pub one_to_one : Settings
  one_to_one = record {
    s_queue_item_num = s_queue_item_num;
    s_producer_thread_num = 1;
    s_consumer_thread_num = 1;
  }

  abbrev pub yqueue_run :
      List Event → Y.State → Bench (queue_of Y) (yqueue_producer_thread Y s_queue_item_num)
  yqueue_run es q =
      let T = yqueue_producer_thread Y s_queue_item_num in
      run (queue_of Y) T one_to_one es (make (queue_of Y) T q)

  abbrev pub batch_run :
      List Event → Y.State → Bench (queue_of Y) (yqueue_producer_thread_batch Y s_queue_item_num)
  batch_run es q =
      let T = yqueue_producer_thread_batch Y s_queue_item_num in
      run (queue_of Y) T one_to_one es (make (queue_of Y) T q)

module _ (Y : Ypipe) (contents : Y.State → List ℕ) (law : Dequeues (queue_of Y) contents)
    (pipes : Pipes Y contents) (s_queue_item_num : ℕ) where
  -- The producer that flushes each value.
  pub yqueue_left :
      (es : List Event) (q : Y.State) (j last_value : ℕ)
      → contents q ≡ []
      → (yqueue_run Y s_queue_item_num es q).consumers j ≡ left last_value
      → AllThrough
          (queue_of Y)
          contents
          (s_queue_item_num * 1)
          (yqueue_run Y s_queue_item_num es q).shared
  yqueue_left es q j last_value e at =
      left_lem (queue_of Y) contents law (yqueue_producer_thread Y s_queue_item_num)
        (one_to_one Y s_queue_item_num) (yqueue-Keeps Y contents pipes s_queue_item_num) es q j
        last_value e at

  -- For a pipe given by `write`, `flush` and `read`, each call one step, that gives back in order what
  -- was written and may also find nothing: when `s_queue_item_num` is no multiple of ten, in no
  -- schedule of the batch producer and the consumer that starts with the pipe empty does the
  -- consumer leave its loop.
  pub batch_never_left :
      (es : List Event) (q : Y.State) (j last_value : ℕ)
      → contents q ≡ []
      → s_queue_item_num % 10 ≢ 0
      → (batch_run Y s_queue_item_num es q).consumers j ≢ left last_value
  batch_never_left es q j last_value e odd at =
      let T = yqueue_producer_thread_batch Y s_queue_item_num in
      let items = 10 * (s_queue_item_num / 10) in
      let keeps = batch-Keeps Y contents pipes s_queue_item_num in
      let c = one_to_one Y s_queue_item_num in
      let (a, b, d) = counted_le (queue_of Y) contents law T c items keeps es q e in
      let l = left_counted (queue_of Y) contents law T c items keeps es q j last_value e at in
      odd (omega arith)
