-- ===== src/Bench.antt =====
-- other/4_test_lock_free_queue.cpp: producer and consumer threads around a queue, which count what
-- goes in and what comes out. A queue of another header is a parameter, each call of it one step;
-- the accesses of the counters are steps of their own. `given` and `taken` record the values that
-- the queue accepted and gave back, in order.
pub mod Producers
pub mod Contract
pub mod Consumes
pub mod Handed
pub mod Keeps
pub mod PipeKeeps
pub mod Leaves
pub mod Exits
pub mod Counts
pub mod Ends
pub mod Drains
pub mod Stops
pub mod Mutex
pub mod Single
pub mod Collide
mod Tests
pub mod Condition
use cpp_concurrency_data_str.Base.{
  ℕ, suc, ◌+◌, ◌*◌, ◌<◌, Bool, Option, none, some, List, [], ◌∷◌, ◌++◌, if◌then◌else◌, update, ltb,
  leb,
}

-- A queue as the consumers see it: `try_dequeue`, `dequeue` or `read`.
pub record Queue : Type 1 where
  pub State : Type 0
  pub try_dequeue : State → State × Option ℕ

-- The file's static variables.
pub record Shared (Q : Queue) : Type 0 where
  pub queue : Q.State
  pub s_count_push : ℕ
  pub s_count_pop : ℕ
  pub given : List ℕ
  pub taken : List ℕ

-- What a producer's function is: where its thread starts, and its next step.
pub record Producer (Q : Queue) : Type 1 where
  pub Place : Type 0
  pub start : Place
  pub produce : Place → Shared Q → Place × Shared Q

-- Where a consumer stands, with its `last_value`, or with `value` once it received one.
pub data Consumer : Type 0 where
  dequeuing : ℕ → Consumer
  counting : ℕ → Consumer
  testing : ℕ → Consumer
  left : ℕ → Consumer

-- The threads' next steps, by the thread's number.
pub data Event : Type 0 where
  produces : ℕ → Event
  consumes : ℕ → Event

-- The locked add of `lxx_atomic_add`; what the function returns is the variable as it is when read
-- again, which is a step of its own.
abbrev pub xadd : ℕ → ℕ → ℕ
xadd counter increment = counter + increment

module _ (Q : Queue) where
  -- What a consumer does with the outcome of its `try_dequeue`.
  abbrev pub received : Option ℕ → ℕ → Shared Q → Consumer × Shared Q
  received none last_value h = (testing last_value, h)
  received (some value) last_value h = (counting value, record h { taken = h.taken ++ value ∷ [] })

  -- A step of a consumer, which leaves when `total` values have been counted.
  unfoldable pub consume : ℕ → Consumer → Shared Q → Consumer × Shared Q
  consume total (dequeuing last_value) h =
      let (queue, value) = Q.try_dequeue h.queue in
      received value last_value (record h { queue = queue })
  consume total (counting value) h =
      (testing value, record h { s_count_pop = xadd h.s_count_pop 1 })
  consume total (testing last_value) h =
      (if leb total h.s_count_pop then left last_value else dequeuing last_value, h)
  consume total (left last_value) h = (left last_value, h)

module _ (Q : Queue) (T : Producer Q) where
  pub record Bench : Type 0 where
    pub shared : Shared Q
    pub producers : ℕ → T.Place
    pub consumers : ℕ → Consumer

  -- `main` resets the counters, and `test_queue` creates the threads.
  abbrev pub make : Q.State → Bench
  make queue = record {
    shared = record { queue = queue; s_count_push = 0; s_count_pop = 0; given = []; taken = [] };
    producers = λ i. T.start;
    consumers = λ j. dequeuing 0;
  }

-- What the threads are started with: `s_queue_item_num`, and how many of them there are.
pub record Settings : Type 0 where
  pub s_queue_item_num : ℕ
  pub s_producer_thread_num : ℕ
  pub s_consumer_thread_num : ℕ

module _ (Q : Queue) (T : Producer Q) (c : Settings) where
  abbrev pub total : ℕ
  total = c.s_queue_item_num * c.s_producer_thread_num

  abbrev pub produced : ℕ → Bench Q T → Bench Q T
  produced i s =
      let (place, h) = T.produce (s.producers i) s.shared in
      record s { shared = h; producers = update s.producers i place }

  abbrev pub consumed : ℕ → Bench Q T → Bench Q T
  consumed j s =
      let (place, h) = consume Q total (s.consumers j) s.shared in
      record s { shared = h; consumers = update s.consumers j place }

  -- Nothing happens for the number of a thread that was not created.
  unfoldable pub happens : Event → Bench Q T → Bench Q T
  happens (produces i) s = if ltb i c.s_producer_thread_num then produced i s else s
  happens (consumes j) s = if ltb j c.s_consumer_thread_num then consumed j s else s

  unfoldable pub run : List Event → Bench Q T → Bench Q T
  run [] s = s
  run (e ∷ es) s = run es (happens e s)
