-- ===== src/Bench/Condition.antt =====
-- The condition variable of other/4_test_lock_free_queue.cpp: `yqueue_producer_thread_condition` and
-- `yqueue_consumer_thread_condition`, one thread each. A `lock` with the notification or the wait
-- that follows is one step; a wait ends when it is notified, or by itself, as it may.
pub mod Steps
pub mod Asleep
use cpp_concurrency_data_str.Base.{
  ℕ, suc, ◌+◌, Bool, true, false, Option, none, some, List, [], ◌∷◌, if◌then◌else◌, ltb, leb,
}
use cpp_concurrency_data_str.Bench.Producers.{Ypipe}
use cpp_concurrency_data_str.Bench.{xadd}

pub data Producer : Type 0 where
  writing : ℕ → ℕ → Producer
  adding : ℕ → Producer
  reading : ℕ → Producer
  flushing : ℕ → ℕ → Producer
  notifying : ℕ → ℕ → Producer
  ending : Producer
  left : Producer

-- `waiting` is about to lock the mutex and wait, `asleep` is in the wait.
pub data Consumer : Type 0 where
  dequeuing : ℕ → Consumer
  counting : ℕ → Consumer
  waiting : ℕ → Consumer
  asleep : ℕ → Consumer
  testing : ℕ → Consumer
  left : ℕ → Consumer

-- The next step of one of the two threads, or a wait that returns without a notification.
pub data Event : Type 0 where
  produces : Event
  consumes : Event
  wakes : Event

module _ (Y : Ypipe) where
  pub record Conditional : Type 0 where
    pub yqueue : Y.State
    pub s_count_push : ℕ
    pub s_count_pop : ℕ
    pub producer : Producer
    pub consumer : Consumer

  abbrev pub make : Y.State → Conditional
  make q = record {
    yqueue = q;
    s_count_push = 0;
    s_count_pop = 0;
    producer = writing 0 0;
    consumer = dequeuing 0;
  }

  -- `ypipe_cond_.notify_one()`, which nobody hears unless the consumer is in its wait.
  abbrev pub notified : Consumer → Consumer
  notified (asleep last_value) = testing last_value
  notified (dequeuing last_value) = dequeuing last_value
  notified (counting value) = counting value
  notified (waiting last_value) = waiting last_value
  notified (testing last_value) = testing last_value
  notified (left last_value) = left last_value

  abbrev pub notify_one : Conditional → Conditional
  notify_one s = record s { consumer = notified s.consumer }

  module _ (s_queue_item_num : ℕ) where
    unfoldable pub produce : Producer → Conditional → Conditional
    produce (writing i count) s =
        if ltb i s_queue_item_num
        then record s { yqueue = Y.write count false s.yqueue; producer = adding i }
        else record s { producer = ending }
    produce (adding i) s = record s { s_count_push = xadd s.s_count_push 1; producer = reading i }
    produce (reading i) s = record s { producer = flushing (i + 1) s.s_count_push }
    produce (flushing i count) s =
        let (queue, flushed) = Y.flush s.yqueue in
        record s {
          yqueue = queue;
          producer = if flushed then writing i count else notifying i count;
        }
    produce (notifying i count) s = record (notify_one s) { producer = writing i count }
    produce ending s = record (notify_one s) { producer = left }
    produce left s = s

    abbrev pub received : Option ℕ → ℕ → Consumer
    received none last_value = waiting last_value
    received (some value) last_value = counting value

    unfoldable pub consume : Consumer → Conditional → Conditional
    consume (dequeuing last_value) s =
        let (queue, value) = Y.read s.yqueue in
        record s { yqueue = queue; consumer = received value last_value }
    consume (counting value) s = record s {
      s_count_pop = xadd s.s_count_pop 1;
      consumer = testing value;
    }
    consume (waiting last_value) s = record s { consumer = asleep last_value }
    consume (asleep last_value) s = s
    consume (testing last_value) s = record s {
      consumer =
          if leb s_queue_item_num s.s_count_pop then left last_value else dequeuing last_value;
    }
    consume (left last_value) s = s

    unfoldable pub happens : Event → Conditional → Conditional
    happens produces s = produce s.producer s
    happens consumes s = consume s.consumer s
    happens wakes s = notify_one s

    unfoldable pub run : List Event → Conditional → Conditional
    run [] s = s
    run (e ∷ es) s = run es (happens e s)
