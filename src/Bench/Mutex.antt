-- ===== src/Bench/Mutex.antt =====
-- The std::list and the mutex of other/4_test_lock_free_queue.cpp: `mutexqueue_producer_thread` and
-- `mutexqueue_consumer_thread`. What a thread does between `lock` and `unlock` is one step; a
-- consumer's test for its end stands outside. `taken` records what the consumers popped, in order.
pub mod Takes
pub mod Drains
pub mod Leaves
pub mod Ends
use cpp_concurrency_data_str.Base.{
  ℕ, suc, ◌+◌, ◌*◌, List, [], ◌∷◌, ◌++◌, if◌then◌else◌, update, ltb, leb,
}
use cpp_concurrency_data_str.Bench.{Settings, Event, produces, consumes}

-- A producer is in its loop with index `i`, or has left it.
pub data Producer : Type 0 where
  looping : ℕ → Producer
  left : Producer

pub data Consumer : Type 0 where
  locking : ℕ → Consumer
  testing : ℕ → Consumer
  left : ℕ → Consumer

pub record MutexQueue : Type 0 where
  pub s_list : List ℕ
  pub s_count_push : ℕ
  pub s_count_pop : ℕ
  pub taken : List ℕ
  pub producers : ℕ → Producer
  pub consumers : ℕ → Consumer

abbrev pub make : MutexQueue
make = record {
  s_list = [];
  s_count_push = 0;
  s_count_pop = 0;
  taken = [];
  producers = λ i. looping 0;
  consumers = λ j. locking 0;
}

module _ (c : Settings) where
  unfoldable pub produce : Producer → ℕ → MutexQueue → MutexQueue
  produce (looping i) n s =
      if ltb i c.s_queue_item_num
      then record s {
        s_list = s.s_list ++ s.s_count_push ∷ [];
        s_count_push = s.s_count_push + 1;
        producers = update s.producers n (looping (i + 1));
      }
      else record s { producers = update s.producers n left }
  produce left n s = s

  abbrev pub total : ℕ
  total = c.s_queue_item_num * c.s_producer_thread_num

  -- The critical section of consumer `n` with `l` in the list.
  abbrev pub take : List ℕ → ℕ → ℕ → MutexQueue → MutexQueue
  take [] last_value n s = record s { consumers = update s.consumers n (testing last_value) }
  take (value ∷ rest) last_value n s = record s {
    s_list = rest;
    s_count_pop = s.s_count_pop + 1;
    taken = s.taken ++ value ∷ [];
    consumers = update s.consumers n (testing value);
  }

  unfoldable pub consume : Consumer → ℕ → MutexQueue → MutexQueue
  consume (locking last_value) n s = take s.s_list last_value n s
  consume (testing last_value) n s = record s {
    consumers =
        update s.consumers n
          (if leb total s.s_count_pop then left last_value else locking last_value);
  }
  consume (left last_value) n s = s

  -- Nothing happens for the number of a thread that was not created.
  unfoldable pub happens : Event → MutexQueue → MutexQueue
  happens (produces i) s = if ltb i c.s_producer_thread_num then produce (s.producers i) i s else s
  happens (consumes j) s = if ltb j c.s_consumer_thread_num then consume (s.consumers j) j s else s

  unfoldable pub run : List Event → MutexQueue → MutexQueue
  run [] s = s
  run (e ∷ es) s = run es (happens e s)
