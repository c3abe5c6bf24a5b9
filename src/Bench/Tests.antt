-- ===== src/Bench/Tests.antt =====
-- Runs of the threads of other/4_test_lock_free_queue.cpp at concrete inputs, and the theorems at
-- inputs that meet their hypotheses.
use cpp_concurrency_data_str.Base.{
  ℕ, zero, suc, ◌<◌, ◌≤◌, ◌≡◌, ◌≢◌, refl, ap, sym, Bool, true, false, Option, none, some, List, [],
  ◌∷◌, ◌++◌, append-nil, append_assoc, length, replicate, if◌then◌else◌, ltb, arith,
}
use cpp_concurrency_data_str.BlockQueue.{finish, enqueue}
use cpp_concurrency_data_str.Bench.Contract.{Dequeues, Enqueues, Pipes}
use cpp_concurrency_data_str.Bench.Producers.{
  Counted, Ypipe, queue_of, count_then_enqueue, enqueue_then_count, write_ten,
  lockfreequeue_producer_thread,
}
use cpp_concurrency_data_str.Bench.Exits.{
  AllThrough, arraylockfreequeue_run, arraylockfreequeue_left, blockqueue_run, blockqueue_left,
  s_blockqueue, batch_run, batch_never_left, lockfreequeue_run,
}
use cpp_concurrency_data_str.Bench.Ends
use cpp_concurrency_data_str.Bench.Drains
use cpp_concurrency_data_str.Bench.Stops.{to_one, lockfreequeue_ends}
use cpp_concurrency_data_str.Bench.Single.{single, lockfreequeue_in_order}
use cpp_concurrency_data_str.Bench.Collide.{both, adds_collide}
use cpp_concurrency_data_str.Bench.Condition
use cpp_concurrency_data_str.Bench.Mutex
use cpp_concurrency_data_str.Bench.Mutex.Takes.{mutexqueue_left}
use cpp_concurrency_data_str.Bench.Mutex.Ends.{mutexqueue_ends, producer_turns}
use cpp_concurrency_data_str.Bench.Mutex.Drains.{HasLeft}
use cpp_concurrency_data_str.Bench.{
  Queue, Consumer, Event, produces, consumes, consume, make, Settings, happens, run,
}

-- A queue that is a list, and its `enqueue` with room for two values, or for any number.
abbrev popped : List ℕ → List ℕ × Option ℕ
popped [] = ([], none)
popped (x ∷ l) = (l, some x)

abbrev list_queue : Queue
list_queue = record { State = List ℕ; try_dequeue = popped }

abbrev contents : List ℕ → List ℕ
contents l = l

list_queue-Dequeues : Dequeues list_queue contents
list_queue-Dequeues = record { try_dequeue-some = taken; try_dequeue-none = kept }
  where
    taken : (l : List ℕ) (v : ℕ) → (popped l).1 ≡ some v → l ≡ v ∷ (popped l).0
    taken [] v e = absurd (ground arith)
    taken (x ∷ l) v e = ap (λ y. y ∷ l) (ground arith)

    kept : (l : List ℕ) → (popped l).1 ≡ none → (popped l).0 ≡ l
    kept [] e = refl
    kept (x ∷ l) e = absurd (ground arith)

abbrev bounded : ℕ → List ℕ → Bool × List ℕ
bounded v l = if ltb (length l) 2 then (true, l ++ v ∷ []) else (false, l)

bounded-Enqueues : Enqueues list_queue contents bounded
bounded-Enqueues = record { contents-enqueue = λ v l. ground arith }

abbrev unbounded : ℕ → List ℕ → Bool × List ℕ
unbounded v l = (true, l ++ v ∷ [])

unbounded-Enqueues : Enqueues list_queue contents unbounded
unbounded-Enqueues = record { contents-enqueue = λ v l. refl }

-- A pipe that shows its reader what is flushed.
abbrev read : List ℕ × List ℕ → (List ℕ × List ℕ) × Option ℕ
read ([], l) = (([], l), none)
read (x ∷ k, l) = ((k, l), some x)

abbrev list_pipe : Ypipe
list_pipe = record {
  State = List ℕ × List ℕ;
  write = λ v incomplete q. (q.0, q.1 ++ v ∷ []);
  flush = λ q. ((q.0 ++ q.1, []), false);
  read = read;
}

abbrev both_parts : List ℕ × List ℕ → List ℕ
both_parts q = q.0 ++ q.1

list_pipe-Pipes : Pipes list_pipe both_parts
list_pipe-Pipes = record {
  contents-write = λ v incomplete q. sym (append_assoc q.0 q.1 (v ∷ []));
  contents-flush = λ q. append-nil (q.0 ++ q.1);
}

list_pipe-Dequeues : Dequeues (queue_of list_pipe) both_parts
list_pipe-Dequeues = record { try_dequeue-some = taken; try_dequeue-none = kept }
  where
    taken :
        (q : List ℕ × List ℕ) (v : ℕ)
        → (read q).1 ≡ some v
        → both_parts q ≡ v ∷ both_parts (read q).0
    taken ([], l) v e = absurd (ground arith)
    taken (x ∷ k, l) v e = ap (λ y. y ∷ (k ++ l)) (ground arith)

    kept : (q : List ℕ × List ℕ) → (read q).1 ≡ none → both_parts (read q).0 ≡ both_parts q
    kept ([], l) e = refl
    kept (x ∷ k, l) e = absurd (ground arith)

-- Two producers of two values each, and two consumers.
abbrev two_by_two : Settings
two_by_two = record { s_queue_item_num = 2; s_producer_thread_num = 2; s_consumer_thread_num = 2 }

abbrev turns_of : ℕ → Event → List Event
turns_of n e = replicate n e

-- Producer 1 finds the queue full until consumer 0 has taken values out.
abbrev array_schedule : List Event
array_schedule =
    turns_of 6 (produces 0)
    ++ turns_of 2 (produces 1)
    ++ turns_of 6 (consumes 0)
    ++ turns_of 6 (produces 1)
    ++ turns_of 2 (consumes 1)
    ++ turns_of 6 (consumes 0)
    ++ turns_of 1 (consumes 1)

array_left :
    (arraylockfreequeue_run list_queue bounded two_by_two array_schedule []).consumers 1
    ≡ Consumer.left 0
unfolding run happens consume enqueue_then_count
array_left = refl

arraylockfreequeue_left_example :
    AllThrough list_queue contents 4
      (arraylockfreequeue_run list_queue bounded two_by_two array_schedule []).shared
arraylockfreequeue_left_example =
    arraylockfreequeue_left list_queue contents list_queue-Dequeues bounded bounded-Enqueues
      two_by_two array_schedule [] 1 0 refl array_left

-- One value for each of two producers.
abbrev one_by_two : Settings
one_by_two = record { s_queue_item_num = 1; s_producer_thread_num = 2; s_consumer_thread_num = 2 }

-- Both producers enqueue the same number.
abbrev block_schedule : List Event
block_schedule =
    both list_queue unbounded one_by_two 0 1
    ++ turns_of 2 (produces 0)
    ++ turns_of 1 (consumes 1)
    ++ turns_of 2 (produces 1)
    ++ turns_of 6 (consumes 1)

block_left : (blockqueue_run one_by_two block_schedule).consumers 1 ≡ Consumer.left 2
unfolding run happens consume count_then_enqueue finish enqueue
block_left = refl

blockqueue_left_example :
    AllThrough s_blockqueue (λ q. q.queue) 2 (blockqueue_run one_by_two block_schedule).shared
blockqueue_left_example = blockqueue_left one_by_two block_schedule 1 2 block_left

adds_collide_example :
    let s = make list_queue (lockfreequeue_producer_thread list_queue unbounded 1) [] in
    let t =
      run list_queue
        (lockfreequeue_producer_thread list_queue unbounded 1)
        one_by_two
        (both list_queue unbounded one_by_two 0 1)
        s in
    (t.producers 0 ≡ Counted.enqueuing 0 2) × (t.producers 1 ≡ Counted.enqueuing 0 2)
adds_collide_example =
    adds_collide list_queue unbounded one_by_two 0 1 0 0
      (make list_queue (lockfreequeue_producer_thread list_queue unbounded 1) []) (omega arith)
      (omega arith) (omega arith) (omega arith) (omega arith) refl refl

abbrev single_schedule : List Event
single_schedule =
    turns_of 3 (produces 0)
    ++ turns_of 4 (consumes 0)
    ++ turns_of 4 (produces 0)
    ++ turns_of 6 (consumes 0)

sole_left :
    (lockfreequeue_run list_queue unbounded (single 2 1) single_schedule []).consumers 0
    ≡ Consumer.left 2
unfolding run happens consume count_then_enqueue
sole_left = refl

lockfreequeue_in_order_example :
    (lockfreequeue_run list_queue unbounded (single 2 1) single_schedule []).shared.taken
    ≡ 1 ∷ 2 ∷ []
lockfreequeue_in_order_example =
    lockfreequeue_in_order list_queue contents list_queue-Dequeues unbounded unbounded-Enqueues 2 1
      single_schedule [] 0 2 (λ count p. refl) refl sole_left

-- Twelve values are asked for and ten are written.
abbrev batch_schedule : List Event
batch_schedule = turns_of 33 (produces 0) ++ turns_of 40 (consumes 0)

batch_counts : (batch_run list_pipe 12 batch_schedule ([], [])).shared.s_count_pop ≡ 10
unfolding run happens consume write_ten
batch_counts = refl

batch_never_left_example :
    (batch_run list_pipe 12 batch_schedule ([], [])).consumers 0 ≢ Consumer.left 9
batch_never_left_example =
    batch_never_left list_pipe both_parts list_pipe-Dequeues list_pipe-Pipes 12 batch_schedule
      ([], []) 0 9 refl (omega arith)

abbrev pushes : List Event
pushes = turns_of 3 (produces 0) ++ turns_of 2 (consumes 1) ++ turns_of 3 (produces 1)

abbrev pops : List Event
pops = turns_of 2 (consumes 1) ++ turns_of 11 (consumes 0)

mutex_left : (Mutex.run two_by_two (pushes ++ pops) Mutex.make).consumers 0 ≡ Mutex.Consumer.left 3
unfolding Mutex.run Mutex.happens Mutex.consume Mutex.produce
mutex_left = refl

mutexqueue_left_example :
    let s = Mutex.run two_by_two (pushes ++ pops) Mutex.make in
    (s.taken ≡ 0 ∷ 1 ∷ 2 ∷ 3 ∷ []) × (s.s_list ≡ []) × (s.s_count_pop ≡ 4) × (s.s_count_push ≡ 4)
mutexqueue_left_example = mutexqueue_left two_by_two (pushes ++ pops) 0 3 mutex_left

mutexqueue_ends_example :
    HasLeft ((Mutex.run two_by_two pops (Mutex.run two_by_two pushes Mutex.make)).consumers 0)
mutexqueue_ends_example = mutexqueue_ends two_by_two pushes pops 0 (omega arith) each (omega arith)
  where
    each : (i : ℕ) → i < 2 → 3 ≤ producer_turns i pushes
    each zero h = omega arith
    each (suc zero) h = omega arith
    each (suc (suc i)) h = absurd (omega arith)

-- Both producers of two values are done, and then the one consumer runs.
abbrev filled : List Event
filled = turns_of 7 (produces 0) ++ turns_of 7 (produces 1)

lockfreequeue_ends_example : Drains.HasLeft (
    (run list_queue
        (lockfreequeue_producer_thread list_queue unbounded 2)
        (to_one 2 2)
        (turns_of 16 (consumes 0))
        (lockfreequeue_run list_queue unbounded (to_one 2 2) filled [])).consumers
      0)
lockfreequeue_ends_example =
    lockfreequeue_ends list_queue contents list_queue-Dequeues finds unbounded unbounded-Enqueues
      (λ count q. refl) 2 2 filled (turns_of 16 (consumes 0)) [] refl each (omega arith)
  where
    finds : (l : List ℕ) → (popped l).1 ≡ none → l ≡ []
    finds [] e = refl
    finds (x ∷ l) e = absurd (ground arith)

    each : (i : ℕ) → i < 2 → 7 ≤ Ends.producer_turns i filled
    each zero h = omega arith
    each (suc zero) h = omega arith
    each (suc (suc i)) h = absurd (omega arith)
