-- ===== src/Bench/Stops.antt =====
-- The schedules in which the one consumer of other/4_test_lock_free_queue.cpp leaves.
use cpp_concurrency_data_str.Base.{
  ℕ, zero, suc, ◌+◌, ◌-◌, ◌*◌, ◌≤◌, ◌<◌, ◌≡◌, refl, ap, sym, subst, Bool, true, false, Bool-cases,
  none, List, [], ◌∷◌, ◌++◌, length, length-append, length-snoc, if◌then◌else◌, update_self, ltb,
  arith, inl, inr,
}
use cpp_concurrency_data_str.Base.Sums.{sum}
use cpp_concurrency_data_str.Bench.Contract.{Dequeues, Keeps}
use cpp_concurrency_data_str.Bench.Consumes.{pending, consume-Consumed}
use cpp_concurrency_data_str.Bench.Leaves.{Inv, make-Inv, run-Inv, Inv-bound}
use cpp_concurrency_data_str.Bench.{
  Queue, Shared, Producer, Event, produces, consumes, consume, Bench, make, Settings, total,
  happens, run,
}
use cpp_concurrency_data_str.Bench.Leaves.{happens-Inv}
use cpp_concurrency_data_str.Bench.Contract.{Enqueues}
use cpp_concurrency_data_str.Bench.Producers.{
  Counted, count_then_enqueue, lockfreequeue_producer_thread,
}
use cpp_concurrency_data_str.Bench.Exits.{lockfreequeue_run}
use cpp_concurrency_data_str.Bench.Keeps.{lockfreequeue-Keeps}
use cpp_concurrency_data_str.Bench.Ends.{producer_turns, run-AllGiven}
use cpp_concurrency_data_str.Bench.Drains.{
  consumer_turns, to_exit, to_exit_le, HasLeft, at_exit, consume-to_exit,
}

module _ (Q : Queue) (contents : Q.State → List ℕ) (law : Dequeues Q contents)
    (finds : (q : Q.State) → (Q.try_dequeue q).1 ≡ none → contents q ≡ []) (T : Producer Q)
    (c : Settings) (keeps : Keeps Q contents T c.s_queue_item_num)
    (grows : (p : T.Place) (h : Shared Q) → length h.given ≤ length (T.produce p h).1.given)
    (one : c.s_consumer_thread_num ≡ 1) where
  abbrev Ready : Bench Q T → Type 0
  Ready s =
      Inv Q contents law T c c.s_queue_item_num keeps s × (length s.shared.given ≡ total Q T c)

  abbrev remaining : Bench Q T → ℕ
  remaining s = length (contents s.shared.queue)

  sums : (s : Bench Q T) → Ready s → length s.shared.taken + remaining s ≡ total Q T c
  sums s (inv, all) =
      omega
        (arith, all, ap length inv.accounts, length-append s.shared.taken (contents s.shared.queue))

  popped :
      (s : Bench Q T)
      → Ready s
      → s.shared.s_count_pop + pending (s.consumers 0) ≡ length s.shared.taken
  popped s (inv, all) =
      omega (arith, inv.counted, ap (λ n. sum n (λ j. pending (s.consumers j))) one)

  happens-given :
      (e : Event) (s : Bench Q T) → length s.shared.given ≤ length (happens Q T c e s).shared.given
  unfolding happens
  happens-given (produces i) s = elim (Bool-cases (ltb i c.s_producer_thread_num)) [
    | inl e ↦ rw e (grows (s.producers i) s.shared)
    | inr e ↦ rw e (omega arith)
  ]
  happens-given (consumes j) s = elim (Bool-cases (ltb j c.s_consumer_thread_num)) [
    | inl e ↦ rw e (
        omega (
          arith,
          ap length
              ((consume-Consumed Q contents law (total Q T c) (s.consumers j) s.shared).same_given),
        ))
    | inr e ↦ rw e (omega arith)
  ]

  happens-Ready : (e : Event) (s : Bench Q T) → Ready s → Ready (happens Q T c e s)
  happens-Ready e s (inv, all) =
      let inv' = happens-Inv Q contents law T c c.s_queue_item_num keeps e s inv in
      (
        inv',
        omega (
          arith,
          all,
          happens-given e s,
          Inv-bound Q contents law T c c.s_queue_item_num keeps (happens Q T c e s) inv',
        ),
      )

  produces-same :
      (i : ℕ) (s : Bench Q T)
      → ((happens Q T c (produces i) s).consumers 0 ≡ s.consumers 0)
        × ((happens Q T c (produces i) s).shared.taken ≡ s.shared.taken)
  unfolding happens
  produces-same i s = elim (Bool-cases (ltb i c.s_producer_thread_num)) [
    | inl e ↦ rw e (refl, (keeps.produce-Handed (s.producers i) s.shared).same_taken)
    | inr e ↦ rw e (refl, refl)
  ]

  consumes_own :
      (s : Bench Q T)
      → Ready s
      → to_exit
          ((happens Q T c (consumes 0) s).consumers 0)
          (remaining (happens Q T c (consumes 0) s))
        ≤ to_exit (s.consumers 0) (remaining s) - 1
  unfolding happens
  consumes_own s ready = rw one (
      subst
        (λ p.
          to_exit p (length (contents (consume Q (total Q T c) (s.consumers 0) s.shared).1.queue))
          ≤ to_exit (s.consumers 0) (remaining s) - 1)
        (sym (update_self s.consumers 0 (consume Q (total Q T c) (s.consumers 0) s.shared).0))
        (consume-to_exit Q contents law finds (total Q T c) (s.consumers 0) s.shared (sums s ready)
          (popped s ready)))

  consumes_beyond : (j : ℕ) (s : Bench Q T) → happens Q T c (consumes (suc j)) s ≡ s
  unfolding happens
  consumes_beyond j s = rw (not_lt one) refl
    where
      not_lt : c.s_consumer_thread_num ≡ 1 → ltb (suc j) c.s_consumer_thread_num ≡ false
      not_lt e = ground (arith, e)

  happens-to_exit :
      (e : Event) (s : Bench Q T)
      → Ready s
      → to_exit ((happens Q T c e s).consumers 0) (remaining (happens Q T c e s))
        ≤ to_exit (s.consumers 0) (remaining s) - consumer_turns (e ∷ [])
  happens-to_exit (produces i) s ready =
      let s' = happens Q T c (produces i) s in
      let (same, taken) = produces-same i s in
      let r : remaining s' ≡ remaining s =
        omega
          (arith, sums s ready, sums s' (happens-Ready (produces i) s ready), ap length taken) in
      omega (arith, ap (λ p. to_exit p (remaining s')) same, ap (to_exit (s.consumers 0)) r)
  happens-to_exit (consumes zero) s ready = consumes_own s ready
  happens-to_exit (consumes (suc j)) s ready =
      subst (λ t. to_exit (t.consumers 0) (remaining t) ≤ to_exit (s.consumers 0) (remaining s) - 0)
        (sym (consumes_beyond j s)) (omega arith)

  consumer_turns-cons :
      (e : Event) (es : List Event)
      → consumer_turns (e ∷ es) ≡ consumer_turns (e ∷ []) + consumer_turns es
  consumer_turns-cons (produces i) es = omega arith
  consumer_turns-cons (consumes zero) es = omega arith
  consumer_turns-cons (consumes (suc j)) es = omega arith

  run-to_exit :
      (es : List Event) (s : Bench Q T)
      → Ready s
      → to_exit ((run Q T c es s).consumers 0) (remaining (run Q T c es s))
        ≤ to_exit (s.consumers 0) (remaining s) - consumer_turns es
  unfolding run
  run-to_exit [] s ready = omega arith
  run-to_exit (e ∷ es) s ready = omega (
    arith,
    consumer_turns-cons e es,
    run-to_exit es (happens Q T c e s) (happens-Ready e s ready),
    happens-to_exit e s ready,
  )

  pub run-HasLeft :
      (es : List Event) (s : Bench Q T)
      → Ready s
      → 3 * total Q T c + 4 ≤ consumer_turns es
      → HasLeft ((run Q T c es s).consumers 0)
  run-HasLeft es s ready enough =
      at_exit ((run Q T c es s).consumers 0) (remaining (run Q T c es s)) (
        omega
          (arith, run-to_exit es s ready, to_exit_le (s.consumers 0) (remaining s), sums s ready))

-- `m` producers and one consumer.
abbrev pub to_one : ℕ → ℕ → Settings
to_one n m = record { s_queue_item_num = n; s_producer_thread_num = m; s_consumer_thread_num = 1 }

module _ (Q : Queue) (contents : Q.State → List ℕ) (law : Dequeues Q contents)
    (finds : (q : Q.State) → (Q.try_dequeue q).1 ≡ none → contents q ≡ [])
    (enqueue : ℕ → Q.State → Bool × Q.State) (accepts : Enqueues Q contents enqueue)
    (always : (count : ℕ) (q : Q.State) → (enqueue count q).0 ≡ true) (n m : ℕ) where
  counted-grows :
      (p : Counted Q enqueue n) (h : Shared Q)
      → length h.given ≤ length (count_then_enqueue Q enqueue n p h).1.given
  unfolding count_then_enqueue
  counted-grows (Counted.looping i) h = elim (Bool-cases (ltb i n)) [
    | inl e ↦ rw e (omega arith)
    | inr e ↦ rw e (omega arith)
  ]
  counted-grows (Counted.reading i) h = omega arith
  counted-grows (Counted.enqueuing i count) h = omega (
    arith,
    length-snoc h.given count,
    ap (λ b. length (if b then h.given ++ count ∷ [] else h.given)) (always count h.queue),
  )
  counted-grows Counted.left h = omega arith

  -- For a queue given by `try_dequeue` and `enqueue`, each call one step, that accepts every value,
  -- gives back in order what it accepted and finds a value whenever there is one, with any number of
  -- producers and one consumer: a schedule that starts with the queue empty and in which each
  -- producer makes more than three steps for each of its values, followed by one in which the
  -- consumer makes four steps more than three times the number of all values, ends with the consumer
  -- out of its loop, whatever else the threads do in between.
  pub lockfreequeue_ends :
      (es fs : List Event) (q : Q.State)
      → contents q ≡ []
      → ((i : ℕ) → i < m → 3 * n + 1 ≤ producer_turns i es)
      → 3 * (n * m) + 4 ≤ consumer_turns fs
      → HasLeft (
          (run Q
              (lockfreequeue_producer_thread Q enqueue n)
              (to_one n m)
              fs
              (lockfreequeue_run Q enqueue (to_one n m) es q)).consumers
            0)
  lockfreequeue_ends es fs q empty each enough =
      let T = lockfreequeue_producer_thread Q enqueue n in
      let keeps = lockfreequeue-Keeps Q contents enqueue accepts n in
      run-HasLeft Q contents law finds T (to_one n m) keeps counted-grows refl fs
        (run Q T (to_one n m) es (make Q T q))
        (
          run-Inv Q contents law T (to_one n m) n keeps es (make Q T q)
              (make-Inv Q contents law T (to_one n m) n keeps q empty),
          run-AllGiven Q enqueue always (to_one n m) contents law es q each,
        )
        enough
