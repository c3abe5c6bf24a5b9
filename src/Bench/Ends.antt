-- ===== src/Bench/Ends.antt =====
-- How the producers of other/4_test_lock_free_queue.cpp that count first come to an end, with a queue
-- that accepts every value.
use cpp_concurrency_data_str.Base.{
  ℕ, ◌+◌, ◌-◌, ◌*◌, ◌≤◌, ◌<◌, ◌≡◌, ◌≢◌, refl, ◌∙◌, ap, sym, subst, Bool, true, false, Bool-cases,
  List, [], ◌∷◌, length, if◌then◌else◌, update, update_self, update-ne, ltb, ◌==◌, ==-refl,
  ==_of_ne, ℕ_discrete, arith, inl, inr,
}
use cpp_concurrency_data_str.Base.Updates.{update-All}
use cpp_concurrency_data_str.Bench.Consumes.{consume-Consumed}
use cpp_concurrency_data_str.Base.Sums.{sum, sum-update, sum-const, sum-zero}
use cpp_concurrency_data_str.Bench.Contract.{Dequeues}
use cpp_concurrency_data_str.Bench.Producers.{count_then_enqueue, lockfreequeue_producer_thread}
use cpp_concurrency_data_str.Bench.{
  Queue, Event, produces, consumes, Bench, make, Settings, total, produced, consumed, happens, run,
}
use cpp_concurrency_data_str.Bench.Counts.{handed, InBounds, to_leave, left_of_none, step-Goes}

-- How many steps of producer `i` a schedule has.
abbrev pub producer_turns : ℕ → List Event → ℕ
producer_turns i [] = 0
producer_turns i (produces k ∷ es) = (if k == i then 1 else 0) + producer_turns i es
producer_turns i (consumes j ∷ es) = producer_turns i es

module _ (Q : Queue) (enqueue : ℕ → Q.State → Bool × Q.State)
    (always : (count : ℕ) (q : Q.State) → (enqueue count q).0 ≡ true) (c : Settings) where
  abbrev N : ℕ
  N = c.s_queue_item_num

  abbrev Threads : Type 0
  Threads = Bench Q (lockfreequeue_producer_thread Q enqueue N)

  -- What the producers have handed over is what the queue was given.
  pub record Exact (s : Threads) : Type 0 where
    pub bounds : (i : ℕ) → InBounds Q enqueue always c (s.producers i)
    pub sums :
        length s.shared.given
        ≡ sum c.s_producer_thread_num (λ i. handed Q enqueue always c (s.producers i))

  make-Exact : (q : Q.State) → Exact (make Q (lockfreequeue_producer_thread Q enqueue N) q)
  make-Exact q = record {
    bounds = λ i. omega arith;
    sums = sym (sum-zero c.s_producer_thread_num (λ i. 0) (λ i. refl));
  }

  module _ (contents : Q.State → List ℕ) (law : Dequeues Q contents) where
    happens-Exact :
        (e : Event) (s : Threads)
        → Exact s
        → Exact (happens Q (lockfreequeue_producer_thread Q enqueue N) c e s)
    unfolding happens
    happens-Exact (produces i) s exact = elim (Bool-cases (ltb i c.s_producer_thread_num)) [
      | inl e ↦ rw e (
          let step = step-Goes Q enqueue always c (s.producers i) s.shared in
          let p = (count_then_enqueue Q enqueue N (s.producers i) s.shared).0 in
          record {
            bounds =
                update-All (InBounds Q enqueue always c) s.producers i p
                  (step.stays (exact.bounds i)) exact.bounds;
            sums = omega (
              arith,
              exact.sums,
              step.exact (exact.bounds i),
              sum-update (handed Q enqueue always c) c.s_producer_thread_num i s.producers p
                  (ground arith),
            );
          })
      | inr e ↦ rw e exact
    ]
    happens-Exact (consumes j) s exact = elim (Bool-cases (ltb j c.s_consumer_thread_num)) [
      | inl e ↦ rw e (
          let n = total Q (lockfreequeue_producer_thread Q enqueue N) c in
          let step = consume-Consumed Q contents law n (s.consumers j) s.shared in
          record { bounds = exact.bounds; sums = ap length step.same_given ∙ exact.sums })
      | inr e ↦ rw e exact
    ]

    pub run-Exact :
        (es : List Event) (s : Threads)
        → Exact s
        → Exact (run Q (lockfreequeue_producer_thread Q enqueue N) c es s)
    unfolding run
    run-Exact [] s exact = exact
    run-Exact (e ∷ es) s exact =
        run-Exact es (happens Q (lockfreequeue_producer_thread Q enqueue N) c e s)
          (happens-Exact e s exact)

  happens-to_leave :
      (e : Event) (i : ℕ) (s : Threads)
      → i < c.s_producer_thread_num
      → to_leave Q enqueue always c
          ((happens Q (lockfreequeue_producer_thread Q enqueue N) c e s).producers i)
        ≤ to_leave Q enqueue always c (s.producers i) - producer_turns i (e ∷ [])
  unfolding happens
  happens-to_leave (produces k) i s lt = elim (ℕ_discrete k i) [
    | yes e ↦
        subst
          (λ l.
            to_leave Q enqueue always c
              ((happens Q (lockfreequeue_producer_thread Q enqueue N) c (produces l) s).producers i)
            ≤ to_leave Q enqueue always c (s.producers i) - producer_turns i (produces l ∷ []))
          (sym e)
          (rw (==-refl i, ltb_of_lt lt)
            (own (step-Goes Q enqueue always c (s.producers i) s.shared).sooner))
    | no ne ↦ rw (==_of_ne k i ne) (other ne (ltb k c.s_producer_thread_num))
  ]
    where
      ltb_of_lt : i < c.s_producer_thread_num → ltb i c.s_producer_thread_num ≡ true
      ltb_of_lt h = ground arith

      own :
          to_leave Q enqueue always c (count_then_enqueue Q enqueue N (s.producers i) s.shared).0
            ≤ to_leave Q enqueue always c (s.producers i) - 1
          → to_leave Q enqueue always c
              (update s.producers i (count_then_enqueue Q enqueue N (s.producers i) s.shared).0 i)
            ≤ to_leave Q enqueue always c (s.producers i) - 1
      own h =
          subst
            (λ p. to_leave Q enqueue always c p ≤ to_leave Q enqueue always c (s.producers i) - 1)
            (sym (update_self s.producers i _)) h

      other :
          k ≢ i
          → (b : Bool)
          → to_leave Q enqueue always c (
              (if b
                  then produced Q (lockfreequeue_producer_thread Q enqueue N) c k s
                  else s).producers
                i)
            ≤ to_leave Q enqueue always c (s.producers i) - 0
      other ne true = omega (
        arith,
        ap (to_leave Q enqueue always c) (
            update-ne s.producers k i (count_then_enqueue Q enqueue N (s.producers k) s.shared).0
              ne),
      )
      other ne false = omega arith
  happens-to_leave (consumes j) i s lt = other (ltb j c.s_consumer_thread_num)
    where
      other :
          (b : Bool)
          → to_leave Q enqueue always c (
              (if b
                  then consumed Q (lockfreequeue_producer_thread Q enqueue N) c j s
                  else s).producers
                i)
            ≤ to_leave Q enqueue always c (s.producers i) - 0
      other true = omega arith
      other false = omega arith

  producer_turns-cons :
      (e : Event) (es : List Event) (i : ℕ)
      → producer_turns i (e ∷ es) ≡ producer_turns i (e ∷ []) + producer_turns i es
  producer_turns-cons (produces k) es i = omega arith
  producer_turns-cons (consumes k) es i = omega arith

  run-to_leave :
      (es : List Event) (i : ℕ) (s : Threads)
      → i < c.s_producer_thread_num
      → to_leave Q enqueue always c
          ((run Q (lockfreequeue_producer_thread Q enqueue N) c es s).producers i)
        ≤ to_leave Q enqueue always c (s.producers i) - producer_turns i es
  unfolding run
  run-to_leave [] i s lt = omega arith
  run-to_leave (e ∷ es) i s lt = omega (
    arith,
    producer_turns-cons e es i,
    run-to_leave es i (happens Q (lockfreequeue_producer_thread Q enqueue N) c e s) lt,
    happens-to_leave e i s lt,
  )

  -- When each producer has made enough steps, the queue was given all values.
  pub run-AllGiven :
      (contents : Q.State → List ℕ) (law : Dequeues Q contents) (es : List Event) (q : Q.State)
      → ((i : ℕ) → i < c.s_producer_thread_num → 3 * N + 1 ≤ producer_turns i es)
      → length
          (run Q
            (lockfreequeue_producer_thread Q enqueue N)
            c
            es
            (make Q (lockfreequeue_producer_thread Q enqueue N) q)).shared.given
        ≡ N * c.s_producer_thread_num
  run-AllGiven contents law es q each =
      let T = lockfreequeue_producer_thread Q enqueue N in
      let s = run Q T c es (make Q T q) in
      let exact = run-Exact contents law es (make Q T q) (make-Exact q) in
      exact.sums
      ∙ sum-const c.s_producer_thread_num N (λ i. handed Q enqueue always c (s.producers i))
          (λ i lt. ap (handed Q enqueue always c) (
            left_of_none Q enqueue always c (s.producers i)
              (omega (arith, run-to_leave es i (make Q T q) lt, each i lt))))
