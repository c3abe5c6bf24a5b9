-- ===== src/Bench/Mutex/Ends.antt =====
-- The schedules in which the threads around the std::list of other/4_test_lock_free_queue.cpp end.
use cpp_concurrency_data_str.Base.{
  ℕ, suc, ◌+◌, ◌-◌, ◌*◌, ◌≤◌, ◌<◌, ◌≡◌, ◌≢◌, refl, ◌∙◌, ap, sym, subst, true, Bool-cases, List, [],
  ◌∷◌, if◌then◌else◌, update_self, update-ne, ltb, ◌==◌, ==-refl, ==_of_ne, ℕ_discrete, arith, inl,
  inr,
}
use cpp_concurrency_data_str.Bench.{Settings, Event, produces, consumes}
use cpp_concurrency_data_str.Bench.Mutex.{
  Producer, looping, Consumer, locking, testing, MutexQueue, make, produce, take, consume, happens,
  run,
}
use cpp_concurrency_data_str.Bench.Mutex.Takes.{make-Inv, run-Inv}
use cpp_concurrency_data_str.Base.Sums.{sum-const}
use cpp_concurrency_data_str.Bench.Mutex.Takes.{made, InLoop}
use cpp_concurrency_data_str.Bench.Mutex.Drains.{turns, HasLeft, AllPushed}
use cpp_concurrency_data_str.Bench.Mutex.Leaves.{run-HasLeft}

-- How many steps of producer `i` a schedule has.
abbrev pub producer_turns : ℕ → List Event → ℕ
producer_turns i [] = 0
producer_turns i (produces k ∷ es) = (if k == i then 1 else 0) + producer_turns i es
producer_turns i (consumes j ∷ es) = producer_turns i es

module _ (c : Settings) where
  -- The steps that a producer makes at most before it leaves.
  abbrev to_leave : Producer → ℕ
  to_leave (looping k) = suc c.s_queue_item_num - k
  to_leave Producer.left = 0

  has_left :
      (n : ℕ) (p : Producer)
      → n ≡ c.s_queue_item_num
      → InLoop n p
      → to_leave p ≡ 0
      → p ≡ Producer.left
  has_left n (looping k) same l h = absurd (omega (arith, l))
  has_left n Producer.left same l h = refl

  produce-to_leave :
      (p : Producer) (i : ℕ) (s : MutexQueue)
      → s.producers i ≡ p
      → to_leave ((produce c p i s).producers i) ≤ to_leave p - 1
  unfolding produce
  produce-to_leave (looping k) i s at = elim (Bool-cases (ltb k c.s_queue_item_num)) [
    | inl e ↦ rw (e, update_self s.producers i (looping (k + 1))) (omega arith)
    | inr e ↦ rw (e, update_self s.producers i Producer.left) (omega arith)
  ]
  produce-to_leave Producer.left i s at = rw at (omega arith)

  produce-other :
      (p : Producer) (k i : ℕ) (s : MutexQueue)
      → k ≢ i
      → (produce c p k s).producers i ≡ s.producers i
  unfolding produce
  produce-other (looping n) k i s ne = elim (Bool-cases (ltb n c.s_queue_item_num)) [
    | inl e ↦ rw e (update-ne s.producers k i (looping (n + 1)) ne)
    | inr e ↦ rw e (update-ne s.producers k i Producer.left ne)
  ]
  produce-other Producer.left k i s ne = refl

  consume-producers :
      (p : Consumer) (j i : ℕ) (s : MutexQueue) → (consume c p j s).producers i ≡ s.producers i
  unfolding consume
  consume-producers (locking v) j i s = go s.s_list
    where
      go : (l : List ℕ) → (take c l v j s).producers i ≡ s.producers i
      go [] = refl
      go (x ∷ l) = refl
  consume-producers (testing v) j i s = refl
  consume-producers (Consumer.left v) j i s = refl

  consumes-producers :
      (j i : ℕ) (s : MutexQueue) → (happens c (consumes j) s).producers i ≡ s.producers i
  unfolding happens
  consumes-producers j i s = elim (Bool-cases (ltb j c.s_consumer_thread_num)) [
    | inl e ↦ rw e (consume-producers (s.consumers j) j i s)
    | inr e ↦ rw e refl
  ]

  produces_own :
      (i : ℕ) (s : MutexQueue)
      → i < c.s_producer_thread_num
      → produce c (s.producers i) i s ≡ happens c (produces i) s
  unfolding happens
  produces_own i s lt = rw (ltb_of_lt lt) refl
    where
      ltb_of_lt : i < c.s_producer_thread_num → ltb i c.s_producer_thread_num ≡ true
      ltb_of_lt h = ground arith

  produces-other :
      (k i : ℕ) (s : MutexQueue) → k ≢ i → (happens c (produces k) s).producers i ≡ s.producers i
  unfolding happens
  produces-other k i s ne = elim (Bool-cases (ltb k c.s_producer_thread_num)) [
    | inl e ↦ rw e (produce-other (s.producers k) k i s ne)
    | inr e ↦ rw e refl
  ]

  happens-to_leave :
      (e : Event) (i : ℕ) (s : MutexQueue)
      → i < c.s_producer_thread_num
      → to_leave ((happens c e s).producers i)
        ≤ to_leave (s.producers i) - producer_turns i (e ∷ [])
  happens-to_leave (produces k) i s lt = elim (ℕ_discrete k i) [
    | yes e ↦
        subst
          (λ l.
            to_leave ((happens c (produces l) s).producers i)
            ≤ to_leave (s.producers i) - producer_turns i (produces l ∷ []))
          (sym e)
          (rw (==-refl i) (
            subst (λ t. to_leave (t.producers i) ≤ to_leave (s.producers i) - 1)
              (produces_own i s lt) (produce-to_leave (s.producers i) i s refl)))
    | no ne ↦ rw (==_of_ne k i ne) (omega (arith, ap to_leave (produces-other k i s ne)))
  ]
  happens-to_leave (consumes j) i s lt = omega (arith, ap to_leave (consumes-producers j i s))

  run-to_leave :
      (es : List Event) (i : ℕ) (s : MutexQueue)
      → i < c.s_producer_thread_num
      → to_leave ((run c es s).producers i) ≤ to_leave (s.producers i) - producer_turns i es
  unfolding run
  run-to_leave [] i s lt = omega arith
  run-to_leave (e ∷ es) i s lt = omega (
    arith,
    producer_turns-cons e es i,
    run-to_leave es i (happens c e s) lt,
    happens-to_leave e i s lt,
  )
    where
      producer_turns-cons :
          (e : Event) (es : List Event) (i : ℕ)
          → producer_turns i (e ∷ es) ≡ producer_turns i (e ∷ []) + producer_turns i es
      producer_turns-cons (produces k) es i = omega arith
      producer_turns-cons (consumes k) es i = omega arith

  run-AllPushed :
      (es : List Event)
      → ((i : ℕ) → i < c.s_producer_thread_num → suc c.s_queue_item_num ≤ producer_turns i es)
      → AllPushed c (run c es make)
  run-AllPushed es turns_each =
      let s = run c es make in
      let inv = run-Inv c es make (make-Inv c) in
      inv.pushed
      ∙ sum-const c.s_producer_thread_num c.s_queue_item_num (λ i. made c (s.producers i))
          (λ i lt. ap (made c) (
            has_left c.s_queue_item_num (s.producers i) refl (inv.in_loop i)
              (omega (arith, run-to_leave es i make lt, turns_each i lt))))

  -- A schedule in which each producer makes more steps than `s_queue_item_num`, followed by one in
  -- which consumer `j` makes three steps more than twice the number of all values, ends with that
  -- consumer out of its loop, whatever else the threads do in between.
  pub mutexqueue_ends :
      (es fs : List Event) (j : ℕ)
      → j < c.s_consumer_thread_num
      → ((i : ℕ) → i < c.s_producer_thread_num → suc c.s_queue_item_num ≤ producer_turns i es)
      → 2 * (c.s_queue_item_num * c.s_producer_thread_num) + 3 ≤ turns j fs
      → HasLeft ((run c fs (run c es make)).consumers j)
  mutexqueue_ends es fs j lt each enough =
      run-HasLeft c fs j (run c es make) lt (run-Inv c es make (make-Inv c)) (run-AllPushed es each)
        enough
