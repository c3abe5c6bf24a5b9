-- ===== src/Bench/Mutex/Leaves.antt =====
-- A consumer of the std::list in other/4_test_lock_free_queue.cpp leaves once all values are pushed.
use cpp_concurrency_data_str.Base.{
  ℕ, ◌+◌, ◌-◌, ◌*◌, ◌≤◌, ◌<◌, ◌≡◌, ◌≢◌, refl, ◌∙◌, ap, sym, subst, true, Bool-cases, List, [], ◌∷◌,
  ltb, ==-refl, ==_of_ne, ℕ_discrete, arith, inl, inr,
}
use cpp_concurrency_data_str.Bench.{Settings, Event, produces, consumes}
use cpp_concurrency_data_str.Bench.Mutex.{MutexQueue, total, consume, happens, run}
use cpp_concurrency_data_str.Bench.Mutex.Takes.{Inv, run-Inv, Inv-counts}
use cpp_concurrency_data_str.Bench.Mutex.Drains.{
  turns, to_exit, to_exit_mono, to_exit-le, HasLeft, at_exit, AllPushed, remaining, Grows,
  consume-Grows, produce-Grows, produce-consumers, consume-other, consume-to_exit,
}

module _ (c : Settings) where
  happens-Grows : (e : Event) (s : MutexQueue) → Grows c s (happens c e s)
  unfolding happens
  happens-Grows (produces i) s = elim (Bool-cases (ltb i c.s_producer_thread_num)) [
    | inl e ↦ rw e (produce-Grows c (s.producers i) i s)
    | inr e ↦ rw e (record { pushes = omega arith; pops = omega arith })
  ]
  happens-Grows (consumes j) s = elim (Bool-cases (ltb j c.s_consumer_thread_num)) [
    | inl e ↦ rw e (consume-Grows c (s.consumers j) j s)
    | inr e ↦ rw e (record { pushes = omega arith; pops = omega arith })
  ]

  -- Once all values are pushed, they stay so, and the list does not grow.
  happens-drains :
      (e : Event) (s : MutexQueue)
      → Inv c s
      → Inv c (happens c e s)
      → AllPushed c s
      → AllPushed c (happens c e s) × (remaining c (happens c e s) ≤ remaining c s)
  happens-drains e s inv inv' all =
      let (sums, bound) = Inv-counts c s inv in
      let (sums', bound') = Inv-counts c (happens c e s) inv' in
      let g = happens-Grows e s in (omega (arith, g.pushes), omega (arith, g.pushes, g.pops))

  produces-consumers :
      (i j : ℕ) (s : MutexQueue) → (happens c (produces i) s).consumers j ≡ s.consumers j
  unfolding happens
  produces-consumers i j s = elim (Bool-cases (ltb i c.s_producer_thread_num)) [
    | inl e ↦ rw e (produce-consumers c (s.producers i) i j s)
    | inr e ↦ rw e refl
  ]

  consumes-other :
      (k j : ℕ) (s : MutexQueue) → k ≢ j → (happens c (consumes k) s).consumers j ≡ s.consumers j
  unfolding happens
  consumes-other k j s ne = elim (Bool-cases (ltb k c.s_consumer_thread_num)) [
    | inl e ↦ rw e (consume-other c (s.consumers k) k j s ne)
    | inr e ↦ rw e refl
  ]

  consumes_own :
      (j : ℕ) (s : MutexQueue)
      → j < c.s_consumer_thread_num
      → consume c (s.consumers j) j s ≡ happens c (consumes j) s
  unfolding happens
  consumes_own j s lt = rw (ltb_of_lt lt) refl
    where
      ltb_of_lt : j < c.s_consumer_thread_num → ltb j c.s_consumer_thread_num ≡ true
      ltb_of_lt h = ground arith

  happens-to_exit :
      (e : Event) (j : ℕ) (s : MutexQueue)
      → j < c.s_consumer_thread_num
      → Inv c s
      → AllPushed c s
      → remaining c (happens c e s) ≤ remaining c s
      → to_exit ((happens c e s).consumers j) (remaining c (happens c e s))
        ≤ to_exit (s.consumers j) (remaining c s) - turns j (e ∷ [])
  happens-to_exit (produces i) j s lt inv all less = omega (
    arith,
    ap (λ p. to_exit p (remaining c (happens c (produces i) s))) (produces-consumers i j s),
    to_exit_mono (s.consumers j) (remaining c (happens c (produces i) s)) (remaining c s) less,
  )
  happens-to_exit (consumes k) j s lt inv all less = elim (ℕ_discrete k j) [
    | yes e ↦
        subst
          (λ l.
            to_exit ((happens c (consumes l) s).consumers j)
              (remaining c (happens c (consumes l) s))
            ≤ to_exit (s.consumers j) (remaining c s) - turns j (consumes l ∷ []))
          (sym e)
          (rw (==-refl j) (
            subst
              (λ t.
                to_exit (t.consumers j) (remaining c t)
                ≤ to_exit (s.consumers j) (remaining c s) - 1)
              (consumes_own j s lt)
              (consume-to_exit c (s.consumers j) j s refl ((Inv-counts c s inv).0 ∙ all))))
    | no ne ↦ rw (==_of_ne k j ne) (
        omega (
          arith,
          ap (λ p. to_exit p (remaining c (happens c (consumes k) s))) (consumes-other k j s ne),
          to_exit_mono (s.consumers j) (remaining c (happens c (consumes k) s)) (remaining c s)
              less,
        ))
  ]

  turns-cons :
      (e : Event) (es : List Event) (j : ℕ) → turns j (e ∷ es) ≡ turns j (e ∷ []) + turns j es
  turns-cons (produces i) es j = omega arith
  turns-cons (consumes k) es j = omega arith

  run-to_exit :
      (es : List Event) (j : ℕ) (s : MutexQueue)
      → j < c.s_consumer_thread_num
      → Inv c s
      → AllPushed c s
      → to_exit ((run c es s).consumers j) (remaining c (run c es s))
        ≤ to_exit (s.consumers j) (remaining c s) - turns j es
  unfolding run
  run-to_exit [] j s lt inv all = omega arith
  run-to_exit (e ∷ es) j s lt inv all =
      let inv' = run-Inv c (e ∷ []) s inv in
      let (all', less) = happens-drains e s inv inv' all in
      omega (
        arith,
        turns-cons e es j,
        run-to_exit es j (happens c e s) lt inv' all',
        happens-to_exit e j s lt inv all less,
      )

  -- After all values are pushed, a consumer that makes enough steps of its own leaves.
  pub run-HasLeft :
      (es : List Event) (j : ℕ) (s : MutexQueue)
      → j < c.s_consumer_thread_num
      → Inv c s
      → AllPushed c s
      → 2 * total c + 3 ≤ turns j es
      → HasLeft ((run c es s).consumers j)
  run-HasLeft es j s lt inv all enough =
      at_exit ((run c es s).consumers j) (remaining c (run c es s)) (
        omega (
          arith,
          run-to_exit es j s lt inv all,
          to_exit-le (s.consumers j) (remaining c s),
          Inv-counts c s inv,
          all,
        ))
