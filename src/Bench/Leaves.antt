-- ===== src/Bench/Leaves.antt =====
-- What holds of the threads of other/4_test_lock_free_queue.cpp in every schedule, over a queue and
-- a producer that keep their contract.
use cpp_concurrency_data_str.Base.{
  ℕ, ◌+◌, ◌*◌, ◌≤◌, ◌<◌, ◌≡◌, refl, ◌∙◌, ap, sym, subst, Bool-cases, List, [], ◌∷◌, ◌++◌,
  append-nil, length, length-append, ltb, arith, empty_of_length, inl, inr,
}
use cpp_concurrency_data_str.Base.Updates.{update-All}
use cpp_concurrency_data_str.Base.Sums.{sum, sum-update, sum-zero, sum-le}
use cpp_concurrency_data_str.Bench.Contract.{Dequeues, Accounts, Keeps}
use cpp_concurrency_data_str.Bench.Consumes.{pending, LeftAt, LeftAt-mono, consume-Consumed}
use cpp_concurrency_data_str.Bench.{
  Queue, Producer, left, Event, produces, consumes, consume, Bench, make, Settings, total, produced,
  consumed, happens, run,
}

module _ (Q : Queue) (contents : Q.State → List ℕ) (law : Dequeues Q contents) (T : Producer Q)
    (c : Settings) (items : ℕ) (keeps : Keeps Q contents T items) where
  -- What holds between the counters, the queue and the places of the threads.
  pub record Inv (s : Bench Q T) : Type 0 where
    pub accounts : Accounts Q contents s.shared
    pub in_loop : (i : ℕ) → keeps.InLoop (s.producers i)
    pub handed :
        length s.shared.given ≤ sum c.s_producer_thread_num (λ i. keeps.made (s.producers i))
    pub counted :
        s.shared.s_count_pop + sum c.s_consumer_thread_num (λ j. pending (s.consumers j))
        ≡ length s.shared.taken
    pub lefts : (j : ℕ) → LeftAt (total Q T c) s.shared.s_count_pop (s.consumers j)

  pub make-Inv : (q : Q.State) → contents q ≡ [] → Inv (make Q T q)
  make-Inv q e = record {
    accounts = e;
    in_loop = λ i. keeps.start-InLoop;
    handed = omega arith;
    counted = omega (arith, sum-zero c.s_consumer_thread_num (λ j. 0) (λ j. refl));
    lefts = λ j. tt;
  }

  produced-Inv :
      (i : ℕ) (s : Bench Q T) → i < c.s_producer_thread_num → Inv s → Inv (produced Q T c i s)
  produced-Inv i s lt inv =
      let p = s.producers i in
      let h = s.shared in
      let step = keeps.produce-Handed p h in
      record {
        accounts = step.accounts inv.accounts;
        in_loop =
            update-All keeps.InLoop s.producers i (T.produce p h).0 (step.in_loop (inv.in_loop i))
              inv.in_loop;
        handed = omega (
          arith,
          inv.handed,
          step.handed (inv.in_loop i),
          sum-update keeps.made c.s_producer_thread_num i s.producers (T.produce p h).0 lt,
        );
        counted =
            ap (λ n. n + sum c.s_consumer_thread_num (λ j. pending (s.consumers j))) step.same_pop
            ∙ inv.counted
            ∙ ap length (sym step.same_taken);
        lefts = λ j.
            subst (λ n. LeftAt (total Q T c) n (s.consumers j)) (sym step.same_pop) (inv.lefts j);
      }

  consumed-Inv :
      (j : ℕ) (s : Bench Q T) → j < c.s_consumer_thread_num → Inv s → Inv (consumed Q T c j s)
  consumed-Inv j s lt inv =
      let n = total Q T c in
      let h = s.shared in
      let step = consume-Consumed Q contents law n (s.consumers j) h in
      let r = consume Q n (s.consumers j) h in
      record {
        accounts = step.accounts inv.accounts;
        in_loop = inv.in_loop;
        handed = omega (arith, inv.handed, ap length step.same_given);
        counted = omega (
          arith,
          inv.counted,
          step.counted,
          sum-update pending c.s_consumer_thread_num j s.consumers r.0 lt,
        );
        lefts =
            update-All (LeftAt n r.1.s_count_pop) s.consumers j r.0 (step.leaves (inv.lefts j))
              (λ k.
                LeftAt-mono n h.s_count_pop r.1.s_count_pop (s.consumers k) step.grows
                  (inv.lefts k));
      }

  pub happens-Inv : (e : Event) (s : Bench Q T) → Inv s → Inv (happens Q T c e s)
  unfolding happens
  happens-Inv (produces i) s inv = elim (Bool-cases (ltb i c.s_producer_thread_num)) [
    | inl e ↦ rw e (produced-Inv i s (ground arith) inv)
    | inr e ↦ rw e inv
  ]
  happens-Inv (consumes j) s inv = elim (Bool-cases (ltb j c.s_consumer_thread_num)) [
    | inl e ↦ rw e (consumed-Inv j s (ground arith) inv)
    | inr e ↦ rw e inv
  ]

  pub run-Inv : (es : List Event) (s : Bench Q T) → Inv s → Inv (run Q T c es s)
  unfolding run
  run-Inv [] s inv = inv
  run-Inv (e ∷ es) s inv = run-Inv es (happens Q T c e s) (happens-Inv e s inv)

  sum-made :
      (n : ℕ) (f : ℕ → T.Place)
      → ((i : ℕ) → keeps.InLoop (f i))
      → sum n (λ i. keeps.made (f i)) ≤ items * n
  sum-made n f h = sum-le n items (λ i. keeps.made (f i)) (λ i. keeps.made_le (f i) (h i))

  pub Inv-bound : (s : Bench Q T) → Inv s → length s.shared.given ≤ items * c.s_producer_thread_num
  Inv-bound s inv =
      omega (arith, inv.handed, sum-made c.s_producer_thread_num s.producers inv.in_loop)

  -- The counters and the lists, however the threads are interleaved.
  pub counted_le :
      (es : List Event) (q : Q.State)
      → contents q ≡ []
      → let h = (run Q T c es (make Q T q)).shared in
        (h.s_count_pop ≤ length h.taken)
        × (length h.taken + length (contents h.queue) ≡ length h.given)
        × (length h.given ≤ items * c.s_producer_thread_num)
  counted_le es q e =
      let s = run Q T c es (make Q T q) in
      let inv = run-Inv es (make Q T q) (make-Inv q e) in
      (
        omega (arith, inv.counted),
        omega
            (arith, length-append s.shared.taken (contents s.shared.queue), ap length inv.accounts),
        Inv-bound s inv,
      )

  accounted :
      (es : List Event) (q : Q.State)
      → contents q ≡ []
      → Accounts Q contents (run Q T c es (make Q T q)).shared
  accounted es q e = (run-Inv es (make Q T q) (make-Inv q e)).accounts

  pub left_counted :
      (es : List Event) (q : Q.State) (j last_value : ℕ)
      → contents q ≡ []
      → (run Q T c es (make Q T q)).consumers j ≡ left last_value
      → total Q T c ≤ (run Q T c es (make Q T q)).shared.s_count_pop
  left_counted es q j last e at =
      subst (LeftAt (total Q T c) (run Q T c es (make Q T q)).shared.s_count_pop) at
        ((run-Inv es (make Q T q) (make-Inv q e)).lefts j)

module _ (Q : Queue) (contents : Q.State → List ℕ) (law : Dequeues Q contents) (T : Producer Q)
    (c : Settings) (keeps : Keeps Q contents T c.s_queue_item_num) where
  pub left_lem :
      (es : List Event) (q : Q.State) (j last_value : ℕ)
      → contents q ≡ []
      → (run Q T c es (make Q T q)).consumers j ≡ left last_value
      → let h = (run Q T c es (make Q T q)).shared in
        (h.s_count_pop ≡ total Q T c)
        × (length h.given ≡ total Q T c)
        × (h.taken ≡ h.given)
        × (contents h.queue ≡ [])
  left_lem es q j last e at =
      let h = (run Q T c es (make Q T q)).shared in
      let (a, b, d) = counted_le Q contents law T c c.s_queue_item_num keeps es q e in
      let l = left_counted Q contents law T c c.s_queue_item_num keeps es q j last e at in
      let none_left = empty_of_length (contents h.queue) (omega arith) in
      (
        omega arith,
        omega arith,
        sym (append-nil h.taken)
            ∙ ap (h.taken ++◌) (sym none_left)
            ∙ accounted Q contents law T c c.s_queue_item_num keeps es q e,
        none_left,
      )
