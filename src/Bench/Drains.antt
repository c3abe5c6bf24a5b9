-- ===== src/Bench/Drains.antt =====
-- How a single consumer of other/4_test_lock_free_queue.cpp comes to an end.
use cpp_concurrency_data_str.Base.{
  ℕ, zero, suc, ◌+◌, ◌-◌, ◌*◌, ◌≤◌, ◌≡◌, refl, ◌∙◌, ap, sym, subst, true, Bool-cases, Option, none,
  some, List, [], ◌∷◌, length, if◌then◌else◌, leb, arith, inl, inr,
}
use cpp_concurrency_data_str.Bench.Contract.{Dequeues}
use cpp_concurrency_data_str.Bench.Consumes.{pending}
use cpp_concurrency_data_str.Bench.{
  Queue, Shared, Consumer, dequeuing, counting, testing, left, Event, produces, consumes, received,
  consume,
}

-- How many steps of the consumer a schedule has.
abbrev pub consumer_turns : List Event → ℕ
consumer_turns [] = 0
consumer_turns (produces i ∷ es) = consumer_turns es
consumer_turns (consumes zero ∷ es) = suc (consumer_turns es)
consumer_turns (consumes (suc j) ∷ es) = consumer_turns es

-- The steps that a consumer makes at most with `n` values in the queue and no more to come.
abbrev pub to_exit : Consumer → ℕ → ℕ
to_exit (left _) n = 0
to_exit (dequeuing _) n = 3 * n + 2
to_exit (counting _) n = 3 * n + 4
to_exit (testing _) zero = 1
to_exit (testing _) (suc n) = 3 * n + 6

pub to_exit_le : (p : Consumer) (n : ℕ) → to_exit p n ≤ 3 * n + 4
to_exit_le (left _) n = omega arith
to_exit_le (dequeuing _) n = omega arith
to_exit_le (counting _) n = omega arith
to_exit_le (testing _) zero = omega arith
to_exit_le (testing _) (suc n) = omega arith

testing_le : (v n : ℕ) → to_exit (testing v) n ≤ 3 * n + 3
testing_le v zero = omega arith
testing_le v (suc n) = omega arith

-- Where a consumer is that has left.
abbrev pub HasLeft : Consumer → Type 0
HasLeft p = (last_value : ℕ) × (p ≡ left last_value)

pub at_exit : (p : Consumer) (n : ℕ) → to_exit p n ≡ 0 → HasLeft p
at_exit (left v) n h = (v, refl)
at_exit (dequeuing v) n h = absurd (omega arith)
at_exit (counting v) n h = absurd (omega arith)
at_exit (testing v) zero h = absurd (omega arith)
at_exit (testing v) (suc n) h = absurd (omega arith)

-- The test for the end, with `n` values in the queue.
tested :
    (m v count n : ℕ)
    → count + n ≡ m
    → to_exit (if leb m count then left v else dequeuing v) n ≤ to_exit (testing v) n - 1
tested m v count zero all = rw (leb_of_le (omega arith)) (omega arith)
  where
    leb_of_le : m ≤ count → leb m count ≡ true
    leb_of_le h = ground arith
tested m v count (suc n) all = elim (Bool-cases (leb m count)) [
  | inl e ↦ absurd (beyond (ground arith))
  | inr e ↦ rw e (omega arith)
]
  where
    beyond : m ≤ count → ⊥
    beyond h = omega arith

-- A queue that finds a value whenever there is one.
module _ (Q : Queue) (contents : Q.State → List ℕ) (law : Dequeues Q contents)
    (finds : (q : Q.State) → (Q.try_dequeue q).1 ≡ none → contents q ≡ []) where
  pub consume-to_exit :
      (m : ℕ) (p : Consumer) (h : Shared Q)
      → length h.taken + length (contents h.queue) ≡ m
      → h.s_count_pop + pending p ≡ length h.taken
      → to_exit (consume Q m p h).0 (length (contents (consume Q m p h).1.queue))
        ≤ to_exit p (length (contents h.queue)) - 1
  unfolding consume
  consume-to_exit m (dequeuing v) h all popped = go (Q.try_dequeue h.queue).1 refl
    where
      go :
          (o : Option ℕ)
          → (Q.try_dequeue h.queue).1 ≡ o
          → let r = received Q o v (record h { queue = (Q.try_dequeue h.queue).0 }) in
            to_exit r.0 (length (contents r.1.queue)) ≤ 3 * length (contents h.queue) + 2 - 1
      go none e =
          subst (λ n. to_exit (testing v) n ≤ 3 * length (contents h.queue) + 2 - 1)
            (sym (ap length (law.try_dequeue-none h.queue e ∙ finds h.queue e))) (omega arith)
      go (some x) e = omega (arith, ap length (law.try_dequeue-some h.queue x e))
  consume-to_exit m (counting v) h all popped =
      omega (arith, testing_le v (length (contents h.queue)))
  consume-to_exit m (testing v) h all popped =
      tested m v h.s_count_pop (length (contents h.queue)) (omega arith)
  consume-to_exit m (left v) h all popped = omega arith
