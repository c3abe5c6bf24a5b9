-- ===== src/Bench/Counts.antt =====
-- The steps of a producer of other/4_test_lock_free_queue.cpp that counts first, with a queue that
-- accepts every value.
use cpp_concurrency_data_str.Base.{
  ℕ, ◌+◌, ◌-◌, ◌*◌, ◌≤◌, ◌<◌, ◌≡◌, refl, ap, Bool, true, Bool-cases, [], ◌∷◌, ◌++◌, length,
  length-snoc, if◌then◌else◌, ltb, arith, inl, inr,
}
use cpp_concurrency_data_str.Bench.Producers.{
  Counted, count_then_enqueue, lockfreequeue_producer_thread,
}
use cpp_concurrency_data_str.Bench.{Queue, Shared, Bench, Settings}

module _ (Q : Queue) (enqueue : ℕ → Q.State → Bool × Q.State)
    (always : (count : ℕ) (q : Q.State) → (enqueue count q).0 ≡ true) (c : Settings) where
  abbrev pub N : ℕ
  N = c.s_queue_item_num

  abbrev pub Threads : Type 0
  Threads = Bench Q (lockfreequeue_producer_thread Q enqueue N)

  -- What a producer has handed over, how far it may be, and the steps that it makes at most.
  abbrev pub handed : Counted Q enqueue N → ℕ
  handed (Counted.looping i) = i
  handed (Counted.reading i) = i
  handed (Counted.enqueuing i count) = i
  handed Counted.left = N

  abbrev pub InBounds : Counted Q enqueue N → Type 0
  InBounds (Counted.looping i) = i ≤ N
  InBounds (Counted.reading i) = i < N
  InBounds (Counted.enqueuing i count) = i < N
  InBounds Counted.left = Unit

  abbrev pub to_leave : Counted Q enqueue N → ℕ
  to_leave (Counted.looping i) = 3 * (N - i) + 1
  to_leave (Counted.reading i) = 3 * (N - (i + 1)) + 3
  to_leave (Counted.enqueuing i count) = 3 * (N - (i + 1)) + 2
  to_leave Counted.left = 0

  pub left_of_none : (p : Counted Q enqueue N) → to_leave p ≡ 0 → p ≡ Counted.left
  left_of_none (Counted.looping i) h = absurd (omega arith)
  left_of_none (Counted.reading i) h = absurd (omega arith)
  left_of_none (Counted.enqueuing i count) h = absurd (omega arith)
  left_of_none Counted.left h = refl

  -- A producer's step.
  pub record Goes (p p' : Counted Q enqueue N) (h h' : Shared Q) : Type 0 where
    pub stays : InBounds p → InBounds p'
    pub exact : InBounds p → length h'.given + handed p ≡ length h.given + handed p'
    pub sooner : to_leave p' ≤ to_leave p - 1

  pub step-Goes :
      (p : Counted Q enqueue N) (h : Shared Q)
      → Goes p (count_then_enqueue Q enqueue N p h).0 h (count_then_enqueue Q enqueue N p h).1
  unfolding count_then_enqueue
  step-Goes (Counted.looping i) h = elim (Bool-cases (ltb i N)) [
    | inl e ↦
        rw e
          (record { stays = λ l. ground arith; exact = λ l. refl; sooner = fewer (ground arith) })
    | inr e ↦
        rw e (record { stays = λ l. tt; exact = λ l. same l (ground arith); sooner = omega arith })
  ]
    where
      fewer : i < N → 3 * (N - (i + 1)) + 3 ≤ 3 * (N - i) + 1 - 1
      fewer h = omega arith

      same : i ≤ N → N ≤ i → length h.given + i ≡ length h.given + N
      same a b = omega arith
  step-Goes (Counted.reading i) h = record {
    stays = λ l. l;
    exact = λ l. refl;
    sooner = omega arith;
  }
  step-Goes (Counted.enqueuing i count) h = record {
    stays = λ l. omega arith;
    exact = λ l. omega (
      arith,
      length-snoc h.given count,
      ap (λ b. length (if b then h.given ++ count ∷ [] else h.given)) (always count h.queue),
    );
    sooner = omega arith;
  }
  step-Goes Counted.left h = record { stays = λ l. l; exact = λ l. refl; sooner = omega arith }
