-- ===== src/Bench/PipeKeeps.antt =====
-- The producers of other/4_test_lock_free_queue.cpp that write to a `ypipe_t` keep their contract.
use cpp_concurrency_data_str.Base.{
  ℕ, ◌+◌, ◌*◌, ◌/◌, ◌≤◌, ◌<◌, refl, true, false, Bool-cases, List, ltb, arith, inl, inr,
}
use cpp_concurrency_data_str.Bench.Contract.{Pipes, Handed, Keeps}
use cpp_concurrency_data_str.Bench.Handed.{silent, written-Handed, flushed-Handed}
use cpp_concurrency_data_str.Bench.Producers.{
  Ypipe, queue_of, Piped, write_one, yqueue_producer_thread, Batched, write_ten,
  yqueue_producer_thread_batch,
}
use cpp_concurrency_data_str.Bench.{Shared}

module _ (Y : Ypipe) (contents : Y.State → List ℕ) (law : Pipes Y contents) (n : ℕ) where
  abbrev PipedInLoop : Piped Y n → Type 0
  PipedInLoop (Piped.writing i count) = i ≤ n
  PipedInLoop (Piped.adding i) = i < n
  PipedInLoop (Piped.reading i) = i < n
  PipedInLoop (Piped.flushing i count) = i ≤ n
  PipedInLoop Piped.left = Unit

  abbrev piped_made : Piped Y n → ℕ
  piped_made (Piped.writing i count) = i
  piped_made (Piped.adding i) = i + 1
  piped_made (Piped.reading i) = i + 1
  piped_made (Piped.flushing i count) = i
  piped_made Piped.left = n

  piped-Handed :
      (p : Piped Y n) (h : Shared (queue_of Y))
      → let r = write_one Y n p h in Handed (queue_of Y) contents PipedInLoop piped_made p r.0 h r.1
  unfolding write_one
  piped-Handed (Piped.writing i count) h = elim (Bool-cases (ltb i n)) [
    | inl e ↦ rw e (
        written-Handed Y contents law n PipedInLoop piped_made (Piped.writing i count)
          (Piped.adding i) count false h (λ l. ground arith) (λ l. omega arith))
    | inr e ↦ rw e (
        silent (queue_of Y) contents PipedInLoop piped_made (Piped.writing i count) Piped.left h
          h.s_count_push (λ l. tt) (λ l. omega (arith, l)))
  ]
  piped-Handed (Piped.adding i) h =
      silent (queue_of Y) contents PipedInLoop piped_made (Piped.adding i) (Piped.reading i) h
        (h.s_count_push + 1) (λ l. l) (λ l. omega arith)
  piped-Handed (Piped.reading i) h =
      silent (queue_of Y) contents PipedInLoop piped_made (Piped.reading i)
        (Piped.flushing (i + 1) h.s_count_push) h h.s_count_push (λ l. omega arith)
        (λ l. omega arith)
  piped-Handed (Piped.flushing i count) h =
      flushed-Handed Y contents law n PipedInLoop piped_made (Piped.flushing i count)
        (Piped.writing i count) h (λ l. l) (λ l. omega arith)
  piped-Handed Piped.left h =
      silent (queue_of Y) contents PipedInLoop piped_made Piped.left Piped.left h h.s_count_push
        (λ l. l) (λ l. omega arith)

  pub yqueue-Keeps : Keeps (queue_of Y) contents (yqueue_producer_thread Y n) n
  yqueue-Keeps = record {
    InLoop = PipedInLoop;
    made = piped_made;
    start-InLoop = omega arith;
    made-start = refl;
    made_le = le;
    produce-Handed = piped-Handed;
  }
    where
      le : (p : Piped Y n) → PipedInLoop p → piped_made p ≤ n
      le (Piped.writing i count) l = l
      le (Piped.adding i) l = omega arith
      le (Piped.reading i) l = omega arith
      le (Piped.flushing i count) l = l
      le Piped.left l = omega arith

  -- How many rounds of ten the producer makes.
  abbrev pub rounds : ℕ
  rounds = n / 10

  abbrev BatchedInLoop : Batched Y n → Type 0
  BatchedInLoop (Batched.looping i count) = i ≤ rounds
  BatchedInLoop (Batched.writing i k count) = (i < rounds) × (k < 10)
  BatchedInLoop (Batched.adding i k) = (i < rounds) × (k < 10)
  BatchedInLoop (Batched.reading i k) = (i < rounds) × (k < 10)
  BatchedInLoop (Batched.flushing i count) = i ≤ rounds
  BatchedInLoop Batched.left = Unit

  abbrev batched_made : Batched Y n → ℕ
  batched_made (Batched.looping i count) = 10 * i
  batched_made (Batched.writing i k count) = 10 * i + k
  batched_made (Batched.adding i k) = 10 * i + k + 1
  batched_made (Batched.reading i k) = 10 * i + k + 1
  batched_made (Batched.flushing i count) = 10 * i
  batched_made Batched.left = 10 * rounds

  batched-Handed :
      (p : Batched Y n) (h : Shared (queue_of Y))
      → let r = write_ten Y n p h in
        Handed (queue_of Y) contents BatchedInLoop batched_made p r.0 h r.1
  unfolding write_ten
  batched-Handed (Batched.looping i count) h = elim (Bool-cases (ltb i rounds)) [
    | inl e ↦ rw e (
        written-Handed Y contents law n BatchedInLoop batched_made (Batched.looping i count)
          (Batched.adding i 0) count true h (λ l. (ground arith, omega arith)) (λ l. omega arith))
    | inr e ↦ rw e (
        silent (queue_of Y) contents BatchedInLoop batched_made (Batched.looping i count)
          Batched.left h h.s_count_push (λ l. tt) (λ l. omega (arith, l)))
  ]
  batched-Handed (Batched.writing i k count) h =
      written-Handed Y contents law n BatchedInLoop batched_made (Batched.writing i k count)
        (Batched.adding i k) count (ltb k 9) h (λ l. l) (λ l. omega arith)
  batched-Handed (Batched.adding i k) h =
      silent (queue_of Y) contents BatchedInLoop batched_made (Batched.adding i k)
        (Batched.reading i k) h (h.s_count_push + 1) (λ l. l) (λ l. omega arith)
  batched-Handed (Batched.reading i k) h = elim (Bool-cases (ltb k 9)) [
    | inl e ↦ rw e (
        silent (queue_of Y) contents BatchedInLoop batched_made (Batched.reading i k)
          (Batched.writing i (k + 1) h.s_count_push) h h.s_count_push (λ l. (l.0, ground arith))
          (λ l. omega arith))
    | inr e ↦ rw e (
        silent (queue_of Y) contents BatchedInLoop batched_made (Batched.reading i k)
          (Batched.flushing (i + 1) h.s_count_push) h h.s_count_push (λ l. omega (arith, l.0))
          (λ l. tenth l.1 (ground arith)))
  ]
    where
      tenth : k < 10 → 9 ≤ k → 10 * i + k + 1 ≤ 10 * (i + 1)
      tenth lt ge = omega arith
  batched-Handed (Batched.flushing i count) h =
      flushed-Handed Y contents law n BatchedInLoop batched_made (Batched.flushing i count)
        (Batched.looping i count) h (λ l. l) (λ l. omega arith)
  batched-Handed Batched.left h =
      silent (queue_of Y) contents BatchedInLoop batched_made Batched.left Batched.left h
        h.s_count_push (λ l. l) (λ l. omega arith)

  pub batch-Keeps : Keeps (queue_of Y) contents (yqueue_producer_thread_batch Y n) (10 * rounds)
  batch-Keeps = record {
    InLoop = BatchedInLoop;
    made = batched_made;
    start-InLoop = omega arith;
    made-start = refl;
    made_le = le;
    produce-Handed = batched-Handed;
  }
    where
      le : (p : Batched Y n) → BatchedInLoop p → batched_made p ≤ 10 * rounds
      le (Batched.looping i count) l = omega (arith, l)
      le (Batched.writing i k count) l = omega (arith, l.0, l.1)
      le (Batched.adding i k) l = omega (arith, l.0, l.1)
      le (Batched.reading i k) l = omega (arith, l.0, l.1)
      le (Batched.flushing i count) l = omega (arith, l)
      le Batched.left l = omega arith
