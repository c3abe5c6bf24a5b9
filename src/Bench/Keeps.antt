-- ===== src/Bench/Keeps.antt =====
-- The producers of other/4_test_lock_free_queue.cpp keep their contract when their queue does.
use cpp_concurrency_data_str.Base.{
  ℕ, ◌+◌, ◌≤◌, ◌<◌, refl, Bool, true, false, Bool-cases, List, if◌then◌else◌, ltb, arith, inl, inr,
}
use cpp_concurrency_data_str.Bench.Contract.{Enqueues, Handed, Keeps}
use cpp_concurrency_data_str.Bench.Handed.{silent, enqueued-Handed}
use cpp_concurrency_data_str.Bench.Producers.{
  enqueued, Counted, count_then_enqueue, lockfreequeue_producer_thread, Tried, enqueue_then_count,
  arraylockfreequeue_producer_thread,
}
use cpp_concurrency_data_str.Bench.{Queue, Shared}

module _ (Q : Queue) (contents : Q.State → List ℕ) (enqueue : ℕ → Q.State → Bool × Q.State)
    (law : Enqueues Q contents enqueue) (n : ℕ) where
  abbrev most : (i : ℕ) (b : Bool) → i + (if b then 1 else 0) ≤ i + 1
  most i true = omega arith
  most i false = omega arith

  abbrev CountedInLoop : Counted Q enqueue n → Type 0
  CountedInLoop (Counted.looping i) = i ≤ n
  CountedInLoop (Counted.reading i) = i < n
  CountedInLoop (Counted.enqueuing i count) = i < n
  CountedInLoop Counted.left = Unit

  abbrev counted_made : Counted Q enqueue n → ℕ
  counted_made (Counted.looping i) = i
  counted_made (Counted.reading i) = i
  counted_made (Counted.enqueuing i count) = i
  counted_made Counted.left = n

  counted-Handed :
      (p : Counted Q enqueue n) (h : Shared Q)
      → let r = count_then_enqueue Q enqueue n p h in
        Handed Q contents CountedInLoop counted_made p r.0 h r.1
  unfolding count_then_enqueue
  counted-Handed (Counted.looping i) h = elim (Bool-cases (ltb i n)) [
    | inl e ↦ rw e (
        silent Q contents CountedInLoop counted_made (Counted.looping i) (Counted.reading i) h
          (h.s_count_push + 1) (λ l. ground arith) (λ l. omega arith))
    | inr e ↦ rw e (
        silent Q contents CountedInLoop counted_made (Counted.looping i) Counted.left h
          h.s_count_push (λ l. tt) (λ l. omega (arith, l)))
  ]
  counted-Handed (Counted.reading i) h =
      silent Q contents CountedInLoop counted_made (Counted.reading i)
        (Counted.enqueuing i h.s_count_push) h h.s_count_push (λ l. l) (λ l. omega arith)
  counted-Handed (Counted.enqueuing i count) h =
      enqueued-Handed Q contents enqueue law n CountedInLoop counted_made
        (Counted.enqueuing i count) (Counted.looping (i + 1)) count h (λ l. omega arith)
        (λ l. most i (enqueued Q enqueue n count h).0)
  counted-Handed Counted.left h =
      silent Q contents CountedInLoop counted_made Counted.left Counted.left h h.s_count_push
        (λ l. l) (λ l. omega arith)

  pub lockfreequeue-Keeps : Keeps Q contents (lockfreequeue_producer_thread Q enqueue n) n
  lockfreequeue-Keeps = record {
    InLoop = CountedInLoop;
    made = counted_made;
    start-InLoop = omega arith;
    made-start = refl;
    made_le = le;
    produce-Handed = counted-Handed;
  }
    where
      le : (p : Counted Q enqueue n) → CountedInLoop p → counted_made p ≤ n
      le (Counted.looping i) l = l
      le (Counted.reading i) l = omega arith
      le (Counted.enqueuing i count) l = omega arith
      le Counted.left l = omega arith

  abbrev TriedInLoop : Tried Q enqueue n → Type 0
  TriedInLoop (Tried.enqueuing i count) = i ≤ n
  TriedInLoop (Tried.adding i) = i < n
  TriedInLoop (Tried.reading i) = i < n
  TriedInLoop Tried.left = Unit

  abbrev tried_made : Tried Q enqueue n → ℕ
  tried_made (Tried.enqueuing i count) = i
  tried_made (Tried.adding i) = i + 1
  tried_made (Tried.reading i) = i + 1
  tried_made Tried.left = n

  tried-Handed :
      (p : Tried Q enqueue n) (h : Shared Q)
      → let r = enqueue_then_count Q enqueue n p h in
        Handed Q contents TriedInLoop tried_made p r.0 h r.1
  unfolding enqueue_then_count
  tried-Handed (Tried.enqueuing i count) h = elim (Bool-cases (ltb i n)) [
    | inl e ↦ rw e (
        enqueued-Handed Q contents enqueue law n TriedInLoop tried_made (Tried.enqueuing i count)
          (if (enqueued Q enqueue n count h).0 then Tried.adding i else Tried.enqueuing i count)
          count h (λ l. stays (ground arith) (enqueued Q enqueue n count h).0)
          (λ l. more (enqueued Q enqueue n count h).0))
    | inr e ↦ rw e (
        silent Q contents TriedInLoop tried_made (Tried.enqueuing i count) Tried.left h
          h.s_count_push (λ l. tt) (λ l. omega (arith, l)))
  ]
    where
      stays :
          i < n → (b : Bool) → TriedInLoop (if b then Tried.adding i else Tried.enqueuing i count)
      stays lt true = lt
      stays lt false = omega arith

      more :
          (b : Bool)
          → i + (if b then 1 else 0)
            ≤ tried_made (if b then Tried.adding i else Tried.enqueuing i count)
      more true = omega arith
      more false = omega arith
  tried-Handed (Tried.adding i) h =
      silent Q contents TriedInLoop tried_made (Tried.adding i) (Tried.reading i) h
        (h.s_count_push + 1) (λ l. l) (λ l. omega arith)
  tried-Handed (Tried.reading i) h =
      silent Q contents TriedInLoop tried_made (Tried.reading i)
        (Tried.enqueuing (i + 1) h.s_count_push) h h.s_count_push (λ l. omega arith)
        (λ l. omega arith)
  tried-Handed Tried.left h =
      silent Q contents TriedInLoop tried_made Tried.left Tried.left h h.s_count_push (λ l. l)
        (λ l. omega arith)

  pub arraylockfreequeue-Keeps : Keeps Q contents (arraylockfreequeue_producer_thread Q enqueue n) n
  arraylockfreequeue-Keeps = record {
    InLoop = TriedInLoop;
    made = tried_made;
    start-InLoop = omega arith;
    made-start = refl;
    made_le = le;
    produce-Handed = tried-Handed;
  }
    where
      le : (p : Tried Q enqueue n) → TriedInLoop p → tried_made p ≤ n
      le (Tried.enqueuing i count) l = l
      le (Tried.adding i) l = omega arith
      le (Tried.reading i) l = omega arith
      le Tried.left l = omega arith
