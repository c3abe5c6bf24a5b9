-- ===== src/Bench/Contract.antt =====
-- What the queues and the producers of other/4_test_lock_free_queue.cpp promise. `contents` is what
-- went into a queue and has not come out, in order.
use cpp_concurrency_data_str.Base.{
  ℕ, ◌+◌, ◌≤◌, ◌≡◌, Bool, none, some, List, [], ◌∷◌, ◌++◌, if◌then◌else◌, length,
}
use cpp_concurrency_data_str.Bench.{Queue, Shared, Producer}
use cpp_concurrency_data_str.Bench.Producers.{Ypipe}

-- What is taken out is the first value; a queue may find nothing also where there is something.
pub record Dequeues (Q : Queue) (contents : Q.State → List ℕ) : Type 0 where
  pub try_dequeue-some :
      (q : Q.State) (value : ℕ)
      → (Q.try_dequeue q).1 ≡ some value
      → contents q ≡ value ∷ contents (Q.try_dequeue q).0
  pub try_dequeue-none :
      (q : Q.State) → (Q.try_dequeue q).1 ≡ none → contents (Q.try_dequeue q).0 ≡ contents q

pub record Enqueues (Q : Queue) (contents : Q.State → List ℕ)
    (enqueue : ℕ → Q.State → Bool × Q.State) : Type 0 where
  pub contents-enqueue :
      (value : ℕ) (q : Q.State)
      → contents (enqueue value q).1
        ≡ (if (enqueue value q).0 then contents q ++ value ∷ [] else contents q)

pub record Pipes (Y : Ypipe) (contents : Y.State → List ℕ) : Type 0 where
  pub contents-write :
      (value : ℕ) (incomplete : Bool) (q : Y.State)
      → contents (Y.write value incomplete q) ≡ contents q ++ value ∷ []
  pub contents-flush : (q : Y.State) → contents (Y.flush q).0 ≡ contents q

-- What came out and what is in the queue is what went in, in order.
abbrev pub Accounts : (Q : Queue) (contents : Q.State → List ℕ) → Shared Q → Type 0
Accounts Q contents h = h.taken ++ contents h.queue ≡ h.given

-- A producer's step takes nothing out and hands over what `made`, a count by its place, says.
pub record Handed (Q : Queue) (contents : Q.State → List ℕ) {Place : Type 0}
    (InLoop : Place → Type 0) (made : Place → ℕ) (p p' : Place) (h h' : Shared Q) : Type 0 where
  pub in_loop : InLoop p → InLoop p'
  pub handed : InLoop p → length h'.given + made p ≤ length h.given + made p'
  pub accounts : Accounts Q contents h → Accounts Q contents h'
  pub same_taken : h'.taken ≡ h.taken
  pub same_pop : h'.s_count_pop ≡ h.s_count_pop

-- A producer hands over `items` values at most.
pub record Keeps (Q : Queue) (contents : Q.State → List ℕ) (T : Producer Q) (items : ℕ)
    : Type 1 where
  pub InLoop : T.Place → Type 0
  pub made : T.Place → ℕ
  pub start-InLoop : InLoop T.start
  pub made-start : made T.start ≡ 0
  pub made_le : (p : T.Place) → InLoop p → made p ≤ items
  pub produce-Handed :
      (p : T.Place) (h : Shared Q)
      → Handed Q contents InLoop made p (T.produce p h).0 h (T.produce p h).1
