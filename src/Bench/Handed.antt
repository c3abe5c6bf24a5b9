-- ===== src/Bench/Handed.antt =====
-- The kinds of step that the producers of other/4_test_lock_free_queue.cpp are made of.
use cpp_concurrency_data_str.Base.{
  ℕ, ◌+◌, ◌≤◌, ◌≡◌, refl, ◌∙◌, ap, sym, Bool, true, false, List, [], ◌∷◌, ◌++◌, append_assoc,
  length-snoc, if◌then◌else◌, arith,
}
use cpp_concurrency_data_str.Bench.Contract.{Enqueues, Pipes, Handed}
use cpp_concurrency_data_str.Bench.Producers.{enqueued, Ypipe, queue_of, written, flushed}
use cpp_concurrency_data_str.Bench.{Queue, Shared}

-- A step that changes no more than the count of what was pushed.
pub silent :
    (Q : Queue) (contents : Q.State → List ℕ) {Place : Type 0} (InLoop : Place → Type 0)
    (made : Place → ℕ) (p p' : Place) (h : Shared Q) (count : ℕ)
    → (InLoop p → InLoop p')
    → (InLoop p → made p ≤ made p')
    → Handed Q contents InLoop made p p' h (record h { s_count_push = count })
silent Q contents InLoop made p p' h count stays more = record {
  in_loop = stays;
  handed = λ l. omega (arith, more l);
  accounts = λ a. a;
  same_taken = refl;
  same_pop = refl;
}

module _ (Q : Queue) (contents : Q.State → List ℕ) (enqueue : ℕ → Q.State → Bool × Q.State)
    (law : Enqueues Q contents enqueue) (n : ℕ) where
  -- A call of `enqueue`, after which the producer is where the outcome leads it.
  pub enqueued-Handed :
      {Place : Type 0} (InLoop : Place → Type 0) (made : Place → ℕ) (p p' : Place) (count : ℕ)
      (h : Shared Q)
      → (InLoop p → InLoop p')
      → (InLoop p → made p + (if (enqueued Q enqueue n count h).0 then 1 else 0) ≤ made p')
      → Handed Q contents InLoop made p p' h (enqueued Q enqueue n count h).1
  enqueued-Handed InLoop made p p' count h stays more =
      go (enqueue count h.queue).0 (law.contents-enqueue count h.queue) more
    where
      go :
          (b : Bool)
          → contents (enqueue count h.queue).1
            ≡ (if b then contents h.queue ++ count ∷ [] else contents h.queue)
          → (InLoop p → made p + (if b then 1 else 0) ≤ made p')
          → Handed Q contents InLoop made p p' h (record h {
            queue = (enqueue count h.queue).1;
            given = if b then h.given ++ count ∷ [] else h.given;
          })
      go true e m = record {
        in_loop = stays;
        handed = λ l. omega (arith, m l, length-snoc h.given count);
        accounts = λ a.
            ap (h.taken ++◌) e
            ∙ sym (append_assoc h.taken (contents h.queue) (count ∷ []))
            ∙ ap (λ l. l ++ count ∷ []) a;
        same_taken = refl;
        same_pop = refl;
      }
      go false e m = record {
        in_loop = stays;
        handed = λ l. omega (arith, m l);
        accounts = λ a. ap (h.taken ++◌) e ∙ a;
        same_taken = refl;
        same_pop = refl;
      }

module _ (Y : Ypipe) (contents : Y.State → List ℕ) (law : Pipes Y contents) (n : ℕ) where
  pub written-Handed :
      {Place : Type 0} (InLoop : Place → Type 0) (made : Place → ℕ) (p p' : Place) (count : ℕ)
      (incomplete : Bool) (h : Shared (queue_of Y))
      → (InLoop p → InLoop p')
      → (InLoop p → made p + 1 ≤ made p')
      → Handed (queue_of Y) contents InLoop made p p' h (written Y n count incomplete h)
  written-Handed InLoop made p p' count incomplete h stays more = record {
    in_loop = stays;
    handed = λ l. omega (arith, more l, length-snoc h.given count);
    accounts = λ a.
        ap (h.taken ++◌) (law.contents-write count incomplete h.queue)
        ∙ sym (append_assoc h.taken (contents h.queue) (count ∷ []))
        ∙ ap (λ l. l ++ count ∷ []) a;
    same_taken = refl;
    same_pop = refl;
  }

  pub flushed-Handed :
      {Place : Type 0} (InLoop : Place → Type 0) (made : Place → ℕ) (p p' : Place)
      (h : Shared (queue_of Y))
      → (InLoop p → InLoop p')
      → (InLoop p → made p ≤ made p')
      → Handed (queue_of Y) contents InLoop made p p' h (flushed Y n h)
  flushed-Handed InLoop made p p' h stays more = record {
    in_loop = stays;
    handed = λ l. omega (arith, more l);
    accounts = λ a. ap (h.taken ++◌) (law.contents-flush h.queue) ∙ a;
    same_taken = refl;
    same_pop = refl;
  }
