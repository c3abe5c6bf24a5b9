-- ===== src/ThreadPool/Composed.antt =====
-- The pool of ThreadPool.h over the linked queue, compared with the pool over a list.
use cpp_concurrency_data_str.Base.{
  ℕ, suc, ◌≤◌, ◌<◌, ◌≡◌, ◌≢◌, refl, ◌∙◌, ap, sym, subst, true, none, some, List, [], ◌∷◌, ◌++◌,
  map-append, update-ne, arith, ℕ_discrete,
}
use cpp_concurrency_data_str.ThreadSafeQueue
use cpp_concurrency_data_str.ThreadSafeQueue.{
  Ptr, null, Queue, Node, Heap, dummy, push, try_pop_into,
}
use cpp_concurrency_data_str.ThreadSafeQueue.Chain.{Cells, Holds, Linked-tail}
use cpp_concurrency_data_str.ThreadSafeQueue.Refines.{
  make-Holds, push-Holds, push-kept, try_pop_into_refines, try_pop_empty,
}
use cpp_concurrency_data_str.ThreadPool
use cpp_concurrency_data_str.ThreadPool.{
  Worker, testing, popping, running, exited, ThreadPool, Event, works, submits, stops,
}
use cpp_concurrency_data_str.ThreadPool.Linked.{
  LinkedPool, make, takes, work_step, submit, run, Serves, view, Follows,
}

module _ {ℓ} {Task : Type ℓ} where
  -- The same queue and addresses, whatever the workers do.
  keeps :
      (l l' : LinkedPool Task) (cs : Cells Task)
      → l.queue ≡ l'.queue
      → l.fresh ≡ l'.fresh
      → Serves l cs
      → Serves l' cs
  keeps l l' cs eq ef v = record {
    holds = subst (λ q. Holds q cs) eq v.holds;
    unused = λ a le. ap (λ q. q.heap a) (sym eq) ∙ v.unused a (omega arith);
    real = omega (arith, v.real);
  }

  work_step-Follows :
      (w : Worker Task) (i : ℕ) (l : LinkedPool Task) (cs : Cells Task)
      → Serves l cs
      → Follows (work_step w i l) (ThreadPool.work_step w i (view l cs))
  unfolding work_step ThreadPool.work_step
  work_step-Follows testing i l cs v = (_, cs, refl, keeps l _ cs refl refl v, refl)
  work_step-Follows popping i l [] v = (
    takes l i (none, l.queue),
    [],
    rw (try_pop_empty v.holds).1 refl,
    keeps l _ [] refl refl v,
    refl,
  )
  work_step-Follows popping i l ((p, x) ∷ cs) v =
      let (q', e, took) = try_pop_into_refines v.holds in
      (
        takes l i (some x, q'),
        cs,
        rw e refl,
        record {
          holds = took.holds;
          unused = λ a le. elim (ℕ_discrete a p) [
            | yes same ↦ ap q'.heap same ∙ took.freed
            | no other ↦ took.kept a other ∙ v.unused a le
          ];
          real = v.real;
        },
        refl,
      )
  work_step-Follows (running task) i l cs v = (_, cs, refl, keeps l _ cs refl refl v, refl)
  work_step-Follows exited i l cs v = (l, cs, refl, v, refl)

  submit-Follows :
      (task : Task) (l : LinkedPool Task) (cs : Cells Task)
      → Serves l cs
      → Follows (submit task l) (ThreadPool.submit task (view l cs))
  unfolding submit
  submit-Follows task l cs v =
      let free = v.unused l.fresh (omega arith) in
      let (q', e, h) = push-Holds l.fresh task v.holds free (λ k. omega (arith, v.real, k)) in
      let not_tail : (a : Ptr) → l.queue.heap a ≡ none → a ≢ l.queue.tail = λ a none_at k. ground (
        arith,
        ap l.queue.heap k,
        none_at,
        Linked-tail l.queue.heap l.queue.tail cs v.holds.linked,
      ) in
      (
        record l { queue = q'; fresh = suc l.fresh },
        cs ++ (l.queue.tail, task) ∷ [],
        rw e refl,
        record {
          holds = h;
          unused = λ a le.
              let at = v.unused a (omega arith) in
              push-kept l.fresh task v.holds free e a (λ k. omega (arith, k)) (not_tail a at) ∙ at;
          real = omega arith;
        },
        ap (λ ts. record (view l cs) { work_queue = ts })
            (map-append (λ c. c.1) cs ((l.queue.tail, task) ∷ [])),
      )

  -- For every schedule, on a pool whose queue is well formed and where nothing stands at the addresses
  -- that `new` will give: the pool over the linked queue runs without a fault, leaves such a queue, and
  -- its workers, started and finished tasks and waiting tasks are those of the pool over a list.
  pub run-Follows :
      (es : List (Event Task)) (l : LinkedPool Task) (cs : Cells Task)
      → Serves l cs
      → Follows (run es l) (ThreadPool.run es (view l cs))
  unfolding run ThreadPool.run
  run-Follows [] l cs v = (l, cs, refl, v, refl)
  run-Follows (works i ∷ es) l cs v =
      let (l1, cs1, e, v1, same) = work_step-Follows (l.threads i) i l cs v in
      let (l2, cs2, e2, v2, same2) = run-Follows es l1 cs1 v1 in
      (l2, cs2, rw e e2, v2, same2 ∙ ap (ThreadPool.run es) same)
  run-Follows (submits task ∷ es) l cs v =
      let (l1, cs1, e, v1, same) = submit-Follows task l cs v in
      let (l2, cs2, e2, v2, same2) = run-Follows es l1 cs1 v1 in
      (l2, cs2, rw e e2, v2, same2 ∙ ap (ThreadPool.run es) same)
  run-Follows (stops ∷ es) l cs v =
      run-Follows es (record l { done = true }) cs (keeps l _ cs refl refl v)

  -- On a heap where nothing stands from an address on that is not null, a new pool is such a pool.
  pub make-Serves :
      (h : Heap Task) (fresh : Ptr)
      → 0 < fresh
      → ((a : Ptr) → fresh ≤ a → h a ≡ none)
      → Serves (make h fresh) []
  unfolding make ThreadSafeQueue.make
  make-Serves h fresh real free = record {
    holds = make-Holds fresh h (λ e. omega (arith, e));
    unused =
        λ a le. update-ne h fresh a (some dummy) (λ e. omega (arith, e)) ∙ free a (omega arith);
    real = omega arith;
  }
