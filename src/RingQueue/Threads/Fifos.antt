-- ===== src/RingQueue/Threads/Fifos.antt =====
-- A push and a pop of LockFreeQueue.h that run alone, step by step, as calls of a bounded queue.
use cpp_concurrency_data_str.Base.{ℕ, ◌≡◌, ◌∙◌, ap, sym, false, some-injective, List, [], ◌∷◌}
use cpp_concurrency_data_str.Fifo
use cpp_concurrency_data_str.RingQueue.{RingQueue}
use cpp_concurrency_data_str.RingQueue.Holds.{Holds}
use cpp_concurrency_data_str.RingQueue.Refines.{push_refines, pop_refines}
use cpp_concurrency_data_str.RingQueue.Threads.{loads, pushed, popped}
use cpp_concurrency_data_str.RingQueue.Threads.Alone.{rounds, push_steps, pop_steps, steps_agree}

module _ {ℓ} {A : Type ℓ} where
  -- On a queue that holds `xs` and with `n` spurious failures, a thread that pushes step by step while
  -- no other makes a step returns: with room it returns true and the queue holds `x` behind `xs`,
  -- and without it returns false and the queue holds `xs`. A thread that pops so returns true with
  -- the oldest value, and the queue holds the others, or false with no value if there is none. The
  -- capacity stays.
  pub alone_refines :
      {q : RingQueue A} {h : ℕ} {xs : List A} (n : ℕ) (x : A)
      → Holds q h xs
      → let (done, ys) = Fifo.enqueue q.capacity xs x in
        let (taken, out, zs) = Fifo.dequeue xs in
        ((q' : RingQueue A) × (push_steps (false ∷ rounds n (false ∷ false ∷ [])) x (loads, q)
            ≡ (pushed done, q'))
          × Holds q' h ys
          × (q'.capacity ≡ q.capacity))
        × ((q' : RingQueue A) × (h' : ℕ) × (pop_steps
                (false ∷ rounds n (false ∷ false ∷ false ∷ []))
                (loads, q)
              ≡ (popped taken out, q'))
            × Holds q' h' zs
            × (q'.capacity ≡ q.capacity))
  alone_refines {q} n x v =
      let ((b, q1, ran, steps), (c, out, q2, ran', steps')) = steps_agree n q x in
      let (r1, push_eq, v1, cap1) = push_refines n x v in
      let (r2, h2, pop_eq, v2, cap2) = pop_refines n v in
      (
        (
          r1,
          steps ∙ ap (λ r. (pushed r.0, r.1)) (some-injective _ _ (sym ran ∙ push_eq)),
          v1,
          cap1,
        ),
        (
          r2,
          h2,
          steps' ∙ ap (λ r. (popped r.0 r.1, r.2)) (some-injective _ _ (sym ran' ∙ pop_eq)),
          v2,
          cap2,
        ),
      )
