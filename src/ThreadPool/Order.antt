-- ===== src/ThreadPool/Order.antt =====
-- Which tasks of a ThreadPool.h are started, and in which order.
use cpp_concurrency_data_str.Base.{
  ℕ, ◌≡◌, ◌≢◌, refl, ◌∙◌, ap, sym, true, List, [], ◌∷◌, ◌++◌, append-nil, append_assoc, arith,
}
use cpp_concurrency_data_str.ThreadPool.{
  Worker, testing, popping, running, exited, ThreadPool, Event, works, submits, stops, work_step,
  submit, stop, run,
}

module _ {ℓ} {Task : Type ℓ} where
  abbrev pub submitted : List (Event Task) → List Task
  submitted [] = []
  submitted (works i ∷ es) = submitted es
  submitted (submits task ∷ es) = task ∷ submitted es
  submitted (stops ∷ es) = submitted es

  work_step-order :
      (w : Worker Task) (i : ℕ) (p : ThreadPool Task)
      → (work_step w i p).started ++ (work_step w i p).work_queue ≡ p.started ++ p.work_queue
  unfolding work_step
  work_step-order testing i p = refl
  work_step-order popping i p = go p.work_queue
    where
      go :
          (tasks : List Task)
          → let p' = work_step popping i (record p { work_queue = tasks }) in
            p'.started ++ p'.work_queue ≡ p.started ++ tasks
      go [] = refl
      go (task ∷ rest) = append_assoc p.started (task ∷ []) rest
  work_step-order (running task) i p = refl
  work_step-order exited i p = refl

  -- Whatever the schedule: the tasks started and then those that wait are those that were started or
  -- waited before and then the submitted ones, in order.
  pub run-order :
      (es : List (Event Task)) (p : ThreadPool Task)
      → (run es p).started ++ (run es p).work_queue ≡ (p.started ++ p.work_queue) ++ submitted es
  unfolding run
  run-order [] p = sym (append-nil (p.started ++ p.work_queue))
  run-order (works i ∷ es) p =
      run-order es (work_step (p.threads i) i p)
      ∙ ap (λ l. l ++ submitted es) (work_step-order (p.threads i) i p)
  run-order (submits task ∷ es) p =
      run-order es (submit task p)
      ∙ ap (λ l. l ++ submitted es) (sym (append_assoc p.started p.work_queue (task ∷ [])))
      ∙ append_assoc (p.started ++ p.work_queue) (task ∷ []) (submitted es)
  run-order (stops ∷ es) p = run-order es (stop p)

  -- No worker is between its test of `done` and its pop.
  abbrev pub NonePopping : ThreadPool Task → Type ℓ
  NonePopping p = (i : ℕ) → p.threads i ≢ popping

  work_step-stopped :
      (w : Worker Task) (i : ℕ) (p : ThreadPool Task)
      → p.done ≡ true
      → NonePopping p
      → w ≢ popping
      → NonePopping (work_step w i p)
        × ((work_step w i p).done ≡ true)
        × ((work_step w i p).started ≡ p.started)
        × ((work_step w i p).work_queue ≡ p.work_queue)
  unfolding work_step
  work_step-stopped testing i p d n ne = (λ j e. ground (arith, n j, d), d, refl, refl)
  work_step-stopped popping i p d n ne = absurd (ne refl)
  work_step-stopped (running task) i p d n ne = (λ j e. ground (arith, n j), d, refl, refl)
  work_step-stopped exited i p d n ne = (n, d, refl, refl)

  -- If the destructor has set `done` and no worker has tested it and not yet popped, then whatever the
  -- schedule no task is ever started: what waits, and what is still submitted, stays in the queue.
  pub run-stopped :
      (es : List (Event Task)) (p : ThreadPool Task)
      → p.done ≡ true
      → NonePopping p
      → ((run es p).started ≡ p.started) × ((run es p).work_queue ≡ p.work_queue ++ submitted es)
  unfolding run
  run-stopped [] p d n = (refl, sym (append-nil p.work_queue))
  run-stopped (works i ∷ es) p d n =
      let (n', d', s, q) = work_step-stopped (p.threads i) i p d n (n i) in
      let (s', q') = run-stopped es (work_step (p.threads i) i p) d' n' in
      (s' ∙ s, q' ∙ ap (λ l. l ++ submitted es) q)
  run-stopped (submits task ∷ es) p d n =
      let (s, q) = run-stopped es (submit task p) d n in
      (s, q ∙ append_assoc p.work_queue (task ∷ []) (submitted es))
  run-stopped (stops ∷ es) p d n = run-stopped es (stop p) refl n
