-- ===== src/ThreadPool/Exit.antt =====
-- How the workers of a ThreadPool.h end, which `threads_joiner` waits for.
use cpp_concurrency_data_str.Base.{
  ℕ, ◌+◌, ◌-◌, ◌≤◌, ◌≡◌, ◌≢◌, refl, ◌∙◌, ap, subst, true, List, [], ◌∷◌, arith, ◌==◌, ==-refl,
  ==_of_ne, if◌then◌else◌, update-ne, ℕ_discrete,
}
use cpp_concurrency_data_str.ThreadPool.{
  Worker, testing, popping, running, exited, ThreadPool, Event, works, submits, stops, work_step,
  submit, stop, run,
}

module _ {ℓ} {Task : Type ℓ} where
  -- How many steps of worker `i` a schedule has.
  abbrev pub turns : ℕ → List (Event Task) → ℕ
  turns i [] = 0
  turns i (works j ∷ es) = (if j == i then 1 else 0) + turns i es
  turns i (submits task ∷ es) = turns i es
  turns i (stops ∷ es) = turns i es

  -- How many steps a worker makes at most once `done` is set.
  abbrev to_exit : Worker Task → ℕ
  to_exit exited = 0
  to_exit testing = 1
  to_exit (running task) = 2
  to_exit popping = 3

  at_exit : (w : Worker Task) → to_exit w ≤ 0 → w ≡ exited
  at_exit exited h = refl
  at_exit testing h = absurd (omega arith)
  at_exit (running task) h = absurd (omega arith)
  at_exit popping h = absurd (omega arith)

  work_step-to_exit :
      (w : Worker Task) (i : ℕ) (p : ThreadPool Task)
      → p.done ≡ true
      → p.threads i ≡ w
      → to_exit ((work_step w i p).threads i) ≤ to_exit w - 1
  unfolding work_step
  work_step-to_exit testing i p d at = rw (==-refl i, d) (omega arith)
  work_step-to_exit popping i p d at = go p.work_queue
    where
      go :
          (tasks : List Task)
          → to_exit ((work_step popping i (record p { work_queue = tasks })).threads i) ≤ 2
      go [] = rw (==-refl i) (omega arith)
      go (task ∷ rest) = rw (==-refl i) (omega arith)
  work_step-to_exit (running task) i p d at = rw (==-refl i) (omega arith)
  work_step-to_exit exited i p d at = rw at (omega arith)

  work_step-other :
      (w : Worker Task) (j i : ℕ) (p : ThreadPool Task)
      → j ≢ i
      → (work_step w j p).threads i ≡ p.threads i
  unfolding work_step
  work_step-other testing j i p ne = update-ne p.threads j i _ ne
  work_step-other popping j i p ne = go p.work_queue
    where
      go :
          (tasks : List Task)
          → (work_step popping j (record p { work_queue = tasks })).threads i ≡ p.threads i
      go [] = update-ne p.threads j i testing ne
      go (task ∷ rest) = update-ne p.threads j i (running task) ne
  work_step-other (running task) j i p ne = update-ne p.threads j i testing ne
  work_step-other exited j i p ne = refl

  work_step-done : (w : Worker Task) (j : ℕ) (p : ThreadPool Task) → (work_step w j p).done ≡ p.done
  unfolding work_step
  work_step-done testing j p = refl
  work_step-done popping j p = go p.work_queue
    where
      go :
          (tasks : List Task)
          → (work_step popping j (record p { work_queue = tasks })).done ≡ p.done
      go [] = refl
      go (task ∷ rest) = refl
  work_step-done (running task) j p = refl
  work_step-done exited j p = refl

  run-to_exit :
      (es : List (Event Task)) (i : ℕ) (p : ThreadPool Task)
      → p.done ≡ true
      → to_exit ((run es p).threads i) ≤ to_exit (p.threads i) - turns i es
  unfolding run
  run-to_exit [] i p d = omega arith
  run-to_exit (works j ∷ es) i p d =
      let p' = work_step (p.threads j) j p in
      let d' = work_step-done (p.threads j) j p ∙ d in
      elim (ℕ_discrete j i) [
        | yes same ↦
            subst
              (λ l.
                to_exit ((run es p').threads l)
                ≤ to_exit (p.threads l) - ((if j == l then 1 else 0) + turns l es))
              same
              (rw (==-refl j)
                (omega (arith, run-to_exit es j p' d', work_step-to_exit (p.threads j) j p d refl)))
        | no other ↦ rw (==_of_ne j i other) (
            omega (
              arith,
              run-to_exit es i p' d',
              ap to_exit (work_step-other (p.threads j) j i p other),
            ))
      ]
  run-to_exit (submits task ∷ es) i p d = run-to_exit es i (submit task p) d
  run-to_exit (stops ∷ es) i p d = run-to_exit es i (stop p) refl

  -- Once `done` is set, a worker that makes three steps or more in whatever schedule has left its loop
  -- at the end of it.
  pub run-exited :
      (es : List (Event Task)) (i : ℕ) (p : ThreadPool Task)
      → p.done ≡ true
      → 3 ≤ turns i es
      → (run es p).threads i ≡ exited
  run-exited es i p d enough =
      at_exit ((run es p).threads i) (omega (arith, run-to_exit es i p d, most (p.threads i)))
    where
      most : (w : Worker Task) → to_exit w ≤ 3
      most exited = omega arith
      most testing = omega arith
      most (running task) = omega arith
      most popping = omega arith
