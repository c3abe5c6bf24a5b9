-- ===== src/ThreadPool/Lifetime/Shutdown.antt =====
-- How the end of a ThreadPool.h goes when its workers leave before the members are destroyed.
use cpp_concurrency_data_str.Base.{
  ℕ, suc, ◌+◌, ◌≤◌, ◌<◌, ◌≡◌, refl, ◌∙◌, ap, true, false, Bool-cases, inl, inr, none, some, Option,
  List, [], ◌∷◌, ◌++◌, map, replicate, length, ◌>>=◌, ltb, ◌==◌, ==_of_ne, arith, if◌then◌else◌,
}
use cpp_concurrency_data_str.ThreadPool
use cpp_concurrency_data_str.ThreadPool.{Worker, testing, popping, running, exited, work_step, stop}
use cpp_concurrency_data_str.ThreadPool.Exit.{turns, run-exited}
use cpp_concurrency_data_str.ThreadPool.Lifetime.{
  made, stopped, gone, Lifetime, Event, works, destroys, tears, make, can_work, worked, destroy,
  happens, run,
}
use cpp_concurrency_data_str.ThreadPool.Lifetime.Teardown.{run_next, works-some, teardown_ends}
use cpp_concurrency_data_str.ThreadPool.Lifetime.Settled.{gone_lem}

module _ {ℓ} {Task : Type ℓ} where
  bind_assoc :
      (o : Option (Lifetime Task)) (f g h : Lifetime Task → Option (Lifetime Task))
      → ((m : Lifetime Task) → f m ≡ (g m >>= h))
      → (o >>= f) ≡ ((o >>= g) >>= h)
  bind_assoc none f g h eq = refl
  bind_assoc (some m) f g h eq = eq m

  run-append :
      (n : ℕ) (es fs : List (Event Task)) (l : Lifetime Task)
      → run n (es ++ fs) l ≡ (run n es l >>= run n fs)
  unfolding run
  run-append n [] fs l = refl
  run-append n (e ∷ es) fs l =
      bind_assoc (happens n e l) (run n (es ++ fs)) (run n es) (run n fs)
        (λ m. run-append n es fs m)

  -- Until the queue is destroyed a worker has all the members that it uses.
  can_work-stopped : (w : Worker Task) → can_work w stopped ≡ true
  can_work-stopped testing = refl
  can_work-stopped popping = refl
  can_work-stopped (running task) = refl
  can_work-stopped exited = refl

  works_past : (n j : ℕ) (l : Lifetime Task) → ltb j l.size ≡ false → happens n (works j) l ≡ some l
  unfolding happens
  works_past n j l past = rw past refl

  -- The steps of the workers `js` once `done` is set: none uses a destroyed member, and the pool makes
  -- those that are of started threads.
  works-run :
      (n : ℕ) (js : List ℕ) (rest : List (Event Task)) (l : Lifetime Task)
      → l.owner ≡ stopped
      → (es : List (ThreadPool.Event Task)) × (run n (map works js ++ rest) l
          ≡ run n rest (record l { pool = ThreadPool.run es l.pool }))
        × ((i : ℕ) → i < l.size → turns i es ≡ turns {Task = Task} i (map ThreadPool.works js))
  unfolding ThreadPool.run
  works-run n [] rest l at = ([], refl, λ i lt. refl)
  works-run n (j ∷ js) rest l at = elim (Bool-cases (ltb j l.size)) [
    | inl within ↦
        let (es, ran, same) = works-run n js rest (worked j l) at in
        (
          ThreadPool.works j ∷ es,
          run_next n (works j) (map works js ++ rest) l (worked j l) (
                works-some n j l (ground arith)
                  (ap (can_work (l.pool.threads j)) at ∙ can_work-stopped (l.pool.threads j)))
              ∙ ran,
          λ i lt. ap ((if j == i then 1 else 0) +◌) (same i lt),
        )
    | inr past ↦
        let (es, ran, same) = works-run n js rest l at in
        (
          es,
          run_next n (works j) (map works js ++ rest) l l (works_past n j l past) ∙ ran,
          λ i lt. rw (==_of_ne j i (λ e. ground arith)) (omega (arith, same i lt)),
        )
  ]

  destroys-happens :
      (n : ℕ) (l : Lifetime Task) → l.owner ≡ made → happens n destroys l ≡ some (destroy made l)
  unfolding happens
  destroys-happens n l at = ap (λ o. some (destroy o l)) at

  -- A pool that any schedule has made, with whatever tasks waiting or running, can be destroyed so that
  -- all is well: when, after `done=true`, every started worker makes three steps or more, in
  -- whatever order, before the members are destroyed, no destroyed member is used and the destructor
  -- ends, with one step for the queue, one for `done`, and one for each thread and one more for the
  -- joiner. Then every started thread has exited, every task that was started is finished, the queue
  -- is empty, and every submitted task was started or was destroyed with the queue.
  pub shutdown_ends :
      (threads_num : ℕ) (before : List (Event Task)) (l : Lifetime Task) (js : List ℕ)
      → run threads_num before make ≡ some l
      → l.owner ≡ made
      → ((i : ℕ) → i < l.size → 3 ≤ turns {Task = Task} i (map ThreadPool.works js))
      → (k : Lifetime Task) × (run threads_num
            (destroys ∷ (map works js ++ tears ∷ tears ∷ replicate (suc l.size) tears))
            l
          ≡ some k)
        × (k.owner ≡ gone)
        × ((i : ℕ) → i < l.size → k.pool.threads i ≡ exited)
        × (length k.pool.finished ≡ length k.pool.started)
        × (k.pool.work_queue ≡ [])
        × (k.pool.started ++ k.broken ≡ l.submitted)
  shutdown_ends n before l js ran at enough =
      let rest : List (Event Task) = tears ∷ tears ∷ replicate (suc l.size) tears in
      let (es, worked_off, same) = works-run n js rest (destroy made l) refl in
      let exits : (i : ℕ) → i < l.size → (ThreadPool.run es (stop l.pool)).threads i ≡ exited =
        λ i lt. run-exited es i (stop l.pool) refl (omega (arith, same i lt, enough i lt)) in
      let ended =
        run_next n destroys (map works js ++ rest) l (destroy made l) (destroys-happens n l at)
        ∙ worked_off
        ∙ teardown_ends n (record (destroy made l) { pool = ThreadPool.run es (stop l.pool) }) refl
            exits in
      let (all_exited, finished, empty, accounts) =
        gone_lem n (before ++ destroys ∷ (map works js ++ rest)) _
          (run-append n before (destroys ∷ (map works js ++ rest)) make
            ∙ ap (λ o. o >>= run n (destroys ∷ (map works js ++ rest))) ran
            ∙ ended)
          refl in
      (_, ended, refl, all_exited, finished, empty, accounts)
