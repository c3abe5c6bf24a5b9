-- ===== src/ThreadPool/Lifetime/Tests.antt =====
-- Lives of a ThreadPool.h at concrete inputs, and the theorems at inputs that meet their hypotheses.
use cpp_concurrency_data_str.Base.{
  ℕ, ◌≡◌, ◌<◌, refl, none, some, Option, List, [], ◌∷◌, ◌++◌, replicate, length, map, ◌≤◌, arith,
}
use cpp_concurrency_data_str.ThreadPool
use cpp_concurrency_data_str.ThreadPool.{Worker, testing, exited, work_step}
use cpp_concurrency_data_str.ThreadPool.Lifetime.{
  gone, Lifetime, Event, works, submits, starts, throws, destroys, tears, make, happens, run,
}
use cpp_concurrency_data_str.ThreadPool.Lifetime.Settled.{gone_lem}
use cpp_concurrency_data_str.ThreadPool.Lifetime.Teardown.{too_early, use_after_destroy}
use cpp_concurrency_data_str.ThreadPool.Exit.{turns}
use cpp_concurrency_data_str.ThreadPool.Lifetime.Shutdown.{shutdown_ends}

-- A pool of two threads, and what is left of one with a result.
abbrev life : Option (Lifetime ℕ) → Lifetime ℕ
life none = make
life (some l) = l

-- Worker 0 runs the first of two tasks; both workers have left before the queue is destroyed.
abbrev full_life : List (Event ℕ)
full_life =
    starts
    ∷ starts
    ∷ starts
    ∷ submits 7
    ∷ submits 8
    ∷ works 0
    ∷ works 0
    ∷ works 0
    ∷ destroys
    ∷ works 0
    ∷ works 1
    ∷ replicate 5 tears

gone_lem_example :
    (((i : ℕ) → i < 2 → (life (run 2 full_life make)).pool.threads i ≡ exited))
    × (length (life (run 2 full_life make)).pool.finished ≡ 1)
    × ((life (run 2 full_life make)).pool.work_queue ≡ [])
    × ((life (run 2 full_life make)).pool.started ++ (life (run 2 full_life make)).broken
        ≡ 7 ∷ 8 ∷ [])
unfolding run happens work_step
gone_lem_example = gone_lem 2 full_life (life (run 2 full_life make)) refl refl

-- The second thread cannot be started; the first has made no step when the exception comes.
abbrev thrown : List (Event ℕ)
thrown = starts ∷ throws ∷ tears ∷ tears ∷ works 0 ∷ []

thrown_lem : run 2 thrown make ≡ none
unfolding run happens work_step
thrown_lem = refl

abbrev started : Lifetime ℕ
started = life (run 2 (starts ∷ starts ∷ starts ∷ submits 7 ∷ works 1 ∷ []) make)

use_after_destroy_example : run 2 (too_early (started.pool.threads 1) 1) started ≡ none
unfolding run happens work_step
use_after_destroy_example = use_after_destroy 2 1 started refl (omega arith) refl

-- Worker 0 runs the first of two tasks and worker 1 is about to pop the second.
abbrev busy_start : List (Event ℕ)
busy_start = starts ∷ starts ∷ starts ∷ submits 7 ∷ submits 8 ∷ works 0 ∷ works 0 ∷ works 1 ∷ []

abbrev busy : Lifetime ℕ
busy = life (run 2 busy_start make)

three_each :
    (i : ℕ) → i < 2 → 3 ≤ turns {Task = ℕ} i (map ThreadPool.works (0 ∷ 1 ∷ 0 ∷ 1 ∷ 1 ∷ 0 ∷ []))
three_each i lt = ground arith

shutdown_ends_example :
    (k : Lifetime ℕ) × (run 2
        (destroys
          ∷ works 0
          ∷ works 1
          ∷ works 0
          ∷ works 1
          ∷ works 1
          ∷ works 0
          ∷ tears
          ∷ tears
          ∷ replicate 3 tears)
        busy
      ≡ some k)
    × (k.owner ≡ gone)
    × ((i : ℕ) → i < 2 → k.pool.threads i ≡ exited)
    × (length k.pool.finished ≡ length k.pool.started)
    × (k.pool.work_queue ≡ [])
    × (k.pool.started ++ k.broken ≡ 7 ∷ 8 ∷ [])
unfolding run happens work_step
shutdown_ends_example =
    shutdown_ends 2 busy_start busy (0 ∷ 1 ∷ 0 ∷ 1 ∷ 1 ∷ 0 ∷ []) refl refl three_each
