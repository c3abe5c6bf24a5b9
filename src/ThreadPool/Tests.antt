-- ===== src/ThreadPool/Tests.antt =====
-- Runs of ThreadPool.h at concrete inputs, and the theorems at inputs that meet their hypotheses.
use cpp_concurrency_data_str.Base.{ℕ, ◌≡◌, refl, List, [], ◌∷◌, arith, none}
use cpp_concurrency_data_str.ThreadPool
use cpp_concurrency_data_str.ThreadPool.Linked
use cpp_concurrency_data_str.ThreadPool.Linked.{LinkedPool, Follows, view}
use cpp_concurrency_data_str.ThreadPool.Exit.{run-exited}
use cpp_concurrency_data_str.ThreadPool.Composed.{run-Follows, make-Serves}
use cpp_concurrency_data_str.ThreadPool.{
  ThreadPool, Event, exited, works, submits, stops, make, stop, work_step, run,
}
use cpp_concurrency_data_str.ThreadPool.Order.{NonePopping, run-stopped}

-- Two workers take two of three tasks; then the pool stops.
abbrev schedule : List (Event ℕ)
schedule =
    submits 1
    ∷ works 0
    ∷ works 1
    ∷ submits 2
    ∷ works 1
    ∷ works 0
    ∷ submits 3
    ∷ stops
    ∷ works 0
    ∷ works 0
    ∷ []

schedule_lem : ((run schedule make).started ≡ 1 ∷ 2 ∷ []) × ((run schedule make).finished ≡ 2 ∷ [])
unfolding run work_step
schedule_lem = (refl, refl)

-- A pool that stops before its only task has been started.
abbrev late : ThreadPool ℕ
late = record (stop make) { work_queue = 7 ∷ [] }

late-NonePopping : NonePopping late
late-NonePopping i e = ground arith

run-stopped_example :
    ((run schedule late).started ≡ []) × ((run schedule late).work_queue ≡ 7 ∷ 1 ∷ 2 ∷ 3 ∷ [])
run-stopped_example = run-stopped schedule late refl late-NonePopping

-- A pool over the linked queue, whose nodes stand at the addresses from 1 on.
abbrev linked : LinkedPool ℕ
linked = Linked.make (λ a. none) 1

run-Follows_example :
    Follows (Linked.run schedule linked) (ThreadPool.run schedule (view linked []))
run-Follows_example =
    run-Follows schedule linked [] (make-Serves (λ a. none) 1 (omega arith) (λ a le. refl))

run-exited_example :
    (run (works 0 ∷ submits 4 ∷ works 0 ∷ works 1 ∷ works 0 ∷ []) late).threads 0 ≡ exited
run-exited_example =
    run-exited (works 0 ∷ submits 4 ∷ works 0 ∷ works 1 ∷ works 0 ∷ []) 0 late refl (omega arith)
