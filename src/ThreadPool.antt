-- ===== src/ThreadPool.antt =====
-- DataStructures/ThreadPool.h: workers that take tasks from a ThreadSafeQueue, which is here the list
-- of its values (ThreadSafeQueue.Refines). A schedule is a list of what happens, in order: a worker's
-- next step, a `submit`, or the destructor's `done=true`. The rest of a pool's life is in Lifetime;
-- `started` and `finished` record the tasks in order.
pub mod Order
pub mod Exit
pub mod Lifetime
pub mod Linked
pub mod Composed
mod Tests
use cpp_concurrency_data_str.Base.{ℕ, Bool, true, false, List, [], ◌∷◌, ◌++◌, if◌then◌else◌, update}

-- Where a worker stands in `work_thread`; after the constructor it is about to test `done`.
pub data Worker {ℓ} (Task : Type ℓ) : Type ℓ where
  testing : Worker Task
  popping : Worker Task
  running : Task → Worker Task
  exited : Worker Task

pub record ThreadPool {ℓ} (Task : Type ℓ) : Type ℓ where
  pub work_queue : List Task
  pub done : Bool
  pub threads : ℕ → Worker Task
  pub started : List Task
  pub finished : List Task

pub data Event {ℓ} (Task : Type ℓ) : Type ℓ where
  works : ℕ → Event Task
  submits : Task → Event Task
  stops : Event Task

module _ {ℓ} {Task : Type ℓ} where
  abbrev pub make : ThreadPool Task
  make = record {
    work_queue = [];
    done = false;
    threads = λ i. testing;
    started = [];
    finished = [];
  }

  -- One turn of the loop takes three steps: the test of `done`, `try_pop` and the task.
  unfoldable pub work_step : Worker Task → ℕ → ThreadPool Task → ThreadPool Task
  work_step testing i p = record p {
    threads = update p.threads i (if p.done then exited else popping);
  }
  work_step popping i p = elim p.work_queue [
    | [] ↦ record p { threads = update p.threads i testing }
    | task ∷ rest ↦ record p {
      work_queue = rest;
      threads = update p.threads i (running task);
      started = p.started ++ task ∷ [];
    }
  ]
  work_step (running task) i p = record p {
    threads = update p.threads i testing;
    finished = p.finished ++ task ∷ [];
  }
  work_step exited i p = p

  abbrev pub submit : Task → ThreadPool Task → ThreadPool Task
  submit task p = record p { work_queue = p.work_queue ++ task ∷ [] }

  abbrev pub stop : ThreadPool Task → ThreadPool Task
  stop p = record p { done = true }

  unfoldable pub run : List (Event Task) → ThreadPool Task → ThreadPool Task
  run [] p = p
  run (works i ∷ es) p = run es (work_step (p.threads i) i p)
  run (submits task ∷ es) p = run es (submit task p)
  run (stops ∷ es) p = run es (stop p)
