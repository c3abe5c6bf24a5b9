-- ===== src/ThreadPool/Linked.antt =====
-- ThreadPool.h over the linked queue of ThreadSafeQueue.h, with its nodes on the heap: the pool of
-- ThreadPool with `push` and `try_pop` in place of a list. `new` gives the addresses from `fresh` on.
use cpp_concurrency_data_str.Base.{
  ℕ, suc, ◌≤◌, ◌<◌, ◌≡◌, Bool, true, false, Option, none, some, List, [], ◌∷◌, ◌++◌, map,
  if◌then◌else◌, update, ◌>>=◌,
}
use cpp_concurrency_data_str.ThreadSafeQueue
use cpp_concurrency_data_str.ThreadSafeQueue.{
  Ptr, null, Queue, Node, Heap, dummy, push, try_pop_into,
}
use cpp_concurrency_data_str.ThreadSafeQueue.Chain.{Cells, Holds}
use cpp_concurrency_data_str.ThreadPool.{
  Worker, testing, popping, running, exited, ThreadPool, Event, works, submits, stops,
}

pub record LinkedPool {ℓ} (Task : Type ℓ) : Type ℓ where
  pub queue : Queue Task
  pub fresh : Ptr
  pub done : Bool
  pub threads : ℕ → Worker Task
  pub started : List Task
  pub finished : List Task

module _ {ℓ} {Task : Type ℓ} where
  unfoldable pub make : Heap Task → ℕ → LinkedPool Task
  make h fresh = record {
    queue = ThreadSafeQueue.make fresh h;
    fresh = suc fresh;
    done = false;
    threads = λ i. testing;
    started = [];
    finished = [];
  }

  -- What a worker does with what `try_pop` gives.
  abbrev pub takes : LinkedPool Task → ℕ → Option Task × Queue Task → LinkedPool Task
  takes l i (none, q) = record l { queue = q; threads = update l.threads i testing }
  takes l i (some task, q) = record l {
    queue = q;
    threads = update l.threads i (running task);
    started = l.started ++ task ∷ [];
  }

  -- `none` is a fault, here and below.
  unfoldable pub work_step : Worker Task → ℕ → LinkedPool Task → Option (LinkedPool Task)
  work_step testing i l =
      some (record l { threads = update l.threads i (if l.done then exited else popping) })
  work_step popping i l = do r ← try_pop_into l.queue; some (takes l i r)
  work_step (running task) i l =
      some (record l { threads = update l.threads i testing; finished = l.finished ++ task ∷ [] })
  work_step exited i l = some l

  unfoldable pub submit : Task → LinkedPool Task → Option (LinkedPool Task)
  submit task l = do
    q ← push l.fresh task l.queue
    some (record l { queue = q; fresh = suc l.fresh })

  unfoldable pub run : List (Event Task) → LinkedPool Task → Option (LinkedPool Task)
  run [] l = some l
  run (works i ∷ es) l = do l' ← work_step (l.threads i) i l; run es l'
  run (submits task ∷ es) l = do l' ← submit task l; run es l'
  run (stops ∷ es) l = run es (record l { done = true })

  -- The tasks that wait, oldest first.
  abbrev pub tasks : Cells Task → List Task
  tasks cs = map (λ c. c.1) cs

  -- The queue is well formed, and nothing stands at the addresses that are not given yet.
  pub record Serves (l : LinkedPool Task) (cs : Cells Task) : Type ℓ where
    pub holds : Holds l.queue cs
    pub unused : (a : Ptr) → l.fresh ≤ a → l.queue.heap a ≡ none
    pub real : 0 < l.fresh

  -- The pool as one over a list.
  abbrev pub view : LinkedPool Task → Cells Task → ThreadPool Task
  view l cs = record {
    work_queue = tasks cs;
    done = l.done;
    threads = l.threads;
    started = l.started;
    finished = l.finished;
  }

  -- A step has been made without a fault, and it is the one that the pool over a list makes.
  abbrev pub Follows : Option (LinkedPool Task) → ThreadPool Task → Type ℓ
  Follows o p =
      (l : LinkedPool Task) × (cs : Cells Task) × (o ≡ some l) × Serves l cs × (view l cs ≡ p)
