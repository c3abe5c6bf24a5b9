-- ===== src/ThreadPool/Lifetime.antt =====
-- The life of a ThreadPool.h, from its constructor to the end of its destructor: the threads that the
-- constructor starts, the exception that may end it, `done=true`, and the members as they are
-- destroyed, in the reverse order of their declarations: `work_queue`, `done`, `joiner`, which joins
-- the threads one by one, and `threads`. A task whose packaged_task ran has a future that is ready; one
-- whose packaged_task is destroyed with the queue has a future that is broken.
pub mod Inv
pub mod Moves
pub mod Settled
pub mod Shutdown
pub mod Teardown
mod Tests
use cpp_concurrency_data_str.Base.{
  ℕ, suc, ◌>>=◌, Bool, true, false, Option, none, some, List, [], ◌∷◌, ◌++◌, if◌then◌else◌, ltb,
}
use cpp_concurrency_data_str.ThreadPool.{
  Worker, testing, popping, running, exited, ThreadPool, work_step, submit, stop,
}
use cpp_concurrency_data_str.ThreadPool

-- Where the thread stands that makes and destroys the pool. `joining i` is about to join thread `i`.
pub data Owner : Type 0 where
  starting : Owner
  made : Owner
  stopped : Owner
  queue_destroyed : Owner
  joining : ℕ → Owner
  gone : Owner

-- `size` is the size of `threads`; `broken` records the tasks destroyed with the queue.
pub record Lifetime {ℓ} (Task : Type ℓ) : Type ℓ where
  pub pool : ThreadPool Task
  pub size : ℕ
  pub owner : Owner
  pub submitted : List Task
  pub broken : List Task

-- A worker's next step, a `submit`, and what the owner does: the next step of the constructor, the
-- exception instead of it, the destructor's body, and the next step after this body or after the
-- exception.
pub data Event {ℓ} (Task : Type ℓ) : Type ℓ where
  works : ℕ → Event Task
  submits : Task → Event Task
  starts : Event Task
  throws : Event Task
  destroys : Event Task
  tears : Event Task

-- Whether the member still is there.
abbrev pub queue_lives : Owner → Bool
queue_lives starting = true
queue_lives made = true
queue_lives stopped = true
queue_lives queue_destroyed = false
queue_lives (joining i) = false
queue_lives gone = false

abbrev pub done_lives : Owner → Bool
done_lives queue_destroyed = true
done_lives starting = true
done_lives made = true
done_lives stopped = true
done_lives (joining i) = false
done_lives gone = false

module _ {ℓ} {Task : Type ℓ} where
  abbrev pub make : Lifetime Task
  make = record { pool = ThreadPool.make; size = 0; owner = starting; submitted = []; broken = [] }

  -- Whether the members live that a worker uses in its next step.
  abbrev pub can_work : Worker Task → Owner → Bool
  can_work testing o = done_lives o
  can_work popping o = queue_lives o
  can_work (running task) o = true
  can_work exited o = true

  abbrev pub has_exited : Worker Task → Bool
  has_exited exited = true
  has_exited testing = false
  has_exited popping = false
  has_exited (running task) = false

  abbrev pub worked : ℕ → Lifetime Task → Lifetime Task
  worked i l = record l { pool = work_step (l.pool.threads i) i l.pool }

  -- The loop of the constructor, for `threads_num` threads.
  abbrev pub start_next : ℕ → Owner → Lifetime Task → Lifetime Task
  start_next threads_num starting l =
      if ltb l.size threads_num then record l { size = suc l.size } else record l { owner = made }
  start_next threads_num _ l = l

  -- The catch of the constructor.
  abbrev pub fail : ℕ → Owner → Lifetime Task → Lifetime Task
  fail threads_num starting l =
      if ltb l.size threads_num then record l { pool = stop l.pool; owner = stopped } else l
  fail threads_num _ l = l

  abbrev pub destroy : Owner → Lifetime Task → Lifetime Task
  destroy made l = record l { pool = stop l.pool; owner = stopped }
  destroy _ l = l

  -- The destruction of the members. A join waits for its thread.
  abbrev pub tear : Owner → Lifetime Task → Lifetime Task
  tear stopped l = record l {
    pool = record l.pool { work_queue = [] };
    broken = l.pool.work_queue;
    owner = queue_destroyed;
  }
  tear queue_destroyed l = record l { owner = joining 0 }
  tear (joining i) l =
      if ltb i l.size
      then (if has_exited (l.pool.threads i) then record l { owner = joining (suc i) } else l)
      else record l { owner = gone }
  tear _ l = l

  -- `none` is the use of a member after its destruction. Nothing happens for the number of a thread
  -- that was not started, and when the owner stands elsewhere.
  unfoldable pub happens : ℕ → Event Task → Lifetime Task → Option (Lifetime Task)
  happens n (works i) l =
      if ltb i l.size
      then (if can_work (l.pool.threads i) l.owner then some (worked i l) else none)
      else some l
  happens n (submits task) l =
      if queue_lives l.owner
      then some (record l { pool = submit task l.pool; submitted = l.submitted ++ task ∷ [] })
      else none
  happens n starts l = some (start_next n l.owner l)
  happens n throws l = some (fail n l.owner l)
  happens n destroys l = some (destroy l.owner l)
  happens n tears l = some (tear l.owner l)

  unfoldable pub run : ℕ → List (Event Task) → Lifetime Task → Option (Lifetime Task)
  run n [] l = some l
  run n (e ∷ es) l = happens n e l >>= run n es
