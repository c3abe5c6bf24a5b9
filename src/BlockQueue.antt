-- ===== src/BlockQueue.antt =====
-- DataStructures/BlockQueue.h: a queue behind one mutex, with an abort flag; the same class stands in
-- other/4_test_lock_free_queue.cpp. A `Dequeue` that waits gives up the mutex: what the other threads
-- do until its `wait_for` returns, woken or timed out, is a list of actions.
pub mod History
mod Tests
use cpp_concurrency_data_str.Base.{
  ℕ, Bool, true, false, Option, none, some, List, [], ◌∷◌, ◌++◌, if◌then◌else◌,
}

pub record BlockQueue {ℓ} (A : Type ℓ) : Type ℓ where
  pub queue : List A
  pub abort_request : Bool

-- The returned -1, 1 and 0; `got` is what is assigned to `val`.
pub data Outcome {ℓ} (A : Type ℓ) : Type ℓ where
  aborted : Outcome A
  got : A → Outcome A
  timed_out : Outcome A

-- What a thread does while it holds the mutex: `finish` is `Dequeue` from where it need not wait.
pub data Action {ℓ} (A : Type ℓ) : Type ℓ where
  enqueues : A → Action A
  finishes : Action A
  aborts : Action A

module _ {ℓ} {A : Type ℓ} where
  abbrev pub make : BlockQueue A
  make = record { queue = []; abort_request = false }

  unfoldable pub enqueue : A → BlockQueue A → BlockQueue A
  enqueue val q = record q { queue = q.queue ++ val ∷ [] }

  unfoldable pub empty : BlockQueue A → Bool
  empty q = elim q.queue [ [] ↦ true | x ∷ xs ↦ false ]

  unfoldable pub abort : BlockQueue A → BlockQueue A
  abort q = record q { abort_request = true }

  -- `Dequeue` after the wait
  unfoldable pub finish : BlockQueue A → Outcome A × BlockQueue A
  finish q =
      if q.abort_request
      then (aborted, q)
      else elim q.queue [ [] ↦ (timed_out, q) | val ∷ rest ↦ (got val, record q { queue = rest }) ]

  abbrev pub received : Outcome A → List A
  received (got val) = val ∷ []
  received _ = []

  unfoldable pub act : Action A → BlockQueue A → List A × BlockQueue A
  unfolding enqueue finish abort
  act (enqueues val) q = ([], enqueue val q)
  act finishes q = let (out, q') = finish q in (received out, q')
  act aborts q = ([], abort q)

  -- The values that the threads receive, in order, and the queue that they leave.
  unfoldable pub run : List (Action A) → BlockQueue A → List A × BlockQueue A
  run [] q = ([], q)
  run (a ∷ as') q = let (out, q') = act a q in let (outs, q'') = run as' q' in (out ++ outs, q'')

  -- The whole `Dequeue`: with an empty queue it waits, while the others make the actions `during`.
  -- It goes on when the wait returns, and does not look at what the wait returned.
  pub dequeue : List (Action A) → BlockQueue A → Outcome A × BlockQueue A
  dequeue during q = finish (if empty q then (run during q).1 else q)
