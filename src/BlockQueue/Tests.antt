-- ===== src/BlockQueue/Tests.antt =====
-- Runs of BlockQueue.h at concrete inputs, and the theorems at inputs that meet their hypotheses.
use cpp_concurrency_data_str.Base.{ℕ, ◌≡◌, refl, true, List, [], ◌∷◌, ◌++◌}
use cpp_concurrency_data_str.BlockQueue.{
  BlockQueue, aborted, got, timed_out, Action, enqueues, finishes, aborts, make, empty, run, act,
  finish, dequeue,
}
use cpp_concurrency_data_str.BlockQueue.History.{enqueued, run_history}

abbrev others : List (Action ℕ)
others = enqueues 1 ∷ enqueues 2 ∷ finishes ∷ []

-- While the call waits two values come, and another thread takes the first.
second_value : dequeue others make ≡ (got 2, make)
unfolding dequeue run act finish empty
second_value = refl

times_out : dequeue {A = ℕ} [] make ≡ (timed_out, make)
unfolding dequeue run finish empty
times_out = refl

-- The flag wins over a value that is there.
abort_wins : (dequeue {A = ℕ} (enqueues 1 ∷ aborts ∷ []) make).0 ≡ aborted
unfolding dequeue run act finish empty
abort_wins = refl

run_history_example : [] ++ enqueued others ≡ (run others make).0 ++ (run others make).1.queue
run_history_example = run_history others make

abbrev stopped : BlockQueue ℕ
stopped = record { queue = 5 ∷ []; abort_request = true }
