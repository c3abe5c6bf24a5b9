-- ===== src/Bench/Condition/Asleep.antt =====
-- How the notification of other/4_test_lock_free_queue.cpp comes too early.
use cpp_concurrency_data_str.Base.{ℕ, ◌+◌, ◌*◌, ◌≡◌, List, [], ◌∷◌, ◌++◌, replicate}
use cpp_concurrency_data_str.Bench.Producers.{Ypipe}
use cpp_concurrency_data_str.Bench.Condition.{
  Producer, asleep, Event, produces, consumes, wakes, Conditional,
}

-- No wait returns without a notification.
abbrev pub NoneWakes : List Event → Type 0
NoneWakes [] = Unit
NoneWakes (produces ∷ es) = NoneWakes es
NoneWakes (consumes ∷ es) = NoneWakes es
NoneWakes (wakes ∷ es) = ⊥

module _ (Y : Ypipe) (n : ℕ) where
  -- The consumer finds the pipe empty; the producer runs alone, to its end; the consumer locks the
  -- mutex and waits.
  abbrev pub too_late : List Event
  too_late = consumes ∷ (replicate (5 * n + 2) produces ++ consumes ∷ [])

  -- What the theorem says of the state in which the threads end.
  abbrev pub SleepsOn : Conditional Y → Type 0
  SleepsOn s =
      (s.producer ≡ Producer.left)
      × (s.consumer ≡ asleep 0)
      × (s.s_count_push ≡ n)
      × (s.s_count_pop ≡ 0)
