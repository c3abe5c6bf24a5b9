-- ===== src/ArrayQueue/Threads/Simulates.antt =====
-- The steps of the threads on a queue of other/LockFreeArrayQueue.h as steps of the ticket protocol.
use cpp_concurrency_data_str.Base.{refl}
use cpp_concurrency_data_str.ArrayQueue.Cas.{
  loads_write, loads_read, exchanges, waits, writes, publishes, pushed, reads, releases, popped,
}
use cpp_concurrency_data_str.ArrayQueue.Threads.{
  Call, idle, pushing, popping, System, HasReturned, Step, calls_push, calls_pop, pushes, pops,
}
use cpp_concurrency_data_str.ArrayQueue.Threads.Abstract.{phase_of, abstract, IsCounted}
use cpp_concurrency_data_str.Protocol
use cpp_concurrency_data_str.Protocol.{
  Mark, free, full, Phase, outside, saw_given, sees_room, sees_value, waits_free, writing, written,
  waits_full, reading, got, Protocol, goes, IsFree, here, next, rests, looks_given, looks_room,
  looks_value, claims_write, claims_read, finds_free, finds_full,
}
use cpp_concurrency_data_str.ArrayQueue.Threads.Frame.{rest}
use cpp_concurrency_data_str.ArrayQueue.Threads.Pushes.{push_simulates}
use cpp_concurrency_data_str.ArrayQueue.Threads.Pops.{pop_simulates}

module _ {ℓ} {A : Type ℓ} where
  free_of_returned : (c : Call A) → HasReturned c → IsFree (phase_of c)
  free_of_returned idle h = tt
  free_of_returned (pushing e loads_write) h = tt
  free_of_returned (pushing e (loads_read w)) h = tt
  free_of_returned (pushing e (exchanges w)) h = tt
  free_of_returned (pushing e (waits w)) h = absurd h
  free_of_returned (pushing e (writes w)) h = absurd h
  free_of_returned (pushing e (publishes w)) h = absurd h
  free_of_returned (pushing e (pushed b)) h = tt
  free_of_returned (popping loads_write) h = tt
  free_of_returned (popping (loads_read w)) h = tt
  free_of_returned (popping (exchanges r)) h = tt
  free_of_returned (popping (waits r)) h = absurd h
  free_of_returned (popping (reads r)) h = absurd h
  free_of_returned (popping (releases r o)) h = absurd h
  free_of_returned (popping (popped b o)) h = tt

  -- Every step of the threads keeps their counters natural, and is one of the protocol, or none.
  pub Step-simulates :
      {s t : System A}
      → Step s t
      → IsCounted s
      → IsCounted t × Protocol.Reach (abstract s) (abstract t)
  Step-simulates {s} (calls_push i e h) v =
      rest v i (pushing e loads_write) tt refl (free_of_returned (s.calls i) h)
  Step-simulates {s} (calls_pop i h) v =
      rest v i (popping loads_write) tt refl (free_of_returned (s.calls i) h)
  Step-simulates (pushes i e pc h) v = push_simulates v i e pc h
  Step-simulates (pops i pc h) v = pop_simulates v i pc h
