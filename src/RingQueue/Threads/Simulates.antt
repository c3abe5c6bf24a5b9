-- ===== src/RingQueue/Threads/Simulates.antt =====
-- The steps of the threads on a queue of LockFreeQueue.h as steps of the ticket protocol, as long as
-- the counters have not been wrapped.
use cpp_concurrency_data_str.Base.{
  ◌≤◌, ◌≡◌, refl, Bool, not, ◌&&◌, List, length, length-snoc, ◌==◌, arith, Bool-cases, inl, inr,
}
use cpp_concurrency_data_str.RingQueue.{RingQueue}
use cpp_concurrency_data_str.RingQueue.Threads.{
  Pushing, Popping, loads, checks, exchanges, constructs, publishes, pushed, reads, destroys,
  releases, popped, Call, idle, pushing, popping, System, HasReturned, push_step, pop_step, give,
  Step, calls_push, calls_pop, pushes, pops,
}
use cpp_concurrency_data_str.RingQueue.Threads.Abstract.{phase_of, abstract, IsCounted, IsShort}
use cpp_concurrency_data_str.RingQueue.Threads.Frame.{Simulated, rest}
use cpp_concurrency_data_str.RingQueue.Threads.Pushes.{push_simulates}
use cpp_concurrency_data_str.RingQueue.Threads.Pops.{pop_simulates}
use cpp_concurrency_data_str.Protocol.{IsFree}
use cpp_concurrency_data_str.Protocol.Inv.{Inv}

module _ {ℓ} {A : Type ℓ} where
  free_of_returned : (c : Call A) → HasReturned c → IsFree (phase_of c)
  free_of_returned idle h = tt
  free_of_returned (pushing x (pushed b)) h = tt
  free_of_returned (popping (popped b o)) h = tt
  free_of_returned (pushing x loads) h = tt
  free_of_returned (pushing x (checks k)) h = tt
  free_of_returned (pushing x (exchanges k)) h = tt
  free_of_returned (pushing x (constructs k)) h = absurd h
  free_of_returned (pushing x (publishes k)) h = absurd h
  free_of_returned (popping loads) h = tt
  free_of_returned (popping (checks k)) h = tt
  free_of_returned (popping (exchanges k)) h = tt
  free_of_returned (popping (reads k)) h = absurd h
  free_of_returned (popping (destroys k o)) h = absurd h
  free_of_returned (popping (releases k o)) h = absurd h

  -- The number of pushes only grows, and the capacity stays.
  length-give :
      (fails : Bool) (x : A) (pc : Pushing) (q : RingQueue A) (given : List A)
      → length given ≤ length (give fails x pc q given)
  length-give fails x loads q given = omega arith
  length-give fails x (checks k) q given = omega arith
  length-give fails x (exchanges k) q given = elim (Bool-cases ((q.tail == k) && not fails)) [
    | inl e ↦ rw e (omega (arith, length-snoc given x))
    | inr e ↦ rw e (omega arith)
  ]
  length-give fails x (constructs k) q given = omega arith
  length-give fails x (publishes k) q given = omega arith
  length-give fails x (pushed b) q given = omega arith

  capacity-push_step :
      (fails : Bool) (x : A) (pc : Pushing) (q : RingQueue A)
      → (push_step fails x pc q).1.capacity ≡ q.capacity
  unfolding push_step
  capacity-push_step fails x loads q = refl
  capacity-push_step fails x (checks k) q = refl
  capacity-push_step fails x (exchanges k) q = elim (Bool-cases ((q.tail == k) && not fails)) [
    | inl e ↦ rw e refl
    | inr e ↦ rw e refl
  ]
  capacity-push_step fails x (constructs k) q = refl
  capacity-push_step fails x (publishes k) q = refl
  capacity-push_step fails x (pushed b) q = refl

  capacity-pop_step :
      (fails : Bool) (pc : Popping A) (q : RingQueue A)
      → (pop_step fails pc q).1.capacity ≡ q.capacity
  unfolding pop_step
  capacity-pop_step fails loads q = refl
  capacity-pop_step fails (checks k) q = refl
  capacity-pop_step fails (exchanges k) q = elim (Bool-cases ((q.head == k) && not fails)) [
    | inl e ↦ rw e refl
    | inr e ↦ rw e refl
  ]
  capacity-pop_step fails (reads k) q = refl
  capacity-pop_step fails (destroys k o) q = refl
  capacity-pop_step fails (releases k o) q = refl
  capacity-pop_step fails (popped b o) q = refl

  pub short_before : {s t : System A} → Step s t → IsShort t → IsShort s
  short_before (calls_push i x h) short = short
  short_before (calls_pop i h) short = short
  short_before {s} (pushes i fails x pc h) short =
      omega (arith, length-give fails x pc s.queue s.given, capacity-push_step fails x pc s.queue)
  short_before {s} (pops i fails pc h) short = omega (arith, capacity-pop_step fails pc s.queue)

  -- Every step of the threads keeps the counters, and is one of the protocol, or none.
  pub Step-simulates :
      {s t : System A} → Step s t → IsCounted s → Inv (abstract s) → IsShort s → Simulated s t
  Step-simulates {s} (calls_push i x h) v w short =
      rest v i (pushing x loads) (omega arith) refl (free_of_returned (s.calls i) h)
  Step-simulates {s} (calls_pop i h) v w short =
      rest v i (popping loads) (omega arith) refl (free_of_returned (s.calls i) h)
  Step-simulates (pushes i fails x pc h) v w short = push_simulates v w short i fails x pc h
  Step-simulates (pops i fails pc h) v w short = pop_simulates v w short i fails pc h
