-- ===== src/RingQueue/Threads.antt =====
-- Threads that call push and pop of DataStructures/LockFreeQueue.h on one queue, interleaved in any
-- order: one access of the shared queue is one step. Memory is sequentially consistent here; the
-- source publishes with release order and loads with relaxed order.
pub mod Abstract
pub mod Frame
pub mod Pushes
pub mod Pops
pub mod Simulates
pub mod Safety
pub mod Alone
pub mod Fifos
mod Tests
use cpp_concurrency_data_str.Base.{
  ℕ, suc, ◌+◌, ◌%◌, ◌≡◌, Bool, true, false, not, ◌&&◌, Option, none, some, List, [], ◌∷◌, ◌++◌,
  ◌==◌, if◌then◌else◌, update,
}
use cpp_concurrency_data_str.RingQueue.{word, Node, RingQueue, make, node, set_node}

-- Where a call of `push` stands, with its local `tail`; from `constructs` on that is its ticket.
pub data Pushing : Type 0 where
  loads : Pushing
  checks : ℕ → Pushing
  exchanges : ℕ → Pushing
  constructs : ℕ → Pushing
  publishes : ℕ → Pushing
  pushed : Bool → Pushing

-- Where a call of `pop` stands, with its local `head` and what is assigned to `result`.
pub data Popping {ℓ} (A : Type ℓ) : Type ℓ where
  loads : Popping A
  checks : ℕ → Popping A
  exchanges : ℕ → Popping A
  reads : ℕ → Popping A
  destroys : ℕ → Option A → Popping A
  releases : ℕ → Option A → Popping A
  popped : Bool → Option A → Popping A

pub data Call {ℓ} (A : Type ℓ) : Type ℓ where
  idle : Call A
  pushing : A → Pushing → Call A
  popping : Popping A → Call A

-- `given` records the pushed values in the order in which their pushes moved `_tail`.
pub record System {ℓ} (A : Type ℓ) : Type ℓ where
  pub queue : RingQueue A
  pub calls : ℕ → Call A
  pub given : List A

module _ {ℓ} {A : Type ℓ} where
  -- One step of a `push`. `fails` is a spurious failure of compare_exchange_weak; an exchange that
  -- fails loads the counter anew.
  unfoldable pub push_step : Bool → A → Pushing → RingQueue A → Pushing × RingQueue A
  push_step fails x loads q = (checks q.tail, q)
  push_step fails x (checks tail) q =
      (if (node q tail).tail == tail then exchanges tail else pushed false, q)
  push_step fails x (exchanges tail) q =
      if (q.tail == tail) && not fails
      then (constructs tail, record q { tail = (tail + 1) % word })
      else (checks q.tail, q)
  push_step fails x (constructs tail) q =
      (publishes tail, set_node q tail (record (node q tail) { item = some x }))
  push_step fails x (publishes tail) q =
      (pushed true, set_node q tail (record (node q tail) { head = tail }))
  push_step fails x (pushed b) q = (pushed b, q)

  unfoldable pub pop_step : Bool → Popping A → RingQueue A → Popping A × RingQueue A
  pop_step fails loads q = (checks q.head, q)
  pop_step fails (checks head) q =
      (if (node q head).head == head then exchanges head else popped false none, q)
  pop_step fails (exchanges head) q =
      if (q.head == head) && not fails
      then (reads head, record q { head = (head + 1) % word })
      else (checks q.head, q)
  pop_step fails (reads head) q = (destroys head (node q head).item, q)
  pop_step fails (destroys head out) q =
      (releases head out, set_node q head (record (node q head) { item = none }))
  pop_step fails (releases head out) q = (
    popped true out,
    set_node q head (record (node q head) { tail = (head + q.capacity) % word }),
  )
  pop_step fails (popped b out) q = (popped b out, q)

  abbrev pub HasReturned : Call A → Type 0
  HasReturned idle = Unit {0}
  HasReturned (pushing x (pushed b)) = Unit {0}
  HasReturned (popping (popped b out)) = Unit {0}
  HasReturned _ = ⊥

  -- The exchange of a push that succeeds gives the value its ticket.
  abbrev pub give : Bool → A → Pushing → RingQueue A → List A → List A
  give fails x (exchanges tail) q given =
      if (q.tail == tail) && not fails then given ++ x ∷ [] else given
  give fails x _ q given = given

  abbrev pub push_works : System A → ℕ → Bool → A → Pushing → System A
  push_works s i fails x pc =
      let (pc', q) = push_step fails x pc s.queue in
      record {
        queue = q;
        calls = update s.calls i (pushing x pc');
        given = give fails x pc s.queue s.given;
      }

  abbrev pub pop_works : System A → ℕ → Bool → Popping A → System A
  pop_works s i fails pc =
      let (pc', q) = pop_step fails pc s.queue in
      record s { queue = q; calls = update s.calls i (popping pc') }

  pub data Step (s : System A) : System A → Type ℓ where
    calls_push :
        (i : ℕ) (x : A)
        → HasReturned (s.calls i)
        → Step s (record s { calls = update s.calls i (pushing x loads) })
    calls_pop :
        (i : ℕ)
        → HasReturned (s.calls i)
        → Step s (record s { calls = update s.calls i (popping loads) })
    pushes :
        (i : ℕ) (fails : Bool) (x : A) (pc : Pushing)
        → s.calls i ≡ pushing x pc
        → Step s (push_works s i fails x pc)
    pops :
        (i : ℕ) (fails : Bool) (pc : Popping A)
        → s.calls i ≡ popping pc
        → Step s (pop_works s i fails pc)

  pub data Reach (s : System A) : System A → Type ℓ where
    here : Reach s s
    next : {t u : System A} → Reach s t → Step t u → Reach s u

  -- After construction, before any call.
  abbrev pub start : ℕ → System A
  start capacity = record { queue = make capacity; calls = λ _. idle; given = [] }
