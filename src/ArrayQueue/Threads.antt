-- ===== src/ArrayQueue/Threads.antt =====
-- Threads that call Push_CAS and Pop_CAS of other/LockFreeArrayQueue.h on one queue, interleaved in any
-- order: each step is one step of one call, as Cas has them.
pub mod Abstract
pub mod Frame
pub mod Pushes
pub mod Pops
pub mod Simulates
pub mod Safety
mod Tests
use cpp_concurrency_data_str.Base.{
  ℕ, suc, ◌^◌, ◌≡◌, Bool, true, false, Option, none, some, List, [], ◌∷◌, ◌++◌, if◌then◌else◌,
  update,
}
use cpp_concurrency_data_str.Base.Int.{ℤ, pos, eq_ℤ}
use cpp_concurrency_data_str.ArrayQueue.{ArrayQueue, init, make}
use cpp_concurrency_data_str.ArrayQueue.Cas.{
  Pushing, Popping, loads_write, exchanges, pushed, popped, push_step, pop_step,
}

pub data Call {ℓ} (A : Type ℓ) : Type ℓ where
  idle : Call A
  pushing : A → Pushing → Call A
  popping : Popping A → Call A

-- `given` records the pushed values in the order in which they got their indices.
pub record System {ℓ} (A : Type ℓ) : Type ℓ where
  pub queue : ArrayQueue A
  pub calls : ℕ → Call A
  pub given : List A

module _ {ℓ} {A : Type ℓ} where
  abbrev pub HasReturned : Call A → Type 0
  HasReturned idle = Unit {0}
  HasReturned (pushing e (pushed b)) = Unit {0}
  HasReturned (popping (popped b o)) = Unit {0}
  HasReturned _ = ⊥

  -- The exchange of a push that succeeds gives the value its index.
  abbrev pub give : A → Pushing → ArrayQueue A → List A → List A
  give e (exchanges w) q given = if eq_ℤ q.write_index w then given ++ e ∷ [] else given
  give e _ q given = given

  abbrev pub push_works : System A → ℕ → A → Pushing → System A
  push_works s i e pc =
      let (pc', q) = push_step e pc s.queue in
      record {
        queue = q;
        calls = update s.calls i (pushing e pc');
        given = give e pc s.queue s.given;
      }

  abbrev pub pop_works : System A → ℕ → Popping A → System A
  pop_works s i pc =
      let (pc', q) = pop_step pc s.queue in
      record s { queue = q; calls = update s.calls i (popping pc') }

  pub data Step (s : System A) : System A → Type ℓ where
    calls_push :
        (i : ℕ) (e : A)
        → HasReturned (s.calls i)
        → Step s (record s { calls = update s.calls i (pushing e loads_write) })
    calls_pop :
        (i : ℕ)
        → HasReturned (s.calls i)
        → Step s (record s { calls = update s.calls i (popping loads_write) })
    pushes :
        (i : ℕ) (e : A) (pc : Pushing) → s.calls i ≡ pushing e pc → Step s (push_works s i e pc)
    pops : (i : ℕ) (pc : Popping A) → s.calls i ≡ popping pc → Step s (pop_works s i pc)

  pub data Reach (s : System A) : System A → Type ℓ where
    here : Reach s s
    next : {t u : System A} → Reach s t → Step t u → Reach s u

  -- After `Init` with the size 2 ^ (k + 1), before any call.
  abbrev pub start : ℕ → System A
  start k = record {
    queue = (init true true (pos 0) true (2 ^ suc k) make).1;
    calls = λ _. idle;
    given = [];
  }
