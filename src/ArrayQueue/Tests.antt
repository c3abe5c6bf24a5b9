-- ===== src/ArrayQueue/Tests.antt =====
-- Runs of other/LockFreeArrayQueue.h at concrete inputs, and the theorems at inputs that meet their hypotheses.
use cpp_concurrency_data_str.Base.{ℕ, ◌≡◌, refl, subst, sym, ap, true, some, List, [], ◌∷◌, arith}
use cpp_concurrency_data_str.Base.Int.{pos}
use cpp_concurrency_data_str.Fifo
use cpp_concurrency_data_str.Fifo.{Op, put, take}
use cpp_concurrency_data_str.ArrayQueue.{ArrayQueue, make, init, size}
use cpp_concurrency_data_str.ArrayQueue.Cas.{loads_write, waits, push_alone, run}
use cpp_concurrency_data_str.ArrayQueue.Holds.{Holds, signed_size-length}
use cpp_concurrency_data_str.ArrayQueue.Tickets.{push_alone_refines}
use cpp_concurrency_data_str.ArrayQueue.Modes.{Serves, init-Serves, calls_refine}
use cpp_concurrency_data_str.ArrayQueue.Collision.{
  default_size, one_pushed, one_value, second_push_spins,
}

-- A queue of two slots, in CAS mode.
abbrev two_slots : ArrayQueue ℕ
two_slots = (init true true (pos 0) true 2 make).1

two_slots-Serves : Serves two_slots 0 []
two_slots-Serves = let (code, v, m, c) = init-Serves {A = ℕ} 0 0 true make in v

two_slots-cas : two_slots.cas ≡ true
two_slots-cas = let (code, v, m, c) = init-Serves {A = ℕ} 0 0 true make in c

abbrev calls : List (Op ℕ)
calls = put 3 ∷ put 4 ∷ put 5 ∷ take ∷ put 6 ∷ take ∷ take ∷ take ∷ []

calls_refine_example : run 6 two_slots calls ≡ some (Fifo.run two_slots.max_size [] calls)
calls_refine_example = calls_refine calls two_slots-Serves

second_push_spins_example :
    push_alone {A = ℕ} 3 8 loads_write (one_pushed default_size 7)
    ≡ (waits (pos 1), one_value default_size 7 (pos 2))
second_push_spins_example = second_push_spins default_size 7 8 0 (omega arith) refl

two_slots-Holds : Holds two_slots 0 []
two_slots-Holds = two_slots-Serves.marks two_slots-cas

-- The queue with one value.
abbrev one_in : ArrayQueue ℕ
one_in = (push_alone 6 9 loads_write two_slots).1

one_in-Holds : Holds one_in 0 (9 ∷ [])
unfolding init
one_in-Holds =
    let (q', e, v, c, m) = push_alone_refines two_slots-Holds 9 in
    subst (λ q. Holds q 0 (9 ∷ [])) (sym (ap (λ p. p.1) e)) v

signed_size-length_example : size one_in ≡ pos 1
signed_size-length_example = signed_size-length one_in-Holds.stores
