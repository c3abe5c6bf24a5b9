-- ===== src/RingQueue/Tests.antt =====
-- Runs of LockFreeQueue.h at concrete inputs, and the theorems at inputs that meet their hypotheses.
use cpp_concurrency_data_str.Base.{
  ℕ, ◌^◌, ◌≤◌, ◌<◌, ◌≡◌, refl, List, [], ◌∷◌, some, none, true, false, arith, map,
}
use cpp_concurrency_data_str.Fifo
use cpp_concurrency_data_str.Fifo.{Op, put, take}
use cpp_concurrency_data_str.RingQueue.{Node, RingQueue, make, push, pop, run, size}
use cpp_concurrency_data_str.RingQueue.Holds.{Holds}
use cpp_concurrency_data_str.RingQueue.Destroy.{destroy, with_nodes, Emptied, destroy-Emptied}
use cpp_concurrency_data_str.RingQueue.Make.{make-Holds}
use cpp_concurrency_data_str.RingQueue.Refines.{push_refines, run_refines, size-length}

abbrev small_queue : RingQueue ℕ
small_queue = make 3

small_queue_holds : Holds small_queue 0 []
small_queue_holds = (make-Holds ℕ 3 (omega arith) (omega arith)).0

capacity-small_queue : small_queue.capacity ≡ 4
unfolding make
capacity-small_queue = refl

-- Four values fit, the fifth is refused, and one leaves.
abbrev calls : List (ℕ × Op ℕ)
calls = (0, put 5) ∷ (2, put 6) ∷ (0, put 7) ∷ (0, put 8) ∷ (1, put 9) ∷ (3, take) ∷ (0, put 9) ∷ []

run-calls :
    run small_queue calls
    ≡ some (
        (true, none)
        ∷ (true, none)
        ∷ (true, none)
        ∷ (true, none)
        ∷ (false, none)
        ∷ (true, some 5)
        ∷ (true, none)
        ∷ [])
unfolding run push pop make
run-calls = refl

make-Holds_example :
    Holds small_queue 0 []
    × (3 ≤ small_queue.capacity)
    × (small_queue.capacity < 6)
    × (k : ℕ) × (small_queue.capacity ≡ 2 ^ k)
make-Holds_example = make-Holds ℕ 3 (omega arith) (omega arith)

run_refines_example :
    run small_queue calls ≡ some (Fifo.run small_queue.capacity [] (map (λ c. c.1) calls))
run_refines_example = run_refines calls small_queue_holds

abbrev pushed_once :
    let (done, ys) = Fifo.enqueue {A = ℕ} small_queue.capacity [] 5 in
    (q' : RingQueue ℕ) × (push 2 small_queue 5 ≡ some (done, q'))
    × Holds q' 0 ys
    × (q'.capacity ≡ small_queue.capacity)
pushed_once = push_refines 2 5 small_queue_holds

-- The queue that holds the one value 5.
abbrev one_value : RingQueue ℕ
one_value = pushed_once.0

one_value_holds : Holds one_value 0 (5 ∷ [])
unfolding make
one_value_holds = pushed_once.2

size-length_example : size one_value ≡ 1
size-length_example = size-length one_value_holds

destroy-Emptied_example :
    (f' : ℕ → Node ℕ) × (destroy 2 one_value ≡ some (with_nodes one_value_holds f'))
    × Emptied one_value_holds one_value.nodes f' 0 1
destroy-Emptied_example = destroy-Emptied one_value_holds 2 (omega arith)
