-- ===== src/RingQueue/Threads/Tests.antt =====
-- A run of two threads on a queue of LockFreeQueue.h: thread 0 pushes 7, once with a spurious failure,
-- and thread 1 pops it and has destroyed it in the node.
use cpp_concurrency_data_str.Base.{
  ℕ, ◌+◌, ◌≤◌, ◌≡◌, refl, some, true, false, length, get_elem?, arith, [], ◌∷◌,
}
use cpp_concurrency_data_str.RingQueue.{RingQueue, make}
use cpp_concurrency_data_str.RingQueue.Threads.{
  loads, checks, exchanges, constructs, publishes, reads, destroys, releases, pushed, popped,
  popping, System, Reach, here, next, start, calls_push, calls_pop, pushes, pops, push_step,
  pop_step,
}
use cpp_concurrency_data_str.RingQueue.Threads.Alone.{push_steps, pop_steps}
use cpp_concurrency_data_str.RingQueue.Threads.Fifos.{alone_refines}
use cpp_concurrency_data_str.RingQueue.Holds.{Holds}
use cpp_concurrency_data_str.RingQueue.Make.{make-Holds}
use cpp_concurrency_data_str.Fifo
use cpp_concurrency_data_str.RingQueue.Threads.Abstract.{IsShort}
use cpp_concurrency_data_str.RingQueue.Threads.Safety.{pop_reads_pushed, counters_bounded}

unfoldable run :
    (s : System ℕ) × Reach (start 2) s × (s.calls 1 ≡ popping (releases 0 (some 7))) × IsShort s
unfolding push_step pop_step make
run = (
  _,
  next
      (next
        (next
          (next
            (next
              (next
                (next
                  (next
                    (next
                      (next
                        (next
                          (next (next (next here (calls_push 0 7 tt)) (pushes 0 false 7 loads refl))
                            (pushes 0 false 7 (checks 0) refl))
                          (pushes 0 true 7 (exchanges 0) refl))
                        (pushes 0 false 7 (checks 0) refl))
                      (pushes 0 false 7 (exchanges 0) refl))
                    (pushes 0 false 7 (constructs 0) refl))
                  (pushes 0 false 7 (publishes 0) refl))
                (calls_pop 1 tt))
              (pops 1 false loads refl))
            (pops 1 false (checks 0) refl))
          (pops 1 false (exchanges 0) refl))
        (pops 1 false (reads 0) refl))
      (pops 1 false (destroys 0 (some 7)) refl),
  refl,
  omega arith,
)

pop_reads_pushed_example : (x : ℕ) × (some 7 ≡ some x) × (get_elem? run.0.given 0 ≡ some x)
unfolding run
pop_reads_pushed_example =
    pop_reads_pushed 2 (omega arith) (omega arith) run.1 run.3 1 0 (some 7) refl

counters_bounded_example :
    (run.0.queue.tail ≡ length run.0.given)
    × (run.0.queue.head ≤ run.0.queue.tail)
    × (run.0.queue.tail ≤ run.0.queue.head + run.0.queue.capacity)
counters_bounded_example = counters_bounded 2 (omega arith) (omega arith) run.1 run.3

-- A queue of two nodes.
abbrev empty : RingQueue ℕ
empty = make 2

empty_holds : Holds empty 0 []
empty_holds = (make-Holds ℕ 2 (omega arith) (omega arith)).0

alone_refines_example :
    let (done, ys) = Fifo.enqueue {A = ℕ} empty.capacity [] 7 in
    let (taken, out, zs) = Fifo.dequeue {A = ℕ} [] in
    ((q' : RingQueue ℕ) × (push_steps
          (false ∷ false ∷ true ∷ false ∷ false ∷ false ∷ false ∷ [])
          7
          (loads, empty)
        ≡ (pushed done, q'))
      × Holds q' 0 ys
      × (q'.capacity ≡ empty.capacity))
    × ((q' : RingQueue ℕ) × (h' : ℕ) × (pop_steps
            (false ∷ false ∷ true ∷ false ∷ false ∷ false ∷ false ∷ false ∷ [])
            (loads, empty)
          ≡ (popped taken out, q'))
        × Holds q' h' zs
        × (q'.capacity ≡ empty.capacity))
alone_refines_example = alone_refines 1 7 empty_holds
