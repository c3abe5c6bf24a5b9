-- ===== src/ArrayQueue/Threads/Tests.antt =====
-- A run of two threads on a queue of the size 2 (other/LockFreeArrayQueue.h): thread 0 pushes 7 and
-- returns, thread 1 pops it and has read the slot.
use cpp_concurrency_data_str.Base.{ℕ, ◌≡◌, refl, some, get_elem?}
use cpp_concurrency_data_str.Base.Int.{pos, ◌-ℤ◌, ◌+ℤ◌}
use cpp_concurrency_data_str.ArrayQueue.{init, is_full, is_empty, trans_index}
use cpp_concurrency_data_str.ArrayQueue.Cas.{
  loads_write, loads_read, exchanges, waits, writes, publishes, reads, releases, compare_active,
  push_step, pop_step,
}
use cpp_concurrency_data_str.ArrayQueue.Threads.{
  popping, System, Reach, here, next, start, calls_push, calls_pop, pushes, pops,
}
use cpp_concurrency_data_str.ArrayQueue.Threads.Safety.{pop_reads_given}

unfoldable run :
    (s : System ℕ) × Reach (start 0) s × (s.calls 1 ≡ popping (releases (pos 0) (some 7)))
unfolding push_step pop_step init is_full is_empty trans_index compare_active ◌-ℤ◌ ◌+ℤ◌
run = (
  _,
  next
      (next
        (next
          (next
            (next
              (next
                (next
                  (next
                    (next
                      (next
                        (next (next (next here (calls_push 0 7 tt)) (pushes 0 7 loads_write refl))
                          (pushes 0 7 (loads_read (pos 0)) refl))
                        (pushes 0 7 (exchanges (pos 0)) refl))
                      (pushes 0 7 (waits (pos 0)) refl))
                    (pushes 0 7 (writes (pos 0)) refl))
                  (pushes 0 7 (publishes (pos 0)) refl))
                (calls_pop 1 tt))
              (pops 1 loads_write refl))
            (pops 1 (loads_read (pos 1)) refl))
          (pops 1 (exchanges (pos 0)) refl))
        (pops 1 (waits (pos 0)) refl))
      (pops 1 (reads (pos 0)) refl),
  refl,
)

pop_reads_given_example : (x : ℕ) × (some 7 ≡ some x) × (get_elem? run.0.given 0 ≡ some x)
pop_reads_given_example = pop_reads_given 0 run.1 1 (pos 0) (some 7) run.2
