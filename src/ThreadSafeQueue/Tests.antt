-- ===== src/ThreadSafeQueue/Tests.antt =====
-- Runs of ThreadSafeQueue.h at concrete inputs, and the theorems at inputs that meet their
-- hypotheses.
use cpp_concurrency_data_str.Base.{
  ℕ, ◌≡◌, refl, Bool, true, false, Option, none, some, List, [], ◌∷◌, ◌++◌, arith, update, ◌>>=◌,
}
use cpp_concurrency_data_str.ThreadSafeQueue.{
  Heap, Queue, make, push, try_pop, try_pop_into, is_empty, destroy,
}
use cpp_concurrency_data_str.ThreadSafeQueue.Chain.{Cells, Holds}
use cpp_concurrency_data_str.ThreadSafeQueue.Refines.{
  make-Holds, push-Holds, try_pop_empty, is_empty-cons, destroy_lem, Destroyed,
}
use cpp_concurrency_data_str.ThreadSafeQueue.Wakeup.{
  locked, ready, asleep, idle, System, moved, lock, link, see_value, start, Reach, here, next,
  values,
}
use cpp_concurrency_data_str.ThreadSafeQueue.Threads.{
  threads_history, lost_wakeup, Quiets, rests, goes, overslept,
}

abbrev no_nodes : Heap ℕ
no_nodes a = none

abbrev empty : Queue ℕ
empty = make 1 no_nodes

empty_holds : Holds empty []
empty_holds = make-Holds 1 no_nodes (omega arith)

free_2 : empty.heap 2 ≡ none
unfolding make
free_2 = refl

-- 7 and 8 go in, come out in order, and then the queue is empty.
abbrev session : Option (List (Option ℕ) × Bool)
session = do
  q ← push 2 7 empty
  q ← push 3 8 q
  (a, q) ← try_pop q
  (b, q) ← try_pop_into q
  (c, q) ← try_pop q
  some (a ∷ b ∷ c ∷ [], is_empty q)

in_order : session ≡ some (some 7 ∷ some 8 ∷ none ∷ [], true)
unfolding make push try_pop try_pop_into is_empty
in_order = refl

abbrev pushed_once : (q' : Queue ℕ) × (push 2 7 empty ≡ some q') × Holds q' ((empty.tail, 7) ∷ [])
pushed_once = push-Holds 2 7 empty_holds free_2 (omega arith)

abbrev one_value : Queue ℕ
one_value = pushed_once.0

try_pop_empty_example :
    (try_pop empty ≡ some (none, empty))
    × (try_pop_into empty ≡ some (none, empty))
    × (is_empty empty ≡ true)
try_pop_empty_example = try_pop_empty empty_holds

destroy_lem_example :
    (h' : Heap ℕ) × (destroy 3 one_value.head one_value.heap ≡ some h')
    × Destroyed one_value.heap one_value.tail ((empty.tail, 7) ∷ []) h'
destroy_lem_example = destroy_lem 3 pushed_once.2 (omega arith)

-- One push, then a consumer takes the mutex and sees the value.
abbrev seen : System ℕ
seen = record {
  queue = one_value;
  holder = some 0;
  consumers = update (update (λ _. idle) 0 locked) 0 ready;
  unnotified = 1;
  pushed = 7 ∷ [];
  taken = [];
}

seen_reached : Reach (start 1 no_nodes) seen
unfolding start
seen_reached =
    next
      (next (next here (link 2 7 one_value free_2 (omega arith) pushed_once.1)) (lock 0 refl refl))
      (see_value 0 refl (is_empty-cons pushed_once.2))

threads_history_example :
    (cs : Cells ℕ) × Holds seen.queue cs × (seen.pushed ≡ seen.taken ++ values cs)
threads_history_example = threads_history 1 no_nodes (omega arith) seen_reached

-- Consumer 1 takes the mutex and sees the value while consumer 0 sleeps.
abbrev asleep_0 : System ℕ
asleep_0 = overslept 0 7 one_value 1 no_nodes

abbrev seen_1 : System ℕ
seen_1 = moved (moved asleep_0 1 locked (some 1)) 1 ready (some 1)

seen_1-Quiets : Quiets asleep_0 seen_1
unfolding start
seen_1-Quiets =
    goes (goes rests (lock 1 refl refl) tt) (see_value 1 refl (is_empty-cons pushed_once.2)) tt

lost_wakeup_example :
    Reach (start 1 no_nodes) asleep_0
    × (is_empty one_value ≡ false)
    × (seen_1.consumers 0 ≡ asleep)
    × (seen_1.unnotified ≡ 0)
lost_wakeup_example =
    lost_wakeup 0 1 2 no_nodes 7 one_value (omega arith) (omega arith) (omega arith) refl
      pushed_once.1 seen_1-Quiets
