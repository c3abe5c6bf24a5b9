-- ===== src/ArrayQueue/Cas.antt =====
-- Push_CAS and Pop_CAS of other/LockFreeArrayQueue.h, one access of the shared queue at a time, so
-- that calls of several threads can be interleaved in any order. Memory is sequentially consistent
-- here; the source asks for relaxed order.
use cpp_concurrency_data_str.Base.{
  ℕ, zero, suc, Bool, true, false, Option, none, some, if◌then◌else◌, update, List, [], ◌∷◌, ◌>>=◌,
}
use cpp_concurrency_data_str.Base.Int.{ℤ, pos, ◌+ℤ◌, ◌-ℤ◌, leb_ℤ, eq_ℤ}
use cpp_concurrency_data_str.Fifo.{Op, put, take, Reply}
use cpp_concurrency_data_str.ArrayQueue.{
  ArrayQueue, trans_index, is_full, is_empty, push_lock, pop_lock,
}

-- Where a call of Push_CAS stands, with the index that it loaded; from `waits` on that is its ticket.
pub data Pushing : Type 0 where
  loads_write : Pushing
  loads_read : ℤ → Pushing
  exchanges : ℤ → Pushing
  waits : ℤ → Pushing
  writes : ℤ → Pushing
  publishes : ℤ → Pushing
  pushed : Bool → Pushing

pub data Popping {ℓ} (A : Type ℓ) : Type ℓ where
  loads_write : Popping A
  loads_read : ℤ → Popping A
  exchanges : ℤ → Popping A
  waits : ℤ → Popping A
  reads : ℤ → Popping A
  releases : ℤ → Option A → Popping A
  popped : Bool → Option A → Popping A

-- What a slot is marked with when the ticket `w` may write it: 0 in the first round, and then what
-- the pop one round before left.
unfoldable pub compare_active : ℕ → ℤ → ℤ
compare_active max_size w =
    if leb_ℤ (pos max_size) w then pos 0 -ℤ (w -ℤ pos max_size +ℤ pos 1) else pos 0

module _ {ℓ} {A : Type ℓ} where
  unfoldable pub push_step : A → Pushing → ArrayQueue A → Pushing × ArrayQueue A
  push_step e loads_write q = (loads_read q.write_index, q)
  push_step e (loads_read w) q = (if is_full q w q.read_index then pushed false else exchanges w, q)
  push_step e (exchanges w) q =
      if eq_ℤ q.write_index w
      then (waits w, record q { write_index = w +ℤ pos 1 })
      else (loads_write, q)
  push_step e (waits w) q =
      let ready = eq_ℤ (q.active (trans_index q.max_size w)) (compare_active q.max_size w) in
      (if ready then writes w else waits w, q)
  push_step e (writes w) q =
      (publishes w, record q { elements = update q.elements (trans_index q.max_size w) (some e) })
  push_step e (publishes w) q =
      (pushed true, record q { active = update q.active (trans_index q.max_size w) (w +ℤ pos 1) })
  push_step e (pushed b) q = (pushed b, q)

  unfoldable pub pop_step : Popping A → ArrayQueue A → Popping A × ArrayQueue A
  pop_step loads_write q = (loads_read q.write_index, q)
  pop_step (loads_read w) q =
      (if is_empty w q.read_index then popped false none else exchanges q.read_index, q)
  pop_step (exchanges r) q =
      if eq_ℤ q.read_index r
      then (waits r, record q { read_index = r +ℤ pos 1 })
      else (loads_write, q)
  pop_step (waits r) q =
      let ready = eq_ℤ (q.active (trans_index q.max_size r)) (r +ℤ pos 1) in
      (if ready then reads r else waits r, q)
  pop_step (reads r) q = (releases r (q.elements (trans_index q.max_size r)), q)
  pop_step (releases r out) q = (
    popped true out,
    record q { active = update q.active (trans_index q.max_size r) (pos 0 -ℤ (r +ℤ pos 1)) },
  )
  pop_step (popped b out) q = (popped b out, q)

  -- A call that runs alone, for as many steps as the fuel has.
  unfoldable pub push_alone : ℕ → A → Pushing → ArrayQueue A → Pushing × ArrayQueue A
  push_alone zero e pc q = (pc, q)
  push_alone (suc n) e pc q = let (pc', q') = push_step e pc q in push_alone n e pc' q'

  unfoldable pub pop_alone : ℕ → Popping A → ArrayQueue A → Popping A × ArrayQueue A
  pop_alone zero pc q = (pc, q)
  pop_alone (suc n) pc q = let (pc', q') = pop_step pc q in pop_alone n pc' q'

  -- `Push` and `Pop` by the mode. `none` is a call that has not returned when the fuel is used up.
  abbrev pub push_result : Pushing × ArrayQueue A → Option (Bool × ArrayQueue A)
  push_result (pushed b, q) = some (b, q)
  push_result (pc, q) = none

  abbrev pub pop_result : Popping A × ArrayQueue A → Option (Bool × Option A × ArrayQueue A)
  pop_result (popped b out, q) = some (b, out, q)
  pop_result (pc, q) = none

  unfoldable pub push : ℕ → A → ArrayQueue A → Option (Bool × ArrayQueue A)
  push n e q = if q.cas then push_result (push_alone n e loads_write q) else some (push_lock e q)

  unfoldable pub pop : ℕ → ArrayQueue A → Option (Bool × Option A × ArrayQueue A)
  pop n q = if q.cas then pop_result (pop_alone n loads_write q) else some (pop_lock q)

  -- Calls one after another, and what each returns.
  unfoldable pub run : ℕ → ArrayQueue A → List (Op A) → Option (List (Reply A))
  run n q [] = some []
  run n q (put e ∷ ops) = do
    (done, q') ← push n e q
    replies ← run n q' ops
    some ((done, none) ∷ replies)
  run n q (take ∷ ops) = do
    (done, out, q') ← pop n q
    replies ← run n q' ops
    some ((done, out) ∷ replies)
