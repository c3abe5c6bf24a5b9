-- ===== src/RingQueue/Refines.antt =====
-- LockFreeQueue.h, called by one thread at a time, is a bounded queue.
use native.Mathlib.Nat.{add-mod_right, add-zero}
use cpp_concurrency_data_str.Base.{
  ℕ, zero, suc, ◌+◌, ◌%◌, ◌<◌, ◌≡◌, ◌≢◌, refl, ◌∙◌, ap, sym, true, false, some, none, List, [], ◌∷◌,
  arith, map, length, ltb, Bool-cases, inl, inr, ==-refl, ==_of_ne, subst,
}
use cpp_concurrency_data_str.Fifo
use cpp_concurrency_data_str.Fifo.{Op, put, take, Reply}
use cpp_concurrency_data_str.RingQueue.{
  word, RingQueue, index, node, publish, release, size, push_loop, push, pop_loop, pop, run,
}
use cpp_concurrency_data_str.RingQueue.Holds.{Holds, index-eq, capacity_pos, capacity_lt, ticket_ne}
use cpp_concurrency_data_str.RingQueue.Publish.{publish-Holds}
use cpp_concurrency_data_str.RingQueue.Release.{oldest, release-Holds}

module _ {ℓ} {A : Type ℓ} where
  module _ {q : RingQueue A} {h : ℕ} {xs : List A} (v : Holds q h xs) where
    node-tail : node q q.tail ≡ q.nodes ((h + length xs) % q.capacity)
    node-tail = ap (λ t. q.nodes (index q t)) v.tail_eq ∙ ap q.nodes (index-eq v (h + length xs))

    node-head : node q q.head ≡ q.nodes (h % q.capacity)
    node-head = ap (λ t. q.nodes (index q t)) v.head_eq ∙ ap q.nodes (index-eq v h)

    -- With room the node of the next ticket waits for it.
    awaits : length xs < q.capacity → (node q q.tail).tail ≡ q.tail
    awaits room =
        ap (λ w. w.tail) node-tail ∙ (v.free (length xs) (omega arith) room).tail ∙ sym v.tail_eq

    -- With no value the node of the oldest ticket has not been published.
    unpublished : length xs ≡ 0 → (node q q.head).head ≢ q.head
    unpublished empty e = (v.free 0 (omega arith) (capacity_pos v)).head (
        subst (λ k. (q.nodes (k % q.capacity)).head ≡ k % word) (sym (add-zero h))
          (ap (λ w. w.head) (sym node-head) ∙ e ∙ v.head_eq))

  -- Without room the node of the next ticket still holds the oldest value.
  occupied :
      {q : RingQueue A} {h : ℕ} {xs : List A}
      → Holds q h xs
      → length xs ≡ q.capacity
      → (node q q.tail).tail ≢ q.tail
  occupied {xs = []} v full e = absurd (omega (arith, capacity_pos v))
  occupied {q} {h} {xs = x ∷ xs} v full e =
      ticket_ne v h (h + q.capacity) (omega (arith, capacity_pos v))
        (omega (arith, capacity_lt v, capacity_pos v))
        (ap (λ k. (h + k) % word) (sym full)
          ∙ sym v.tail_eq
          ∙ sym e
          ∙ ap (λ w. w.tail) (node-tail v)
          ∙ ap (λ k. (q.nodes ((h + k) % q.capacity)).tail) full
          ∙ ap (λ j. (q.nodes j).tail) (add-mod_right h q.capacity)
          ∙ (oldest v).tail)

  push_loop-room :
      (n : ℕ) (q : RingQueue A) (x : A)
      → (node q q.tail).tail ≡ q.tail
      → push_loop n q x q.tail
        ≡ some (true, publish (record q { tail = (q.tail + 1) % word }) x q.tail)
  unfolding push_loop
  push_loop-room zero q x e = rw (e, ==-refl q.tail)
  push_loop-room (suc n) q x e = rw (e, ==-refl q.tail) (push_loop-room n q x e)

  push_loop-full :
      (n : ℕ) (q : RingQueue A) (x : A)
      → (node q q.tail).tail ≢ q.tail
      → push_loop n q x q.tail ≡ some (false, q)
  unfolding push_loop
  push_loop-full zero q x e = rw (==_of_ne _ _ e)
  push_loop-full (suc n) q x e = rw (==_of_ne _ _ e)

  pop_loop-some :
      (n : ℕ) (q : RingQueue A)
      → (node q q.head).head ≡ q.head
      → pop_loop n q q.head
        ≡ some
            (true, (node q q.head).item, release (record q { head = (q.head + 1) % word }) q.head)
  unfolding pop_loop
  pop_loop-some zero q e = rw (e, ==-refl q.head)
  pop_loop-some (suc n) q e = rw (e, ==-refl q.head) (pop_loop-some n q e)

  pop_loop-none :
      (n : ℕ) (q : RingQueue A)
      → (node q q.head).head ≢ q.head
      → pop_loop n q q.head ≡ some (false, none, q)
  unfolding pop_loop
  pop_loop-none zero q e = rw (==_of_ne _ _ e)
  pop_loop-none (suc n) q e = rw (==_of_ne _ _ e)

  module _ {q : RingQueue A} {h : ℕ} {xs : List A} (n : ℕ) where
    -- For a queue that holds `xs`, `push` returns, however often the exchange fails spuriously:
    -- with room it returns true and the queue holds `x` behind `xs`, and without it returns false
    -- and the queue holds `xs`; the capacity stays.
    pub push_refines :
        (x : A)
        → Holds q h xs
        → let (done, ys) = Fifo.enqueue q.capacity xs x in
          (q' : RingQueue A) × (push n q x ≡ some (done, q'))
          × Holds q' h ys
          × (q'.capacity ≡ q.capacity)
    unfolding push publish
    push_refines x v = elim (Bool-cases (ltb (length xs) q.capacity)) [
      | inl room ↦ rw room (
        publish (record q { tail = (q.tail + 1) % word }) x q.tail,
        push_loop-room n q x (awaits v (ground arith)),
        publish-Holds v x (ground arith),
        refl,
      )
      | inr full ↦ rw full (q, push_loop-full n q x (occupied v (ground (arith, v.fits))), v, refl)
    ]

  -- For a queue that holds `xs`, `pop` returns, however often the exchange fails spuriously: true
  -- and the oldest value, and the queue holds the others, or false and no value if there is none;
  -- the capacity stays.
  pub pop_refines :
      {q : RingQueue A} {h : ℕ} {xs : List A} (n : ℕ)
      → Holds q h xs
      → let (done, out, ys) = Fifo.dequeue xs in
        (q' : RingQueue A) × (h' : ℕ) × (pop n q ≡ some (done, out, q'))
        × Holds q' h' ys
        × (q'.capacity ≡ q.capacity)
  unfolding pop release
  pop_refines {q} {h} {xs = []} n v = (q, h, pop_loop-none n q (unpublished v refl), v, refl)
  pop_refines {q} {h} {xs = x ∷ xs} n v =
      let e = (oldest v) in
      let at : node q q.head ≡ q.nodes (h % q.capacity) = node-head v in
      (
        release (record q { head = (q.head + 1) % word }) q.head,
        h + 1,
        pop_loop-some n q (ap (λ w. w.head) at ∙ e.head ∙ sym v.head_eq)
            ∙ ap (λ o. some (true, o, release (record q { head = (q.head + 1) % word }) q.head))
                (ap (λ w. w.item) at ∙ e.item),
        release-Holds v,
        refl,
      )

  -- For a queue that holds `xs`, `size` is their number.
  pub size-length : {q : RingQueue A} {h : ℕ} {xs : List A} → Holds q h xs → size q ≡ length xs
  unfolding size
  size-length v = omega (arith, capacity_lt v, capacity_pos v)

  -- For a queue that holds `xs`: a sequence of calls, whatever number of spurious failures each of them
  -- meets, returns what the bounded FIFO of its capacity with the values `xs` replies.
  pub run_refines :
      (ops : List (ℕ × Op A)) {q : RingQueue A} {h : ℕ} {xs : List A}
      → Holds q h xs
      → run q ops ≡ some (Fifo.run q.capacity xs (map (λ c. c.1) ops))
  unfolding run Fifo.run
  run_refines [] v = refl
  run_refines ((n, put x) ∷ ops) {q} {h} {xs} v =
      let (q', e, v', c) = push_refines n x v in rw (e, run, run_refines ops v', c)
  run_refines ((n, take) ∷ ops) {q} {h} {xs} v =
      let (q', h', e, v', c) = pop_refines n v in rw (e, run, run_refines ops v', c)
