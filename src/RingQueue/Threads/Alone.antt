-- ===== src/RingQueue/Threads/Alone.antt =====
-- A push and a pop of LockFreeQueue.h that run alone, step by step, compared with the loops of
-- RingQueue.
use cpp_concurrency_data_str.Base.{
  ℕ, zero, suc, ◌+◌, ◌%◌, ◌≡◌, refl, ◌∙◌, ap, fun_ext, Bool, true, false, Option, none, some, List,
  [], ◌∷◌, ◌==◌, ==-refl, update, update_self, Bool-cases, inl, inr,
}
use cpp_concurrency_data_str.RingQueue.{
  word, Node, RingQueue, index, node, set_node, publish, release, push_loop, push, pop_loop, pop,
}
use cpp_concurrency_data_str.RingQueue.Threads.{
  Pushing, Popping, loads, checks, exchanges, pushed, popped, push_step, pop_step,
}

update_twice {ℓ} :
    {B : Type ℓ} (f : ℕ → B) (i : ℕ) (a b : B) → update (update f i a) i b ≡ update f i b
update_twice f i a b =
    fun_ext (λ j. elim (Bool-cases (i == j)) [ inl e ↦ rw e refl | inr e ↦ rw e refl ])

-- After a counter has been loaded: `n` rounds whose exchange fails spuriously, and one that goes on.
abbrev pub rounds : ℕ → List Bool → List Bool
rounds zero rest = false ∷ false ∷ rest
rounds (suc n) rest = false ∷ true ∷ rounds n rest

module _ {ℓ} {A : Type ℓ} where
  -- The steps of one call, each with whether an exchange fails spuriously.
  unfoldable pub push_steps : List Bool → A → Pushing × RingQueue A → Pushing × RingQueue A
  push_steps [] x s = s
  push_steps (fails ∷ more) x s = push_steps more x (push_step fails x s.0 s.1)

  unfoldable pub pop_steps : List Bool → Popping A × RingQueue A → Popping A × RingQueue A
  pop_steps [] s = s
  pop_steps (fails ∷ more) s = pop_steps more (pop_step fails s.0 s.1)

  -- Two changes of one node are one.
  set_node-twice :
      (q : RingQueue A) (k : ℕ) (a b : Node A) → set_node (set_node q k a) k b ≡ set_node q k b
  set_node-twice q k a b = ap (λ f. record q { nodes = f }) (update_twice q.nodes (index q k) a b)

  push_steps-done :
      (rest : List Bool) (x : A) (b : Bool) (q : RingQueue A)
      → push_steps rest x (pushed b, q) ≡ (pushed b, q)
  unfolding push_steps push_step
  push_steps-done [] x b q = refl
  push_steps-done (fails ∷ rest) x b q = push_steps-done rest x b q

  -- What `push` gives: whether it has pushed, and the queue.
  abbrev Pushes : ℕ → RingQueue A → A → Pushing × RingQueue A → Type ℓ
  Pushes n q x s =
      (b : Bool) × (q' : RingQueue A) × (push_loop n q x q.tail ≡ some (b, q'))
      × (s ≡ (pushed b, q'))

  -- A spurious failure loads the same counter again.
  push_retries :
      (q : RingQueue A) (x : A) → push_step true x (exchanges q.tail) q ≡ (checks q.tail, q)
  unfolding push_step
  push_retries q x = rw (==-refl q.tail) refl

  push_checks :
      (q : RingQueue A) (x : A)
      → ((node q q.tail).tail == q.tail) ≡ true
      → push_step false x (checks q.tail) q ≡ (exchanges q.tail, q)
  unfolding push_step
  push_checks q x e = rw e refl

  push_round :
      (q : RingQueue A) (x : A) (rest : List Bool)
      → ((node q q.tail).tail == q.tail) ≡ true
      → push_steps (false ∷ true ∷ rest) x (checks q.tail, q) ≡ push_steps rest x (checks q.tail, q)
  unfolding push_steps
  push_round q x rest e =
      ap (λ s. push_steps rest x (push_step true x s.0 s.1)) (push_checks q x e)
      ∙ ap (push_steps rest x) (push_retries q x)

  push_refused :
      (q : RingQueue A) (x : A) (rest : List Bool)
      → ((node q q.tail).tail == q.tail) ≡ false
      → push_steps (false ∷ rest) x (checks q.tail, q) ≡ (pushed false, q)
  unfolding push_steps push_step
  push_refused q x rest e = rw e (push_steps-done rest x false q)

  push_steps-rounds :
      (n : ℕ) (q : RingQueue A) (x : A)
      → Pushes n q x (push_steps (rounds n (false ∷ false ∷ [])) x (checks q.tail, q))
  unfolding push_steps push_step push_loop publish
  push_steps-rounds zero q x = elim (Bool-cases ((node q q.tail).tail == q.tail)) [
    | inl is_free ↦
        let q1 : RingQueue A = record q { tail = (q.tail + 1) % word } in
        let a : Node A = record (node q1 q.tail) { item = some x } in
        (
          true,
          publish q1 x q.tail,
          rw (is_free, ==-refl q.tail) refl,
          rw (is_free, ==-refl q.tail)
              (ap
                  (λ v. (
                    pushed true,
                    set_node (set_node q1 q.tail a) q.tail (record v { head = q.tail }),
                  ))
                  (update_self q1.nodes (index q1 q.tail) a)
                ∙ ap (λ r. (pushed true, r))
                    (set_node-twice q1 q.tail a (record a { head = q.tail }))),
        )
    | inr busy ↦ (false, q, rw busy refl, rw busy refl)
  ]
  push_steps-rounds (suc n) q x = elim (Bool-cases ((node q q.tail).tail == q.tail)) [
    | inl is_free ↦
        let (b, q', h, k) = push_steps-rounds n q x in
        (b, q', rw is_free h, push_round q x (rounds n (false ∷ false ∷ [])) is_free ∙ k)
    | inr busy ↦
        (false, q, rw busy refl, push_refused q x (true ∷ rounds n (false ∷ false ∷ [])) busy)
  ]

  pop_steps-done :
      (rest : List Bool) (b : Bool) (out : Option A) (q : RingQueue A)
      → pop_steps rest (popped b out, q) ≡ (popped b out, q)
  unfolding pop_steps pop_step
  pop_steps-done [] b out q = refl
  pop_steps-done (fails ∷ rest) b out q = pop_steps-done rest b out q

  -- What `pop` gives: whether it has popped, what is assigned, and the queue.
  abbrev Pops : ℕ → RingQueue A → Popping A × RingQueue A → Type ℓ
  Pops n q s =
      (b : Bool) × (out : Option A) × (q' : RingQueue A) × (pop_loop n q q.head ≡ some (b, out, q'))
      × (s ≡ (popped b out, q'))

  pop_retries : (q : RingQueue A) → pop_step true (exchanges q.head) q ≡ (checks q.head, q)
  unfolding pop_step
  pop_retries q = rw (==-refl q.head) refl

  pop_checks :
      (q : RingQueue A)
      → ((node q q.head).head == q.head) ≡ true
      → pop_step false (checks q.head) q ≡ (exchanges q.head, q)
  unfolding pop_step
  pop_checks q e = rw e refl

  pop_round :
      (q : RingQueue A) (rest : List Bool)
      → ((node q q.head).head == q.head) ≡ true
      → pop_steps (false ∷ true ∷ rest) (checks q.head, q) ≡ pop_steps rest (checks q.head, q)
  unfolding pop_steps
  pop_round q rest e =
      ap (λ s. pop_steps rest (pop_step true s.0 s.1)) (pop_checks q e)
      ∙ ap (pop_steps rest) (pop_retries q)

  pop_refused :
      (q : RingQueue A) (rest : List Bool)
      → ((node q q.head).head == q.head) ≡ false
      → pop_steps (false ∷ rest) (checks q.head, q) ≡ (popped false none, q)
  unfolding pop_steps pop_step
  pop_refused q rest e = rw e (pop_steps-done rest false none q)

  pop_steps-rounds :
      (n : ℕ) (q : RingQueue A)
      → Pops n q (pop_steps (rounds n (false ∷ false ∷ false ∷ [])) (checks q.head, q))
  unfolding pop_steps pop_step pop_loop release
  pop_steps-rounds zero q = elim (Bool-cases ((node q q.head).head == q.head)) [
    | inl is_full ↦
        let q1 : RingQueue A = record q { head = (q.head + 1) % word } in
        let a : Node A = record (node q1 q.head) { item = none } in
        let k = (q.head + q.capacity) % word in
        (
          true,
          (node q q.head).item,
          release q1 q.head,
          rw (is_full, ==-refl q.head) refl,
          rw (is_full, ==-refl q.head)
              (ap
                  (λ v. (
                    popped true (node q q.head).item,
                    set_node (set_node q1 q.head a) q.head (record v { tail = k }),
                  ))
                  (update_self q1.nodes (index q1 q.head) a)
                ∙ ap (λ r. (popped true (node q q.head).item, r))
                    (set_node-twice q1 q.head a (record a { tail = k }))),
        )
    | inr empty ↦ (false, none, q, rw empty refl, rw empty refl)
  ]
  pop_steps-rounds (suc n) q = elim (Bool-cases ((node q q.head).head == q.head)) [
    | inl is_full ↦
        let (b, out, q', h, k) = pop_steps-rounds n q in
        (b, out, q', rw is_full h, pop_round q (rounds n (false ∷ false ∷ false ∷ [])) is_full ∙ k)
    | inr empty ↦ (
      false,
      none,
      q,
      rw empty refl,
      pop_refused q (true ∷ rounds n (false ∷ false ∷ false ∷ [])) empty,
    )
  ]

  -- On any queue a push that runs alone, with `n` spurious failures, gives step by step what `push`
  -- gives with `n` of them, and so does a pop: each returns, with the same answer and the same queue.
  pub steps_agree :
      (n : ℕ) (q : RingQueue A) (x : A)
      → ((b : Bool) × (q' : RingQueue A) × (push n q x ≡ some (b, q'))
          × (push_steps (false ∷ rounds n (false ∷ false ∷ [])) x (loads, q) ≡ (pushed b, q')))
        × ((b : Bool) × (out : Option A) × (q' : RingQueue A) × (pop n q ≡ some (b, out, q'))
            × (pop_steps (false ∷ rounds n (false ∷ false ∷ false ∷ [])) (loads, q)
                ≡ (popped b out, q')))
  unfolding push pop push_steps push_step pop_steps pop_step
  steps_agree n q x = (push_steps-rounds n q x, pop_steps-rounds n q)
