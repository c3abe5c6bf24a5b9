-- ===== src/ThreadSafeQueue/Refines.antt =====
-- ThreadSafeQueue.h is an unbounded queue: its operations do not fault, lose nothing and leak
-- nothing.
use cpp_concurrency_data_str.Base.{
  ℕ, suc, ◌<◌, ◌≡◌, ◌≢◌, refl, ◌∙◌, sym, ap, true, false, Option, none, some, [], ◌∷◌, ◌++◌, arith,
  length, ◌==◌, ==-refl, ==_of_ne, update, update_self, update-ne, All, zero,
}
use cpp_concurrency_data_str.ThreadSafeQueue.{
  Ptr, null, dummy, Heap, Queue, make, push, try_pop, try_pop_into, take_head, is_empty, destroy,
}
use cpp_concurrency_data_str.ThreadSafeQueue.Chain.{
  Cells, first, Linked, Avoids, Distinct, Holds, tail-ne, Linked-tail, Linked-update, extend,
  extend-Holds, extend-other,
}

module _ {ℓ} {A : Type ℓ} where
  pub make-Holds : (fresh : Ptr) (h : Heap A) → fresh ≢ null → Holds (make fresh h) []
  unfolding make
  make-Holds fresh h real = record {
    head_eq = refl;
    linked = update_self h fresh (some dummy);
    distinct = tt;
    not_null = real;
  }

  abbrev heap_in : Heap A → Option (Queue A) → Heap A
  heap_in h none = h
  heap_in h (some q) = q.heap

  -- For a well-formed queue, `push`, whose new node stands at a free address that is not null, does not
  -- fault, and the queue holds the value behind the others.
  pub push-Holds :
      (fresh : Ptr) (x : A) {q : Queue A} {cs : Cells A}
      → Holds q cs
      → q.heap fresh ≡ none
      → fresh ≢ null
      → (q' : Queue A) × (push fresh x q ≡ some q') × Holds q' (cs ++ (q.tail, x) ∷ [])
  unfolding push
  push-Holds fresh x {q} {cs} v free real =
      let dummy_at = Linked-tail q.heap q.tail cs v.linked in
      (
        record q { heap = extend q.heap fresh q.tail x; tail = fresh },
        rw (==_of_ne fresh q.tail (λ e. ground (arith, ap q.heap e)), dummy_at),
        extend-Holds fresh x v free real,
      )

  -- A push changes the heap at the new node and at the last one only.
  pub push-kept :
      (fresh : Ptr) (x : A) {q q' : Queue A} {cs : Cells A}
      → Holds q cs
      → q.heap fresh ≡ none
      → push fresh x q ≡ some q'
      → (a : Ptr) → a ≢ fresh
      → a ≢ q.tail
      → q'.heap a ≡ q.heap a
  unfolding push
  push-kept fresh x {q} {q'} {cs} v free e a ne ne' =
      let dummy_at = Linked-tail q.heap q.tail cs v.linked in
      let e' : push fresh x q
          ≡ some (record q { heap = extend q.heap fresh q.tail x; tail = fresh }) =
        rw (==_of_ne fresh q.tail (λ k. ground (arith, ap q.heap k)), dummy_at) refl in
      ap (λ o. heap_in q.heap o a) (sym e ∙ e')
      ∙ extend-other q.heap fresh q.tail a x (λ k. ne' (sym k)) ne

  -- The node at `p`, with the value `x`, has left the chain and is destroyed.
  abbrev left : Heap A → Ptr → A → Heap A
  left h p x = update h p (some (record { value = some x; next = null }))

  abbrev popped : Queue A → Ptr → A → Cells A → Queue A
  popped q p x cs = record q { heap = update (left q.heap p x) p none; head = first q.tail cs }

  popped-Holds :
      {q : Queue A} {p : Ptr} {x : A} {cs : Cells A}
      → Holds q ((p, x) ∷ cs)
      → Holds (popped q p x cs) cs
  popped-Holds {q} {p} {x} {cs} v = record {
    head_eq = refl;
    linked =
        Linked-update (left q.heap p x) q.tail p none cs v.distinct.0
          (Linked-update q.heap q.tail p _ cs v.distinct.0 v.linked.1);
    distinct = v.distinct.1;
    not_null = v.not_null.1;
  }

  -- What a pop that takes the node at `p` leaves: that node is destroyed, all else stands.
  pub record Took (q : Queue A) (p : Ptr) (cs : Cells A) (q' : Queue A) : Type ℓ where
    pub holds : Holds q' cs
    pub tail_eq : q'.tail ≡ q.tail
    pub freed : q'.heap p ≡ none
    pub kept : (a : Ptr) → a ≢ p → q'.heap a ≡ q.heap a

  popped-Took :
      {q : Queue A} {p : Ptr} {x : A} {cs : Cells A}
      → Holds q ((p, x) ∷ cs)
      → Took q p cs (popped q p x cs)
  popped-Took {q} {p} {x} {cs} v = record {
    holds = popped-Holds v;
    tail_eq = refl;
    freed = update_self (left q.heap p x) p none;
    kept = λ a ne.
        update-ne (left q.heap p x) p a none (λ e. ne (sym e))
        ∙ update-ne q.heap p a _ (λ e. ne (sym e));
  }

  module _ {q : Queue A} {p : Ptr} {x : A} {cs : Cells A} (v : Holds q ((p, x) ∷ cs)) where
    head_ne : (p == q.tail) ≡ false
    head_ne = ==_of_ne p q.tail (λ e. tail-ne p q.tail cs v.distinct.0 (sym e))

    -- For a queue that holds a value, the `try_pop` that returns a pointer does not fault, and gives the
    -- oldest value; the others are left, its node is destroyed, and all other nodes stand.
    pub try_pop_refines : (q' : Queue A) × (try_pop q ≡ some (some x, q')) × Took q p cs q'
    unfolding try_pop
    try_pop_refines =
        (popped q p x cs, rw (v.head_eq, head_ne, v.linked.0, ==-refl p), popped-Took v)

    -- For a queue that holds a value, the `try_pop` that assigns does not fault, and gives the oldest
    -- value; the others are left, its node is destroyed, and all other nodes stand.
    pub try_pop_into_refines :
        (q' : Queue A) × (try_pop_into q ≡ some (some x, q')) × Took q p cs q'
    unfolding try_pop_into
    try_pop_into_refines = (popped q p x cs, rw (v.head_eq, head_ne, v.linked.0), popped-Took v)

    pub take_head_refines : (q' : Queue A) × (take_head q ≡ some (some x, q')) × Took q p cs q'
    unfolding take_head
    take_head_refines = (popped q p x cs, rw (v.head_eq, v.linked.0, ==-refl p), popped-Took v)

    pub is_empty-cons : is_empty q ≡ false
    unfolding is_empty
    is_empty-cons = rw (v.head_eq, head_ne)

  -- For a queue that holds no value both forms of `try_pop` give none and change nothing, and `empty`
  -- says true.
  pub try_pop_empty :
      {q : Queue A}
      → Holds q []
      → (try_pop q ≡ some (none, q)) × (try_pop_into q ≡ some (none, q)) × (is_empty q ≡ true)
  unfolding try_pop try_pop_into is_empty
  try_pop_empty {q} v = (
    rw (v.head_eq, ==-refl q.tail),
    rw (v.head_eq, ==-refl q.tail),
    rw (v.head_eq, ==-refl q.tail),
  )

  -- What the destructor leaves: no node of the chain, and all else as it was.
  pub record Destroyed (h : Heap A) (t : Ptr) (cs : Cells A) (h' : Heap A) : Type ℓ where
    pub cells_freed : All (λ c. h' c.0 ≡ none) cs
    pub dummy_freed : h' t ≡ none
    pub kept : (a : Ptr) → Avoids a t cs → h' a ≡ h a

  destroy_chain :
      (fuel : ℕ) (h : Heap A) (t : Ptr) (cs : Cells A)
      → suc (length cs) < fuel
      → Linked h t cs
      → Distinct t cs
      → Avoids null t cs
      → (h' : Heap A) × (destroy fuel (first t cs) h ≡ some h') × Destroyed h t cs h'
  unfolding destroy
  destroy_chain zero h t cs enough l d n = absurd (omega arith)
  destroy_chain (suc zero) h t cs enough l d n = absurd (omega arith)
  destroy_chain (suc (suc fuel)) h t [] enough l d n = (
    update h t none,
    rw (==_of_ne t null n, l),
    record {
      cells_freed = tt;
      dummy_freed = update_self h t none;
      kept = λ a u. update-ne h t a none u;
    },
  )
  destroy_chain (suc (suc fuel)) h t ((p, x) ∷ cs) enough l d n =
      let (h', e, r) =
        destroy_chain (suc fuel) (update h p none) t cs (omega arith)
          (Linked-update h t p none cs d.0 l.1) d.1 n.1 in
      (
        h',
        rw (==_of_ne p null n.0, l.0) e,
        record {
          cells_freed = (r.kept p d.0 ∙ update_self h p none, r.cells_freed);
          dummy_freed = r.dummy_freed;
          kept = λ a u. r.kept a u.1 ∙ update-ne h p a none u.0;
        },
      )

  -- For a well-formed queue and fuel for more steps than there are nodes the destructor ends without a
  -- fault: the nodes of the queue and the dummy node are destroyed, and all else stands.
  pub destroy_lem :
      (fuel : ℕ) {q : Queue A} {cs : Cells A}
      → Holds q cs
      → suc (length cs) < fuel
      → (h' : Heap A) × (destroy fuel q.head q.heap ≡ some h') × Destroyed q.heap q.tail cs h'
  destroy_lem fuel {q} {cs} v enough =
      rw v.head_eq (destroy_chain fuel q.heap q.tail cs enough v.linked v.distinct v.not_null)
