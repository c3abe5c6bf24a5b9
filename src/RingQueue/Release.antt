-- ===== src/RingQueue/Release.antt =====
-- A successful pop of LockFreeQueue.h: the node of the oldest ticket is freed, the others are kept.
use cpp_concurrency_data_str.Base.{lt_of_get_elem?}
use native.Mathlib.Nat.{mod-add-mod, add-mod_right, add-zero}
use cpp_concurrency_data_str.Base.{
  ℕ, suc, ◌+◌, ◌%◌, ◌≤◌, ◌<◌, ◌≡◌, refl, ◌∙◌, ap, ap₂, sym, some, none, List, ◌∷◌, arith, length,
  get_elem?, dec_lt, update, update_self, update-ne, subst,
}
use cpp_concurrency_data_str.RingQueue.{word, Node, RingQueue, index, release}
use cpp_concurrency_data_str.RingQueue.Holds.{
  IsFull, IsFree, Holds, index-eq, capacity_pos, capacity_lt, node_ne, ticket_ne,
}

module _ {ℓ} {A : Type ℓ} {q : RingQueue A} {h : ℕ} {x : A} {xs : List A}
    (v : Holds q h (x ∷ xs)) where
  abbrev place : ℕ
  place = h % q.capacity

  abbrev freed : Node A
  freed = record (q.nodes place) { item = none; tail = (h % word + q.capacity) % word }

  abbrev nodes' : ℕ → Node A
  nodes' = update q.nodes place freed

  -- The oldest value stands at the place of the oldest ticket.
  pub oldest : IsFull (q.nodes place) h x
  oldest = subst (λ k. IsFull (q.nodes (k % q.capacity)) k x) (add-zero h) (v.full 0 x refl)

  shift : (i : ℕ) → h + suc i ≡ h + 1 + i
  shift i = omega arith

  kept :
      (i : ℕ)
      → suc i < q.capacity
      → nodes' ((h + suc i) % q.capacity) ≡ q.nodes ((h + suc i) % q.capacity)
  kept i near = update-ne q.nodes place _ freed (λ e.
      node_ne v 0 (suc i) (omega arith) (omega arith)
        (sym e ∙ ap (λ k. k % q.capacity) (sym (add-zero h))))

  full :
      (i : ℕ) (y : A)
      → get_elem? xs i ≡ some y
      → IsFull (nodes' ((h + 1 + i) % q.capacity)) (h + 1 + i) y
  full i y e =
      subst (λ k. IsFull (nodes' (k % q.capacity)) k y) (shift i)
        (rw (kept i (omega (arith, lt_of_get_elem? xs i e, v.fits))) (v.full (suc i) y e))

  freed-IsFree : IsFree (nodes' place) (h + q.capacity)
  freed-IsFree = rw (update_self q.nodes place freed) (record {
    tail = mod-add-mod h word q.capacity;
    head = λ e.
        ticket_ne v h (h + q.capacity) (omega (arith, capacity_pos v))
          (omega (arith, capacity_lt v, capacity_pos v)) (sym e ∙ oldest.head);
  })

  free :
      (i : ℕ)
      → length xs ≤ i
      → i < q.capacity
      → IsFree (nodes' ((h + 1 + i) % q.capacity)) (h + 1 + i)
  free i above near = elim (dec_lt (suc i) q.capacity) [
    | yes lt ↦
        subst (λ k. IsFree (nodes' (k % q.capacity)) k) (shift i)
          (rw (kept i lt) (v.free (suc i) (omega arith) lt))
    | no ge ↦
        let last : h + q.capacity ≡ h + 1 + i = omega arith in
        subst (λ k. IsFree (nodes' (k % q.capacity)) k) last
          (rw (add-mod_right h q.capacity) freed-IsFree)
  ]

  index-head : index q q.head ≡ place
  index-head = ap (index q) v.head_eq ∙ index-eq v h

  popped : RingQueue A
  popped = release (record q { head = (q.head + 1) % word }) q.head

  nodes-popped : popped.nodes ≡ nodes'
  unfolding popped release
  nodes-popped =
      ap₂
        (λ i t.
          update q.nodes i (record (q.nodes i) { item = none; tail = (t + q.capacity) % word }))
        index-head v.head_eq

  -- The queue after a successful pop holds the values but the oldest.
  pub release-Holds : Holds (release (record q { head = (q.head + 1) % word }) q.head) (h + 1) xs
  unfolding popped release
  release-Holds = record {
    log = v.log;
    blocks = v.blocks;
    mask_eq = v.mask_eq;
    capacity_eq = v.capacity_eq;
    divides = v.divides;
    blocks_gt = v.blocks_gt;
    head_eq = ap (λ t. (t + 1) % word) v.head_eq ∙ mod-add-mod h word 1;
    tail_eq = v.tail_eq ∙ ap (λ t. t % word) (omega arith);
    fits = omega (arith, v.fits);
    full = λ i y e.
        subst (λ f. IsFull (f ((h + 1 + i) % q.capacity)) (h + 1 + i) y) (sym nodes-popped)
          (full i y e);
    free = λ i a b.
        subst (λ f. IsFree (f ((h + 1 + i) % q.capacity)) (h + 1 + i)) (sym nodes-popped)
          (free i a b);
  }
