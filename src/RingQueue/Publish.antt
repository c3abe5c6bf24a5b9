-- ===== src/RingQueue/Publish.antt =====
-- A successful push of LockFreeQueue.h: the node of the next ticket is filled, the others are kept.
use cpp_concurrency_data_str.Base.{
  ℕ, ◌+◌, ◌%◌, ◌≤◌, ◌<◌, ◌≡◌, refl, ◌∙◌, ap, sym, some, List, [], ◌∷◌, ◌++◌, arith, length,
  get_elem?, length-snoc, get_elem?-snoc_inv, ap₂, update, update_self, update-ne, inl, inr, subst,
}
use native.Mathlib.Nat.{mod-add-mod}
use cpp_concurrency_data_str.RingQueue.{word, Node, RingQueue, index, publish}
use cpp_concurrency_data_str.RingQueue.Holds.{IsFull, IsFree, Holds, index-eq, node_ne}

module _ {ℓ} {A : Type ℓ} {q : RingQueue A} {h : ℕ} {xs : List A} (v : Holds q h xs) (x : A)
    (room : length xs < q.capacity) where
  -- the ticket of the push, its place and its filled node
  abbrev ticket : ℕ
  ticket = h + length xs

  abbrev place : ℕ
  place = ticket % q.capacity

  abbrev filled : Node A
  filled = record (q.nodes place) { item = some x; head = ticket % word }

  abbrev nodes' : ℕ → Node A
  nodes' = update q.nodes place filled

  filled-IsFull : IsFull (nodes' place) ticket x
  filled-IsFull =
      rw (update_self q.nodes place filled)
        (record { item = refl; head = refl; tail = (v.free (length xs) (omega arith) room).tail })

  kept : (i : ℕ) → i < length xs → nodes' ((h + i) % q.capacity) ≡ q.nodes ((h + i) % q.capacity)
  kept i lt = update-ne q.nodes place _ filled (node_ne v i (length xs) lt (omega arith))

  kept_above :
      (i : ℕ)
      → length xs < i
      → i < q.capacity
      → nodes' ((h + i) % q.capacity) ≡ q.nodes ((h + i) % q.capacity)
  kept_above i lt near =
      update-ne q.nodes place _ filled (λ e. node_ne v (length xs) i lt (omega arith) (sym e))

  full :
      (i : ℕ) (y : A)
      → get_elem? (xs ++ x ∷ []) i ≡ some y
      → IsFull (nodes' ((h + i) % q.capacity)) (h + i) y
  full i y e = elim (get_elem?-snoc_inv xs x i e) [
    | inl (lt, old) ↦ rw (kept i lt) (v.full i y old)
    | inr (last, same) ↦
        subst (λ j. IsFull (nodes' ((h + j) % q.capacity)) (h + j) y) (sym last)
          (subst (IsFull (nodes' place) ticket) same filled-IsFull)
  ]

  free :
      (i : ℕ)
      → length (xs ++ x ∷ []) ≤ i
      → i < q.capacity
      → IsFree (nodes' ((h + i) % q.capacity)) (h + i)
  free i above near =
      rw (kept_above i (omega (arith, length-snoc xs x)) near)
        (v.free i (omega (arith, length-snoc xs x)) near)

  index-tail : index q q.tail ≡ place
  index-tail = ap (index q) v.tail_eq ∙ index-eq v ticket

  pushed : RingQueue A
  pushed = publish (record q { tail = (q.tail + 1) % word }) x q.tail

  nodes-pushed : pushed.nodes ≡ nodes'
  unfolding pushed publish
  nodes-pushed =
      ap₂ (λ i t. update q.nodes i (record (q.nodes i) { item = some x; head = t })) index-tail
        v.tail_eq

  tail-pushed : pushed.tail ≡ (h + length (xs ++ x ∷ [])) % word
  unfolding pushed publish
  tail-pushed =
      ap (λ t. (t + 1) % word) v.tail_eq
      ∙ mod-add-mod ticket word 1
      ∙ ap (λ t. t % word) (omega (arith, length-snoc xs x))

  -- The queue after a successful push holds the value behind the others.
  pub publish-Holds :
      Holds (publish (record q { tail = (q.tail + 1) % word }) x q.tail) h (xs ++ x ∷ [])
  unfolding pushed publish
  publish-Holds = record {
    log = v.log;
    blocks = v.blocks;
    mask_eq = v.mask_eq;
    capacity_eq = v.capacity_eq;
    divides = v.divides;
    blocks_gt = v.blocks_gt;
    head_eq = v.head_eq;
    tail_eq = tail-pushed;
    fits = omega (arith, length-snoc xs x);
    full = λ i y e.
        subst (λ f. IsFull (f ((h + i) % q.capacity)) (h + i) y) (sym nodes-pushed) (full i y e);
    free = λ i a b.
        subst (λ f. IsFree (f ((h + i) % q.capacity)) (h + i)) (sym nodes-pushed) (free i a b);
  }
