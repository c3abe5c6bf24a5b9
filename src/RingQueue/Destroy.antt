-- ===== src/RingQueue/Destroy.antt =====
-- The destructor of LockFreeQueue.h, up to the release of the array.
use native.Mathlib.Nat.{mod-add-mod, add-zero}
use cpp_concurrency_data_str.Base.{
  ℕ, zero, suc, ◌+◌, ◌%◌, ◌≤◌, ◌<◌, ◌≡◌, ◌≢◌, refl, ◌∙◌, ap, sym, Option, none, some, List, length,
  get_elem?_of_lt, ◌==◌, ==_of_ne, ==_iff, if◌then◌else◌, update, update_self, update-ne, arith,
  ◌>>=◌,
}
use cpp_concurrency_data_str.Base.Bits.{add-mod-ne}
use cpp_concurrency_data_str.RingQueue.{word, Node, RingQueue, node, set_node}
use cpp_concurrency_data_str.RingQueue.Holds.{Holds, index-eq, capacity_lt, ticket_ne}

module _ {ℓ} {A : Type ℓ} where
  -- `none` is the destruction of raw memory.
  unfoldable pub destroy_item : ℕ → RingQueue A → Option (RingQueue A)
  destroy_item i q = do x ← (node q i).item; some (set_node q i (record (node q i) { item = none }))

  -- The loop, on fuel; `none` is also a loop that has not ended when the fuel is used up.
  unfoldable pub destroy_from : ℕ → ℕ → RingQueue A → Option (RingQueue A)
  destroy_from zero i q = none
  destroy_from (suc fuel) i q =
      let rest = (do q' ← destroy_item i q; destroy_from fuel ((i + 1) % word) q') in
      if i == q.tail then some q else rest

  unfoldable pub destroy : ℕ → RingQueue A → Option (RingQueue A)
  destroy fuel q = destroy_from fuel q.head q

  module _ {q : RingQueue A} {h : ℕ} {xs : List A} (v : Holds q h xs) where
    abbrev pub with_nodes : (ℕ → Node A) → RingQueue A
    with_nodes f = record q { nodes = f }

    -- The `n` nodes from ticket `k` on hold values.
    abbrev HasItems : (ℕ → Node A) → ℕ → ℕ → Type ℓ
    HasItems f k n = (i : ℕ) → i < n → (x : A) × ((f ((k + i) % q.capacity)).item ≡ some x)

    -- They have been destroyed, and the other nodes stand.
    pub record Emptied (f f' : ℕ → Node A) (k n : ℕ) : Type ℓ where
      pub emptied : (i : ℕ) → i < n → (f' ((k + i) % q.capacity)).item ≡ none
      pub kept : (j : ℕ) → ((i : ℕ) → i < n → j ≢ (k + i) % q.capacity) → f' j ≡ f j

    next_ne : (k i m : ℕ) → i < m → m < q.capacity → (k + 1 + i) % q.capacity ≢ k % q.capacity
    next_ne k i m lt fits e =
        add-mod-ne k (1 + i) q.capacity (omega arith) (omega arith)
          (ap (λ t. t % q.capacity) (omega arith) ∙ e)

    module _ (f f' : ℕ → Node A) (k m : ℕ) (w : Node A) (gone : w.item ≡ none)
        (fits : m < q.capacity) (u : Emptied (update f (k % q.capacity) w) f' (k + 1) m) where
      emptied_at : (i : ℕ) → i < suc m → (f' ((k + i) % q.capacity)).item ≡ none
      emptied_at zero le =
          ap (λ t. (f' (t % q.capacity)).item) (add-zero k)
          ∙ ap (λ v. v.item) (u.kept (k % q.capacity) (λ i lt e. next_ne k i m lt fits (sym e)))
          ∙ ap (λ v. v.item) (update_self f (k % q.capacity) w)
          ∙ gone
      emptied_at (suc i) le =
          ap (λ t. (f' (t % q.capacity)).item) (omega arith) ∙ u.emptied i (omega arith)

      Emptied-first : Emptied f f' k (suc m)
      Emptied-first = record {
        emptied = emptied_at;
        kept = λ j un.
            u.kept j
              (λ i lt e. un (suc i) (omega arith) (e ∙ ap (λ t. t % q.capacity) (omega arith)))
            ∙ update-ne f (k % q.capacity) j w
                (λ e. un 0 (omega arith) (sym e ∙ ap (λ t. t % q.capacity) (sym (add-zero k))));
      }

    destroy_from-Emptied :
        (fuel n k : ℕ) (f : ℕ → Node A)
        → n < fuel
        → n ≤ q.capacity
        → q.tail ≡ (k + n) % word
        → HasItems f k n
        → (f' : ℕ → Node A) × (destroy_from fuel (k % word) (with_nodes f) ≡ some (with_nodes f'))
          × Emptied f f' k n
    unfolding destroy_from destroy_item
    destroy_from-Emptied zero n k f lt fits tail items = elim lt [ ]
    destroy_from-Emptied (suc fuel) zero k f lt fits tail items = (
      f,
      rw ((==_iff (k % word) q.tail).1 (ap (λ t. t % word) (sym (add-zero k)) ∙ sym tail)) refl,
      record { emptied = λ i le. elim le [ ]; kept = λ j un. refl },
    )
    destroy_from-Emptied (suc fuel) (suc m) k f lt fits tail items =
        let more : (k % word) ≢ q.tail = λ e.
          ticket_ne v k (k + suc m) (omega arith) (omega (arith, capacity_lt v))
            (sym tail ∙ sym e) in
        let place = k % q.capacity in
        let (x, item) = items 0 (omega arith) in
        let here : (f place).item ≡ some x =
          ap (λ t. (f (t % q.capacity)).item) (sym (add-zero k)) ∙ item in
        let w : Node A = record (f place) { item = none } in
        let f1 = update f place w in
        let later : HasItems f1 (k + 1) m = λ i le.
          let (y, at) = items (suc i) (omega arith) in
          (
            y,
            ap (λ u. u.item)
                  (update-ne f place ((k + 1 + i) % q.capacity) w
                    (λ e. next_ne k i m le (omega arith) (sym e)))
                ∙ ap (λ t. (f (t % q.capacity)).item) (omega arith)
                ∙ at,
          ) in
        let (f2, eq, u) =
          destroy_from-Emptied fuel m (k + 1) f1 (omega arith) (omega arith)
            (tail ∙ ap (λ t. t % word) (omega arith)) later in
        (
          f2,
          rw (==_of_ne _ _ more, index-eq v k, here, mod-add-mod k word 1, eq) refl,
          Emptied-first f f2 k m w refl (omega arith) u,
        )

    -- On a queue that holds values, the destructor ends, with more fuel than there are values, and has
    -- destroyed each of them once, and never raw memory; no other node is changed.
    pub destroy-Emptied :
        (fuel : ℕ)
        → length xs < fuel
        → (f' : ℕ → Node A) × (destroy fuel q ≡ some (with_nodes f'))
          × Emptied q.nodes f' h (length xs)
    unfolding destroy
    destroy-Emptied fuel enough =
        let (f', eq, u) =
          destroy_from-Emptied fuel (length xs) h q.nodes enough v.fits v.tail_eq
            (λ i lt. let (x, e) = get_elem?_of_lt xs i lt in (x, (v.full i x e).item)) in
        (f', ap (λ i. destroy_from fuel i q) v.head_eq ∙ eq, u)
