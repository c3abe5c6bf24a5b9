-- ===== src/ArrayQueue/Locked.antt =====
-- Push_Lock and Pop_Lock of other/LockFreeArrayQueue.h are a bounded queue, at a size that is a power of two.
use cpp_concurrency_data_str.Base.{
  ℕ, suc, ◌+◌, ◌%◌, ◌<◌, ◌≡◌, refl, ◌∙◌, ap, sym, subst, some, List, [], ◌∷◌, ◌++◌, arith, length,
  length-snoc, true, false, leb, ltb, update, Bool-cases, inl, inr,
}
use cpp_concurrency_data_str.Base.Int.{ℤ, pos, ◌+ℤ◌, pos-add_one}
use cpp_concurrency_data_str.Fifo
use cpp_concurrency_data_str.ArrayQueue.{ArrayQueue, trans_index, push_lock, pop_lock}
use cpp_concurrency_data_str.ArrayQueue.Holds.{
  Stores, HasItem, AnyItem, trans_index-eq, is_full_lem, is_empty_lem,
}
use cpp_concurrency_data_str.Window.{IsWindow, put-IsWindow}

module _ {ℓ} {A : Type ℓ} where
  -- Writing the slot of the write index and counting it puts a value behind the others.
  pub put-Stores :
      {q : ArrayQueue A} {r : ℕ} {xs : List A} (v : Stores q r xs) (active : ℕ → ℤ) (x : A)
      → length xs < q.max_size
      → Stores
          (record q {
            elements = update q.elements (trans_index q.max_size q.write_index) (some x);
            active = active;
            write_index = q.write_index +ℤ pos 1;
          })
          r
          (xs ++ x ∷ [])
  put-Stores {q} {r} {xs} v active x room = record {
    log = v.log;
    size_eq = v.size_eq;
    read_eq = v.read_eq;
    write_eq =
        ap (λ w. w +ℤ pos 1) v.write_eq ∙ pos-add_one _ ∙ ap pos (omega (arith, length-snoc xs x));
    items =
        subst
          (λ j. IsWindow HasItem AnyItem (update q.elements j (some x)) q.max_size r (xs ++ x ∷ []))
          (sym (ap (trans_index q.max_size) v.write_eq ∙ trans_index-eq v (r + length xs)))
          (put-IsWindow HasItem AnyItem x (some x) v.items room refl);
  }

  -- Counting the read index takes the oldest value away.
  pub take-Stores :
      {q : ArrayQueue A} {r : ℕ} {x : A} {xs : List A} (v : Stores q r (x ∷ xs)) (active : ℕ → ℤ)
      → (q.elements (trans_index q.max_size q.read_index) ≡ some x)
        × Stores (record q { active = active; read_index = q.read_index +ℤ pos 1 }) (r + 1) xs
  take-Stores {q} {r} {x} {xs} v active =
      let at : trans_index q.max_size q.read_index ≡ r % q.max_size =
        ap (trans_index q.max_size) v.read_eq ∙ trans_index-eq v r in
      (
        ap q.elements at
            ∙ subst (λ k. q.elements (k % q.max_size) ≡ some x) (omega arith)
                (v.items.full 0 x refl),
        record {
          log = v.log;
          size_eq = v.size_eq;
          read_eq = ap (λ w. w +ℤ pos 1) v.read_eq ∙ pos-add_one _ ∙ ap pos (omega arith);
          write_eq = v.write_eq ∙ ap pos (omega arith);
          items = record {
            fits = omega (arith, v.items.fits);
            full = λ i y e.
                subst (λ k. q.elements (k % q.max_size) ≡ some y) (omega arith)
                  (v.items.full (suc i) y e);
            free = λ i le lt. tt;
          };
        },
      )

  -- For a queue that holds `xs`, Push_Lock gives false and keeps the values at the bound, and below it
  -- gives true and puts the value behind the others; size and mode stay.
  pub push_lock_refines :
      {q : ArrayQueue A} {r : ℕ} {xs : List A} (x : A)
      → Stores q r xs
      → let (done, ys) = Fifo.enqueue q.max_size xs x in
        ((push_lock x q).0 ≡ done)
        × Stores (push_lock x q).1 r ys
        × ((push_lock x q).1.max_size ≡ q.max_size)
        × ((push_lock x q).1.cas ≡ q.cas)
  unfolding push_lock
  push_lock_refines {q} {r} {xs} x v = elim (Bool-cases (ltb (length xs) q.max_size)) [
    | inl room ↦
        let below : leb q.max_size (length xs) ≡ false = ground arith in
        rw (is_full_lem v, below, room) (refl, put-Stores v q.active x (ground arith), refl, refl)
    | inr full ↦
        let at_bound : leb q.max_size (length xs) ≡ true = ground arith in
        rw (is_full_lem v, at_bound, full) (refl, v, refl, refl)
  ]

  -- For a queue that holds `xs`, Pop_Lock gives true and the oldest value and leaves the others, or
  -- false and no value if there is none; size and mode stay.
  pub pop_lock_refines :
      {q : ArrayQueue A} {r : ℕ} {xs : List A}
      → Stores q r xs
      → let (done, out, ys) = Fifo.dequeue xs in
        (r' : ℕ) × ((pop_lock q).0 ≡ done)
        × ((pop_lock q).1 ≡ out)
        × Stores (pop_lock q).2 r' ys
        × ((pop_lock q).2.max_size ≡ q.max_size)
        × ((pop_lock q).2.cas ≡ q.cas)
  unfolding pop_lock
  pop_lock_refines {q} {r} {xs = []} v = rw (is_empty_lem v) (r, refl, refl, v, refl, refl)
  pop_lock_refines {q} {r} {xs = x ∷ xs} v =
      let (e, w) = take-Stores v q.active in
      let below : leb (length (x ∷ xs)) 0 ≡ false = ground arith in
      rw (is_empty_lem v, below) (r + 1, refl, e, w, refl, refl)
