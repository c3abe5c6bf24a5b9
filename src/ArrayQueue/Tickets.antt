-- ===== src/ArrayQueue/Tickets.antt =====
-- Push_CAS and Pop_CAS of other/LockFreeArrayQueue.h, each run alone, are a bounded queue, at a size that is
-- a power of two.
use cpp_concurrency_data_str.Base.{
  ℕ, ◌+◌, ◌%◌, ◌<◌, ◌≡◌, refl, ◌∙◌, ap, sym, subst, some, List, [], ◌∷◌, ◌++◌, arith, length, true,
  false, leb, ltb, update, Bool-cases, inl, inr,
}
use cpp_concurrency_data_str.Base.Int.{pos, ◌+ℤ◌, ◌-ℤ◌, eq_ℤ-refl, pos-add_one}
use cpp_concurrency_data_str.Fifo
use cpp_concurrency_data_str.ArrayQueue.{ArrayQueue, trans_index}
use cpp_concurrency_data_str.ArrayQueue.Cas.{
  loads_write, pushed, popped, compare_active, push_step, pop_step, push_alone, pop_alone,
}
use cpp_concurrency_data_str.ArrayQueue.Holds.{
  Holds, HasMark, HasFreeMark, full_mark, trans_index-eq, is_full_lem, is_empty_lem,
  compare_active_lem, pop_mark,
}
use cpp_concurrency_data_str.ArrayQueue.Locked.{put-Stores, take-Stores}
use cpp_concurrency_data_str.Window.{IsWindow, put-IsWindow, take-IsWindow}

module _ {ℓ} {A : Type ℓ} where
  module _ {q : ArrayQueue A} {r : ℕ} {xs : List A} (v : Holds q r xs) where
    -- The slot of the next ticket, and its mark.
    write_slot : trans_index q.max_size q.write_index ≡ (r + length xs) % q.max_size
    write_slot =
        ap (trans_index q.max_size) v.stores.write_eq ∙ trans_index-eq v.stores (r + length xs)

    read_slot : trans_index q.max_size q.read_index ≡ r % q.max_size
    read_slot = ap (trans_index q.max_size) v.stores.read_eq ∙ trans_index-eq v.stores r

    may_write :
        length xs < q.max_size
        → q.active (trans_index q.max_size q.write_index) ≡ compare_active q.max_size q.write_index
    may_write room =
        ap q.active write_slot
        ∙ v.marks.free (length xs) (omega arith) room
        ∙ sym (compare_active_lem q.max_size (r + length xs))
        ∙ ap (compare_active q.max_size) (sym v.stores.write_eq)

    abbrev after_push : A → ArrayQueue A
    after_push x = record q {
      elements = update q.elements (trans_index q.max_size q.write_index) (some x);
      active = update q.active (trans_index q.max_size q.write_index) (q.write_index +ℤ pos 1);
      write_index = q.write_index +ℤ pos 1;
    }

    push_alone-room :
        (x : A)
        → length xs < q.max_size
        → leb q.max_size (length xs) ≡ false
        → push_alone 6 x loads_write q ≡ (pushed true, after_push x)
    unfolding push_alone push_step
    push_alone-room x room below =
        rw
          (
            is_full_lem v.stores,
            below,
            eq_ℤ-refl q.write_index,
            may_write room,
            eq_ℤ-refl (compare_active q.max_size q.write_index),
          )
          refl

    after_push-Holds : (x : A) → length xs < q.max_size → Holds (after_push x) r (xs ++ x ∷ [])
    after_push-Holds x room = record {
      stores = put-Stores v.stores _ x room;
      marks =
          subst
            (λ j.
              IsWindow HasMark (HasFreeMark q.max_size) (update q.active j (q.write_index +ℤ pos 1))
                q.max_size r (xs ++ x ∷ []))
            (sym write_slot)
            (put-IsWindow HasMark (HasFreeMark q.max_size) x (q.write_index +ℤ pos 1) v.marks room
              (ap (λ w. w +ℤ pos 1) v.stores.write_eq ∙ pos-add_one _));
    }

    -- For a queue that holds `xs`, a Push_CAS that runs alone returns within six steps: false and the
    -- values are kept at the bound, and below it true and the value is behind the others; size and
    -- mode stay.
    pub push_alone_refines :
        (x : A)
        → let (done, ys) = Fifo.enqueue q.max_size xs x in
          (q' : ArrayQueue A) × (push_alone 6 x loads_write q ≡ (pushed done, q'))
          × Holds q' r ys
          × (q'.max_size ≡ q.max_size)
          × (q'.cas ≡ q.cas)
    unfolding push_alone push_step
    push_alone_refines x = elim (Bool-cases (ltb (length xs) q.max_size)) [
      | inl room ↦ rw room (
        after_push x,
        push_alone-room x (ground arith) (ground arith),
        after_push-Holds x (ground arith),
        refl,
        refl,
      )
      | inr full ↦
          let at_bound : leb q.max_size (length xs) ≡ true = ground arith in
          rw full (q, rw (is_full_lem v.stores, at_bound) refl, v, refl, refl)
    ]

  module _ {q : ArrayQueue A} {r : ℕ} {x : A} {xs : List A} (v : Holds q r (x ∷ xs)) where
    abbrev after_pop : ArrayQueue A
    after_pop = record q {
      active =
          update q.active (trans_index q.max_size q.read_index) (pos 0 -ℤ (q.read_index +ℤ pos 1));
      read_index = q.read_index +ℤ pos 1;
    }

    may_read : q.active (trans_index q.max_size q.read_index) ≡ q.read_index +ℤ pos 1
    may_read =
        ap q.active (read_slot v)
        ∙ subst (λ k. q.active (k % q.max_size) ≡ full_mark r) (omega arith)
            (subst (λ k. q.active ((r + 0) % q.max_size) ≡ full_mark k) (omega arith)
              (v.marks.full 0 x refl))
        ∙ sym (pos-add_one r)
        ∙ ap (λ k. k +ℤ pos 1) (sym v.stores.read_eq)

    pop_alone-some : pop_alone 6 loads_write q ≡ (popped true (some x), after_pop)
    unfolding pop_alone pop_step
    pop_alone-some =
        let below : leb (length (x ∷ xs)) 0 ≡ false = ground arith in
        rw
          (
            is_empty_lem v.stores,
            below,
            eq_ℤ-refl q.read_index,
            may_read,
            eq_ℤ-refl (q.read_index +ℤ pos 1),
          )
          (ap (λ o. (popped true o, after_pop)) (take-Stores v.stores q.active).0)

    after_pop-Holds : Holds after_pop (r + 1) xs
    after_pop-Holds = record {
      stores = (take-Stores v.stores _).1;
      marks =
          subst
            (λ j.
              IsWindow HasMark (HasFreeMark q.max_size)
                (update q.active j (pos 0 -ℤ (q.read_index +ℤ pos 1))) q.max_size (r + 1) xs)
            (sym (read_slot v))
            (take-IsWindow HasMark (HasFreeMark q.max_size) (pos 0 -ℤ (q.read_index +ℤ pos 1))
              v.marks (ap (λ k. pos 0 -ℤ (k +ℤ pos 1)) v.stores.read_eq ∙ pop_mark q.max_size r));
    }

  -- For a queue that holds `xs`, a Pop_CAS that runs alone returns within six steps: true and the oldest
  -- value, and the queue holds the others, or false and no value if there is none; size and mode stay.
  pub pop_alone_refines :
      {q : ArrayQueue A} {r : ℕ} {xs : List A}
      → Holds q r xs
      → let (done, out, ys) = Fifo.dequeue xs in
        (q' : ArrayQueue A) × (r' : ℕ) × (pop_alone 6 loads_write q ≡ (popped done out, q'))
        × Holds q' r' ys
        × (q'.max_size ≡ q.max_size)
        × (q'.cas ≡ q.cas)
  unfolding pop_alone pop_step
  pop_alone_refines {q} {r} {xs = []} v = (q, r, rw (is_empty_lem v.stores) refl, v, refl, refl)
  pop_alone_refines {q} {r} {xs = x ∷ xs} v =
      (after_pop v, r + 1, pop_alone-some v, after_pop-Holds v, refl, refl)
