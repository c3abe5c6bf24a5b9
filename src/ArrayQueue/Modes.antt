-- ===== src/ArrayQueue/Modes.antt =====
-- The queue of other/LockFreeArrayQueue.h from `Init` on, in either mode, called by one thread at a time.
use native.Mathlib.Nat.{one-le-pow, pow-suc}
use cpp_concurrency_data_str.Base.{
  ℕ, suc, ◌+◌, ◌^◌, ◌≡◌, refl, ap₂, ◌∙◌, ap, some, none, List, [], ◌∷◌, arith, Bool, true, false,
  leb, if◌then◌else◌, Bool-cases, inl, inr,
}
use cpp_concurrency_data_str.Base.Int.{pos, ltb_ℤ}
use cpp_concurrency_data_str.Fifo
use cpp_concurrency_data_str.Fifo.{Op, put, take, Reply}
use cpp_concurrency_data_str.ArrayQueue.{ArrayQueue, init, push_lock, pop_lock}
use cpp_concurrency_data_str.ArrayQueue.Cas.{
  loads_write, push_alone, pop_alone, push, pop, push_result, pop_result, run,
}
use cpp_concurrency_data_str.ArrayQueue.Holds.{Stores, Holds, HasMark, HasFreeMark}
use cpp_concurrency_data_str.ArrayQueue.Locked.{push_lock_refines, pop_lock_refines}
use cpp_concurrency_data_str.ArrayQueue.Tickets.{push_alone_refines, pop_alone_refines}
use cpp_concurrency_data_str.Window.{IsWindow}

module _ {ℓ} {A : Type ℓ} where
  -- A queue that can be called: the marks are kept in CAS mode only.
  pub record Serves (q : ArrayQueue A) (r : ℕ) (xs : List A) : Type ℓ where
    pub stores : Stores q r xs
    pub marks : q.cas ≡ true → Holds q r xs

  -- `Init` with a size of 2 ^ (k + 1), where both arrays are given and the lock's `Init` is not
  -- negative, returns 0 and makes an empty queue of that size in the mode asked for.
  pub init-Serves :
      (k : ℕ) (lock : ℕ) (cas : Bool) (q : ArrayQueue A)
      → let (code, q') = init true true (pos lock) cas (2 ^ suc k) q in
        (code ≡ pos 0) × Serves q' 0 [] × (q'.max_size ≡ 2 ^ suc k) × (q'.cas ≡ cas)
  unfolding init
  init-Serves k lock cas q =
      let large : leb (2 ^ suc k) 1 ≡ false = ground (arith, pow-suc 2 k, one-le-pow k 2) in
      let works : ltb_ℤ (pos lock) (pos 0) ≡ false = ground arith in
      rw (large, works)
        (
          refl,
          record {
            stores = no_values;
            marks = λ e. record { stores = no_values; marks = no_marks };
          },
          refl,
          refl,
        )
    where
      empty : ArrayQueue A
      empty = record q {
        elements = λ i. none;
        active = λ i. pos 0;
        max_size = 2 ^ suc k;
        write_index = pos 0;
        read_index = pos 0;
        cas = cas;
      }

      no_values : Stores empty 0 []
      no_values = record {
        log = suc k;
        size_eq = refl;
        read_eq = refl;
        write_eq = ap pos (omega arith);
        items = record { fits = omega arith; full = λ i x e. ground arith; free = λ i le lt. tt };
      }

      no_marks : IsWindow {A = A} HasMark (HasFreeMark (2 ^ suc k)) (λ i. pos 0) (2 ^ suc k) 0 []
      no_marks = record {
        fits = omega arith;
        full = λ i x e. ground arith;
        free = λ i le lt.
            let first_round : leb (2 ^ suc k) (0 + i) ≡ false = ground arith in rw first_round refl;
      }

  push-cas :
      (n : ℕ) (x : A) (q : ArrayQueue A)
      → q.cas ≡ true
      → push n x q ≡ push_result (push_alone n x loads_write q)
  unfolding push
  push-cas n x q mode = rw mode refl

  pop-cas :
      (n : ℕ) (q : ArrayQueue A) → q.cas ≡ true → pop n q ≡ pop_result (pop_alone n loads_write q)
  unfolding pop
  pop-cas n q mode = rw mode refl

  push-lock : (n : ℕ) (x : A) (q : ArrayQueue A) → q.cas ≡ false → push n x q ≡ some (push_lock x q)
  unfolding push
  push-lock n x q mode =
      ap (λ b. if b then push_result (push_alone n x loads_write q) else some (push_lock x q)) mode

  pop-lock : (n : ℕ) (q : ArrayQueue A) → q.cas ≡ false → pop n q ≡ some (pop_lock q)
  unfolding pop
  pop-lock n q mode =
      ap (λ b. if b then pop_result (pop_alone n loads_write q) else some (pop_lock q)) mode

  -- `Push` and `Pop` in either mode, with fuel for six steps.
  push_refines :
      {q : ArrayQueue A} {r : ℕ} {xs : List A} (x : A)
      → Serves q r xs
      → let (done, ys) = Fifo.enqueue q.max_size xs x in
        (q' : ArrayQueue A) × (push 6 x q ≡ some (done, q'))
        × Serves q' r ys
        × (q'.max_size ≡ q.max_size)
  unfolding push
  push_refines {q} {r} {xs} x v = elim (Bool-cases q.cas) [
    | inl cas ↦
        let (q', e, w, c, m) = push_alone_refines (v.marks cas) x in
        (q', push-cas 6 x q cas ∙ ap push_result e, record { stores = w.stores; marks = λ k. w }, c)
    | inr lock ↦
        let (e, w, c, m) = push_lock_refines x v.stores in
        (
          (push_lock x q).1,
          push-lock 6 x q lock ∙ ap (λ b. some (b, (push_lock x q).1)) e,
          record { stores = w; marks = λ k. ground (arith, m) },
          c,
        )
  ]

  pop_refines :
      {q : ArrayQueue A} {r : ℕ} {xs : List A}
      → Serves q r xs
      → let (done, out, ys) = Fifo.dequeue xs in
        (q' : ArrayQueue A) × (r' : ℕ) × (pop 6 q ≡ some (done, out, q'))
        × Serves q' r' ys
        × (q'.max_size ≡ q.max_size)
  unfolding pop
  pop_refines {q} {r} {xs} v = elim (Bool-cases q.cas) [
    | inl cas ↦
        let (q', r', e, w, c, m) = pop_alone_refines (v.marks cas) in
        (q', r', pop-cas 6 q cas ∙ ap pop_result e, record { stores = w.stores; marks = λ k. w }, c)
    | inr lock ↦
        let (r', e, f, w, c, m) = pop_lock_refines v.stores in
        (
          (pop_lock q).2,
          r',
          pop-lock 6 q lock ∙ (ap₂ (λ b o. some (b, o, (pop_lock q).2)) e f),
          record { stores = w; marks = λ k. ground (arith, m) },
          c,
        )
  ]

  -- In either mode, for a queue that holds `xs`, between calls and at a size that is a power of two: a
  -- sequence of calls, each with fuel for six steps, returns what the bounded FIFO of its size with the
  -- values `xs` replies.
  pub calls_refine :
      (ops : List (Op A)) {q : ArrayQueue A} {r : ℕ} {xs : List A}
      → Serves q r xs
      → run 6 q ops ≡ some (Fifo.run q.max_size xs ops)
  unfolding run Fifo.run
  calls_refine [] v = refl
  calls_refine (put x ∷ ops) {q} {r} {xs} v =
      let (q', e, v', c) = push_refines x v in rw (e, run, calls_refine ops v', c)
  calls_refine (take ∷ ops) {q} {r} {xs} v =
      let (q', r', e, v', c) = pop_refines v in rw (e, run, calls_refine ops v', c)
