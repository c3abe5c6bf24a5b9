-- ===== src/ThreadSafeQueue/Threads.antt =====
-- What holds of the threads on one ThreadSafeQueue.h, whatever their order.
use cpp_concurrency_data_str.Base.{
  ℕ, ◌≡◌, ◌≢◌, refl, ◌∙◌, true, false, none, some, [], ◌∷◌, ◌++◌, arith, update, update_self,
  update-ne, subst,
}
use cpp_concurrency_data_str.ThreadSafeQueue.{
  Ptr, null, Heap, Queue, make, push, take_head, is_empty,
}
use cpp_concurrency_data_str.ThreadSafeQueue.Chain.{Cells, Holds}
use cpp_concurrency_data_str.ThreadSafeQueue.Refines.{
  make-Holds, push-Holds, take_head_refines, is_empty-cons, try_pop_empty,
}
use cpp_concurrency_data_str.ThreadSafeQueue.Wakeup.{
  idle, locked, ready, decided, asleep, spurious, inside, System, moved, Step, link, wake,
  wake_none, lock, relock, see_value, see_none, block, pop, start, Reach, here, next, values,
  Reach-Inv,
}

module _ {ℓ} {A : Type ℓ} (fresh : Ptr) (h : Heap A) {s : System A} (real : fresh ≢ null)
    (r : Reach (start fresh h) s) where
  -- In every state that can be reached from an empty queue, whose first node is not at the null
  -- address, the queue is well-formed, and the values pushed so far are, in order, those taken so
  -- far and then those in the queue.
  pub threads_history : (cs : Cells A) × Holds s.queue cs × (s.pushed ≡ s.taken ++ values cs)
  threads_history = let v = Reach-Inv fresh h real r in (v.cells, v.holds, v.history)

  -- In every state that can be reached from an empty queue, whose first node is not at the null
  -- address, any two consumers inside the head mutex are the same one.
  pub mutual_exclusion :
      (i j : ℕ) → inside (s.consumers i) ≡ true → inside (s.consumers j) ≡ true → i ≡ j
  mutual_exclusion i j p q =
      let v = Reach-Inv fresh h real r in ground (arith, v.owner i p, v.owner j q)

  -- In every state that can be reached from an empty queue, whose first node is not at the null
  -- address, a consumer that has seen a value gets one: its pop does not fault, and the pointer
  -- that it gives is not null.
  pub ready_pops :
      (i : ℕ)
      → s.consumers i ≡ ready
      → (x : A) × (q : Queue A) × (take_head s.queue ≡ some (some x, q))
  ready_pops i e = let v = Reach-Inv fresh h real r in go v.cells v.holds (v.seen i e)
    where
      go :
          (cs : Cells A)
          → Holds s.queue cs
          → is_empty s.queue ≡ false
          → (x : A) × (q : Queue A) × (take_head s.queue ≡ some (some x, q))
      go [] v some_value = absurd (ground (arith, (try_pop_empty v).2))
      go ((p, x) ∷ cs) v some_value = let (q, e, took) = take_head_refines v in (x, q, e)

module _ {ℓ} {A : Type ℓ} where
  -- A step that is no push, and no return from the wait without a notification.
  abbrev pub IsQuiet : {s t : System A} → Step s t → Type 0
  IsQuiet (link fresh x q free real e) = ⊥
  IsQuiet (wake i n a u) = Unit
  IsQuiet (wake_none n a u) = Unit
  IsQuiet (spurious i a) = ⊥
  IsQuiet (lock i a o) = Unit
  IsQuiet (relock i a o) = Unit
  IsQuiet (see_value i a o) = Unit
  IsQuiet (see_none i a o) = Unit
  IsQuiet (block i a) = Unit
  IsQuiet (pop i x q a e) = Unit

  -- Where such steps lead, in any number and by any threads.
  pub data Quiets (s : System A) : System A → Type ℓ where
    rests : Quiets s s
    goes : {t u : System A} → Quiets s t → (st : Step t u) → IsQuiet st → Quiets s u

  -- The consumer sleeps and no push has still to notify.
  abbrev SleepsOn : ℕ → System A → Type 0
  SleepsOn i s = (s.consumers i ≡ asleep) × (s.unnotified ≡ 0)

  Step-SleepsOn :
      {s t : System A} (i : ℕ) (st : Step s t) → IsQuiet st → SleepsOn i s → SleepsOn i t
  Step-SleepsOn i (link fresh x q free real e) quiet (a, z) = elim quiet [ ]
  Step-SleepsOn i (wake j n b u) quiet (a, z) = absurd (ground arith)
  Step-SleepsOn i (wake_none n b u) quiet (a, z) = (a, omega arith)
  Step-SleepsOn i (spurious j b) quiet (a, z) = elim quiet [ ]
  Step-SleepsOn i (lock j b o) quiet (a, z) = (ground arith, z)
  Step-SleepsOn i (relock j b o) quiet (a, z) = (ground arith, z)
  Step-SleepsOn i (see_value j b o) quiet (a, z) = (ground arith, z)
  Step-SleepsOn i (see_none j b o) quiet (a, z) = (ground arith, z)
  Step-SleepsOn i (block j b) quiet (a, z) = (ground arith, z)
  Step-SleepsOn i (pop j x q b e) quiet (a, z) = (ground arith, z)

  Quiets-SleepsOn : {s t : System A} (i : ℕ) → Quiets s t → SleepsOn i s → SleepsOn i t
  Quiets-SleepsOn i rests sleeps = sleeps
  Quiets-SleepsOn i (goes r st quiet) sleeps = Step-SleepsOn i st quiet (Quiets-SleepsOn i r sleeps)

  -- The threads after consumer `i` has gone to sleep, where `q` is the queue after the push of `x`
  -- that came between its test and its sleep.
  abbrev pub overslept : ℕ → A → Queue A → Ptr → Heap A → System A
  overslept i x q fresh h =
      record (moved (moved (moved (start fresh h) i locked (some i)) i decided (some i)) i asleep
        none) { queue = q; pushed = x ∷ [] }

  -- A wakeup can be lost, for every consumer and every value: where two different addresses that are
  -- not null are given to the first two nodes, the second free, a state can be reached in which the
  -- value was pushed, the queue is not empty, and the consumer, which had seen it empty, sleeps; and
  -- after any number of further steps of any threads, of which none is a push or the return of a
  -- wait without a notification, the consumer still sleeps and no push has still to notify.
  pub lost_wakeup :
      (i : ℕ) (fresh fresh' : Ptr) (h : Heap A) (x : A) (q : Queue A) {t : System A}
      → fresh ≢ null
      → fresh' ≢ null
      → fresh ≢ fresh'
      → h fresh' ≡ none
      → push fresh' x (make fresh h) ≡ some q
      → Quiets (overslept i x q fresh h) t
      → Reach (start fresh h) (overslept i x q fresh h)
        × (is_empty q ≡ false)
        × (t.consumers i ≡ asleep)
        × (t.unnotified ≡ 0)
  unfolding start
  lost_wakeup i fresh fresh' h x q real real' ne free pushes later =
      let v = make-Holds fresh h real in
      let free' : (make fresh h).heap fresh' ≡ none =
        unfold make in (update-ne h fresh fresh' _ ne ∙ free) in
      let (q', e, v') = push-Holds fresh' x v free' real' in
      let same : q' ≡ q = ground arith in
      let s1 = moved (start fresh h) i locked (some i) in
      let s2 = moved s1 i decided (some i) in
      let s3 : System A = record s2 { queue = q; unnotified = 1; pushed = x ∷ [] } in
      let s4 : System A = record s3 { unnotified = 0 } in
      let (asleep_t, none_t) = Quiets-SleepsOn i later (update_self s4.consumers i asleep, refl) in
      (
        next
            (next
              (next
                (next (next here (lock i refl refl)) (
                  see_none i (update_self (start fresh h).consumers i locked)
                    ((try_pop_empty v).2)))
                (link fresh' x q free' real' pushes))
              (wake_none 0 (λ j a. awake j a) refl))
            (block i (update_self s1.consumers i decided)),
        subst (λ r. is_empty r ≡ false) same (is_empty-cons v'),
        asleep_t,
        none_t,
      )
    where
      awake : (j : ℕ) → update (update (λ (k : ℕ). idle) i locked) i decided j ≢ asleep
      awake j a = absurd (ground arith)
