-- ===== src/Bench/Single.antt =====
-- What a single producer of other/4_test_lock_free_queue.cpp hands to its queue.
use cpp_concurrency_data_str.Base.{
  range, length-range, ℕ, zero, suc, ◌+◌, ◌<◌, ◌≡◌, refl, ◌∙◌, ap, sym, subst, Bool, true, false,
  Bool-cases, Option, none, some, List, [], ◌∷◌, ◌++◌, length, if◌then◌else◌, update, update_self,
  ltb, arith, inl, inr, map, map-append,
}
use cpp_concurrency_data_str.Bench.Contract.{Dequeues, Enqueues}
use cpp_concurrency_data_str.Bench.Exits.{
  lockfreequeue_run, lockfreequeue_left, arraylockfreequeue_run, arraylockfreequeue_left,
}
use cpp_concurrency_data_str.Bench.Producers.{
  Counted, count_then_enqueue, lockfreequeue_producer_thread, Tried, enqueue_then_count,
  arraylockfreequeue_producer_thread,
}
use cpp_concurrency_data_str.Bench.{
  Queue, Shared, Producer, Consumer, dequeuing, counting, testing, left, Event, produces, consumes,
  received, consume, Bench, make, Settings, total, happens, run,
}

-- What holds of the only producer, of `s_count_push` and of the values given, and what keeps it.
module _ (Q : Queue) (T : Producer Q) (Holds : T.Place → ℕ → List ℕ → Type 0)
    (starts : Holds T.start 0 [])
    (goes : (p : T.Place) (h : Shared Q)
      → Holds p h.s_count_push h.given
      → Holds (T.produce p h).0 (T.produce p h).1.s_count_push (T.produce p h).1.given)
    (c : Settings) (one : c.s_producer_thread_num ≡ 1) where
  abbrev HoldsOf : Bench Q T → Type 0
  HoldsOf s = Holds (s.producers 0) s.shared.s_count_push s.shared.given

  consume-same :
      (n : ℕ) (p : Consumer) (h : Shared Q)
      → ((consume Q n p h).1.s_count_push ≡ h.s_count_push) × ((consume Q n p h).1.given ≡ h.given)
  unfolding consume
  consume-same n (dequeuing v) h = go (Q.try_dequeue h.queue).1
    where
      go :
          (o : Option ℕ)
          → let r = received Q o v (record h { queue = (Q.try_dequeue h.queue).0 }) in
            (r.1.s_count_push ≡ h.s_count_push) × (r.1.given ≡ h.given)
      go none = (refl, refl)
      go (some value) = (refl, refl)
  consume-same n (counting v) h = (refl, refl)
  consume-same n (testing v) h = (refl, refl)
  consume-same n (left v) h = (refl, refl)

  happens-HoldsOf : (e : Event) (s : Bench Q T) → HoldsOf s → HoldsOf (happens Q T c e s)
  unfolding happens
  happens-HoldsOf (produces i) s holds = elim (Bool-cases (ltb i c.s_producer_thread_num)) [
    | inl e ↦ rw e (first i (ground arith))
    | inr e ↦ rw e holds
  ]
    where
      first :
          (i : ℕ)
          → i < c.s_producer_thread_num
          → Holds
              (update s.producers i (T.produce (s.producers i) s.shared).0 0)
              (T.produce (s.producers i) s.shared).1.s_count_push
              (T.produce (s.producers i) s.shared).1.given
      first zero lt =
          subst
            (λ p.
              Holds p (T.produce (s.producers 0) s.shared).1.s_count_push
                (T.produce (s.producers 0) s.shared).1.given)
            (sym (update_self s.producers 0 _)) (goes (s.producers 0) s.shared holds)
      first (suc i) lt = absurd (omega (arith, one))
  happens-HoldsOf (consumes j) s holds = elim (Bool-cases (ltb j c.s_consumer_thread_num)) [
    | inl e ↦ rw e (
        let (pushed, given) = consume-same (total Q T c) (s.consumers j) s.shared in
        subst
          (λ l.
            Holds (s.producers 0) (consume Q (total Q T c) (s.consumers j) s.shared).1.s_count_push
              l)
          (sym given) (subst (λ n. Holds (s.producers 0) n s.shared.given) (sym pushed) holds))
    | inr e ↦ rw e holds
  ]

  run-HoldsOf : (es : List Event) (s : Bench Q T) → HoldsOf s → HoldsOf (run Q T c es s)
  unfolding run
  run-HoldsOf [] s holds = holds
  run-HoldsOf (e ∷ es) s holds = run-HoldsOf es (happens Q T c e s) (happens-HoldsOf e s holds)

  pub run-Holds :
      (es : List Event) (q : Q.State)
      → let s = run Q T c es (make Q T q) in
        Holds (s.producers 0) s.shared.s_count_push s.shared.given
  run-Holds es q = run-HoldsOf es (make Q T q) starts

next : (i : ℕ) → suc i ≡ i + 1
next i = omega arith

module _ (Q : Queue) (enqueue : ℕ → Q.State → Bool × Q.State) (n : ℕ) where
  -- The array queue's producer, between counting and enqueuing.
  abbrev TriedHolds : Tried Q enqueue n → ℕ → List ℕ → Type 0
  TriedHolds (Tried.enqueuing i count) pushed given = (count ≡ i) × (pushed ≡ i) × (given ≡ range i)
  TriedHolds (Tried.adding i) pushed given = (pushed ≡ i) × (given ≡ range (suc i))
  TriedHolds (Tried.reading i) pushed given = (pushed ≡ i + 1) × (given ≡ range (suc i))
  TriedHolds Tried.left pushed given = given ≡ range pushed

  TriedHolds-range :
      (p : Tried Q enqueue n) (pushed : ℕ) (given : List ℕ)
      → TriedHolds p pushed given
      → (k : ℕ) × (given ≡ range k)
  TriedHolds-range (Tried.enqueuing i count) pushed given h = (i, h.2)
  TriedHolds-range (Tried.adding i) pushed given h = (suc i, h.1)
  TriedHolds-range (Tried.reading i) pushed given h = (suc i, h.1)
  TriedHolds-range Tried.left pushed given h = (pushed, h)

  tried-TriedHolds :
      (p : Tried Q enqueue n) (h : Shared Q)
      → TriedHolds p h.s_count_push h.given
      → let r = enqueue_then_count Q enqueue n p h in TriedHolds r.0 r.1.s_count_push r.1.given
  unfolding enqueue_then_count
  tried-TriedHolds (Tried.enqueuing i count) h holds = elim (Bool-cases (ltb i n)) [
    | inl e ↦ rw e (go (enqueue count h.queue).0)
    | inr e ↦ rw e (holds.2 ∙ ap range (sym holds.1))
  ]
    where
      go :
          (b : Bool)
          → TriedHolds
              (if b then Tried.adding i else Tried.enqueuing i count)
              h.s_count_push
              (if b then h.given ++ count ∷ [] else h.given)
      go true = (holds.1, ap (λ l. l ++ count ∷ []) holds.2 ∙ ap (λ k. range i ++ k ∷ []) holds.0)
      go false = holds
  tried-TriedHolds (Tried.adding i) h holds = (omega (arith, holds.0), holds.1)
  tried-TriedHolds (Tried.reading i) h holds = (holds.0, holds.0, holds.1 ∙ ap range (next i))
  tried-TriedHolds Tried.left h holds = holds

  -- The other producer, which counts first; its queue accepts every value.
  abbrev CountedHolds : Counted Q enqueue n → ℕ → List ℕ → Type 0
  CountedHolds (Counted.looping i) pushed given = (pushed ≡ i) × (given ≡ map suc (range i))
  CountedHolds (Counted.reading i) pushed given = (pushed ≡ i + 1) × (given ≡ map suc (range i))
  CountedHolds (Counted.enqueuing i count) pushed given =
      (count ≡ i + 1) × (pushed ≡ i + 1) × (given ≡ map suc (range i))
  CountedHolds Counted.left pushed given = given ≡ map suc (range pushed)

  CountedHolds-range :
      (p : Counted Q enqueue n) (pushed : ℕ) (given : List ℕ)
      → CountedHolds p pushed given
      → (k : ℕ) × (given ≡ map suc (range k))
  CountedHolds-range (Counted.looping i) pushed given h = (i, h.1)
  CountedHolds-range (Counted.reading i) pushed given h = (i, h.1)
  CountedHolds-range (Counted.enqueuing i count) pushed given h = (i, h.2)
  CountedHolds-range Counted.left pushed given h = (pushed, h)

  counted-CountedHolds :
      ((count : ℕ) (q : Q.State) → (enqueue count q).0 ≡ true)
      → (p : Counted Q enqueue n) (h : Shared Q) → CountedHolds p h.s_count_push h.given
      → let r = count_then_enqueue Q enqueue n p h in CountedHolds r.0 r.1.s_count_push r.1.given
  unfolding count_then_enqueue
  counted-CountedHolds accepts (Counted.looping i) h holds = elim (Bool-cases (ltb i n)) [
    | inl e ↦ rw e (omega (arith, holds.0), holds.1)
    | inr e ↦ rw e (holds.1 ∙ ap (λ k. map suc (range k)) (sym holds.0))
  ]
  counted-CountedHolds accepts (Counted.reading i) h holds = (holds.0, holds.0, holds.1)
  counted-CountedHolds accepts (Counted.enqueuing i count) h holds = (
    holds.1,
    subst (λ b. (if b then h.given ++ count ∷ [] else h.given) ≡ map suc (range (i + 1)))
        (sym (accepts count h.queue))
        (ap (λ l. l ++ count ∷ []) holds.2
          ∙ ap (λ k. map suc (range i) ++ k ∷ []) (holds.0 ∙ sym (next i))
          ∙ sym (map-append suc (range i) (i ∷ []))
          ∙ ap (λ k. map suc (range k)) (next i)),
  )
  counted-CountedHolds accepts Counted.left h holds = holds

length-map-suc : (l : List ℕ) → length (map suc l) ≡ length l
length-map-suc [] = refl
length-map-suc (x ∷ l) = omega (arith, length-map-suc l)

-- One producer and `m` consumers.
abbrev pub single : ℕ → ℕ → Settings
single n m = record { s_queue_item_num = n; s_producer_thread_num = 1; s_consumer_thread_num = m }

module _ (Q : Queue) (contents : Q.State → List ℕ) (law : Dequeues Q contents)
    (enqueue : ℕ → Q.State → Bool × Q.State) (accepts : Enqueues Q contents enqueue) (n m : ℕ) where
  -- The producer of the array queue hands over 0, 1, 2 and so on.
  arraylockfreequeue_in_order :
      (es : List Event) (q : Q.State) (j last_value : ℕ)
      → contents q ≡ []
      → (arraylockfreequeue_run Q enqueue (single n m) es q).consumers j ≡ left last_value
      → (arraylockfreequeue_run Q enqueue (single n m) es q).shared.taken ≡ range n
  arraylockfreequeue_in_order es q j last_value e at =
      let T = arraylockfreequeue_producer_thread Q enqueue n in
      let s = arraylockfreequeue_run Q enqueue (single n m) es q in
      let (popped, len, same, empty) =
        arraylockfreequeue_left Q contents law enqueue accepts (single n m) es q j last_value e
          at in
      let (k, is_range) =
        TriedHolds-range Q enqueue n (s.producers 0) s.shared.s_count_push s.shared.given (
          run-Holds Q T (TriedHolds Q enqueue n) (refl, refl, refl) (tried-TriedHolds Q enqueue n)
            (single n m) refl es q) in
      let k_n : k ≡ n = omega (arith, len, ap length is_range, length-range k) in
      same ∙ is_range ∙ ap range k_n

  -- With one producer and any number of consumers, for a queue given by `try_dequeue` and `enqueue`,
  -- each call one step, that accepts every value, gives back in order what it accepted and may also
  -- find nothing: in every schedule that starts with the queue empty, once a consumer has left its
  -- loop, the values taken out are the numbers from 1 to `s_queue_item_num`, each once and in order.
  pub lockfreequeue_in_order :
      (es : List Event) (q : Q.State) (j last_value : ℕ)
      → ((count : ℕ) (p : Q.State) → (enqueue count p).0 ≡ true)
      → contents q ≡ []
      → (lockfreequeue_run Q enqueue (single n m) es q).consumers j ≡ left last_value
      → (lockfreequeue_run Q enqueue (single n m) es q).shared.taken ≡ map suc (range n)
  lockfreequeue_in_order es q j last_value always e at =
      let T = lockfreequeue_producer_thread Q enqueue n in
      let s = lockfreequeue_run Q enqueue (single n m) es q in
      let (popped, len, same, empty) =
        lockfreequeue_left Q contents law enqueue accepts (single n m) es q j last_value e at in
      let (k, is_range) =
        CountedHolds-range Q enqueue n (s.producers 0) s.shared.s_count_push s.shared.given (
          run-Holds Q T (CountedHolds Q enqueue n) (refl, refl)
            (counted-CountedHolds Q enqueue n always) (single n m) refl es q) in
      let k_n : k ≡ n =
        omega (arith, len, ap length is_range, length-map-suc (range k), length-range k) in
      same ∙ is_range ∙ ap (λ i. map suc (range i)) k_n
