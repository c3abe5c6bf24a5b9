-- ===== src/Bench/Mutex/Takes.antt =====
-- What the consumers of the std::list in other/4_test_lock_free_queue.cpp take out.
use cpp_concurrency_data_str.Base.{
  range, length-range, ℕ, suc, ◌+◌, ◌*◌, ◌≤◌, ◌<◌, ◌≡◌, refl, ◌∙◌, ap, sym, subst, Bool-cases, List,
  [], ◌∷◌, ◌++◌, append-nil, append_assoc, length, length-append, length-snoc, empty_of_length,
  update, ltb, leb, arith, inl, inr,
}
use cpp_concurrency_data_str.Base.Updates.{update-All}
use cpp_concurrency_data_str.Base.Sums.{sum, sum-update, sum-zero, sum-le}
use cpp_concurrency_data_str.Bench.{Settings, Event, produces, consumes}
use cpp_concurrency_data_str.Bench.Mutex.{
  Producer, looping, Consumer, locking, testing, MutexQueue, make, produce, total, take, consume,
  happens, run,
}

abbrev pub InLoop : ℕ → Producer → Type 0
InLoop n (looping i) = i ≤ n
InLoop n Producer.left = Unit

module _ (c : Settings) where
  -- The turns that a producer has made.
  abbrev pub made : Producer → ℕ
  made (looping i) = i
  made Producer.left = c.s_queue_item_num

  abbrev LeftAt : ℕ → Consumer → Type 0
  LeftAt count (Consumer.left _) = total c ≤ count
  LeftAt count (locking _) = Unit
  LeftAt count (testing _) = Unit

  LeftAt-suc : (count : ℕ) (p : Consumer) → LeftAt count p → LeftAt (count + 1) p
  LeftAt-suc count (Consumer.left _) l = omega (arith, l)
  LeftAt-suc count (locking _) l = tt
  LeftAt-suc count (testing _) l = tt

  pub record Inv (s : MutexQueue) : Type 0 where
    pub history : s.taken ++ s.s_list ≡ range s.s_count_push
    pub popped : s.s_count_pop ≡ length s.taken
    pub pushed : s.s_count_push ≡ sum c.s_producer_thread_num (λ i. made (s.producers i))
    pub in_loop : (i : ℕ) → InLoop c.s_queue_item_num (s.producers i)
    pub lefts : (j : ℕ) → LeftAt s.s_count_pop (s.consumers j)

  pub make-Inv : Inv make
  make-Inv = record {
    history = refl;
    popped = refl;
    pushed = sym (sum-zero c.s_producer_thread_num (λ i. 0) (λ i. refl));
    in_loop = λ i. omega arith;
    lefts = λ j. tt;
  }

  produce-Inv :
      (p : Producer) (i : ℕ) (s : MutexQueue)
      → i < c.s_producer_thread_num
      → s.producers i ≡ p
      → Inv s
      → Inv (produce c p i s)
  unfolding produce
  produce-Inv (looping k) i s lt at inv = elim (Bool-cases (ltb k c.s_queue_item_num)) [
    | inl e ↦ rw e (record {
      history =
          sym (append_assoc s.taken s.s_list (s.s_count_push ∷ []))
          ∙ ap (λ l. l ++ s.s_count_push ∷ []) inv.history
          ∙ ap range (next s.s_count_push);
      popped = inv.popped;
      pushed = omega (
        arith,
        inv.pushed,
        ap made at,
        sum-update made c.s_producer_thread_num i s.producers (looping (k + 1)) lt,
      );
      in_loop =
          update-All (InLoop c.s_queue_item_num) s.producers i (looping (k + 1)) (ground arith)
            inv.in_loop;
      lefts = inv.lefts;
    })
    | inr e ↦ rw e (record {
      history = inv.history;
      popped = inv.popped;
      pushed = ends (ground arith) (subst (InLoop c.s_queue_item_num) at (inv.in_loop i));
      in_loop = update-All (InLoop c.s_queue_item_num) s.producers i Producer.left tt inv.in_loop;
      lefts = inv.lefts;
    })
  ]
    where
      next : (n : ℕ) → suc n ≡ n + 1
      next n = omega arith

      ends :
          c.s_queue_item_num ≤ k
          → k ≤ c.s_queue_item_num
          → s.s_count_push
            ≡ sum c.s_producer_thread_num (λ j. made (update s.producers i Producer.left j))
      ends ge le = omega (
        arith,
        inv.pushed,
        ap made at,
        sum-update made c.s_producer_thread_num i s.producers Producer.left lt,
      )
  produce-Inv Producer.left i s lt at inv = inv

  take-Inv :
      (l : List ℕ) (last_value j : ℕ) (s : MutexQueue)
      → s.s_list ≡ l
      → Inv s
      → Inv (take c l last_value j s)
  take-Inv [] last_value j s at inv = record {
    history = inv.history;
    popped = inv.popped;
    pushed = inv.pushed;
    in_loop = inv.in_loop;
    lefts = update-All (LeftAt s.s_count_pop) s.consumers j (testing last_value) tt inv.lefts;
  }
  take-Inv (value ∷ rest) last_value j s at inv = record {
    history = append_assoc s.taken (value ∷ []) rest ∙ ap (s.taken ++◌) (sym at) ∙ inv.history;
    popped = omega (arith, inv.popped, length-snoc s.taken value);
    pushed = inv.pushed;
    in_loop = inv.in_loop;
    lefts =
        update-All (LeftAt (s.s_count_pop + 1)) s.consumers j (testing value) tt
          (λ k. LeftAt-suc s.s_count_pop (s.consumers k) (inv.lefts k));
  }

  consume-Inv : (p : Consumer) (j : ℕ) (s : MutexQueue) → Inv s → Inv (consume c p j s)
  unfolding consume
  consume-Inv (locking last_value) j s inv = take-Inv s.s_list last_value j s refl inv
  consume-Inv (testing last_value) j s inv = elim (Bool-cases (leb (total c) s.s_count_pop)) [
    | inl e ↦ rw e (moved (Consumer.left last_value) (ground arith))
    | inr e ↦ rw e (moved (locking last_value) tt)
  ]
    where
      moved :
          (p : Consumer)
          → LeftAt s.s_count_pop p
          → Inv (record s { consumers = update s.consumers j p })
      moved p l = record {
        history = inv.history;
        popped = inv.popped;
        pushed = inv.pushed;
        in_loop = inv.in_loop;
        lefts = update-All (LeftAt s.s_count_pop) s.consumers j p l inv.lefts;
      }
  consume-Inv (Consumer.left last_value) j s inv = inv

  happens-Inv : (e : Event) (s : MutexQueue) → Inv s → Inv (happens c e s)
  unfolding happens
  happens-Inv (produces i) s inv = elim (Bool-cases (ltb i c.s_producer_thread_num)) [
    | inl e ↦ rw e (produce-Inv (s.producers i) i s (ground arith) refl inv)
    | inr e ↦ rw e inv
  ]
  happens-Inv (consumes j) s inv = elim (Bool-cases (ltb j c.s_consumer_thread_num)) [
    | inl e ↦ rw e (consume-Inv (s.consumers j) j s inv)
    | inr e ↦ rw e inv
  ]

  pub run-Inv : (es : List Event) (s : MutexQueue) → Inv s → Inv (run c es s)
  unfolding run
  run-Inv [] s inv = inv
  run-Inv (e ∷ es) s inv = run-Inv es (happens c e s) (happens-Inv e s inv)

  sum-made :
      (n : ℕ) (f : ℕ → Producer)
      → ((i : ℕ) → InLoop c.s_queue_item_num (f i))
      → sum n (λ i. made (f i)) ≤ c.s_queue_item_num * n
  sum-made n f h = sum-le n c.s_queue_item_num (λ i. made (f i)) (λ i. le (f i) (h i))
    where
      le : (p : Producer) → InLoop c.s_queue_item_num p → made p ≤ c.s_queue_item_num
      le (looping i) l = l
      le Producer.left l = omega arith

  pub Inv-counts :
      (s : MutexQueue)
      → Inv s
      → (s.s_count_pop + length s.s_list ≡ s.s_count_push) × (s.s_count_push ≤ total c)
  Inv-counts s inv = (
    omega (
      arith,
      inv.popped,
      ap length inv.history,
      length-append s.taken s.s_list,
      length-range s.s_count_push,
    ),
    omega (arith, inv.pushed, sum-made c.s_producer_thread_num s.producers inv.in_loop),
  )

  -- In every schedule of any number of producers and consumers, once one of the consumers has left its
  -- loop, the list is empty, the values popped from it are exactly 0, 1, 2 and so on, as many as
  -- `s_queue_item_num` for each producer, each once and in this order, and both counters are at
  -- that number.
  pub mutexqueue_left :
      (es : List Event) (j last_value : ℕ)
      → (run c es make).consumers j ≡ Consumer.left last_value
      → ((run c es make).taken ≡ range (total c))
        × ((run c es make).s_list ≡ [])
        × ((run c es make).s_count_pop ≡ total c)
        × ((run c es make).s_count_push ≡ total c)
  mutexqueue_left es j last_value at =
      let s = run c es make in
      let inv = run-Inv es make make-Inv in
      let l = subst (LeftAt s.s_count_pop) at (inv.lefts j) in
      let (sums, bound) = Inv-counts s inv in
      let none_left = empty_of_length s.s_list (omega (arith, l)) in
      (
        sym (append-nil s.taken)
            ∙ ap (s.taken ++◌) (sym none_left)
            ∙ inv.history
            ∙ ap range (pushed_all s l sums bound),
        none_left,
        omega (arith, l),
        pushed_all s l sums bound,
      )
    where
      pushed_all :
          (s : MutexQueue)
          → total c ≤ s.s_count_pop
          → s.s_count_pop + length s.s_list ≡ s.s_count_push
          → s.s_count_push ≤ total c
          → s.s_count_push ≡ total c
      pushed_all s a b d = omega arith
