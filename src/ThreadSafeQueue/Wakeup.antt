-- ===== src/ThreadSafeQueue/Wakeup.antt =====
-- Threads on one ThreadSafeQueue.h: producers that push, and consumers in `wait_and_pop`. A step is
-- what a thread does between two points at which another may act; a wait may end with no
-- notification (`spurious`). `push` takes only the tail
-- mutex, so it may come between the test of a consumer, which holds the head mutex, and its sleep.
use cpp_concurrency_data_str.Base.{
  ℕ, suc, ◌≡◌, ◌≢◌, refl, ◌∙◌, sym, ap, Bool, true, false, Option, none, some, List, [], ◌∷◌, ◌++◌,
  map, append_assoc, map-append, arith, update, subst,
}
use cpp_concurrency_data_str.ThreadSafeQueue.{
  Ptr, null, Heap, Queue, make, push, take_head, is_empty,
}
use cpp_concurrency_data_str.ThreadSafeQueue.Chain.{Cells, Holds}
use cpp_concurrency_data_str.ThreadSafeQueue.Refines.{
  make-Holds, push-Holds, take_head_refines, is_empty-cons, try_pop_empty,
}

-- Where a consumer stands: outside, holding the head mutex before its test, having seen a value,
-- having seen none, in the condition variable, and woken from it.
pub data Consumer : Type 0 where
  idle locked ready decided asleep woken : Consumer

abbrev pub inside : Consumer → Bool
inside idle = false
inside asleep = false
inside woken = false
inside _ = true

-- `unnotified` counts the pushes that have linked their node and not yet called notify_one;
-- `pushed` and `taken` are the values so far, in order.
pub record System {ℓ} (A : Type ℓ) : Type ℓ where
  pub queue : Queue A
  pub holder : Option ℕ
  pub consumers : ℕ → Consumer
  pub unnotified : ℕ
  pub pushed : List A
  pub taken : List A

module _ {ℓ} {A : Type ℓ} where
  abbrev pub moved : System A → ℕ → Consumer → Option ℕ → System A
  moved s i c o = record s { consumers = update s.consumers i c; holder = o }

  pub data Step (s : System A) : System A → Type ℓ where
    link :
        (fresh : Ptr) (x : A) (q : Queue A)
        → s.queue.heap fresh ≡ none
        → fresh ≢ null
        → push fresh x s.queue ≡ some q
        → Step s
            (record s { queue = q; unnotified = suc s.unnotified; pushed = s.pushed ++ x ∷ [] })
    wake :
        (i n : ℕ)
        → s.consumers i ≡ asleep
        → s.unnotified ≡ suc n
        → Step s (record s { consumers = update s.consumers i woken; unnotified = n })
    wake_none :
        (n : ℕ)
        → ((i : ℕ) → s.consumers i ≢ asleep)
        → s.unnotified ≡ suc n
        → Step s (record s { unnotified = n })
    spurious :
        (i : ℕ)
        → s.consumers i ≡ asleep
        → Step s (record s { consumers = update s.consumers i woken })
    lock : (i : ℕ) → s.consumers i ≡ idle → s.holder ≡ none → Step s (moved s i locked (some i))
    relock : (i : ℕ) → s.consumers i ≡ woken → s.holder ≡ none → Step s (moved s i locked (some i))
    see_value :
        (i : ℕ)
        → s.consumers i ≡ locked
        → is_empty s.queue ≡ false
        → Step s (moved s i ready s.holder)
    see_none :
        (i : ℕ)
        → s.consumers i ≡ locked
        → is_empty s.queue ≡ true
        → Step s (moved s i decided s.holder)
    block : (i : ℕ) → s.consumers i ≡ decided → Step s (moved s i asleep none)
    pop :
        (i : ℕ) (x : A) (q : Queue A)
        → s.consumers i ≡ ready
        → take_head s.queue ≡ some (some x, q)
        → Step s (record (moved s i idle none) { queue = q; taken = s.taken ++ x ∷ [] })

  unfoldable pub start : Ptr → Heap A → System A
  start fresh h = record {
    queue = make fresh h;
    holder = none;
    consumers = λ _. idle;
    unnotified = 0;
    pushed = [];
    taken = [];
  }

  pub data Reach (s : System A) : System A → Type ℓ where
    here : Reach s s
    next : {t u : System A} → Reach s t → Step t u → Reach s u

  abbrev pub values : Cells A → List A
  values cs = map (λ c. c.1) cs

  -- The queue is well-formed and holds what was pushed and not taken; the head mutex has one holder;
  -- who has seen a value finds one.
  pub record Inv (s : System A) : Type ℓ where
    pub cells : Cells A
    pub holds : Holds s.queue cells
    pub history : s.pushed ≡ s.taken ++ values cells
    pub owner : (i : ℕ) → inside (s.consumers i) ≡ true → s.holder ≡ some i
    pub seen : (i : ℕ) → s.consumers i ≡ ready → is_empty s.queue ≡ false

  start-Inv : (fresh : Ptr) (h : Heap A) → fresh ≢ null → Inv (start fresh h)
  unfolding start
  start-Inv fresh h real = record {
    cells = [];
    holds = make-Holds fresh h real;
    history = refl;
    owner = λ i e. cc;
    seen = λ i e. cc;
  }

  is_empty-snoc :
      (q : Queue A) (cs : Cells A) (p : Ptr) (x : A)
      → Holds q (cs ++ (p, x) ∷ [])
      → is_empty q ≡ false
  is_empty-snoc q [] p x v = is_empty-cons v
  is_empty-snoc q ((r, y) ∷ cs) p x v = is_empty-cons v

  link-Inv :
      (fresh : Ptr) (x : A) (q : Queue A) {s : System A}
      → s.queue.heap fresh ≡ none
      → fresh ≢ null
      → push fresh x s.queue ≡ some q
      → Inv s
      → Inv (record s { queue = q; unnotified = suc s.unnotified; pushed = s.pushed ++ x ∷ [] })
  link-Inv fresh x q {s} free real e v =
      let (q', e', h) = push-Holds fresh x v.holds free real in
      let same : q' ≡ q = ground arith in
      let cs = v.cells ++ (s.queue.tail, x) ∷ [] in
      let h' : Holds q cs = subst (λ r. Holds r cs) same h in
      record {
        cells = cs;
        holds = h';
        history =
            ap (λ l. l ++ x ∷ []) v.history
            ∙ append_assoc s.taken (values v.cells) (x ∷ [])
            ∙ ap (λ l. s.taken ++ l) (sym (map-append (λ c. c.1) v.cells ((s.queue.tail, x) ∷ [])));
        owner = v.owner;
        seen = λ i r. is_empty-snoc q v.cells s.queue.tail x h';
      }

  -- A queue that is not empty yields its oldest value.
  oldest :
      (cs : Cells A) (x : A) (q r : Queue A)
      → Holds q cs
      → is_empty q ≡ false
      → take_head q ≡ some (some x, r)
      → (ds : Cells A) × (values cs ≡ x ∷ values ds) × Holds r ds
  oldest [] x q r v some_value e = absurd (ground (arith, (try_pop_empty v).2))
  oldest ((p, y) ∷ cs) x q r v some_value e =
      let (q', e', took) = take_head_refines v in
      let same : q' ≡ r = ground arith in
      (cs, ground arith, subst (λ u. Holds u cs) same took.holds)

  pop-Inv :
      (i : ℕ) (x : A) (q : Queue A) {s : System A}
      → s.consumers i ≡ ready
      → take_head s.queue ≡ some (some x, q)
      → Inv s
      → Inv (record (moved s i idle none) { queue = q; taken = s.taken ++ x ∷ [] })
  pop-Inv i x q {s} a e v =
      let (ds, front, h) = oldest v.cells x s.queue q v.holds (v.seen i a) e in
      record {
        cells = ds;
        holds = h;
        history =
            v.history
            ∙ ap (λ l. s.taken ++ l) front
            ∙ sym (append_assoc s.taken (x ∷ []) (values ds));
        owner = λ j k. ground (arith, v.owner j, v.owner i);
        seen = λ j k. ground (arith, v.owner j, v.owner i);
      }

  -- A step that leaves the queue and its history alone.
  keep-Inv :
      {s : System A} (cs : ℕ → Consumer) (o : Option ℕ) (n : ℕ)
      → Inv s
      → ((i : ℕ) → inside (cs i) ≡ true → o ≡ some i)
      → ((i : ℕ) → cs i ≡ ready → is_empty s.queue ≡ false)
      → Inv (record s { consumers = cs; holder = o; unnotified = n })
  keep-Inv cs o n v owner seen = record {
    cells = v.cells;
    holds = v.holds;
    history = v.history;
    owner = owner;
    seen = seen;
  }

  pub Step-Inv : {s t : System A} → Step s t → Inv s → Inv t
  Step-Inv (link fresh x q free real e) v = link-Inv fresh x q free real e v
  Step-Inv {s} (wake i n a u) v =
      keep-Inv (update s.consumers i woken) s.holder n v (λ j e. ground (arith, v.owner j))
        (λ j e. ground (arith, v.seen j))
  Step-Inv {s} (wake_none n a u) v = keep-Inv s.consumers s.holder n v v.owner v.seen
  Step-Inv {s} (spurious i a) v =
      keep-Inv (update s.consumers i woken) s.holder s.unnotified v
        (λ j e. ground (arith, v.owner j)) (λ j e. ground (arith, v.seen j))
  Step-Inv {s} (lock i a o) v =
      keep-Inv (update s.consumers i locked) (some i) s.unnotified v
        (λ j e. ground (arith, v.owner j)) (λ j e. ground (arith, v.seen j))
  Step-Inv {s} (relock i a o) v =
      keep-Inv (update s.consumers i locked) (some i) s.unnotified v
        (λ j e. ground (arith, v.owner j)) (λ j e. ground (arith, v.seen j))
  Step-Inv {s} (see_value i a o) v =
      keep-Inv (update s.consumers i ready) s.holder s.unnotified v
        (λ j e. ground (arith, v.owner j)) (λ j e. o)
  Step-Inv {s} (see_none i a o) v =
      keep-Inv (update s.consumers i decided) s.holder s.unnotified v
        (λ j e. ground (arith, v.owner j)) (λ j e. ground (arith, v.seen j))
  Step-Inv {s} (block i a) v =
      keep-Inv (update s.consumers i asleep) none s.unnotified v
        (λ j e. ground (arith, v.owner j, v.owner i)) (λ j e. ground (arith, v.seen j))
  Step-Inv (pop i x q a e) v = pop-Inv i x q a e v

  pub Reach-Inv :
      (fresh : Ptr) (h : Heap A) {s : System A} → fresh ≢ null → Reach (start fresh h) s → Inv s
  Reach-Inv fresh h real here = start-Inv fresh h real
  Reach-Inv fresh h real (next r st) = Step-Inv st (Reach-Inv fresh h real r)
