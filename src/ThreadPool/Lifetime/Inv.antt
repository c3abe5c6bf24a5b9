-- ===== src/ThreadPool/Lifetime/Inv.antt =====
-- What a worker's step does to a ThreadPool.h, and what holds throughout the life of one.
use cpp_concurrency_data_str.Base.{
  ℕ, ◌+◌, ◌≤◌, ◌<◌, ◌≡◌, refl, ◌∙◌, ap, sym, subst, Bool, true, false, List, [], ◌∷◌, ◌++◌,
  append_assoc, length, length-snoc, if◌then◌else◌, update, update_self, update-ne, arith,
  ℕ_discrete,
}
use cpp_concurrency_data_str.Base.Updates.{update_same}
use cpp_concurrency_data_str.Base.Sums.{sum, sum-update}
use cpp_concurrency_data_str.ThreadPool.{
  Worker, testing, popping, running, exited, ThreadPool, work_step,
}
use cpp_concurrency_data_str.ThreadPool.Lifetime.{
  Owner, starting, made, stopped, queue_destroyed, joining, gone, Lifetime, queue_lives, make,
  worked,
}

module _ {ℓ} {Task : Type ℓ} where
  -- A worker in a task.
  abbrev pub busy : Worker Task → ℕ
  busy (running task) = 1
  busy testing = 0
  busy popping = 0
  busy exited = 0

  -- The threads that are joined have exited.
  abbrev pub Joined : Owner → ℕ → (ℕ → Worker Task) → Type ℓ
  Joined (joining k) n threads = (i : ℕ) → i < k → threads i ≡ exited
  Joined gone n threads = (i : ℕ) → i < n → threads i ≡ exited
  Joined starting n threads = Unit
  Joined made n threads = Unit
  Joined stopped n threads = Unit
  Joined queue_destroyed n threads = Unit

  -- What a step of worker `i` does to the pool.
  pub record Worked (i : ℕ) (p q : ThreadPool Task) : Type ℓ where
    pub order : q.started ++ q.work_queue ≡ p.started ++ p.work_queue
    pub empty : p.work_queue ≡ [] → q.work_queue ≡ []
    pub next : Worker Task
    pub moves : q.threads ≡ update p.threads i next
    pub counts :
        length q.finished + busy next + length p.started
        ≡ length p.finished + busy (p.threads i) + length q.started
    pub stays : p.threads i ≡ exited → next ≡ exited

  pub work_step-Worked :
      (w : Worker Task) (i : ℕ) (p : ThreadPool Task)
      → p.threads i ≡ w
      → Worked i p (work_step w i p)
  unfolding work_step
  work_step-Worked testing i p at = record {
    order = refl;
    empty = λ e. e;
    next = if p.done then exited else popping;
    moves = refl;
    counts = idle p.done;
    stays = λ e. absurd (ground (arith, at, e));
  }
    where
      idle :
          (b : Bool)
          → length p.finished + busy (if b then exited else popping) + length p.started
            ≡ length p.finished + busy (p.threads i) + length p.started
      idle true = omega (arith, ap busy at)
      idle false = omega (arith, ap busy at)
  work_step-Worked popping i p at = go p.work_queue
    where
      go :
          (tasks : List Task)
          → Worked i
              (record p { work_queue = tasks })
              (work_step popping i (record p { work_queue = tasks }))
      go [] = record {
        order = refl;
        empty = λ e. e;
        next = testing;
        moves = refl;
        counts = omega (arith, ap busy at);
        stays = λ e. absurd (ground (arith, at, e));
      }
      go (task ∷ rest) = record {
        order = append_assoc p.started (task ∷ []) rest;
        empty = λ e. absurd (ground (arith, e));
        next = running task;
        moves = refl;
        counts = omega (arith, ap busy at, length-snoc p.started task);
        stays = λ e. absurd (ground (arith, at, e));
      }
  work_step-Worked (running task) i p at = record {
    order = refl;
    empty = λ e. e;
    next = testing;
    moves = refl;
    counts = omega (arith, ap busy at, length-snoc p.finished task);
    stays = λ e. absurd (ground (arith, at, e));
  }
  work_step-Worked exited i p at = record {
    order = refl;
    empty = λ e. e;
    next = exited;
    moves = sym (ap (update p.threads i) (sym at) ∙ update_same p.threads i);
    counts = omega (arith, ap busy at);
    stays = λ e. refl;
  }

  -- What holds throughout the life of a pool.
  pub record Inv (l : Lifetime Task) : Type ℓ where
    pub accounts : (l.pool.started ++ l.pool.work_queue) ++ l.broken ≡ l.submitted
    pub counts :
        length l.pool.finished + sum l.size (λ i. busy (l.pool.threads i)) ≡ length l.pool.started
    pub unborn : (i : ℕ) → l.size ≤ i → l.pool.threads i ≡ testing
    pub joined : Joined l.owner l.size l.pool.threads
    pub kept : queue_lives l.owner ≡ true → l.broken ≡ []
    pub drained : queue_lives l.owner ≡ false → l.pool.work_queue ≡ []

  pub make-Inv : Inv make
  make-Inv = record {
    accounts = refl;
    counts = refl;
    unborn = λ i h. refl;
    joined = tt;
    kept = λ e. refl;
    drained = λ e. absurd (ground arith);
  }

  still_exited :
      (i j : ℕ) (threads : ℕ → Worker Task) (w : Worker Task)
      → (threads i ≡ exited → w ≡ exited)
      → threads j ≡ exited
      → update threads i w j ≡ exited
  still_exited i j threads w stays at = elim (ℕ_discrete i j) [
    | yes e ↦ ap (update threads i w) (sym e) ∙ update_self threads i w ∙ stays (ap threads e ∙ at)
    | no ne ↦ update-ne threads i j w ne ∙ at
  ]

  Joined-update :
      (o : Owner) (n i : ℕ) (threads : ℕ → Worker Task) (w : Worker Task)
      → (threads i ≡ exited → w ≡ exited)
      → Joined o n threads
      → Joined o n (update threads i w)
  Joined-update (joining k) n i threads w stays joined =
      λ j lt. still_exited i j threads w stays (joined j lt)
  Joined-update gone n i threads w stays joined =
      λ j lt. still_exited i j threads w stays (joined j lt)
  Joined-update starting n i threads w stays joined = tt
  Joined-update made n i threads w stays joined = tt
  Joined-update stopped n i threads w stays joined = tt
  Joined-update queue_destroyed n i threads w stays joined = tt

  pub worked-Inv : (i : ℕ) (l : Lifetime Task) → i < l.size → Inv l → Inv (worked i l)
  worked-Inv i l lt inv =
      let p = l.pool in
      let step = work_step-Worked (p.threads i) i p refl in
      record {
        accounts = ap (λ k. k ++ l.broken) step.order ∙ inv.accounts;
        counts = omega (
          arith,
          inv.counts,
          step.counts,
          ap (λ f. sum l.size (λ j. busy (f j))) step.moves,
          sum-update busy l.size i p.threads step.next lt,
        );
        unborn = λ j h.
            ap (λ f. f j) step.moves
            ∙ update-ne p.threads i j step.next (λ e. omega arith)
            ∙ inv.unborn j h;
        joined =
            subst (Joined l.owner l.size) (sym step.moves)
              (Joined-update l.owner l.size i p.threads step.next step.stays inv.joined);
        kept = inv.kept;
        drained = λ e. step.empty (inv.drained e);
      }
