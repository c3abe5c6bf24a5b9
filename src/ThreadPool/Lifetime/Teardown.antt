-- ===== src/ThreadPool/Lifetime/Teardown.antt =====
-- What the destruction of a ThreadPool.h does to workers that still run, and how it ends.
use cpp_concurrency_data_str.Base.{
  replicate, ℕ, zero, suc, ◌+◌, ◌<◌, ◌≡◌, refl, ◌∙◌, ap, true, false, none, some, List, [], ◌∷◌,
  update_self, ltb, arith,
}
use cpp_concurrency_data_str.ThreadPool.{Worker, testing, popping, running, exited, work_step, stop}
use cpp_concurrency_data_str.ThreadPool.Lifetime.{
  Owner, made, stopped, queue_destroyed, joining, gone, Lifetime, Event, works, destroys, tears,
  can_work, has_exited, worked, destroy, tear, happens, run,
}

module _ {ℓ} {Task : Type ℓ} where
  -- The worker's step after a member that it uses is destroyed.
  works-none :
      (n i : ℕ) (l : Lifetime Task)
      → i < l.size
      → can_work (l.pool.threads i) l.owner ≡ false
      → happens n (works i) l ≡ none
  unfolding happens
  works-none n i l lt no_member = rw (ltb_of_lt lt, no_member) refl
    where
      ltb_of_lt : i < l.size → ltb i l.size ≡ true
      ltb_of_lt h = ground arith

  run_one :
      (n : ℕ) (e : Event Task) (l : Lifetime Task) → happens n e l ≡ none → run n (e ∷ []) l ≡ none
  unfolding run
  run_one n e l h = rw h refl

  pub works-some :
      (n i : ℕ) (l : Lifetime Task)
      → i < l.size
      → can_work (l.pool.threads i) l.owner ≡ true
      → happens n (works i) l ≡ some (worked i l)
  unfolding happens
  works-some n i l lt member = rw (ltb_of_lt lt, member) refl
    where
      ltb_of_lt : i < l.size → ltb i l.size ≡ true
      ltb_of_lt h = ground arith

  worked-running :
      (i : ℕ) (task : Task) (l : Lifetime Task)
      → l.pool.threads i ≡ running task
      → (worked i l).pool.threads i ≡ testing
  unfolding work_step
  worked-running i task l stands =
      ap (λ w. (work_step w i l.pool).threads i) stands ∙ update_self l.pool.threads i testing

  pub run_next :
      (n : ℕ) (e : Event Task) (es : List (Event Task)) (l k : Lifetime Task)
      → happens n e l ≡ some k
      → run n (e ∷ es) l ≡ run n es k
  unfolding run
  run_next n e es l k h = rw h refl

  -- The pool after the destructor's body and the destruction of the queue.
  abbrev without_queue : Lifetime Task → Lifetime Task
  without_queue l = tear stopped (record l { pool = stop l.pool; owner = stopped })

  destroys_lem :
      (n : ℕ) (l : Lifetime Task) (es : List (Event Task))
      → l.owner ≡ made
      → run n (destroys ∷ tears ∷ es) l ≡ run n es (without_queue l)
  unfolding run happens
  destroys_lem n l es at = ap (λ o. run n (tears ∷ es) (destroy o l)) at

  -- The pool when the joiner has begun to join.
  abbrev without_done : Lifetime Task → Lifetime Task
  without_done l = record (without_queue l) { owner = joining 0 }

  tears_lem :
      (n : ℕ) (l : Lifetime Task) (es : List (Event Task))
      → l.owner ≡ made
      → run n (destroys ∷ tears ∷ tears ∷ es) l ≡ run n es (without_done l)
  unfolding run happens
  tears_lem n l es at = destroys_lem n l (tears ∷ es) at

  -- What the threads do, by where worker `i` stands: the destructor runs up to where the worker's next
  -- member is gone, and then the worker goes on.
  abbrev pub too_early : Worker Task → ℕ → List (Event Task)
  too_early popping i = destroys ∷ tears ∷ works i ∷ []
  too_early testing i = destroys ∷ tears ∷ tears ∷ works i ∷ []
  too_early (running task) i = destroys ∷ tears ∷ tears ∷ works i ∷ works i ∷ []
  too_early exited i = []

  use_from :
      (n i : ℕ) (l : Lifetime Task) (w : Worker Task)
      → l.owner ≡ made
      → i < l.size
      → l.pool.threads i ≡ w
      → has_exited w ≡ false
      → run n (too_early w i) l ≡ none
  use_from n i l popping at lt stands h =
      destroys_lem n l (works i ∷ []) at
      ∙ run_one n (works i) (without_queue l)
          (works-none n i (without_queue l) lt (ap (λ w. can_work w queue_destroyed) stands))
  use_from n i l testing at lt stands h =
      tears_lem n l (works i ∷ []) at
      ∙ run_one n (works i) (without_done l)
          (works-none n i (without_done l) lt (ap (λ w. can_work w (joining 0)) stands))
  use_from n i l (running task) at lt stands h =
      tears_lem n l (works i ∷ works i ∷ []) at
      ∙ run_next n (works i) (works i ∷ []) (without_done l) (worked i (without_done l))
          (works-some n i (without_done l) lt (ap (λ w. can_work w (joining 0)) stands))
      ∙ run_one n (works i) (worked i (without_done l)) (
          works-none n i (worked i (without_done l)) lt
            (ap (λ w. can_work w (joining 0)) (worked-running i task (without_done l) stands)))
  use_from n i l exited at lt stands h = absurd (ground (arith, h))

  -- For every pool that is made and every started worker that has not left its loop, there is a
  -- schedule in which the destructor destroys the queue, or also `done`, before that worker uses it:
  -- if the worker is about to pop, it goes on after the queue is destroyed, and otherwise, from its
  -- test or its task, after `done` is, while the joiner waits for it.
  pub use_after_destroy :
      (threads_num i : ℕ) (l : Lifetime Task)
      → l.owner ≡ made
      → i < l.size
      → has_exited (l.pool.threads i) ≡ false
      → run threads_num (too_early (l.pool.threads i) i) l ≡ none
  use_after_destroy n i l at lt h = use_from n i l (l.pool.threads i) at lt refl h

  tears_at :
      (n : ℕ) (l : Lifetime Task) (o : Owner) → l.owner ≡ o → happens n tears l ≡ some (tear o l)
  unfolding happens
  tears_at n l o at = ap (λ o. some (tear o l)) at

  -- The joins, one by one, of threads that have exited.
  joins_lem :
      (n m k : ℕ) (l : Lifetime Task)
      → l.owner ≡ joining k
      → k + m ≡ l.size
      → ((i : ℕ) → i < l.size → l.pool.threads i ≡ exited)
      → run n (replicate (suc m) tears) l ≡ some (record l { owner = gone })
  unfolding run
  joins_lem n zero k l at sums exits =
      run_next n tears [] l (record l { owner = gone }) (tears_at n l (joining k) at ∙ last)
      ∙ nothing (record l { owner = gone })
    where
      ends : ltb k l.size ≡ false
      ends = ground (arith, sums)

      last : some (tear (joining k) l) ≡ some (record l { owner = gone })
      last = rw ends refl

      nothing : (l : Lifetime Task) → run n [] l ≡ some l
      nothing l = refl
  joins_lem n (suc m) k l at sums exits =
      run_next n tears (replicate (suc m) tears) l (record l { owner = joining (suc k) })
        (tears_at n l (joining k) at ∙ next)
      ∙ joins_lem n m (suc k) (record l { owner = joining (suc k) }) refl (omega (arith, sums))
          exits
    where
      goes : ltb k l.size ≡ true
      goes = ground (arith, sums)

      next : some (tear (joining k) l) ≡ some (record l { owner = joining (suc k) })
      next = rw (goes, exits k (omega (arith, sums))) refl

  -- Once the destructor has set `done` and all started threads have exited, the destruction ends, with
  -- two steps and one more than there are threads: no destroyed member is used, the tasks still in
  -- the queue are those whose futures are broken, and nothing else changes.
  pub teardown_ends :
      (threads_num : ℕ) (l : Lifetime Task)
      → l.owner ≡ stopped
      → ((i : ℕ) → i < l.size → l.pool.threads i ≡ exited)
      → run threads_num (tears ∷ tears ∷ replicate (suc l.size) tears) l
        ≡ some (record l {
          pool = record l.pool { work_queue = [] };
          owner = gone;
          broken = l.pool.work_queue;
        })
  unfolding run happens
  teardown_ends n l at exits =
      ap (λ o. run n (tears ∷ replicate (suc l.size) tears) (tear o l)) at
      ∙ joins_lem n l.size 0 (record (tear stopped l) { owner = joining 0 }) refl (omega arith)
          exits
