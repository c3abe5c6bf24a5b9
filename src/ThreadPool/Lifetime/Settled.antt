-- ===== src/ThreadPool/Lifetime/Settled.antt =====
-- What becomes of the tasks and the workers of a ThreadPool.h by the end of its life.
use cpp_concurrency_data_str.Base.{
  ℕ, ◌<◌, ◌≡◌, ◌∙◌, ap, sym, subst, some, List, [], ◌++◌, append-nil, length, arith,
}
use cpp_concurrency_data_str.Base.Sums.{sum, sum-const}
use cpp_concurrency_data_str.ThreadPool.{Worker, exited}
use cpp_concurrency_data_str.ThreadPool.Lifetime.{gone, Lifetime, Event, queue_lives, make, run}
use cpp_concurrency_data_str.ThreadPool.Lifetime.Inv.{busy, Joined, Inv, make-Inv}
use cpp_concurrency_data_str.ThreadPool.Lifetime.Moves.{IfSound, run-Inv}

module _ {ℓ} {Task : Type ℓ} where
  none_busy :
      (n : ℕ) (threads : ℕ → Worker Task)
      → ((i : ℕ) → i < n → threads i ≡ exited)
      → sum n (λ i. busy (threads i)) ≡ 0
  none_busy n threads exits =
      omega (arith, sum-const n 0 (λ i. busy (threads i)) (λ i lt. ap busy (exits i lt)))

  -- In every schedule of the workers, the submissions and the owner in which no destroyed member is
  -- used, be it that the constructor ends or throws: once the joiner is done, all threads that were
  -- started have exited, as many tasks are finished as were started, the queue is empty, and every
  -- submitted task either was started or was destroyed with the queue, those that were started
  -- first, in the order of submission.
  pub gone_lem :
      (threads_num : ℕ) (es : List (Event Task)) (l : Lifetime Task)
      → run threads_num es make ≡ some l
      → l.owner ≡ gone
      → ((i : ℕ) → i < l.size → l.pool.threads i ≡ exited)
        × (length l.pool.finished ≡ length l.pool.started)
        × (l.pool.work_queue ≡ [])
        × (l.pool.started ++ l.broken ≡ l.submitted)
  gone_lem n es l ran at =
      let inv = subst (IfSound Inv) ran (run-Inv n es make make-Inv) in
      let exits = subst (λ o. Joined o l.size l.pool.threads) at inv.joined in
      let empty = inv.drained (ap queue_lives at) in
      (
        exits,
        omega (arith, inv.counts, none_busy l.size l.pool.threads exits),
        empty,
        ap (λ k. k ++ l.broken)
              (sym (append-nil l.pool.started) ∙ ap (l.pool.started ++◌) (sym empty))
            ∙ inv.accounts,
      )
