-- ===== src/BlockQueue/History.antt =====
-- What the threads on one BlockQueue.h receive, whatever the order of their actions.
use cpp_concurrency_data_str.Base.{
  ◌≡◌, refl, ◌∙◌, sym, ap, true, List, [], ◌∷◌, ◌++◌, append-nil, append_assoc, arith,
  if◌then◌else◌, Bool-cases, inl, inr,
}
use cpp_concurrency_data_str.BlockQueue.{
  BlockQueue, aborted, timed_out, Action, enqueues, finishes, aborts, enqueue, empty, abort, finish,
  received, act, run, dequeue,
}

module _ {ℓ} {A : Type ℓ} where
  -- The values that a list of actions enqueues.
  abbrev pub enqueued : List (Action A) → List A
  enqueued [] = []
  enqueued (enqueues val ∷ as') = val ∷ enqueued as'
  enqueued (finishes ∷ as') = enqueued as'
  enqueued (aborts ∷ as') = enqueued as'

  finish-history : (q : BlockQueue A) → q.queue ≡ received (finish q).0 ++ (finish q).1.queue
  unfolding finish
  finish-history q = ground arith

  -- What one action receives and leaves, for the values that come later.
  act-history :
      (a : Action A) (as' : List (Action A)) (q : BlockQueue A)
      → q.queue ++ enqueued (a ∷ as') ≡ (act a q).0 ++ ((act a q).1.queue ++ enqueued as')
  unfolding act
  act-history (enqueues val) as' q = sym (append_assoc q.queue (val ∷ []) (enqueued as'))
  act-history finishes as' q =
      ap (λ l. l ++ enqueued as') (finish-history q)
      ∙ append_assoc (received (finish q).0) (finish q).1.queue (enqueued as')
  act-history aborts as' q = refl

  -- Whatever the threads do, in any order: what they receive and then what is left are what was there
  -- and then what was enqueued, in order.
  pub run_history :
      (as' : List (Action A)) (q : BlockQueue A)
      → q.queue ++ enqueued as' ≡ (run as' q).0 ++ (run as' q).1.queue
  unfolding run
  run_history [] q = append-nil q.queue
  run_history (a ∷ as') q =
      act-history a as' q
      ∙ ap (λ l. (act a q).0 ++ l) (run_history as' (act a q).1)
      ∙ sym (append_assoc (act a q).0 (run as' (act a q).1).0 (run as' (act a q).1).1.queue)

  -- If the abort flag is set, no thread receives a value, whatever they do; the flag stays set, and what
  -- was in the queue stays there, before what is enqueued.
  pub aborted_for_good :
      (as' : List (Action A)) (q : BlockQueue A)
      → q.abort_request ≡ true
      → ((run as' q).0 ≡ [])
        × ((run as' q).1.abort_request ≡ true)
        × ((run as' q).1.queue ≡ q.queue ++ enqueued as')
  unfolding run act
  aborted_for_good [] q e = (refl, e, sym (append-nil q.queue))
  aborted_for_good (enqueues val ∷ as') q e =
      let (a, b, c) = aborted_for_good as' (enqueue val q) e in
      (a, b, c ∙ append_assoc q.queue (val ∷ []) (enqueued as'))
  aborted_for_good (finishes ∷ as') q e =
      let stays : (received (finish q).0 ≡ []) × ((finish q).1 ≡ q) =
        unfold finish in ground arith in
      rw (stays.0, stays.1) (aborted_for_good as' q e)
  aborted_for_good (aborts ∷ as') q e = aborted_for_good as' (abort q) refl

  finish-outcome :
      (q : BlockQueue A)
      → ((finish q).1.abort_request ≡ true → (finish q).0 ≡ aborted)
        × ((finish q).0 ≡ aborted → (finish q).1.abort_request ≡ true)
        × ((finish q).0 ≡ timed_out → (finish q).1.queue ≡ [])
  unfolding finish
  finish-outcome q = ground arith

  -- `Dequeue`, whatever other threads do while it waits: what they receive, then what it receives,
  -- and then what is left are what was there and what came meanwhile; it returns -1 exactly if the
  -- abort flag is set when it returns, and 0 only if it leaves no value.
  pub dequeue_lem :
      (during : List (Action A)) (q : BlockQueue A)
      → let others = if empty q then (run during q).0 else [] in
        let came = if empty q then enqueued during else [] in
        let (out, q') = dequeue during q in
        (q.queue ++ came ≡ others ++ (received out ++ q'.queue))
        × (q'.abort_request ≡ true → out ≡ aborted)
        × (out ≡ aborted → q'.abort_request ≡ true)
        × (out ≡ timed_out → q'.queue ≡ [])
  unfolding dequeue
  dequeue_lem during q = elim (Bool-cases (empty q)) [
    | inl waits ↦
        let q' = (run during q).1 in
        let (a, b, c) = finish-outcome q' in
        rw waits
          (run_history during q ∙ ap (λ l. (run during q).0 ++ l) (finish-history q'), a, b, c)
    | inr goes ↦
        let (a, b, c) = finish-outcome q in rw goes (append-nil q.queue ∙ finish-history q, a, b, c)
  ]
