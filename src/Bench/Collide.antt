-- ===== src/Bench/Collide.antt =====
-- What the two accesses of `lxx_atomic_add` return to the producers of
-- other/4_test_lock_free_queue.cpp.
use cpp_concurrency_data_str.Base.{
  ℕ, ◌+◌, ◌<◌, ◌≡◌, ◌≢◌, refl, ◌∙◌, ap, sym, subst, Bool, true, List, [], ◌∷◌, update, update_self,
  update-ne, ltb, arith,
}
use cpp_concurrency_data_str.Bench.Producers.{
  Counted, count_then_enqueue, lockfreequeue_producer_thread,
}
use cpp_concurrency_data_str.Bench.{Queue, Event, produces, Bench, Settings, happens, run}

module _ (Q : Queue) (enqueue : ℕ → Q.State → Bool × Q.State) (c : Settings) where
  abbrev N : ℕ
  N = c.s_queue_item_num

  -- The two producers add, and then both read what the function returns.
  abbrev pub both : ℕ → ℕ → List Event
  both i j = produces i ∷ produces j ∷ produces i ∷ produces j ∷ []

  ltb_of_lt : (a b : ℕ) → a < b → ltb a b ≡ true
  ltb_of_lt a b h = ground arith

  abbrev Threads : Type 0
  Threads = Bench Q (lockfreequeue_producer_thread Q enqueue N)

  abbrev turn : ℕ → Threads → Threads
  turn i s = happens Q (lockfreequeue_producer_thread Q enqueue N) c (produces i) s

  -- A producer's two steps.
  abbrev adds : ℕ → ℕ → Threads → Threads
  adds i a s = record s {
    shared = record s.shared { s_count_push = s.shared.s_count_push + 1 };
    producers = update s.producers i (Counted.reading a);
  }

  abbrev reads : ℕ → ℕ → Threads → Threads
  reads i a s = record s {
    producers = update s.producers i (Counted.enqueuing a s.shared.s_count_push);
  }

  -- A producer's turn, from where it stands.
  turn_at :
      (i : ℕ) (s : Threads) (p : Counted Q enqueue N)
      → i < c.s_producer_thread_num
      → s.producers i ≡ p
      → turn i s ≡ record s {
        shared = (count_then_enqueue Q enqueue N p s.shared).1;
        producers = update s.producers i (count_then_enqueue Q enqueue N p s.shared).0;
      }
  unfolding happens
  turn_at i s p lt at = rw (ltb_of_lt i c.s_producer_thread_num lt) (
      ap
        (λ p. record s {
          shared = (count_then_enqueue Q enqueue N p s.shared).1;
          producers = update s.producers i (count_then_enqueue Q enqueue N p s.shared).0;
        })
        at)

  turn-adds :
      (i a : ℕ) (s : Threads)
      → i < c.s_producer_thread_num
      → a < N
      → s.producers i ≡ Counted.looping a
      → turn i s ≡ adds i a s
  unfolding count_then_enqueue
  turn-adds i a s lt more at = turn_at i s (Counted.looping a) lt at ∙ rw (ltb_of_lt a N more) refl

  turn-reads :
      (i a : ℕ) (s : Threads)
      → i < c.s_producer_thread_num
      → s.producers i ≡ Counted.reading a
      → turn i s ≡ reads i a s
  unfolding count_then_enqueue
  turn-reads i a s lt at = turn_at i s (Counted.reading a) lt at

  -- Whenever two different producers stand at the top of their loops with turns left to make, both may
  -- add before either reads: then both go on with the same number, two more than the counter was, as
  -- the value to enqueue, and neither with the one in between.
  pub adds_collide :
      (i j a b : ℕ) (s : Threads)
      → i ≢ j
      → i < c.s_producer_thread_num
      → j < c.s_producer_thread_num
      → a < N
      → b < N
      → s.producers i ≡ Counted.looping a
      → s.producers j ≡ Counted.looping b
      → let t = run Q (lockfreequeue_producer_thread Q enqueue N) c (both i j) s in
        (t.producers i ≡ Counted.enqueuing a (s.shared.s_count_push + 2))
        × (t.producers j ≡ Counted.enqueuing b (s.shared.s_count_push + 2))
  unfolding run
  adds_collide i j a b s ne i_lt j_lt a_lt b_lt at_i at_j =
      let s1 = adds i a s in
      let s2 = adds j b s1 in
      let s3 = reads i a s2 in
      let s4 = reads j b s3 in
      let ne' = λ (e : j ≡ i). ne (sym e) in
      let i_reads =
        update-ne s1.producers j i (Counted.reading b) ne'
        ∙ update_self s.producers i (Counted.reading a) in
      let j_reads =
        update-ne s2.producers i j (Counted.enqueuing a s2.shared.s_count_push) ne
        ∙ update_self s1.producers j (Counted.reading b) in
      let e1 = turn-adds i a s i_lt a_lt at_i in
      let e2 =
        turn-adds j b s1 j_lt b_lt (update-ne s.producers i j (Counted.reading a) ne ∙ at_j) in
      let e3 = turn-reads i a s2 i_lt i_reads in
      let e4 = turn-reads j b s3 j_lt j_reads in
      subst
        (λ t.
          (t.producers i ≡ Counted.enqueuing a (s.shared.s_count_push + 2))
          × (t.producers j ≡ Counted.enqueuing b (s.shared.s_count_push + 2)))
        (sym (
          ap (λ t. turn j (turn i (turn j t))) e1
          ∙ ap (λ t. turn j (turn i t)) e2
          ∙ ap (turn j) e3
          ∙ e4))
        (
          update-ne s3.producers j i (Counted.enqueuing b s3.shared.s_count_push) ne'
              ∙ update_self s2.producers i (Counted.enqueuing a s2.shared.s_count_push)
              ∙ ap (Counted.enqueuing a) (two s.shared.s_count_push),
          update_self s3.producers j (Counted.enqueuing b s3.shared.s_count_push)
              ∙ ap (Counted.enqueuing b) (two s.shared.s_count_push),
        )
    where
      two : (m : ℕ) → m + 1 + 1 ≡ m + 2
      two m = omega arith
