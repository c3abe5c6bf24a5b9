-- ===== src/Bench/Mutex/Drains.antt =====
-- How the threads around the std::list of other/4_test_lock_free_queue.cpp come to an end.
use cpp_concurrency_data_str.Base.{
  ℕ, zero, suc, ◌+◌, ◌-◌, ◌*◌, ◌≤◌, ◌≡◌, ◌≢◌, refl, sym, subst, true, Bool-cases, List, [], ◌∷◌,
  length, if◌then◌else◌, update, update_self, update-ne, ltb, leb, ◌==◌, arith, inl, inr,
}
use cpp_concurrency_data_str.Bench.{Settings, Event, produces, consumes}
use cpp_concurrency_data_str.Bench.Mutex.{
  Producer, looping, Consumer, locking, testing, MutexQueue, produce, total, take, consume,
}

-- How many steps of consumer `j` a schedule has.
abbrev pub turns : ℕ → List Event → ℕ
turns j [] = 0
turns j (produces i ∷ es) = turns j es
turns j (consumes k ∷ es) = (if k == j then 1 else 0) + turns j es

-- The steps that a consumer makes at most with `n` values in the list.
abbrev pub to_exit : Consumer → ℕ → ℕ
to_exit (Consumer.left _) n = 0
to_exit (locking _) n = 2 * n + 2
to_exit (testing _) zero = 1
to_exit (testing _) (suc n) = 2 * n + 5

pub to_exit_mono : (p : Consumer) (n m : ℕ) → n ≤ m → to_exit p n ≤ to_exit p m
to_exit_mono (Consumer.left _) n m h = omega arith
to_exit_mono (locking _) n m h = omega arith
to_exit_mono (testing _) zero zero h = omega arith
to_exit_mono (testing _) zero (suc m) h = omega arith
to_exit_mono (testing _) (suc n) zero h = absurd (omega arith)
to_exit_mono (testing _) (suc n) (suc m) h = omega arith

pub to_exit-le : (p : Consumer) (n : ℕ) → to_exit p n ≤ 2 * n + 3
to_exit-le (Consumer.left _) n = omega arith
to_exit-le (locking _) n = omega arith
to_exit-le (testing _) zero = omega arith
to_exit-le (testing _) (suc n) = omega arith

-- Where a consumer is that has left.
abbrev pub HasLeft : Consumer → Type 0
HasLeft p = (last_value : ℕ) × (p ≡ Consumer.left last_value)

pub at_exit : (p : Consumer) (n : ℕ) → to_exit p n ≡ 0 → HasLeft p
at_exit (Consumer.left v) n h = (v, refl)
at_exit (locking v) n h = absurd (omega arith)
at_exit (testing v) zero h = absurd (omega arith)
at_exit (testing v) (suc n) h = absurd (omega arith)

module _ (c : Settings) where
  -- The producers have made all their turns.
  abbrev pub AllPushed : MutexQueue → Type 0
  AllPushed s = s.s_count_push ≡ total c

  abbrev pub remaining : MutexQueue → ℕ
  remaining s = length s.s_list

  -- The counters only grow.
  pub record Grows (s t : MutexQueue) : Type 0 where
    pub pushes : s.s_count_push ≤ t.s_count_push
    pub pops : s.s_count_pop ≤ t.s_count_pop

  take-Grows : (l : List ℕ) (v j : ℕ) (s : MutexQueue) → Grows s (take c l v j s)
  take-Grows [] v j s = record { pushes = omega arith; pops = omega arith }
  take-Grows (x ∷ l) v j s = record { pushes = omega arith; pops = omega arith }

  pub consume-Grows : (p : Consumer) (j : ℕ) (s : MutexQueue) → Grows s (consume c p j s)
  unfolding consume
  consume-Grows (locking v) j s = take-Grows s.s_list v j s
  consume-Grows (testing v) j s = record { pushes = omega arith; pops = omega arith }
  consume-Grows (Consumer.left v) j s = record { pushes = omega arith; pops = omega arith }

  pub produce-Grows : (p : Producer) (i : ℕ) (s : MutexQueue) → Grows s (produce c p i s)
  unfolding produce
  produce-Grows (looping k) i s = elim (Bool-cases (ltb k c.s_queue_item_num)) [
    | inl e ↦ rw e (record { pushes = omega arith; pops = omega arith })
    | inr e ↦ rw e (record { pushes = omega arith; pops = omega arith })
  ]
  produce-Grows Producer.left i s = record { pushes = omega arith; pops = omega arith }

  pub produce-consumers :
      (p : Producer) (i j : ℕ) (s : MutexQueue) → (produce c p i s).consumers j ≡ s.consumers j
  unfolding produce
  produce-consumers (looping k) i j s = elim (Bool-cases (ltb k c.s_queue_item_num)) [
    | inl e ↦ rw e refl
    | inr e ↦ rw e refl
  ]
  produce-consumers Producer.left i j s = refl

  pub consume-other :
      (p : Consumer) (k j : ℕ) (s : MutexQueue)
      → k ≢ j
      → (consume c p k s).consumers j ≡ s.consumers j
  unfolding consume
  consume-other (locking v) k j s ne = go s.s_list
    where
      go : (l : List ℕ) → (take c l v k s).consumers j ≡ s.consumers j
      go [] = update-ne s.consumers k j (testing v) ne
      go (x ∷ l) = update-ne s.consumers k j (testing x) ne
  consume-other (testing v) k j s ne = update-ne s.consumers k j _ ne
  consume-other (Consumer.left v) k j s ne = refl

  at_self :
      (f : ℕ → Consumer) (j : ℕ) (p : Consumer) (n m : ℕ)
      → to_exit p n ≤ m
      → to_exit (update f j p j) n ≤ m
  at_self f j p n m h = subst (λ q. to_exit q n ≤ m) (sym (update_self f j p)) h

  -- The test for the end, with `n` values in the list.
  tested :
      (v count n : ℕ)
      → count + n ≡ total c
      → to_exit (if leb (total c) count then Consumer.left v else locking v) n
        ≤ to_exit (testing v) n - 1
  tested v count zero all = rw (leb_of_le (omega arith)) (omega arith)
    where
      leb_of_le : total c ≤ count → leb (total c) count ≡ true
      leb_of_le h = ground arith
  tested v count (suc n) all = elim (Bool-cases (leb (total c) count)) [
    | inl e ↦ absurd (beyond (ground arith))
    | inr e ↦ rw e (omega arith)
  ]
    where
      beyond : total c ≤ count → ⊥
      beyond h = omega arith

  -- A consumer's own step brings it nearer to its end once all values are pushed.
  pub consume-to_exit :
      (p : Consumer) (j : ℕ) (s : MutexQueue)
      → s.consumers j ≡ p
      → s.s_count_pop + length s.s_list ≡ total c
      → to_exit ((consume c p j s).consumers j) (length (consume c p j s).s_list)
        ≤ to_exit p (length s.s_list) - 1
  unfolding consume
  consume-to_exit (locking v) j s at all = go s.s_list refl
    where
      go :
          (l : List ℕ)
          → s.s_list ≡ l
          → to_exit ((take c l v j s).consumers j) (length (take c l v j s).s_list)
            ≤ to_exit (locking v) (length l) - 1
      go [] e =
          at_self s.consumers j (testing v) (length s.s_list) 1
            (subst (λ l. to_exit (testing v) (length l) ≤ 1) (sym e) (omega arith))
      go (x ∷ l) e =
          at_self s.consumers j (testing x) (length l) (2 * suc (length l) + 2 - 1)
            (omega (arith, to_exit-le (testing x) (length l)))
  consume-to_exit (testing v) j s at all =
      at_self s.consumers j (if leb (total c) s.s_count_pop then Consumer.left v else locking v)
        (length s.s_list) (to_exit (testing v) (length s.s_list) - 1)
        (tested v s.s_count_pop (length s.s_list) all)
  consume-to_exit (Consumer.left v) j s at all = rw at (omega arith)
