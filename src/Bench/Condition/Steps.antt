-- ===== src/Bench/Condition/Steps.antt =====
-- The steps of the producer that notifies in other/4_test_lock_free_queue.cpp.
use cpp_concurrency_data_str.Base.{
  ℕ, suc, ◌+◌, ◌-◌, ◌*◌, ◌≤◌, ◌≡◌, refl, Bool, true, false, Bool-cases, if◌then◌else◌, ltb, arith,
  inl, inr,
}
use cpp_concurrency_data_str.Bench.Producers.{Ypipe}
use cpp_concurrency_data_str.Bench.Condition.{
  Producer, writing, adding, reading, flushing, notifying, ending, waiting, Conditional, produce,
}

module _ (Y : Ypipe) (n : ℕ) where
  -- The steps that the producer makes at most before it leaves.
  abbrev pub to_leave : Producer → ℕ
  to_leave (writing i count) = 5 * (n - i) + 2
  to_leave (adding i) = 5 * (n - (i + 1)) + 6
  to_leave (reading i) = 5 * (n - (i + 1)) + 5
  to_leave (flushing i count) = 5 * (n - i) + 4
  to_leave (notifying i count) = 5 * (n - i) + 3
  to_leave ending = 1
  to_leave Producer.left = 0

  pub left_of_none : (p : Producer) → to_leave p ≡ 0 → p ≡ Producer.left
  left_of_none (writing i count) h = absurd (omega arith)
  left_of_none (adding i) h = absurd (omega arith)
  left_of_none (reading i) h = absurd (omega arith)
  left_of_none (flushing i count) h = absurd (omega arith)
  left_of_none (notifying i count) h = absurd (omega arith)
  left_of_none ending h = absurd (omega arith)
  left_of_none Producer.left h = refl

  pub produce-to_leave :
      (p : Producer) (s : Conditional Y)
      → s.producer ≡ p
      → to_leave (produce Y n p s).producer ≤ to_leave p - 1
  unfolding produce
  produce-to_leave (writing i count) s at = elim (Bool-cases (ltb i n)) [
    | inl e ↦ rw e (fewer (ground arith))
    | inr e ↦ rw e (omega arith)
  ]
    where
      fewer : suc i ≤ n → 5 * (n - (i + 1)) + 6 ≤ 5 * (n - i) + 2 - 1
      fewer h = omega arith
  produce-to_leave (adding i) s at = omega arith
  produce-to_leave (reading i) s at = omega arith
  produce-to_leave (flushing i count) s at = go (Y.flush s.yqueue).1
    where
      go :
          (b : Bool)
          → to_leave (if b then writing i count else notifying i count) ≤ 5 * (n - i) + 4 - 1
      go true = omega arith
      go false = omega arith
  produce-to_leave (notifying i count) s at = omega arith
  produce-to_leave ending s at = omega arith
  produce-to_leave Producer.left s at = rw at (omega arith)

  -- A notification leaves a consumer that is about to wait where it is.
  pub produce-waiting :
      (p : Producer) (v : ℕ) (s : Conditional Y)
      → s.consumer ≡ waiting v
      → (produce Y n p s).consumer ≡ waiting v
  unfolding produce
  produce-waiting (writing i count) v s at = elim (Bool-cases (ltb i n)) [
    | inl e ↦ rw e at
    | inr e ↦ rw e at
  ]
  produce-waiting (adding i) v s at = at
  produce-waiting (reading i) v s at = at
  produce-waiting (flushing i count) v s at = at
  produce-waiting (notifying i count) v s at = rw at refl
  produce-waiting ending v s at = rw at refl
  produce-waiting Producer.left v s at = at

  -- The values that the producer will still count.
  abbrev pub owed : Producer → ℕ
  owed (writing i count) = n - i
  owed (adding i) = n - (i + 1) + 1
  owed (reading i) = n - (i + 1)
  owed (flushing i count) = n - i
  owed (notifying i count) = n - i
  owed ending = 0
  owed Producer.left = 0

  pub produce-owed :
      (p : Producer) (s : Conditional Y)
      → s.producer ≡ p
      → (produce Y n p s).s_count_push + owed (produce Y n p s).producer ≡ s.s_count_push + owed p
  unfolding produce
  produce-owed (writing i count) s at = elim (Bool-cases (ltb i n)) [
    | inl e ↦ rw e (same (ground arith))
    | inr e ↦ rw e (none_owed (ground arith))
  ]
    where
      same : suc i ≤ n → s.s_count_push + (n - (i + 1) + 1) ≡ s.s_count_push + (n - i)
      same h = omega arith

      none_owed : n ≤ i → s.s_count_push + 0 ≡ s.s_count_push + (n - i)
      none_owed h = omega arith
  produce-owed (adding i) s at = omega arith
  produce-owed (reading i) s at = omega arith
  produce-owed (flushing i count) s at = go (Y.flush s.yqueue).1
    where
      go :
          (b : Bool)
          → s.s_count_push + owed (if b then writing i count else notifying i count)
            ≡ s.s_count_push + (n - i)
      go true = refl
      go false = refl
  produce-owed (notifying i count) s at = refl
  produce-owed ending s at = refl
  produce-owed Producer.left s at = rw at refl

  pub produce-pop :
      (p : Producer) (s : Conditional Y) → (produce Y n p s).s_count_pop ≡ s.s_count_pop
  unfolding produce
  produce-pop (writing i count) s = elim (Bool-cases (ltb i n)) [
    | inl e ↦ rw e refl
    | inr e ↦ rw e refl
  ]
  produce-pop (adding i) s = refl
  produce-pop (reading i) s = refl
  produce-pop (flushing i count) s = refl
  produce-pop (notifying i count) s = refl
  produce-pop ending s = refl
  produce-pop Producer.left s = refl
