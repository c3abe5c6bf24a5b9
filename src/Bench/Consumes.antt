-- ===== src/Bench/Consumes.antt =====
-- The step of a consumer of other/4_test_lock_free_queue.cpp, over a queue that keeps its contract.
use cpp_concurrency_data_str.Base.{
  ℕ, ◌+◌, ◌≤◌, ◌≡◌, refl, ◌∙◌, ap, sym, subst, Bool, true, false, Option, none, some, List, [], ◌∷◌,
  ◌++◌, append_assoc, length, length-snoc, if◌then◌else◌, leb, arith,
}
use cpp_concurrency_data_str.Bench.Contract.{Dequeues, Accounts}
use cpp_concurrency_data_str.Bench.{
  Queue, Shared, Consumer, dequeuing, counting, testing, left, received, consume,
}

-- A consumer that has a value and has not counted it.
abbrev pub pending : Consumer → ℕ
pending (counting value) = 1
pending (dequeuing _) = 0
pending (testing _) = 0
pending (left _) = 0

-- A consumer that has left has seen that all values were counted.
abbrev pub LeftAt : ℕ → ℕ → Consumer → Type 0
LeftAt n count (left _) = n ≤ count
LeftAt n count (dequeuing _) = Unit
LeftAt n count (testing _) = Unit
LeftAt n count (counting _) = Unit

pub LeftAt-mono : (n a b : ℕ) (c : Consumer) → a ≤ b → LeftAt n a c → LeftAt n b c
LeftAt-mono n a b (left _) h l = omega arith
LeftAt-mono n a b (dequeuing _) h l = tt
LeftAt-mono n a b (testing _) h l = tt
LeftAt-mono n a b (counting _) h l = tt

module _ (Q : Queue) (contents : Q.State → List ℕ) (law : Dequeues Q contents) where
  -- The step of a consumer keeps the account of values, and counts each value once.
  pub record Consumed (n : ℕ) (c c' : Consumer) (h h' : Shared Q) : Type 0 where
    pub accounts : Accounts Q contents h → Accounts Q contents h'
    pub same_given : h'.given ≡ h.given
    pub counted :
        h'.s_count_pop + pending c' + length h.taken ≡ h.s_count_pop + pending c + length h'.taken
    pub grows : h.s_count_pop ≤ h'.s_count_pop
    pub leaves : LeftAt n h.s_count_pop c → LeftAt n h'.s_count_pop c'

  received-Consumed :
      (n : ℕ) (value : Option ℕ) (last : ℕ) (q' : Q.State) (h : Shared Q)
      → Q.try_dequeue h.queue ≡ (q', value)
      → let r = received Q value last (record h { queue = q' }) in
        Consumed n (dequeuing last) r.0 h r.1
  received-Consumed n none last q' h e = record {
    accounts = λ a.
        subst (λ l. h.taken ++ l ≡ h.given)
          (sym
            (ap contents (sym (ap (λ p. p.0) e)) ∙ law.try_dequeue-none h.queue (ap (λ p. p.1) e)))
          a;
    same_given = refl;
    counted = refl;
    grows = omega arith;
    leaves = λ l. tt;
  }
  received-Consumed n (some value) last q' h e = record {
    accounts = λ a.
        append_assoc h.taken (value ∷ []) (contents q')
        ∙ (ap (h.taken ++◌) (
              ap (value ∷◌) (ap contents (sym (ap (λ p. p.0) e)))
              ∙ sym (law.try_dequeue-some h.queue value (ap (λ p. p.1) e)))
            ∙ a);
    same_given = refl;
    counted = omega (arith, length-snoc h.taken value);
    grows = omega arith;
    leaves = λ l. tt;
  }

  pub consume-Consumed :
      (n : ℕ) (c : Consumer) (h : Shared Q) → Consumed n c (consume Q n c h).0 h (consume Q n c h).1
  unfolding consume
  consume-Consumed n (dequeuing last) h =
      received-Consumed n (Q.try_dequeue h.queue).1 last (Q.try_dequeue h.queue).0 h refl
  consume-Consumed n (counting value) h = record {
    accounts = λ a. a;
    same_given = refl;
    counted = omega arith;
    grows = omega arith;
    leaves = λ l. tt;
  }
  consume-Consumed n (testing last) h = go (leb n h.s_count_pop) (λ e. ground arith)
    where
      go :
          (b : Bool)
          → (b ≡ true → n ≤ h.s_count_pop)
          → Consumed n (testing last) (if b then left last else dequeuing last) h h
      go true f = record {
        accounts = λ a. a;
        same_given = refl;
        counted = refl;
        grows = omega arith;
        leaves = λ l. f refl;
      }
      go false f = record {
        accounts = λ a. a;
        same_given = refl;
        counted = refl;
        grows = omega arith;
        leaves = λ l. tt;
      }
  consume-Consumed n (left last) h = record {
    accounts = λ a. a;
    same_given = refl;
    counted = refl;
    grows = omega arith;
    leaves = λ l. l;
  }
