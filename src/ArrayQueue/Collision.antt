-- ===== src/ArrayQueue/Collision.antt =====
-- At a size that is no power of two the mask of other/LockFreeArrayQueue.h sends different indices
-- to one slot. LOCK_FREE_ARRAY_QUEUE_DEFAULT_SIZE is 65535, which its comment calls 2^16.
use Prim.Native.Nat.{bit_and-bitwise}
use cpp_concurrency_data_str.Base.{
  ℕ, zero, suc, ◌-◌, ◌≤◌, ◌<◌, ◌≡◌, ◌≢◌, refl, ◌∙◌, ap, sym, some, none, arith, true, false, leb,
  update, bit_and,
}
use cpp_concurrency_data_str.Base.Int.{ℤ, pos, ◌+ℤ◌, ◌-ℤ◌, eq_ℤ_of_ne}
use cpp_concurrency_data_str.ArrayQueue.{ArrayQueue, trans_index, is_full, make, init}
use cpp_concurrency_data_str.ArrayQueue.Cas.{
  loads_write, waits, compare_active, push_step, push_alone,
}

abbrev pub default_size : ℕ
default_size = 65535

first_mark : (size w : ℕ) → w < size → compare_active size (pos w) ≡ pos 0
unfolding compare_active
first_mark size w h = ground arith

first_slot : (size : ℕ) → trans_index size (pos 0) ≡ 0
unfolding trans_index
first_slot size = simp bit_and-bitwise refl

second_slot : (size : ℕ) → bit_and 1 (size - 1) ≡ 0 → trans_index size (pos 1) ≡ 0
unfolding trans_index
second_slot size drops = drops

module _ {ℓ} {A : Type ℓ} where
  -- A call that waits for a mark that is not there waits for ever.
  waits_on :
      (n : ℕ) (q : ArrayQueue A) (e : A) (w : ℤ)
      → q.active (trans_index q.max_size w) ≢ compare_active q.max_size w
      → push_alone n e (waits w) q ≡ (waits w, q)
  unfolding push_alone push_step
  waits_on zero q e w ne = refl
  waits_on (suc n) q e w ne = rw (eq_ℤ_of_ne _ _ ne) (waits_on n q e w ne)

  -- The queue after `Init` in CAS mode, and after one push.
  abbrev fresh : ℕ → ArrayQueue A
  fresh size = (init true true (pos 0) true size make).1

  abbrev pub one_pushed : ℕ → A → ArrayQueue A
  one_pushed size a = (push_alone 6 a loads_write (fresh size)).1

  -- The queue with `w` tickets taken and `a` in the first slot.
  abbrev pub one_value : ℕ → A → ℤ → ArrayQueue A
  one_value size a w = record {
    elements = update (λ i. none) 0 (some a);
    active = update (λ i. pos 0) 0 (pos 1);
    max_size = size;
    write_index = w;
    read_index = pos 0;
    cas = true;
  }

  abbrev no_value : ℕ → ArrayQueue A
  no_value size = record {
    elements = λ i. none;
    active = λ i. pos 0;
    max_size = size;
    write_index = pos 0;
    read_index = pos 0;
    cas = true;
  }

  fresh_lem : (size : ℕ) → 2 ≤ size → fresh size ≡ no_value size
  unfolding init
  fresh_lem size h = let large : leb size 1 ≡ false = ground arith in rw (fresh, init, large) refl

  not_full : (q : ArrayQueue A) (w : ℕ) → w < q.max_size → is_full q (pos w) (pos 0) ≡ false
  unfolding is_full ◌-ℤ◌
  not_full q w h = ground arith

  one_pushed_lem : (size : ℕ) (a : A) → 2 ≤ size → one_pushed size a ≡ one_value size a (pos 1)
  unfolding push_alone push_step ◌+ℤ◌
  one_pushed_lem size a h =
      ap (λ q. (push_alone 6 a loads_write q).1) (fresh_lem size h)
      ∙ rw
          (
            not_full (no_value size) 0 (omega arith),
            first_mark size 0 (omega arith),
            first_slot size,
          )
          refl

  -- At a size of at least two whose mask drops the last bit, as that of the default size does, a second
  -- push after the first takes a ticket and then waits: three steps or any more leave it waiting.
  pub second_push_spins :
      (size : ℕ) (a b : A) (n : ℕ)
      → 2 ≤ size
      → bit_and 1 (size - 1) ≡ 0
      → push_alone (suc (suc (suc n))) b loads_write (one_pushed size a)
        ≡ (waits (pos 1), one_value size a (pos 2))
  unfolding push_alone push_step ◌+ℤ◌
  second_push_spins size a b n h drops =
      rw (one_pushed_lem size a h, not_full (one_value size a (pos 1)) 1 (omega arith))
        (waits_on n (one_value size a (pos 2)) b (pos 1) different)
    where
      one_ne : pos 1 ≢ pos 0
      one_ne k = ground arith

      different :
          (one_value size a (pos 2)).active (trans_index size (pos 1)) ≢ compare_active size (pos 1)
      different e = one_ne (
          sym (ap (update (λ i. pos 0) 0 (pos 1)) (second_slot size drops))
          ∙ e
          ∙ first_mark size 1 (omega arith))
