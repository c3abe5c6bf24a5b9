-- ===== src/RingQueue/Holds.antt =====
-- What a ring queue of LockFreeQueue.h stands for: the values between its two counters, oldest first.
use native.Mathlib.Nat.{one-le-pow}
use cpp_concurrency_data_str.Base.{
  ℕ, ◌+◌, ◌-◌, ◌*◌, ◌%◌, ◌^◌, ◌≤◌, ◌<◌, ◌≡◌, ◌≢◌, ◌∙◌, ap, sym, some, List, arith, length,
  get_elem?, bit_and,
}
use cpp_concurrency_data_str.Base.Bits.{bit_and_mask, mod-mul-mod, add-mod-ne}
use cpp_concurrency_data_str.RingQueue.{word, Node, RingQueue, index}

module _ {ℓ} {A : Type ℓ} where
  -- A node that holds the value of ticket `k`, and one that waits for it.
  pub record IsFull (v : Node A) (k : ℕ) (x : A) : Type ℓ where
    pub item : v.item ≡ some x
    pub head : v.head ≡ k % word
    pub tail : v.tail ≡ k % word

  pub record IsFree (v : Node A) (k : ℕ) : Type 0 where
    pub tail : v.tail ≡ k % word
    pub head : v.head ≢ k % word

  -- `h` counts the pops so far without wrapping; `xs` are the values not yet popped.
  pub record Holds (q : RingQueue A) (h : ℕ) (xs : List A) : Type ℓ where
    pub log : ℕ
    pub blocks : ℕ
    pub mask_eq : q.capacity_mask ≡ 2 ^ log - 1
    pub capacity_eq : q.capacity ≡ 2 ^ log
    pub divides : 2 ^ log * blocks ≡ word
    pub blocks_gt : 1 < blocks
    pub head_eq : q.head ≡ h % word
    pub tail_eq : q.tail ≡ (h + length xs) % word
    pub fits : length xs ≤ q.capacity
    pub full :
        (i : ℕ) (x : A)
        → get_elem? xs i ≡ some x
        → IsFull (q.nodes ((h + i) % q.capacity)) (h + i) x
    pub free :
        (i : ℕ) → length xs ≤ i → i < q.capacity → IsFree (q.nodes ((h + i) % q.capacity)) (h + i)

  module _ {q : RingQueue A} {h : ℕ} {xs : List A} (v : Holds q h xs) where
    open v use {log, blocks, mask_eq, capacity_eq, divides}

    -- The masked index of a wrapped counter is the remainder of the counter by the capacity.
    pub index-eq : (k : ℕ) → index q (k % word) ≡ k % q.capacity
    index-eq k =
        ap (bit_and (k % word)) mask_eq
        ∙ bit_and_mask log (k % word)
        ∙ ap (λ w. k % w % 2 ^ log) (sym divides)
        ∙ mod-mul-mod k (2 ^ log) blocks
        ∙ ap (λ c. k % c) (sym capacity_eq)

    pub capacity_pos : 0 < q.capacity
    capacity_pos = omega (arith, capacity_eq, one-le-pow log 2)

    pub capacity_lt : q.capacity + q.capacity ≤ word
    capacity_lt = grind (arith, v.blocks_gt, divides, capacity_eq)

    -- Tickets less than a capacity apart have different nodes.
    pub node_ne :
        (i j : ℕ) → i < j → j < i + q.capacity → (h + j) % q.capacity ≢ (h + i) % q.capacity
    node_ne i j lt near e =
        add-mod-ne (h + i) (j - i) q.capacity (omega arith) (omega arith)
          (ap (λ t. t % q.capacity) (omega arith) ∙ e)

    -- Tickets less than a word apart have different counters.
    pub ticket_ne : (i j : ℕ) → i < j → j < i + word → j % word ≢ i % word
    ticket_ne i j lt near e =
        add-mod-ne i (j - i) word (omega arith) (omega arith) (ap (λ t. t % word) (omega arith) ∙ e)
