-- ===== src/RingQueue/Make.antt =====
-- The constructor of LockFreeQueue.h: the requested capacity is rounded up to a power of two.
use native.Mathlib.Nat.{one-le-pow, pow-suc, mod-eq_of_lt}
use cpp_concurrency_data_str.Base.{
  ℕ, zero, suc, ◌+◌, ◌-◌, ◌*◌, ◌/◌, ◌%◌, ◌^◌, ◌≤◌, ◌<◌, ◌≡◌, refl, ap, ◌∙◌, sym, arith, bit_or, [],
}
use cpp_concurrency_data_str.Base.Ones.{
  IsFilled, IsFilled-bit_or, eq_of_IsFilled, digits_of, two_pow-add, two_pow-le_of_bit,
}
use cpp_concurrency_data_str.RingQueue.{word, RingQueue, widen, make}
use cpp_concurrency_data_str.RingQueue.Holds.{IsFree, Holds}

-- one round of the loop
smear : ℕ → ℕ → ℕ
smear i mask = bit_or mask (mask / 2 ^ i)

-- The loop makes the rounds 1, 2, 4, 8, 16 and 32, and ends by its test.
widen_rounds : (m : ℕ) → widen 7 1 m ≡ smear 32 (smear 16 (smear 8 (smear 4 (smear 2 (smear 1 m)))))
unfolding widen smear
widen_rounds m = refl

widen-IsFilled : (k m : ℕ) → IsFilled k 1 m → k ≤ 64 → widen 7 1 m ≡ 2 ^ k - 1
unfolding smear
widen-IsFilled k m f small =
    widen_rounds m
    ∙ eq_of_IsFilled k 64 _ small (
        IsFilled-bit_or k 32 _ (
          IsFilled-bit_or k 16 _ (
            IsFilled-bit_or k 8 _
              (IsFilled-bit_or k 4 _ (IsFilled-bit_or k 2 _ (IsFilled-bit_or k 1 m f))))))

ap_lt : (e : ℕ) → 0 < e → 1 < 2 ^ e
ap_lt zero h = absurd (omega arith)
ap_lt (suc e) h = omega (arith, pow-suc 2 e, one-le-pow e 2)

two_pow-le_of_IsFilled : (k x : ℕ) → IsFilled k 1 x → 2 ^ k ≤ 2 * x + 1
two_pow-le_of_IsFilled zero x f = omega arith
two_pow-le_of_IsFilled (suc k) x f =
    omega (arith, pow-suc 2 k, two_pow-le_of_bit k x (f.ones k (omega arith) (omega arith)))

module _ {ℓ} (A : Type ℓ) (capacity : ℕ) (positive : 0 < capacity) (small : capacity ≤ 2 ^ 63) where
  -- The number of digits of `capacity - 1`.
  log : (k : ℕ) × (k ≤ 63) × IsFilled k 1 (capacity - 1)
  log = digits_of 63 (capacity - 1) (omega arith)

  made : RingQueue A
  made = make capacity

  mask_eq : made.capacity_mask ≡ 2 ^ log.0 - 1
  unfolding made make
  mask_eq =
      ap (widen 7 1) (start) ∙ widen-IsFilled log.0 (capacity - 1) log.2 (omega (arith, log.1))
    where
      start : (capacity + word - 1) % word ≡ capacity - 1
      start = omega arith

  room : 2 ^ log.0 * 2 ^ (64 - log.0) ≡ word
  room = sym (two_pow-add log.0 (64 - log.0)) ∙ ap (λ e. 2 ^ e) total
    where
      total : log.0 + (64 - log.0) ≡ 64
      total = omega (arith, log.1)

  blocks_gt : 1 < 2 ^ (64 - log.0)
  blocks_gt = ap_lt (64 - log.0) (omega (arith, log.1))

  capacity_eq : made.capacity ≡ 2 ^ log.0
  unfolding made make
  capacity_eq =
      ap (λ m. (m + 1) % word) mask_eq ∙ omega (arith, one-le-pow log.0 2, blocks_gt, below_word)
    where
      below_word : 2 ^ log.0 < word
      below_word = grind (arith, room, blocks_gt, one-le-pow log.0 2)

  made-IsFree : (i : ℕ) → i < made.capacity → IsFree (made.nodes ((0 + i) % made.capacity)) (0 + i)
  unfolding made make
  made-IsFree i near = record {
    tail = mod-eq_of_lt {n = 0 + i} {m = made.capacity} (omega arith) ∙ sym small_i;
    head = λ e. omega (arith, e, small_i, capacity_eq, blocks_gt, below_half);
  }
    where
      below_half : made.capacity ≤ 2 ^ 63
      below_half = grind (arith, room, blocks_gt, capacity_eq)

      small_i : (0 + i) % word ≡ 0 + i
      small_i = omega (arith, below_half)

  -- For a capacity from 1 to 2 ^ 63 the constructed queue is empty, its capacity is a power of two,
  -- not below the requested one and less than twice that.
  pub make-Holds :
      Holds (make {A = A} capacity) 0 []
      × (capacity ≤ (make {A = A} capacity).capacity)
      × ((make {A = A} capacity).capacity < 2 * capacity)
      × (k : ℕ) × ((make {A = A} capacity).capacity ≡ 2 ^ k)
  unfolding made make
  make-Holds = (
    record {
      log = log.0;
      blocks = 2 ^ (64 - log.0);
      mask_eq = mask_eq;
      capacity_eq = capacity_eq;
      divides = room;
      blocks_gt = blocks_gt;
      head_eq = omega arith;
      tail_eq = omega arith;
      fits = omega arith;
      full = λ i x e. ground arith;
      free = λ i above near. made-IsFree i near;
    },
    omega (arith, capacity_eq, log.2.below),
    omega (arith, capacity_eq, two_pow-le_of_IsFilled log.0 (capacity - 1) log.2),
    log.0,
    capacity_eq,
  )
