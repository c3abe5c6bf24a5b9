-- ===== src/Base/Ones.antt =====
-- The binary digits of a number; numbers whose highest digits are ones.
use native.Mathlib.Nat.{pow-suc, div-div-eq-div-mul, add-zero, add-suc, div-one, div-le_self}
use cpp_concurrency_data_str.Base.{
  ℕ, zero, suc, ◌+◌, ◌-◌, ◌*◌, ◌/◌, ◌%◌, ◌^◌, ◌≤◌, ◌<◌, ◌≡◌, ap, ◌∙◌, sym, arith, bit_or, max,
  dec_lt,
}
use cpp_concurrency_data_str.Base.Bits.{bit_or_digit}

pub bit : ℕ → ℕ → ℕ
bit zero x = x % 2
bit (suc j) x = bit j (x / 2)

bit-le : (j x : ℕ) → bit j x ≤ 1
unfolding bit
bit-le zero x = omega arith
bit-le (suc j) x = bit-le j (x / 2)

pub bit-bit_or : (j a b : ℕ) → bit j (bit_or a b) ≡ max (bit j a) (bit j b)
unfolding bit
bit-bit_or zero a b = omega (arith, bit_or_digit a b)
bit-bit_or (suc j) a b = ap (bit j) (omega (arith, bit_or_digit a b)) ∙ bit-bit_or j (a / 2) (b / 2)

two_pow_suc : (k : ℕ) → 2 ^ suc k ≡ 2 * 2 ^ k
two_pow_suc k = omega (arith, pow-suc 2 k)

pub two_pow-add : (k d : ℕ) → 2 ^ (k + d) ≡ 2 ^ k * 2 ^ d
two_pow-add k zero = rw add-zero (omega arith)
two_pow-add k (suc d) =
    ap (λ e. 2 ^ e) (add-suc k d)
    ∙ two_pow_suc (k + d)
    ∙ omega (arith, two_pow-add k d, ap (λ t. 2 ^ k * t) (two_pow_suc d))

bit-div : (n j x : ℕ) → bit j (x / 2 ^ n) ≡ bit (j + n) x
unfolding bit
bit-div zero j x = rw (add-zero, div-one)
bit-div (suc n) j x =
    ap (bit j) (ap (λ t. x / t) (two_pow_suc n) ∙ sym (div-div-eq-div-mul x 2 (2 ^ n)))
    ∙ bit-div n j (x / 2)
    ∙ ap (λ i. bit i x) (sym (add-suc j n))

pub two_pow-le_of_bit : (j x : ℕ) → bit j x ≡ 1 → 2 ^ j ≤ x
unfolding bit
two_pow-le_of_bit zero x e = omega arith
two_pow-le_of_bit (suc j) x e = omega (arith, two_pow_suc j, two_pow-le_of_bit j (x / 2) e)

bit_or-lt : (k a b : ℕ) → a < 2 ^ k → b < 2 ^ k → bit_or a b < 2 ^ k
bit_or-lt zero a b p q =
    let a_zero : a ≡ 0 = omega arith in
    let b_zero : b ≡ 0 = omega arith in rw (a_zero, b_zero) (omega arith)
bit_or-lt (suc k) a b p q = omega (
  arith,
  two_pow_suc k,
  bit_or_digit a b,
  bit_or-lt k (a / 2) (b / 2) (omega (arith, two_pow_suc k)) (omega (arith, two_pow_suc k)),
)

all_ones : (k x : ℕ) → x < 2 ^ k → ((j : ℕ) → j < k → bit j x ≡ 1) → x ≡ 2 ^ k - 1
unfolding bit
all_ones zero x h ones = omega arith
all_ones (suc k) x h ones = omega (
  arith,
  two_pow_suc k,
  ones 0 (omega arith),
  all_ones k (x / 2) (omega (arith, two_pow_suc k)) (λ j p. ones (suc j) (omega arith)),
)

-- Of the `k` digits of `x` the highest `n` are ones.
pub record IsFilled (k n x : ℕ) : Type 0 where
  pub below : x < 2 ^ k
  pub ones : (j : ℕ) → j < k → k ≤ j + n → bit j x ≡ 1

-- `x | x >> n` doubles the number of leading ones.
pub IsFilled-bit_or : (k n x : ℕ) → IsFilled k n x → IsFilled k (n + n) (bit_or x (x / 2 ^ n))
IsFilled-bit_or k n x f = record {
  below = bit_or-lt k x (x / 2 ^ n) f.below (omega (arith, f.below, div-le_self x (2 ^ n)));
  ones = λ j p q. elim (dec_lt (j + n) k) [
    | yes lt ↦ omega (
      arith,
      bit-bit_or j x (x / 2 ^ n),
      bit-div n j x,
      f.ones (j + n) lt (omega arith),
      bit-le j x,
    )
    | no ge ↦
        omega (arith, bit-bit_or j x (x / 2 ^ n), f.ones j p (omega arith), bit-le j (x / 2 ^ n))
  ];
}

pub eq_of_IsFilled : (k n x : ℕ) → k ≤ n → IsFilled k n x → x ≡ 2 ^ k - 1
eq_of_IsFilled k n x h f = all_ones k x f.below (λ j p. f.ones j p (omega arith))

IsFilled-double : (k x : ℕ) → 0 < x → IsFilled k 1 (x / 2) → IsFilled (suc k) 1 x
unfolding bit
IsFilled-double zero x h f = record {
  below = omega (arith, f.below);
  ones = λ j p q. omega (arith, zero_only j p, f.below);
}
  where
    zero_only : (j : ℕ) → j < 1 → bit j x ≡ 1
    zero_only zero p = omega (arith, f.below)
    zero_only (suc j) p = absurd (omega arith)
IsFilled-double (suc k) x h f = record {
  below = omega (arith, f.below, two_pow_suc (suc k));
  ones = λ j p q. omega (arith, high j p q);
}
  where
    high : (j : ℕ) → j < suc (suc k) → suc (suc k) ≤ j + 1 → bit j x ≡ 1
    high zero p q = absurd (omega arith)
    high (suc j) p q = f.ones j (omega arith) (omega arith)

-- The number of digits of `x`, of which the highest is a one.
pub digits_of : (n x : ℕ) → x < 2 ^ n → (k : ℕ) × (k ≤ n) × IsFilled k 1 x
unfolding bit
digits_of n zero h = (0, omega arith, record { below = omega arith; ones = λ j p q. elim p [ ] })
digits_of zero (suc x) h = absurd (omega arith)
digits_of (suc n) (suc x) h =
    let (k, le, f) = digits_of n (suc x / 2) (omega (arith, two_pow_suc n)) in
    (suc k, omega arith, IsFilled-double k (suc x) (omega arith) f)
