-- ===== src/Base/Bits.antt =====
-- `&` with a mask of low ones is a remainder, at every width; remainders of neighbouring numbers.
use Prim.Native.Nat.{min, max, digits, bit_and-bitwise, bit_or-bitwise}
use native.Mathlib.Nat.{
  pow-suc, one-le-pow, mod-eq_of_lt, mod-eq-sub-mod, mod-add-mod, mod-lt, div-add-mod,
  mod-mod_of_dvd, dvd-mul_right, mul-add-mod_self_left,
}
use cpp_concurrency_data_str.Base.{
  ℕ, zero, suc, ◌+◌, ◌-◌, ◌*◌, ◌/◌, ◌%◌, ◌^◌, ◌<◌, ◌≡◌, ◌≢◌, refl, sym, ap, ◌∙◌, arith, bit_and,
  bit_or, dec_lt,
}

module _ (low : ℕ → ℕ) (op : ℕ → ℕ → ℕ) where
  digits-zero : (n b : ℕ) → digits low op n 0 b ≡ low b
  digits-zero zero b = refl
  digits-zero (suc n) b = refl

  -- Any two numbers of rounds that are enough give the same digits.
  pub digits_enough :
      (n m a b : ℕ) → a < suc n → a < suc m → digits low op n a b ≡ digits low op m a b
  digits_enough n m zero b h k = digits-zero n b ∙ sym (digits-zero m b)
  digits_enough (suc n) (suc m) (suc a) b h k =
      ap (λ d. d * 2 + op (suc a % 2) (b % 2))
        (digits_enough n m (suc a / 2) (b / 2) (omega arith) (omega arith))
  digits_enough (suc n) zero (suc a) b h k = absurd (omega arith)
  digits_enough zero m (suc a) b h k = absurd (omega arith)

  -- The lowest digit of a bitwise operation apart from the others.
  bitwise_digit :
      (a b : ℕ)
      → digits low op (suc a) (suc a) b
        ≡ digits low op (suc a / 2) (suc a / 2) (b / 2) * 2 + op (suc a % 2) (b % 2)
  bitwise_digit a b =
      ap (λ d. d * 2 + op (suc a % 2) (b % 2))
        (digits_enough a (suc a / 2) (suc a / 2) (b / 2) (omega arith) (omega arith))

pub bit_and_digit : (a b : ℕ) → bit_and a b ≡ bit_and (a / 2) (b / 2) * 2 + min (a % 2) (b % 2)
bit_and_digit zero b = simp bit_and-bitwise (omega arith)
bit_and_digit (suc a) b = simp bit_and-bitwise (bitwise_digit (λ y. zero) min a b)

pub bit_or_digit : (a b : ℕ) → bit_or a b ≡ bit_or (a / 2) (b / 2) * 2 + max (a % 2) (b % 2)
bit_or_digit zero b = simp bit_or-bitwise (omega arith)
bit_or_digit (suc a) b = simp bit_or-bitwise (bitwise_digit (λ y. y) max a b)

-- No digit of `a & 0` is set.
and_nothing : (rounds a : ℕ) → a < suc rounds → bit_and a 0 ≡ 0
and_nothing rounds zero h = refl
and_nothing (suc rounds) (suc a) h =
    let halves = and_nothing rounds (suc a / 2) (omega arith) in
    omega (arith, halves, bit_and_digit (suc a) 0)
and_nothing zero (suc a) h = absurd (omega arith)

mod-double : (a m : ℕ) → 0 < m → a % (2 * m) ≡ (a / 2 % m) * 2 + a % 2
mod-double a m h =
    ap (λ t. t % (2 * m)) split
    ∙ mul-add-mod_self_left (2 * m) (a / 2 / m) _
    ∙ mod-eq_of_lt (omega (arith, mod-lt (a / 2) h))
  where
    split : a ≡ 2 * m * (a / 2 / m) + ((a / 2 % m) * 2 + a % 2)
    split = omega (arith, div-add-mod (a / 2) m)

pow_double : (k : ℕ) → 2 ^ suc k ≡ 2 * 2 ^ k
pow_double k = omega (arith, pow-suc 2 k)

-- `a & (2 ^ k - 1)`
pub bit_and_mask : (k a : ℕ) → bit_and a (2 ^ k - 1) ≡ a % 2 ^ k
bit_and_mask zero a = omega (arith, and_nothing a a (omega arith))
bit_and_mask (suc k) a = omega (
  arith,
  ap (bit_and (a / 2)) half,
  bit_and_digit a (2 ^ suc k - 1),
  pow-suc 2 k,
  one-le-pow k 2,
  bit_and_mask k (a / 2),
  ap (λ t. a % t) (pow_double k),
  mod-double a (2 ^ k) (one-le-pow k 2 (omega arith)),
)
  where
    half : (2 ^ suc k - 1) / 2 ≡ 2 ^ k - 1
    half = omega (arith, pow-suc 2 k, one-le-pow k 2)

-- Two different numbers less than `c` apart have different remainders by `c`.
pub add-mod-ne : (a d c : ℕ) → 0 < d → d < c → (a + d) % c ≢ a % c
add-mod-ne a d c h k e = elim (dec_lt (a % c + d) c) [
  | yes p ↦ omega (arith, mod-add-mod a c d, mod-eq_of_lt p)
  | no p ↦ omega (
    arith,
    mod-add-mod a c d,
    mod-lt a {m = c} (omega arith),
    mod-eq-sub-mod {n = a % c + d} {m = c} (omega arith),
    mod-eq_of_lt {n = a % c + d - c} {m = c} (omega (arith, mod-lt a {m = c} (omega arith))),
  )
]

-- A remainder by a multiple of `c`, taken by `c`.
pub mod-mul-mod : (a c d : ℕ) → a % (c * d) % c ≡ a % c
mod-mul-mod a c d = mod-mod_of_dvd c a (dvd-mul_right c d)
