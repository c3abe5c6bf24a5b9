-- ===== src/Base/Sums.antt =====
-- Sums over the threads, numbered from 0.
use cpp_concurrency_data_str.Base.{
  ℕ, zero, suc, ◌+◌, ◌*◌, ◌<◌, ◌≤◌, ◌≡◌, refl, ap, arith, update, update_self, update-ne,
  ℕ_discrete,
}

abbrev pub sum : ℕ → (ℕ → ℕ) → ℕ
sum zero f = 0
sum (suc n) f = sum n f + f n

module _ {ℓ} {A : Type ℓ} (measure : A → ℕ) where
  sum-update_beyond :
      (n i : ℕ) (f : ℕ → A) (a : A)
      → n ≤ i
      → sum n (λ j. measure (update f i a j)) ≡ sum n (λ j. measure (f j))
  sum-update_beyond zero i f a h = refl
  sum-update_beyond (suc n) i f a h = omega (
    arith,
    sum-update_beyond n i f a (omega arith),
    ap measure (update-ne f i n a (λ e. omega arith)),
  )

  pub sum-update :
      (n i : ℕ) (f : ℕ → A) (a : A)
      → i < n
      → sum n (λ j. measure (update f i a j)) + measure (f i)
        ≡ sum n (λ j. measure (f j)) + measure a
  sum-update zero i f a h = absurd (omega arith)
  sum-update (suc n) i f a h = elim (ℕ_discrete i n) [
    | yes e ↦ omega (
      arith,
      sum-update_beyond n i f a (omega arith),
      ap measure (ap (update f i a) e),
      ap measure (ap f e),
      ap measure (update_self f i a),
    )
    | no ne ↦ omega (arith, sum-update n i f a (omega arith), ap measure (update-ne f i n a ne))
  ]

pub sum-zero : (n : ℕ) (f : ℕ → ℕ) → ((j : ℕ) → f j ≡ 0) → sum n f ≡ 0
sum-zero zero f h = refl
sum-zero (suc n) f h = omega (arith, sum-zero n f h, h n)

pub sum-le : (n m : ℕ) (f : ℕ → ℕ) → ((j : ℕ) → f j ≤ m) → sum n f ≤ m * n
sum-le zero m f h = omega arith
sum-le (suc n) m f h = omega (arith, sum-le n m f h, h n)

pub sum-const : (n m : ℕ) (f : ℕ → ℕ) → ((j : ℕ) → j < n → f j ≡ m) → sum n f ≡ m * n
sum-const zero m f h = omega arith
sum-const (suc n) m f h =
    omega (arith, sum-const n m f (λ j lt. h j (omega arith)), h n (omega arith))
