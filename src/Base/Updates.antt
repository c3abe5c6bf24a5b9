-- ===== src/Base/Updates.antt =====
-- Functions that are changed at one place and then mapped, as functions.
use cpp_concurrency_data_str.Base.{
  ℕ, ◌≡◌, fun_ext, subst, sym, update, update_self, update-ne, ℕ_discrete, arith,
}

module _ {ℓ κ} {A : Type ℓ} {B : Type κ} (g : ℕ → A → B) (f : ℕ → A) (i : ℕ) where
  pub map-update : (a : A) → (λ j. g j (update f i a j)) ≡ update (λ j. g j (f j)) i (g i a)
  map-update a = fun_ext (λ j. ground arith)

module _ {ℓ} {A : Type ℓ} where
  pub update_same : (f : ℕ → A) (i : ℕ) → update f i (f i) ≡ f
  update_same f i = fun_ext (λ j. ground arith)

  -- What holds of the new value and of all the old ones holds everywhere.
  pub update-All {κ} :
      (P : A → Type κ) (f : ℕ → A) (i : ℕ) (a : A)
      → P a
      → ((j : ℕ) → P (f j))
      → (j : ℕ) → P (update f i a j)
  update-All P f i a new old j = elim (ℕ_discrete i j) [
    | yes e ↦ subst (λ k. P (update f i a k)) e (subst P (sym (update_self f i a)) new)
    | no ne ↦ subst P (sym (update-ne f i j a ne)) (old j)
  ]
