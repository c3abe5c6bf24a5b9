-- ===== src/Window.antt =====
-- A ring of slots: ticket `k` uses slot `k % cap`, and the tickets from `h` on, as many as there are
-- values, hold them; the tickets behind them, up to the capacity, are free. What it means for a slot
-- to hold or to be free is a parameter, since each ring queue marks it in its own way.
use native.Mathlib.Nat.{add-mod_right, add-zero}
use cpp_concurrency_data_str.Base.{
  ℕ, suc, ◌+◌, ◌-◌, ◌%◌, ◌≤◌, ◌<◌, ◌≡◌, ◌≢◌, ◌∙◌, ap, sym, subst, some, List, [], ◌∷◌, ◌++◌, arith,
  length, length-snoc, get_elem?, get_elem?-snoc_inv, lt_of_get_elem?, update, update_self,
  update-ne, ℕ_discrete, inl, inr,
}
use cpp_concurrency_data_str.Base.Bits.{add-mod-ne}

-- Tickets less than a capacity apart have different slots.
slot_ne : (cap h i j : ℕ) → i < j → j < i + cap → (h + j) % cap ≢ (h + i) % cap
slot_ne cap h i j lt near e =
    add-mod-ne (h + i) (j - i) cap (omega arith) (omega arith) (ap (λ t. t % cap) (omega arith) ∙ e)

module _ {ℓ κ μ ν} {S : Type ℓ} {A : Type κ} (IsFull : S → ℕ → A → Type μ)
    (IsFree : S → ℕ → Type ν) where
  pub record IsWindow (slots : ℕ → S) (cap h : ℕ) (xs : List A) : Type (κ ⊔ μ ⊔ ν) where
    pub fits : length xs ≤ cap
    pub full : (i : ℕ) (x : A) → get_elem? xs i ≡ some x → IsFull (slots ((h + i) % cap)) (h + i) x
    pub free : (i : ℕ) → length xs ≤ i → i < cap → IsFree (slots ((h + i) % cap)) (h + i)

  module _ {slots : ℕ → S} {cap h : ℕ} where
    -- The next ticket takes a value.
    pub put-IsWindow :
        {xs : List A} (x : A) (s : S)
        → IsWindow slots cap h xs
        → length xs < cap
        → IsFull s (h + length xs) x
        → IsWindow (update slots ((h + length xs) % cap) s) cap h (xs ++ x ∷ [])
    put-IsWindow {xs} x s v room holds =
        let n = length xs in
        record {
          fits = omega (arith, length-snoc xs x);
          full = λ i y e. elim (get_elem?-snoc_inv xs x i e) [
            | inl (lt, e') ↦
                subst (λ t. IsFull t (h + i) y)
                  (sym (
                    update-ne slots ((h + n) % cap) ((h + i) % cap) s
                      (slot_ne cap h i n lt (omega arith))))
                  (v.full i y e')
            | inr (last, same) ↦
                subst (λ j. IsFull (update slots ((h + n) % cap) s ((h + j) % cap)) (h + j) y)
                  (sym last)
                  (subst (λ t. IsFull t (h + n) y) (sym (update_self slots ((h + n) % cap) s))
                    (subst (IsFull s (h + n)) same holds))
          ];
          free = λ i le lt.
              subst (λ t. IsFree t (h + i))
                (sym (
                  update-ne slots ((h + n) % cap) ((h + i) % cap) s (λ e.
                    slot_ne cap h n i (omega (arith, length-snoc xs x)) (omega arith) (sym e))))
                (v.free i (omega (arith, length-snoc xs x)) lt);
        }

    -- The oldest ticket gives its value, and its slot waits for the ticket a capacity later.
    pub take-IsWindow :
        {x : A} {xs : List A} (s : S)
        → IsWindow slots cap h (x ∷ xs)
        → IsFree s (h + cap)
        → IsWindow (update slots (h % cap) s) cap (h + 1) xs
    take-IsWindow {x} {xs} s v waits = record {
      fits = omega (arith, v.fits);
      full = λ i y e.
          subst (λ k. IsFull (update slots (h % cap) s (k % cap)) k y) (next i)
            (subst (λ t. IsFull t (h + suc i) y)
              (sym (
                update-ne slots (h % cap) ((h + suc i) % cap) s
                  (other (suc i) (omega arith) (omega (arith, v.fits, lt_of_get_elem? xs i e)))))
              (v.full (suc i) y e));
      free = λ i le lt.
          subst (λ k. IsFree (update slots (h % cap) s (k % cap)) k) (next i)
            (elim (ℕ_discrete (suc i) cap) [
              | yes e ↦
                  subst (λ c. IsFree (update slots (h % cap) s ((h + c) % cap)) (h + c)) (sym e)
                    (subst (λ t. IsFree t (h + cap))
                      (sym (update_self slots (h % cap) s)
                        ∙ ap (update slots (h % cap) s) (sym (add-mod_right h cap)))
                      waits)
              | no ne ↦
                  subst (λ t. IsFree t (h + suc i))
                    (sym (
                      update-ne slots (h % cap) ((h + suc i) % cap) s
                        (other (suc i) (omega arith) (omega arith))))
                    (v.free (suc i) (omega arith) (omega arith))
            ]);
    }
      where
        next : (i : ℕ) → h + suc i ≡ h + 1 + i
        next i = omega arith

        other : (i : ℕ) → 0 < i → i < cap → h % cap ≢ (h + i) % cap
        other i pos_i lt e =
            slot_ne cap h 0 i pos_i (omega arith) (sym e ∙ ap (λ k. k % cap) (sym (add-zero h)))
