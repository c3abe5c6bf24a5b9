-- ===== src/Protocol/Knowledge.antt =====
-- What a thread of the ticket protocol knows is not undone by the steps of others.
use cpp_concurrency_data_str.Base.{
  ℕ, suc, ◌%◌, ◌<◌, ◌≡◌, ◌≢◌, refl, subst, ◌∙◌, ap, sym, Option, some, List, [], ◌∷◌, ◌++◌, length,
  length-snoc, get_elem?, get_elem?-append_lt, arith, update, update_self, update-ne, ℕ_discrete,
}
use cpp_concurrency_data_str.Protocol.{
  Mark, free, full, Phase, outside, saw_given, sees_room, sees_value, sees_free, sees_full,
  waits_free, writing, written, waits_full, reading, got, Protocol,
}
use cpp_concurrency_data_str.Protocol.Inv.{write_ticket, read_ticket, uses, Knows}

module _ {ℓ} {A : Type ℓ} where
  -- What holds of the new phase of thread `i`, and of the others, holds of all.
  pub each {κ} :
      (P : ℕ → Phase A → Type κ) (phases : ℕ → Phase A) (i : ℕ) (s : Phase A)
      → P i s
      → ((j : ℕ) → j ≢ i → P j (phases j))
      → (j : ℕ) → P j (update phases i s j)
  each P phases i s own others j = elim (ℕ_discrete i j) [
    | yes e ↦
        subst (λ k. P k (update phases i s k)) e (subst (P i) (sym (update_self phases i s)) own)
    | no ne ↦ subst (P j) (sym (update-ne phases i j s ne)) (others j (λ k. ne (sym k)))
  ]

  -- One more value among the given ones changes nothing for the tickets before.
  pub get_elem?-given :
      (xs : List A) (x : A) (k : ℕ) → k < length xs → get_elem? (xs ++ x ∷ []) k ≡ get_elem? xs k
  get_elem?-given xs x k h = get_elem?-append_lt xs (x ∷ []) k h

  pub Knows-given :
      (p : Protocol A) (x : A) (s : Phase A)
      → ((k : ℕ) → write_ticket s ≡ some k → k < length p.given)
      → ((k : ℕ) → read_ticket s ≡ some k → k < length p.given)
      → Knows p s
      → Knows (record p { given = p.given ++ x ∷ [] }) s
  Knows-given p x outside w r u = tt
  Knows-given p x (saw_given n) w r u = (tt, omega (arith, u.1, length-snoc p.given x))
  Knows-given p x (sees_room k) w r u = u
  Knows-given p x (sees_value k) w r u = (tt, omega (arith, u.1, length-snoc p.given x))
  Knows-given p x (sees_free k) w r u = (tt, λ h. u.1 (omega (arith, length-snoc p.given x)))
  Knows-given p x (sees_full k) w r u = u
  Knows-given p x (waits_free k y) w r u = get_elem?-given p.given x k (w k refl) ∙ u
  Knows-given p x (writing k y) w r u = (get_elem?-given p.given x k (w k refl) ∙ u.0, u.1)
  Knows-given p x (written k) w r u = (u.0 ∙ sym (get_elem?-given p.given x k (w k refl)), u.1)
  Knows-given p x (waits_full k) w r u = tt
  Knows-given p x (reading k) w r u = u
  Knows-given p x (got k o) w r u = (u.0 ∙ sym (get_elem?-given p.given x k (r k refl)), u.1)

  pub Knows-taken :
      (p : Protocol A) (s : Phase A) → Knows p s → Knows (record p { taken = suc p.taken }) s
  Knows-taken p outside u = tt
  Knows-taken p (saw_given n) u = u
  Knows-taken p (sees_room k) u = (tt, omega (arith, u.1))
  Knows-taken p (sees_value k) u = u
  Knows-taken p (sees_free k) u = u
  Knows-taken p (sees_full k) u = (tt, λ h. u.1 (omega arith))
  Knows-taken p (waits_free k y) u = u
  Knows-taken p (writing k y) u = u
  Knows-taken p (written k) u = u
  Knows-taken p (waits_full k) u = tt
  Knows-taken p (reading k) u = u
  Knows-taken p (got k o) u = u

  module _ (p : Protocol A) (s : ℕ) where
    module _ (m : Mark) where
      abbrev pub marked : Protocol A
      marked = record p { marks = update p.marks s m }

      kept :
          (n : ℕ) (o : Mark)
          → s ≢ n % p.cap
          → p.marks (n % p.cap) ≡ o
          → update p.marks s m (n % p.cap) ≡ o
      kept n o ne e = update-ne p.marks s (n % p.cap) m ne ∙ e

      -- A mark changes in a slot whose old mark is for a ticket already given, or taken.
      pub Knows-marks :
          (x : Phase A)
          → uses p.cap x ≢ some s
          → ((n : ℕ) → p.marks s ≡ free n → n < length p.given)
          → ((n : ℕ) → p.marks s ≡ full n → n < p.taken)
          → Knows p x
          → Knows marked x
      Knows-marks outside un w r u = tt
      Knows-marks (saw_given n) un w r u = u
      Knows-marks (sees_room k) un w r u = u
      Knows-marks (sees_value k) un w r u = u
      Knows-marks (sees_free k) un w r u =
          (tt, λ h. kept k (free k) (λ e. omega (arith, w k (ap p.marks e ∙ u.1 h))) (u.1 h))
      Knows-marks (sees_full k) un w r u =
          (tt, λ h. kept k (full k) (λ e. omega (arith, r k (ap p.marks e ∙ u.1 h))) (u.1 h))
      Knows-marks (waits_free k y) un w r u = u
      Knows-marks (writing k y) un w r u = (u.0, kept k (free k) (λ e. un (ap some (sym e))) u.1)
      Knows-marks (written k) un w r u = (u.0, kept k (free k) (λ e. un (ap some (sym e))) u.1)
      Knows-marks (waits_full k) un w r u = tt
      Knows-marks (reading k) un w r u = (tt, kept k (full k) (λ e. un (ap some (sym e))) u.1)
      Knows-marks (got k o) un w r u = (u.0, kept k (full k) (λ e. un (ap some (sym e))) u.1)

    pub Knows-values :
        (o : Option A) (x : Phase A)
        → uses p.cap x ≢ some s
        → Knows p x
        → Knows (record p { values = update p.values s o }) x
    Knows-values o outside un u = tt
    Knows-values o (saw_given n) un u = u
    Knows-values o (sees_room k) un u = u
    Knows-values o (sees_value k) un u = u
    Knows-values o (sees_free k) un u = u
    Knows-values o (sees_full k) un u = u
    Knows-values o (waits_free k y) un u = u
    Knows-values o (writing k y) un u = u
    Knows-values o (written k) un u =
        (update-ne p.values s (k % p.cap) o (λ e. un (ap some (sym e))) ∙ u.0, u.1)
    Knows-values o (waits_full k) un u = tt
    Knows-values o (reading k) un u = u
    Knows-values o (got k x) un u = u
