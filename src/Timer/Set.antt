-- ===== src/Timer/Set.antt =====
-- The set of timer.cpp: insertion and erasure keep it in order, and undo each other.
use cpp_concurrency_data_str.Base.{
  ◌<◌, ◌≡◌, refl, true, false, List, [], ◌∷◌, arith, All, Bool-cases, inl, inr, ap,
}
use cpp_concurrency_data_str.Timer.{TimerNodeBase, TimerNode, less, same, insert, find, erase}
use cpp_concurrency_data_str.Timer.Order.{
  less_trans, eq_of_same, same_refl, same_of_less, same_of_greater, same_of_neither,
}

module _ {Task : Type 0} where
  -- Every element comes after `k`.
  abbrev pub After : TimerNodeBase → List (TimerNode Task) → Type 0
  After k = All (λ y. less k y.base ≡ true)

  abbrev pub IsSorted : List (TimerNode Task) → Type 0
  IsSorted [] = Unit
  IsSorted (x ∷ xs) = After x.base xs × IsSorted xs

  After-trans :
      (a b : TimerNodeBase) (ys : List (TimerNode Task)) → less a b ≡ true → After b ys → After a ys
  After-trans a b [] h u = tt
  After-trans a b (y ∷ ys) h u = (less_trans a b y.base h u.0, After-trans a b ys h u.1)

  pub All-insert {κ} :
      (P : TimerNode Task → Type κ) (x : TimerNode Task) (ys : List (TimerNode Task))
      → P x
      → All P ys
      → All P (insert x ys)
  unfolding insert
  All-insert P x [] p ps = (p, tt)
  All-insert P x (y ∷ ys) p ps = elim (Bool-cases (less x.base y.base)) [
    | inl lt ↦ rw lt (p, ps)
    | inr ge ↦ elim (Bool-cases (less y.base x.base)) [
      | inl gt ↦ rw (ge, gt) (ps.0, All-insert P x ys p ps.1)
      | inr eq ↦ rw (ge, eq) ps
    ]
  ]

  pub All-erase {κ} :
      (P : TimerNode Task → Type κ) (k : TimerNodeBase) (ys : List (TimerNode Task))
      → All P ys
      → All P (erase k ys)
  unfolding erase
  All-erase P k [] ps = tt
  All-erase P k (y ∷ ys) ps = elim (Bool-cases (same k y.base)) [
    | inl eq ↦ rw eq ps.1
    | inr ne ↦ rw ne (ps.0, All-erase P k ys ps.1)
  ]

  pub insert-IsSorted :
      (x : TimerNode Task) (ys : List (TimerNode Task)) → IsSorted ys → IsSorted (insert x ys)
  unfolding insert
  insert-IsSorted x [] s = (tt, tt)
  insert-IsSorted x (y ∷ ys) s = elim (Bool-cases (less x.base y.base)) [
    | inl lt ↦ rw lt ((lt, After-trans x.base y.base ys lt s.0), s)
    | inr ge ↦ elim (Bool-cases (less y.base x.base)) [
      | inl gt ↦ rw (ge, gt) (All-insert _ x ys gt s.0, insert-IsSorted x ys s.1)
      | inr eq ↦ rw (ge, eq) s
    ]
  ]

  pub erase-IsSorted :
      (k : TimerNodeBase) (ys : List (TimerNode Task)) → IsSorted ys → IsSorted (erase k ys)
  unfolding erase
  erase-IsSorted k [] s = tt
  erase-IsSorted k (y ∷ ys) s = elim (Bool-cases (same k y.base)) [
    | inl eq ↦ rw eq s.1
    | inr ne ↦ rw ne (All-erase _ k ys s.0, erase-IsSorted k ys s.1)
  ]

  pub find_of_After :
      (k : TimerNodeBase) (ys : List (TimerNode Task)) → After k ys → find k ys ≡ false
  unfolding find
  find_of_After k [] u = refl
  find_of_After k (y ∷ ys) u = rw (same_of_less k y.base u.0) (find_of_After k ys u.1)

  -- An element whose id no other has is not in the set.
  pub find_of_fresh :
      (k : TimerNodeBase) (ys : List (TimerNode Task))
      → All (λ y. y.base.id < k.id) ys
      → find k ys ≡ false
  unfolding find
  find_of_fresh k [] u = refl
  find_of_fresh k (y ∷ ys) u = elim (Bool-cases (same k y.base)) [
    | inl eq ↦ absurd (omega (arith, u.0, ap (λ b. b.id) (eq_of_same k y.base eq)))
    | inr ne ↦ rw ne (find_of_fresh k ys u.1)
  ]

  pub find-insert :
      (x : TimerNode Task) (ys : List (TimerNode Task)) → find x.base (insert x ys) ≡ true
  unfolding find insert
  find-insert x [] = rw (same_refl x.base)
  find-insert x (y ∷ ys) = elim (Bool-cases (less x.base y.base)) [
    | inl lt ↦ rw (lt, same_refl x.base)
    | inr ge ↦ elim (Bool-cases (less y.base x.base)) [
      | inl gt ↦ rw (ge, gt, same_of_greater x.base y.base gt) (find-insert x ys)
      | inr eq ↦ rw (ge, eq, same_of_neither x.base y.base ge eq)
    ]
  ]

  -- An element that was not there is inserted and erased without a trace.
  pub erase-insert :
      (x : TimerNode Task) (ys : List (TimerNode Task))
      → find x.base ys ≡ false
      → erase x.base (insert x ys) ≡ ys
  unfolding erase insert find
  erase-insert x [] h = rw (same_refl x.base)
  erase-insert x (y ∷ ys) h = elim (Bool-cases (less x.base y.base)) [
    | inl lt ↦ rw (lt, same_refl x.base)
    | inr ge ↦ elim (Bool-cases (less y.base x.base)) [
      | inl gt ↦
          rw (ge, gt, same_of_greater x.base y.base gt)
            (ap (λ zs. y ∷ zs) (erase-insert x ys (rw (same_of_greater x.base y.base gt) at h)))
      | inr eq ↦ cc (same_of_neither x.base y.base ge eq, h)
    ]
  ]
