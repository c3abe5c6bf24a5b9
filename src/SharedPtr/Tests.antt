-- ===== src/SharedPtr/Tests.antt =====
-- Runs of ThreadSafeShared_ptr.h at concrete inputs, and the theorems at inputs that meet their hypotheses.
use cpp_concurrency_data_str.Base.{
  ◌≡◌, ◌≢◌, refl, Bool, false, Option, none, some, [], ◌∷◌, arith, ◌==◌, update, ◌>>=◌, ◌||◌,
}
use cpp_concurrency_data_str.Base.Int.{ℤ, pos, ◌+ℤ◌, ◌-ℤ◌}
use cpp_concurrency_data_str.SharedPtr.{
  Ptr, null, World, SharedPtr, make_null, move, fetch_add, fetch_sub, copy, destroy, assign,
  use_count,
}
use cpp_concurrency_data_str.SharedPtr.Counting.{owners, IsLive, Owns, destroy-Owns}
use cpp_concurrency_data_str.SharedPtr.Assign.{assign-Owns, copy-moved}

abbrev p : SharedPtr
p = record { ptr = 5; count = 1 }

abbrev q : SharedPtr
q = record { ptr = 6; count = 2 }

-- Two pointers to the object 5; the object 6 lives and has no owner.
abbrev shared : World
shared = record {
  counts = update (λ c. none) 1 (some (pos 2));
  objects = λ i. (i == 5) || (i == 6);
}

p-IsLive : IsLive shared (λ c. owners c (p ∷ p ∷ [])) p
p-IsLive = record { not_null = λ e. omega arith; object = refl; counter = refl }

p-paired : Owns shared (p ∷ p ∷ [])
p-paired = record {
  live = (p-IsLive, (p-IsLive, tt));
  object_of = λ c. 5;
  counter_of = λ i. 1;
  paired = ((refl, refl), ((refl, refl), tt));
}

destroy-Owns_example :
    (w' : World) × (destroy p shared ≡ some w')
    × Owns w' (p ∷ [])
    × (owners 1 (p ∷ []) ≡ 0 → (w'.objects 5 ≡ false) × (w'.counts 1 ≡ none))
    × (owners 1 (p ∷ []) ≢ 0 → w'.objects ≡ shared.objects)
destroy-Owns_example = destroy-Owns (p ∷ []) p [] p-paired

-- Beside them a null pointer, whose counter is 3.
abbrev nobody : SharedPtr
nobody = record { ptr = null; count = 3 }

abbrev beside : World
beside = record shared { counts = update shared.counts 3 (some (pos 0)) }

beside-IsLive : IsLive beside (λ c. owners c (p ∷ p ∷ [])) p
beside-IsLive = record { not_null = λ e. omega arith; object = refl; counter = refl }

p-beside : Owns beside (p ∷ p ∷ [])
p-beside = record {
  live = (beside-IsLive, (beside-IsLive, tt));
  object_of = λ c. 5;
  counter_of = λ i. 1;
  paired = ((refl, refl), ((refl, refl), tt));
}

assign-Owns_example :
    ((w' : World) × (assign nobody p beside ≡ some (p, w'))
      × Owns w' (p ∷ p ∷ p ∷ [])
      × ((i : Ptr) → i ≢ null → w'.objects i ≡ beside.objects i))
    × ((w' : World) × (assign p nobody beside ≡ some (nobody, w'))
        × Owns w' (p ∷ [])
        × (w'.counts 3 ≡ some (pos 1))
        × (owners 1 (p ∷ []) ≡ 0 → (w'.objects 5 ≡ false) × (w'.counts 1 ≡ none))
        × (owners 1 (p ∷ []) ≢ 0 → w'.objects ≡ beside.objects))
unfolding ◌+ℤ◌
assign-Owns_example =
    assign-Owns (p ∷ []) p [] nobody (pos 0) refl refl p-beside
      ((λ e. omega arith), ((λ e. omega arith), tt))

copy-moved_example : copy (move p).1 shared ≡ none
copy-moved_example = copy-moved p shared refl

-- The second of two destructors deletes the object.
abbrev dead_after_two : Option Bool
dead_after_two = do w ← destroy p shared; w' ← destroy p w; some (w'.objects 5)

dead_after_two_lem : dead_after_two ≡ some false
unfolding destroy fetch_sub ◌-ℤ◌
dead_after_two_lem = refl

-- A null pointer that is assigned an owner becomes one.
abbrev null_assigned : Option ℤ
null_assigned = do let (s, w) = make_null 3 shared; (t, w') ← assign s p w; use_count t w'

null_assigned_lem : null_assigned ≡ some (pos 3)
unfolding assign fetch_add fetch_sub make_null use_count ◌+ℤ◌
null_assigned_lem = refl
