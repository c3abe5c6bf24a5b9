-- ===== src/SharedPtr/Threads/Tests.antt =====
-- Two threads share an object by pointers of ThreadSafeShared_ptr.h: thread 0 copies its pointer and
-- gives the copy to thread 1, and both destroy theirs.
use cpp_concurrency_data_str.Base.{ℕ, ◌≡◌, refl, true, some, [], ◌∷◌, length, arith}
use cpp_concurrency_data_str.Base.Int.{pos, ◌+ℤ◌, ◌-ℤ◌}
use cpp_concurrency_data_str.SharedPtr.{World, SharedPtr, fetch_add, fetch_sub}
use cpp_concurrency_data_str.SharedPtr.Threads.{
  deletes_count, System, Reach, here, next, start, copies, hands, subtracts,
}
use cpp_concurrency_data_str.SharedPtr.Threads.Safety.{owners_keep_alive, deleted_once}

abbrev pointer : SharedPtr
pointer = record { ptr = 8; count = 9 }

abbrev one_object : World
one_object = record { counts = λ a. some (pos 1); objects = λ a. true }

unfoldable both_own :
    (t : System) × Reach pointer (start pointer one_object) t × (t.owners ≡ 0 ∷ 1 ∷ [])
unfolding fetch_add ◌+ℤ◌
both_own =
    (_, next (next here (copies 0 [] [] _ _ refl refl refl)) (hands 0 1 (0 ∷ []) [] refl), refl)

unfoldable last_gone :
    (t : System) × Reach pointer (start pointer one_object) t × (t.calls 0 ≡ deletes_count)
unfolding both_own fetch_add fetch_sub ◌+ℤ◌ ◌-ℤ◌
last_gone = (
  _,
  next (next both_own.1 (subtracts 1 (0 ∷ []) [] _ _ refl refl refl))
      (subtracts 0 [] [] _ _ refl refl refl),
  refl,
)

owners_keep_alive_example :
    (both_own.0.world.counts 9 ≡ some (pos (length both_own.0.owners)))
    × (both_own.0.world.objects 8 ≡ true)
owners_keep_alive_example =
    owners_keep_alive pointer {w = one_object} refl refl 0 [] (1 ∷ []) both_own.1 both_own.2

deleted_once_example :
    (◌≡◌ {A = ℕ} 0 0) × (last_gone.0.owners ≡ []) × (last_gone.0.world.objects 8 ≡ true)
unfolding last_gone
deleted_once_example =
    deleted_once pointer {w = one_object} refl refl 0 0 last_gone.1 (λ e. absurd (ground arith))
      (λ e. absurd (ground arith))
