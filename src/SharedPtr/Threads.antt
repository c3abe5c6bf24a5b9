-- ===== src/SharedPtr/Threads.antt =====
-- Threads that copy and destroy pointers of ThreadSafeShared_ptr.h to one object, interleaved in any
-- order: each access of the counter is one step, and each of the two deletions.
pub mod Life
pub mod Safety
mod Tests
use cpp_concurrency_data_str.Base.{
  ℕ, ◌≡◌, Bool, true, false, none, some, List, [], ◌∷◌, ◌++◌, if◌then◌else◌, update,
}
use cpp_concurrency_data_str.Base.Int.{ℤ, pos}
use cpp_concurrency_data_str.SharedPtr.{World, SharedPtr, is_one, fetch_add, fetch_sub}

-- Where a thread stands: in no destructor that has to delete, before `delete count`, or before
-- `delete ptr`.
pub data Call : Type 0 where
  idle : Call
  deletes_count : Call
  deletes_object : Call

-- `owners` has the thread of each pointer to the object.
pub record System : Type 0 where
  pub world : World
  pub owners : List ℕ
  pub calls : ℕ → Call

-- What the destructor does after it has read `n` from the counter.
abbrev pub after_sub : ℤ → Call
after_sub n = if is_one n then deletes_count else idle

module _ (s : SharedPtr) where
  pub data Step (t : System) : System → Type 0 where
    copies :
        (i : ℕ) (xs ys : List ℕ) (n : ℤ) (w : World)
        → t.calls i ≡ idle
        → t.owners ≡ xs ++ i ∷ ys
        → fetch_add s.count t.world ≡ some (n, w)
        → Step t (record t { world = w; owners = i ∷ t.owners })
    -- A pointer that the thread `i` holds is moved to the thread `j`.
    hands :
        (i j : ℕ) (xs ys : List ℕ)
        → t.owners ≡ xs ++ i ∷ ys
        → Step t (record t { owners = xs ++ j ∷ ys })
    subtracts :
        (i : ℕ) (xs ys : List ℕ) (n : ℤ) (w : World)
        → t.calls i ≡ idle
        → t.owners ≡ xs ++ i ∷ ys
        → fetch_sub s.count t.world ≡ some (n, w)
        → Step t (record { world = w; owners = xs ++ ys; calls = update t.calls i (after_sub n) })
    frees_count :
        (i : ℕ)
        → t.calls i ≡ deletes_count
        → Step t (record t {
          world = record t.world { counts = update t.world.counts s.count none };
          calls = update t.calls i deletes_object;
        })
    frees_object :
        (i : ℕ)
        → t.calls i ≡ deletes_object
        → Step t (record t {
          world = record t.world { objects = update t.world.objects s.ptr false };
          calls = update t.calls i idle;
        })

  pub data Reach (t : System) : System → Type 0 where
    here : Reach t t
    next : {u v : System} → Reach t u → Step u v → Reach t v

-- The thread 0 has made the one pointer to the object.
abbrev pub start : SharedPtr → World → System
start s w = record { world = w; owners = 0 ∷ []; calls = λ _. idle }
