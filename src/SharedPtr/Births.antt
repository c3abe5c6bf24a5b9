-- ===== src/SharedPtr/Births.antt =====
-- The constructors of ThreadSafeShared_ptr.h for an object of its own, and the move constructor.
use cpp_concurrency_data_str.Base.{
  All-map, All-map2, ◌≡◌, ◌≢◌, refl, ◌∙◌, sym, true, some, List, [], ◌∷◌, arith, All, ==-refl,
  ==_of_ne, update, update_self, update-ne,
}
use cpp_concurrency_data_str.Base.Int.{pos}
use cpp_concurrency_data_str.SharedPtr.{Ptr, null, World, SharedPtr, of_ptr}
use cpp_concurrency_data_str.SharedPtr.Counting.{owners, IsLive, Owns}

no_owners : (c : Ptr) (ss : List SharedPtr) → All (λ s. s.count ≢ c) ss → owners c ss ≡ 0
no_owners c [] h = refl
no_owners c (s ∷ ss) h = rw (==_of_ne s.count c h.0, no_owners c ss h.1)

module _ (fresh ptr : Ptr) (w : World) (ss : List SharedPtr) where
  abbrev born : World
  born = record w { counts = update w.counts fresh (some (pos 1)) }

  abbrev first : SharedPtr
  first = record { ptr = ptr; count = fresh }

  born-IsLive :
      (r : SharedPtr)
      → (r.count ≢ fresh) × (r.ptr ≢ ptr)
      → IsLive w (λ c. owners c ss) r
      → IsLive born (λ c. owners c (first ∷ ss)) r
  born-IsLive r ne v = record {
    not_null = v.not_null;
    object = v.object;
    counter = ground (arith, v.counter);
  }

-- For a living object that is not null and that no owner has, and an address that no owner counts
-- at, the constructor adds an owner: objects stay as they are, and the new counter is 1.
pub of_ptr-Owns :
    (fresh ptr : Ptr) {w : World} (ss : List SharedPtr)
    → Owns w ss
    → ptr ≢ null
    → w.objects ptr ≡ true
    → All (λ r. (r.count ≢ fresh) × (r.ptr ≢ ptr)) ss
    → let (s, w') = of_ptr fresh ptr w in
      Owns w' (s ∷ ss) × (w'.objects ≡ w.objects) × (w'.counts fresh ≡ some (pos 1))
unfolding of_ptr
of_ptr-Owns fresh ptr {w} ss v real lives new = (
  record {
    live = (
      record {
        not_null = real;
        object = lives;
        counter = rw (
          update_self w.counts fresh (some (pos 1)),
          ==-refl fresh,
          no_owners fresh ss (All-map ss (λ r ne. ne.0) new),
        );
      },
      All-map2 ss (born-IsLive fresh ptr w ss) new v.live,
    );
    object_of = update v.object_of fresh ptr;
    counter_of = update v.counter_of ptr fresh;
    paired = (
      (sym (update_self v.object_of fresh ptr), sym (update_self v.counter_of ptr fresh)),
      All-map2 ss
          (λ r ne e. (
            e.0 ∙ sym (update-ne v.object_of fresh r.count ptr (λ k. ne.0 (sym k))),
            e.1 ∙ sym (update-ne v.counter_of ptr r.ptr fresh (λ k. ne.1 (sym k))),
          ))
          new v.paired,
    );
  },
  refl,
  update_self w.counts fresh (some (pos 1)),
)
