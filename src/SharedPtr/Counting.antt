-- ===== src/SharedPtr/Counting.antt =====
-- Pointers of ThreadSafeShared_ptr.h that are made, copied, moved and destroyed, without assignment:
-- the counter is the number of owners, and the last owner deletes the object.
use cpp_concurrency_data_str.Base.{
  ℕ, All-map, All-map2, suc, ◌+◌, ◌<◌, ◌^◌, ◌≡◌, ◌≢◌, refl, ◌∙◌, sym, ap, true, false, none, some,
  List, [], ◌∷◌, ◌++◌, arith, All, ◌==◌, ==_of_ne, ==_iff, if◌then◌else◌, update, update_self,
  ℕ_discrete,
}
use cpp_concurrency_data_str.Base.Int.{pos, pos-add_one, pos_suc-sub_one}
use cpp_concurrency_data_str.SharedPtr.{
  Ptr, null, World, SharedPtr, delete, copy, destroy, to_int, use_count,
}

-- How many of the pointers share the counter `c`.
abbrev pub owners : Ptr → List SharedPtr → ℕ
owners c [] = 0
owners c (s ∷ ss) = (if s.count == c then 1 else 0) + owners c ss

owners-append : (c : Ptr) (ss ts : List SharedPtr) → owners c (ss ++ ts) ≡ owners c ss + owners c ts
owners-append c [] ts = omega arith
owners-append c (s ∷ ss) ts = omega (arith, owners-append c ss ts)

-- Its object lives, and its counter is `n`.
pub record IsLive (w : World) (n : Ptr → ℕ) (s : SharedPtr) : Type 0 where
  pub not_null : s.ptr ≢ null
  pub object : w.objects s.ptr ≡ true
  pub counter : w.counts s.count ≡ some (pos (n s.count))

-- The pointers are all the owners of their objects, and each object has one counter.
pub record Owns (w : World) (ss : List SharedPtr) : Type 0 where
  pub live : All (IsLive w (λ c. owners c ss)) ss
  pub object_of : Ptr → Ptr
  pub counter_of : Ptr → Ptr
  pub paired : All (λ s. (s.ptr ≡ object_of s.count) × (s.count ≡ counter_of s.ptr)) ss

pub All-at {ℓ} :
    (P : SharedPtr → Type ℓ) (ss : List SharedPtr) (s : SharedPtr) (ts : List SharedPtr)
    → All P (ss ++ s ∷ ts)
    → P s × All P (ss ++ ts)
All-at P [] s ts u = u
All-at P (r ∷ ss) s ts u = let (p, v) = All-at P ss s ts u.1 in (p, (u.0, v))

owners-at :
    (c : Ptr) (ss : List SharedPtr) (s : SharedPtr) (ts : List SharedPtr)
    → owners c (ss ++ s ∷ ts) ≡ (if s.count == c then 1 else 0) + owners c (ss ++ ts)
owners-at c [] s ts = refl
owners-at c (r ∷ ss) s ts = omega (arith, owners-at c ss s ts)

no_owner : (c : Ptr) (ss : List SharedPtr) → owners c ss ≡ 0 → All (λ s. s.count ≢ c) ss
no_owner c [] h = tt
no_owner c (s ∷ ss) h = (λ e. ground arith, no_owner c ss (ground arith))

module _ (w : World) (s : SharedPtr) (ss : List SharedPtr) where
  -- one more in the counter of `s`
  abbrev added : World
  added = record w { counts = update w.counts s.count (some (pos (suc (owners s.count ss)))) }

  added-IsLive :
      (r : SharedPtr) → IsLive w (λ c. owners c ss) r → IsLive added (λ c. owners c (s ∷ ss)) r
  added-IsLive r v = record {
    not_null = v.not_null;
    object = v.object;
    counter = ground (arith, v.counter);
  }

-- Where `ss ++ s ∷ ts` are all the owners of their objects, copying `s` does not fault, gives a pointer
-- equal to it, and adds that to the owners.
pub copy-Owns :
    {w : World} (ss : List SharedPtr) (s : SharedPtr) (ts : List SharedPtr)
    → Owns w (ss ++ s ∷ ts)
    → (w' : World) × (copy s w ≡ some (s, w')) × Owns w' (s ∷ ss ++ s ∷ ts)
unfolding copy
copy-Owns {w} ss s ts v =
    let all = ss ++ s ∷ ts in
    let (p, others) = All-at _ ss s ts v.live in
    let (pair, pairs) = All-at _ ss s ts v.paired in
    (
      added w s all,
      rw (p.counter, pos-add_one),
      record {
        live = (added-IsLive w s all s p, All-map all (added-IsLive w s all) v.live);
        object_of = v.object_of;
        counter_of = v.counter_of;
        paired = (pair, v.paired);
      },
    )

module _ (w : World) (ss : List SharedPtr) (s : SharedPtr) (ts : List SharedPtr) where
  abbrev rest : List SharedPtr
  rest = ss ++ ts

  -- one less in the counter of `s`
  abbrev taken : World
  taken = record w { counts = update w.counts s.count (some (pos (owners s.count rest))) }

  taken-IsLive :
      (r : SharedPtr)
      → IsLive w (λ c. owners c (ss ++ s ∷ ts)) r
      → IsLive taken (λ c. owners c rest) r
  taken-IsLive r v = record {
    not_null = v.not_null;
    object = v.object;
    counter = ground (arith, v.counter, owners-at r.count ss s ts);
  }

  deleted-IsLive :
      (r : SharedPtr)
      → IsLive w (λ c. owners c (ss ++ s ∷ ts)) r
      → (s.count ≢ r.count) × (s.ptr ≢ r.ptr)
      → IsLive (delete s taken) (λ c. owners c rest) r
  deleted-IsLive r v ne = record {
    not_null = v.not_null;
    object = ground (arith, v.object);
    counter = ground (arith, v.counter, owners-at r.count ss s ts);
  }

-- Who has another counter has another object.
apart :
    (s : SharedPtr) (ss : List SharedPtr) (object_of counter_of : Ptr → Ptr)
    → s.count ≡ counter_of s.ptr
    → All (λ r. (r.ptr ≡ object_of r.count) × (r.count ≡ counter_of r.ptr)) ss
    → owners s.count ss ≡ 0
    → All (λ r. (s.count ≢ r.count) × (s.ptr ≢ r.ptr)) ss
apart s ss object_of counter_of e paired none_left =
    All-map2 ss
      (λ r ne pair. ((λ k. ne (sym k)), (λ k. ne (pair.1 ∙ ap counter_of (sym k) ∙ sym e))))
      (no_owner s.count ss none_left) paired

-- What `destroy` does at a counter of `n + 1`.
destroy_other :
    (s : SharedPtr) (w : World) (n : ℕ)
    → s.ptr ≢ null
    → w.counts s.count ≡ some (pos (suc n))
    → n ≢ 0
    → destroy s w ≡ some (record w { counts = update w.counts s.count (some (pos n)) })
unfolding destroy
destroy_other s w n real c more =
    rw (==_of_ne s.ptr null real, c, pos_suc-sub_one, ==_of_ne (suc n) 1 (omega arith))

destroy_last :
    (s : SharedPtr) (w : World) (n : ℕ)
    → s.ptr ≢ null
    → w.counts s.count ≡ some (pos (suc n))
    → n ≡ 0
    → destroy s w ≡ some (delete s (record w { counts = update w.counts s.count (some (pos n)) }))
unfolding destroy
destroy_last s w n real c last =
    rw (==_of_ne s.ptr null real, c, pos_suc-sub_one, (==_iff (suc n) 1).1 (omega arith))

-- Where `ss ++ s ∷ ts` are all the owners of their objects, destroying `s` does not fault and takes it
-- from the owners. If no other shares its counter, the object and the counter are deleted; if another
-- does, every object lives as before.
pub destroy-Owns :
    {w : World} (ss : List SharedPtr) (s : SharedPtr) (ts : List SharedPtr)
    → Owns w (ss ++ s ∷ ts)
    → (w' : World) × (destroy s w ≡ some w')
      × Owns w' (ss ++ ts)
      × (owners s.count (ss ++ ts) ≡ 0 → (w'.objects s.ptr ≡ false) × (w'.counts s.count ≡ none))
      × (owners s.count (ss ++ ts) ≢ 0 → w'.objects ≡ w.objects)
destroy-Owns {w} ss s ts v =
    let (p, live) = All-at (IsLive w (λ c. owners c (ss ++ s ∷ ts))) ss s ts v.live in
    let (pair, pairs) =
      All-at (λ r. (r.ptr ≡ v.object_of r.count) × (r.count ≡ v.counter_of r.ptr)) ss s ts
        v.paired in
    let n = owners s.count (ss ++ ts) in
    let c : w.counts s.count ≡ some (pos (suc n)) =
      p.counter ∙ ap (λ k. some (pos k)) (ground (arith, owners-at s.count ss s ts)) in
    elim (ℕ_discrete n 0) [
      | yes last ↦ (
        delete s (taken w ss s ts),
        destroy_last s w n p.not_null c last,
        record {
          live =
              All-map2 (ss ++ ts) (deleted-IsLive w ss s ts) live
                (apart s (ss ++ ts) v.object_of v.counter_of pair.1 pairs last);
          object_of = v.object_of;
          counter_of = v.counter_of;
          paired = pairs;
        },
        λ e. (update_self w.objects s.ptr false, update_self (taken w ss s ts).counts s.count none),
        λ ne. absurd (ne last),
      )
      | no more ↦ (
        taken w ss s ts,
        destroy_other s w n p.not_null c more,
        record {
          live = All-map (ss ++ ts) (taken-IsLive w ss s ts) live;
          object_of = v.object_of;
          counter_of = v.counter_of;
          paired = pairs;
        },
        λ e. absurd (more e),
        λ ne. refl,
      )
    ]

-- An owner's `use_count` is the number of owners, as long as an `int` counts them.
pub use_count-Owns :
    {w : World} (ss : List SharedPtr) (s : SharedPtr) (ts : List SharedPtr)
    → Owns w (ss ++ s ∷ ts)
    → owners s.count (ss ++ s ∷ ts) < 2 ^ 31
    → use_count s w ≡ some (pos (owners s.count (ss ++ s ∷ ts)))
unfolding use_count
use_count-Owns {w} ss s ts v few =
    let n = owners s.count (ss ++ s ∷ ts) in
    let (p, live) = All-at (IsLive w (λ c. owners c (ss ++ s ∷ ts))) ss s ts v.live in
    rw p.counter (ap some (fits n few))
  where
    fits : (n : ℕ) → n < 2 ^ 31 → to_int (pos n) ≡ pos n
    fits n h = ground arith
