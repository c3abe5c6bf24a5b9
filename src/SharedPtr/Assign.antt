-- ===== src/SharedPtr/Assign.antt =====
-- `operator=` of ThreadSafeShared_ptr.h compares the pointers by `==`, which converts both to bool:
-- they are equal when both are null or neither is. What it does between owners and a null pointer.
use cpp_concurrency_data_str.Base.{
  ◌≡◌, ◌≢◌, refl, sym, ◌∙◌, ap, All, All-map2, none, some, some-injective, Option, List, ◌∷◌, ◌++◌,
  ◌>>=◌, ==_of_ne, ==_iff, false, Bool-cases, inl, inr, if◌then◌else◌, update, update_self,
  update-ne,
}
use cpp_concurrency_data_str.Base.Int.{ℤ, pos, ◌+ℤ◌, ◌-ℤ◌}
use cpp_concurrency_data_str.SharedPtr.{
  Ptr, null, World, SharedPtr, is_one, make_null, move, delete, copy, destroy, assign,
}
use cpp_concurrency_data_str.SharedPtr.Counting.{
  owners, IsLive, Owns, All-at, copy-Owns, destroy-Owns,
}

-- The world in which the counter `c` is set to `v`.
abbrev set_count : Ptr → Option ℤ → World → World
set_count c v w = record w { counts = update w.counts c v }

-- Another counter than the owners' does not matter to them.
set_count-Owns :
    {w : World} (c : Ptr) (v : Option ℤ) (ss : List SharedPtr)
    → All (λ r. r.count ≢ c) ss
    → Owns w ss
    → Owns (set_count c v w) ss
set_count-Owns {w} c v ss others o = record {
  live =
      All-map2 ss
        (λ r ne p. record {
          not_null = p.not_null;
          object = p.object;
          counter = update-ne w.counts c r.count v (λ e. ne (sym e)) ∙ p.counter;
        })
        others o.live;
  object_of = o.object_of;
  counter_of = o.counter_of;
  paired = o.paired;
}

-- Nor does the object at null.
delete-Owns :
    {w : World} (n : SharedPtr) (ss : List SharedPtr)
    → n.ptr ≡ null
    → All (λ r. r.count ≢ n.count) ss
    → Owns w ss
    → Owns (delete n w) ss
delete-Owns {w} n ss is_null others o = record {
  live =
      All-map2 ss
        (λ r ne p. record {
          not_null = p.not_null;
          object =
              update-ne w.objects n.ptr r.ptr false (λ e. p.not_null (sym e ∙ is_null)) ∙ p.object;
          counter = update-ne w.counts n.count r.count none (λ e. ne (sym e)) ∙ p.counter;
        })
        others o.live;
  object_of = o.object_of;
  counter_of = o.counter_of;
  paired = o.paired;
}

copy_at :
    (s : SharedPtr) (w : World) (k : ℤ)
    → w.counts s.count ≡ some k
    → copy s w ≡ some (s, set_count s.count (some (k +ℤ pos 1)) w)
unfolding copy
copy_at s w k e = rw e refl

destroy_at :
    (s : SharedPtr) (w : World) (k : ℤ)
    → s.ptr ≢ null
    → w.counts s.count ≡ some k
    → destroy s w
      ≡ some
          (let w' = set_count s.count (some (k -ℤ pos 1)) w in if is_one k then delete s w' else w')
unfolding destroy
destroy_at s w k real e = rw (==_of_ne s.ptr null real, e) refl

-- An assignment of a null pointer to an owner destroys the owner and copies the null pointer.
assign-null :
    (s n : SharedPtr) (w : World) (k : ℤ)
    → s.ptr ≢ null
    → n.ptr ≡ null
    → w.counts s.count ≡ some k
    → assign s n w ≡ (destroy s w >>= copy n)
unfolding assign destroy copy
assign-null s n w k real is_null e =
    rw (==_of_ne s.ptr null real, (==_iff n.ptr null).1 is_null, e) refl

-- The world in which a null pointer has left its counter, which was `k`.
abbrev left : SharedPtr → ℤ → World → World
left n k w =
    let w' = set_count n.count (some (k -ℤ pos 1)) w in if is_one k then delete n w' else w'

assign_to_null :
    (n s : SharedPtr) (w : World) (k : ℤ)
    → n.ptr ≡ null
    → s.ptr ≢ null
    → w.counts n.count ≡ some k
    → assign n s w ≡ copy s (left n k w)
unfolding assign copy
assign_to_null n s w k is_null real e =
    rw (==_of_ne s.ptr null real, (==_iff n.ptr null).1 is_null, e) refl

left-Owns :
    {w : World} (n : SharedPtr) (k : ℤ) (ss : List SharedPtr)
    → n.ptr ≡ null
    → All (λ r. r.count ≢ n.count) ss
    → Owns w ss
    → Owns (left n k w) ss
left-Owns {w} n k ss is_null others o =
    let o' = set_count-Owns n.count (some (k -ℤ pos 1)) ss others o in
    elim (Bool-cases (is_one k)) [
      | inl e ↦ rw e (delete-Owns n ss is_null others o')
      | inr e ↦ rw e o'
    ]

left-objects :
    (n : SharedPtr) (k : ℤ) (w : World) (p : Ptr)
    → n.ptr ≡ null
    → p ≢ null
    → (left n k w).objects p ≡ w.objects p
left-objects n k w p is_null real = elim (Bool-cases (is_one k)) [
  | inl e ↦ rw e (update-ne w.objects n.ptr p false (λ h. real (sym h ∙ is_null)))
  | inr e ↦ rw e refl
]

-- The destructor changes no other counter.
destroy-counts :
    (s : SharedPtr) (w w' : World) (k : ℤ) (c : Ptr)
    → s.ptr ≢ null
    → w.counts s.count ≡ some k
    → s.count ≢ c
    → destroy s w ≡ some w'
    → w'.counts c ≡ w.counts c
destroy-counts s w w' k c real e other ran =
    ap (λ v. v.counts c) (sym (some-injective _ _ (sym (destroy_at s w k real e) ∙ ran)))
    ∙ elim (Bool-cases (is_one k)) [
      | inl h ↦ rw h (
          update-ne (set_count s.count (some (k -ℤ pos 1)) w).counts s.count c none other
          ∙ update-ne w.counts s.count c (some (k -ℤ pos 1)) other)
      | inr h ↦ rw h (update-ne w.counts s.count c (some (k -ℤ pos 1)) other)
    ]

module _ {w : World} (ss : List SharedPtr) (s : SharedPtr) (ts : List SharedPtr) (n : SharedPtr)
    (k : ℤ) (is_null : n.ptr ≡ null) (counted : w.counts n.count ≡ some k) where
  null-Owns :
      Owns w (ss ++ s ∷ ts)
      → All (λ r. r.count ≢ n.count) (ss ++ s ∷ ts)
      → (w' : World) × (assign n s w ≡ some (s, w'))
        × Owns w' (s ∷ ss ++ s ∷ ts)
        × ((p : Ptr) → p ≢ null → w'.objects p ≡ w.objects p)
  null-Owns o others =
      let all = ss ++ s ∷ ts in
      let o' = left-Owns n k all is_null others o in
      let (at, rest) = All-at (IsLive (left n k w) (λ c. owners c all)) ss s ts o'.live in
      let (w', ran, owned) = copy-Owns ss s ts o' in
      let same = some-injective _ _ (sym (copy_at s (left n k w) _ at.counter) ∙ ran) in
      (
        w',
        assign_to_null n s w k is_null at.not_null counted ∙ ran,
        owned,
        λ p real. ap (λ r. r.1.objects p) (sym same) ∙ left-objects n k w p is_null real,
      )

  owner-Owns :
      Owns w (ss ++ s ∷ ts)
      → All (λ r. r.count ≢ n.count) (ss ++ s ∷ ts)
      → (w' : World) × (assign s n w ≡ some (n, w'))
        × Owns w' (ss ++ ts)
        × (w'.counts n.count ≡ some (k +ℤ pos 1))
        × (owners s.count (ss ++ ts) ≡ 0 → (w'.objects s.ptr ≡ false) × (w'.counts s.count ≡ none))
        × (owners s.count (ss ++ ts) ≢ 0 → w'.objects ≡ w.objects)
  owner-Owns o others =
      let (at, rest) = All-at (IsLive w (λ c. owners c (ss ++ s ∷ ts))) ss s ts o.live in
      let (other, rest_other) = All-at (λ r. r.count ≢ n.count) ss s ts others in
      let (w1, ran, owned, gone, kept) = destroy-Owns ss s ts o in
      let counted' = destroy-counts s w w1 _ n.count at.not_null at.counter other ran ∙ counted in
      let v = some (k +ℤ pos 1) in
      (
        set_count n.count v w1,
        assign-null s n w _ at.not_null is_null at.counter
            ∙ ap (λ r. r >>= copy n) ran
            ∙ copy_at n w1 k counted',
        set_count-Owns n.count v (ss ++ ts) rest_other owned,
        update_self w1.counts n.count v,
        λ last. (
          (gone last).0,
          update-ne w1.counts n.count s.count v (λ e. other (sym e)) ∙ (gone last).1,
        ),
        kept,
      )

-- Let `ss ++ s ∷ ts` be all the owners of their objects and `n` a null pointer, with a counter that is
-- not an owner's. Assigning `s` to `n` does not fault, gives a pointer equal to `s` and adds that to
-- the owners, and every object at another address than null lives as before. Assigning `n` to `s`
-- does not fault, gives a pointer equal to `n`, takes `s` from the owners and adds one to the counter
-- of `n`. Then, if no other owner shares the counter of `s`, its object and this counter are deleted;
-- if another does, every object lives as before.
pub assign-Owns :
    {w : World} (ss : List SharedPtr) (s : SharedPtr) (ts : List SharedPtr) (n : SharedPtr) (k : ℤ)
    → n.ptr ≡ null
    → w.counts n.count ≡ some k
    → Owns w (ss ++ s ∷ ts)
    → All (λ r. r.count ≢ n.count) (ss ++ s ∷ ts)
    → ((w' : World) × (assign n s w ≡ some (s, w'))
        × Owns w' (s ∷ ss ++ s ∷ ts)
        × ((p : Ptr) → p ≢ null → w'.objects p ≡ w.objects p))
      × ((w' : World) × (assign s n w ≡ some (n, w'))
          × Owns w' (ss ++ ts)
          × (w'.counts n.count ≡ some (k +ℤ pos 1))
          × (owners s.count (ss ++ ts) ≡ 0
              → (w'.objects s.ptr ≡ false) × (w'.counts s.count ≡ none))
          × (owners s.count (ss ++ ts) ≢ 0 → w'.objects ≡ w.objects))
assign-Owns ss s ts n k is_null counted o others = (
  null-Owns ss s ts n k is_null counted o others,
  owner-Owns ss s ts n k is_null counted o others,
)

-- An assignment between two pointers that are not null changes neither the assigned pointer nor the
-- world.
pub assign_between_owners :
    (this other : SharedPtr) (w : World)
    → this.ptr ≢ null
    → other.ptr ≢ null
    → assign this other w ≡ some (this, w)
unfolding assign
assign_between_owners this other w p q = rw (==_of_ne this.ptr null p, ==_of_ne other.ptr null q)

-- What is left of a moved pointer cannot be copied: the counter is read through a null pointer.
pub copy-moved : (s : SharedPtr) (w : World) → w.counts null ≡ none → copy (move s).1 w ≡ none
unfolding copy move
copy-moved s w e = rw e

-- The counter of a pointer made null is never deleted: destroying the pointer changes nothing.
pub destroy-make_null :
    (fresh : Ptr) (w : World)
    → let (s, w') = make_null fresh w in (destroy s w' ≡ some w') × (w'.counts fresh ≡ some (pos 0))
unfolding destroy make_null
destroy-make_null fresh w = (refl, update_self w.counts fresh _)
