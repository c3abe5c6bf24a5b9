-- ===== src/ChunkQueue/Frees.antt =====
-- What `pop` of DataChunkQueue.h frees.
use cpp_concurrency_data_str.Base.{
  ℕ, ◌+◌, ◌%◌, ◌^◌, ◌≡◌, ◌≢◌, refl, ◌∙◌, ap, sym, subst, ◌⊎◌, inl, inr, Option, none, some, List,
  [], ◌∷◌, All, ◌==◌, ==_iff, ==_of_ne, update, update_self, update-ne, Bool-cases, ℕ_discrete,
}
use cpp_concurrency_data_str.ChunkQueue.{Ptr, null, Chunk, Heap, ChunkQueue, set_prev, free, pop}
use cpp_concurrency_data_str.ChunkQueue.Chain.{
  Apart, IsAllocated, Chain-IsAllocated, SameNext, SameNext-of_eq, Chain-SameNext,
}
use cpp_concurrency_data_str.ChunkQueue.Links.{IsLinked, Linked}

All_of_all {ℓ κ} : {A : Type ℓ} (P : A → Type κ) (xs : List A) → ((x : A) → P x) → All P xs
All_of_all P [] f = tt
All_of_all P (x ∷ xs) f = (f x, All_of_all P xs f)

pub Apart-kept {κ} :
    (P : Ptr → Type κ) (a : Ptr) (ps : List Ptr) → ((b : Ptr) → b ≢ a → P b) → Apart a ps → All P ps
Apart-kept P a [] f u = tt
Apart-kept P a (p ∷ ps) f u = (f p (λ e. u.0 (sym e)), Apart-kept P a ps f u.1)

module _ {ℓ} {A : Type ℓ} where
  abbrev next_of : Option (Chunk A) → Ptr
  next_of none = null
  next_of (some c) = c.next

  pub Apart-spare :
      (h : Heap A) (begin : Ptr) (ps : List Ptr) (end spare : Ptr)
      → IsLinked h begin ps end spare
      → Apart spare (begin ∷ ps)
  Apart-spare h begin ps end spare v = elim v.spare_ok [
    | inl no_spare ↦ subst (λ a. Apart a (begin ∷ ps)) (sym no_spare) v.not_null
    | inr (has_spare, alloc, apart) ↦ apart
  ]

  -- What can be freed: nothing, or a chunk on the heap.
  abbrev CanFree : Heap A → Ptr → Type ℓ
  CanFree h a = (a ≡ null) ⊎ ((a ≢ null) × IsAllocated h a)

  pub CanFree-spare :
      (h h' : Heap A) (begin : Ptr) (ps : List Ptr) (end spare : Ptr)
      → IsLinked h begin ps end spare
      → (IsAllocated h spare → IsAllocated h' spare)
      → CanFree h' spare
  CanFree-spare h h' begin ps end spare v keep = elim v.spare_ok [
    | inl no_spare ↦ inl no_spare
    | inr (has_spare, alloc, apart) ↦ inr (has_spare, keep alloc)
  ]

  -- A chunk is freed and nothing else is; of a null pointer nothing.
  pub free_lem :
      (h : Heap A) (a : Ptr)
      → CanFree h a
      → (h' : Heap A) × (free a h ≡ some h')
        × (a ≢ null → h' a ≡ none)
        × ((b : Ptr) → b ≢ a → h' b ≡ h b)
  unfolding free
  free_lem h a (inl is_null) =
      (h, rw ((==_iff a null).1 is_null) refl, (λ k. absurd (k is_null)), (λ b k. refl))
  free_lem h a (inr (real, (c, at))) = (
    update h a none,
    rw (==_of_ne _ _ real, at) refl,
    (λ k. update_self h a none),
    (λ b k. update-ne h a b none (λ j. k (sym j))),
  )

  pub free-chunk :
      (h : Heap A) (a : Ptr) → a ≢ null → IsAllocated h a → free a h ≡ some (update h a none)
  unfolding free
  free-chunk h a real alloc = rw (==_of_ne _ _ real, alloc.1) refl

  -- A new `prev` leaves every `next` as it is.
  SameNext-prev :
      (h : Heap A) (n prev : Ptr) (d : Chunk A)
      → h n ≡ some d
      → (a : Ptr) → SameNext h (update h n (some (record d { prev = prev }))) a
  SameNext-prev h n prev d at a c e = elim (ℕ_discrete n a) [
    | yes same ↦ (
      record d { prev = prev },
      ap (update h n (some (record d { prev = prev }))) (sym same)
          ∙ update_self h n (some (record d { prev = prev })),
      ap next_of (sym at ∙ ap h same ∙ e),
    )
    | no other ↦ (c, update-ne h n a (some (record d { prev = prev })) other ∙ e, refl)
  ]

  IsLinked-SameNext :
      (h h' : Heap A) (begin : Ptr) (ps : List Ptr) (end spare : Ptr)
      → ((a : Ptr) → SameNext h h' a)
      → IsLinked h begin ps end spare
      → IsLinked h' begin ps end spare
  IsLinked-SameNext h h' begin ps end spare same v = record {
    chain = Chain-SameNext h h' begin ps end (All_of_all (SameNext h h') (begin ∷ ps) same) v.chain;
    not_null = v.not_null;
    spare_ok = elim v.spare_ok [
      | inl no_spare ↦ inl no_spare
      | inr (has_spare, (c, at), apart) ↦
          let (d, e, f) = same spare c at in inr (has_spare, (d, e), apart)
    ];
  }

  -- After `pop` the chunks are the same, or those but the first, which is kept as the spare one, and the
  -- old spare one is freed.
  abbrev pub Shrunk : ChunkQueue A → ChunkQueue A → Ptr → List Ptr → Type ℓ
  Shrunk q q' n ps =
      (Linked q' (n ∷ ps)
        × (q'.begin_chunk ≡ q.begin_chunk)
        × (q'.heap ≡ q.heap)
        × (q'.spare_chunk ≡ q.spare_chunk))
      ⊎ (Linked q' ps
          × (q'.begin_chunk ≡ n)
          × (q'.spare_chunk ≡ q.begin_chunk)
          × (q.spare_chunk ≢ null → q'.heap q.spare_chunk ≡ none)
          × ((a : Ptr) → a ≢ n → a ≢ q.spare_chunk → q'.heap a ≡ q.heap a))

  -- On a queue of two or more chunks, linked, `pop` does not fault, and the chunks stay linked: the
  -- same ones, or those but the first, which is the spare one then.
  pub pop-IsLinked :
      (size : ℕ) (q : ChunkQueue A) (n : Ptr) (ps : List Ptr)
      → Linked q (n ∷ ps)
      → (q' : ChunkQueue A) × (pop size q ≡ some q') × Shrunk q q' n ps
  unfolding pop set_prev
  pop-IsLinked size q n ps v = elim (Bool-cases ((q.begin_pos + 1) % 2 ^ 32 == size)) [
    | inr not_done ↦ (
      record q { begin_pos = (q.begin_pos + 1) % 2 ^ 32 },
      rw not_done refl,
      inl (
        record { chain = v.chain; not_null = v.not_null; spare_ok = v.spare_ok },
        refl,
        refl,
        refl,
      ),
    )
    | inl done ↦
        let (t, at, to_n) = v.chain.0 in
        let (d, at_n) = (Chain-IsAllocated q.heap n ps q.end_chunk v.chain.2).0 in
        let h1 = update q.heap n (some (record d { prev = null })) in
        let v1 =
          IsLinked-SameNext q.heap h1 q.begin_chunk (n ∷ ps) q.end_chunk q.spare_chunk
            (SameNext-prev q.heap n null d at_n) v in
        let apart = Apart-spare h1 q.begin_chunk (n ∷ ps) q.end_chunk q.spare_chunk v1 in
        let (h2, eq, gone, kept) =
          free_lem h1 q.spare_chunk
            (CanFree-spare h1 h1 q.begin_chunk (n ∷ ps) q.end_chunk q.spare_chunk v1 (λ x. x)) in
        let (b, at_b, _) = v1.chain.0 in
        (
          record q { heap = h2; begin_chunk = n; begin_pos = 0; spare_chunk = q.begin_chunk },
          rw (done, at, to_n, at_n, eq) refl,
          inr (
            record {
              chain =
                  Chain-SameNext h1 h2 n ps q.end_chunk
                    (Apart-kept (SameNext h1 h2) q.spare_chunk (n ∷ ps)
                      (λ a k. SameNext-of_eq h1 h2 a (kept a k)) apart.1)
                    v1.chain.2;
              not_null = v.not_null.1;
              spare_ok = inr (
                (λ k. v.not_null.0 (sym k)),
                (b, kept q.begin_chunk (λ k. apart.0 (sym k)) ∙ at_b),
                v.chain.1,
              );
            },
            refl,
            refl,
            gone,
            λ a k j.
                kept a j ∙ update-ne q.heap n a (some (record d { prev = null })) (λ i. k (sym i)),
          ),
        )
  ]
