-- ===== src/ChunkQueue/Life.antt =====
-- The life of a DataChunkQueue.h on the heap, from its constructor to its destructor.
use cpp_concurrency_data_str.Base.{
  ℕ, suc, ◌≡◌, ◌≢◌, refl, ◌∙◌, ap, sym, subst, inl, inr, ◌⊎◌, Option, none, some, List, [], ◌∷◌,
  ◌++◌, length, All, arith, update-ne, ℕ_discrete,
}
use cpp_concurrency_data_str.ChunkQueue.{
  Ptr, null, Chunk, Heap, ChunkQueue, make, push, pop, destroy,
}
use cpp_concurrency_data_str.ChunkQueue.Chain.{Apart, of_last, Apart-free}
use cpp_concurrency_data_str.ChunkQueue.Links.{Linked, make-IsLinked, push-IsLinked, Grown, NewIs}
use cpp_concurrency_data_str.ChunkQueue.Frees.{pop-IsLinked, Shrunk}
use cpp_concurrency_data_str.ChunkQueue.Destroys.{destroy-Freed}

Apart-snoc_inv : (p : Ptr) (xs : List Ptr) (x : Ptr) → Apart p (xs ++ x ∷ []) → Apart p xs × (p ≢ x)
Apart-snoc_inv p [] x u = (tt, u.0)
Apart-snoc_inv p (y ∷ ys) x u = let (v, ne) = Apart-snoc_inv p ys x u.1 in ((u.0, v), ne)

All-snoc {κ} : (P : Ptr → Type κ) (xs : List Ptr) (x : Ptr) → All P xs → P x → All P (xs ++ x ∷ [])
All-snoc P [] x u px = (px, tt)
All-snoc P (y ∷ ys) x u px = (u.0, All-snoc P ys x u.1 px)

module _ {ℓ} {A : Type ℓ} (size : ℕ) (before : Heap A) where
  -- The queues that the constructor, `push` and `pop` lead to, on a heap that was `before`. Each malloc
  -- gives a free address, and `pop` is called on queues of two or more chunks.
  pub data Reached : ChunkQueue A → Type ℓ where
    makes :
        (fresh : Ptr) (raw : Chunk A)
        → fresh ≢ null
        → before fresh ≡ none
        → Reached (make fresh raw before)
    pushes :
        (fresh : Ptr) (raw : Chunk A) (q q' : ChunkQueue A)
        → Reached q
        → fresh ≢ null
        → q.heap fresh ≡ none
        → push size fresh raw q ≡ some q'
        → Reached q'
    pops :
        (q q' : ChunkQueue A)
        → Reached q
        → q.begin_chunk ≢ q.end_chunk
        → pop size q ≡ some q'
        → Reached q'

  -- The queue's chunks were free on the heap before; all else is as it was.
  pub record Owns (q : ChunkQueue A) (ps : List Ptr) : Type ℓ where
    pub linked : Linked q ps
    pub owned : All (λ a. before a ≡ none) (q.begin_chunk ∷ ps)
    pub spare_owned : q.spare_chunk ≢ null → before q.spare_chunk ≡ none
    pub outside :
        (a : Ptr)
        → a ≢ null
        → Apart a (q.begin_chunk ∷ ps)
        → a ≢ q.spare_chunk
        → q.heap a ≡ before a

  make-Owns :
      (fresh : Ptr) (raw : Chunk A)
      → fresh ≢ null
      → before fresh ≡ none
      → Owns (make fresh raw before) []
  unfolding make
  make-Owns fresh raw real free = record {
    linked = make-IsLinked fresh raw before real;
    owned = (free, tt);
    spare_owned = λ k. absurd (k refl);
    outside = λ a k u j. update-ne before fresh a (some raw) (λ e. u.0 (sym e));
  }

  -- A free address lies outside of the queue.
  free-outside :
      (q : ChunkQueue A) (ps : List Ptr) (fresh : Ptr)
      → Owns q ps
      → fresh ≢ null
      → q.heap fresh ≡ none
      → before fresh ≡ none
  free-outside q ps fresh o real free =
      let apart = Apart-free q.heap q.begin_chunk ps q.end_chunk fresh o.linked.chain free in
      sym (o.outside fresh real apart not_spare) ∙ free
    where
      not_spare : fresh ≢ q.spare_chunk
      not_spare e = elim o.linked.spare_ok [
        | inl no_spare ↦ real (e ∙ no_spare)
        | inr (has_spare, (c, at), far) ↦ absurd (ground (arith, sym free ∙ ap q.heap e ∙ at))
      ]

  same-Owns :
      (q q' : ChunkQueue A) (ps : List Ptr)
      → Owns q ps
      → Linked q' ps
      → q'.begin_chunk ≡ q.begin_chunk
      → q'.heap ≡ q.heap
      → q'.spare_chunk ≡ q.spare_chunk
      → Owns q' ps
  same-Owns q q' ps o linked begin heap spare = record {
    linked = linked;
    owned = (ap before begin ∙ o.owned.0, o.owned.1);
    spare_owned = λ k. ap before spare ∙ o.spare_owned (λ e. k (spare ∙ e));
    outside = λ a k u j.
        ap (λ h. h a) heap
        ∙ o.outside a k (subst (λ b. Apart a (b ∷ ps)) begin u) (λ e. j (e ∙ sym spare));
  }

  push-Owns :
      (q q' : ChunkQueue A) (ps : List Ptr) (fresh : Ptr)
      → Owns q ps
      → fresh ≢ null
      → q.heap fresh ≡ none
      → q'.begin_chunk ≡ q.begin_chunk
      → Grown q q' fresh ps
      → (ps' : List Ptr) × Owns q' ps'
  push-Owns q q' ps fresh o real free begin (inl (linked, heap, spare)) =
      (ps, same-Owns q q' ps o linked begin heap spare)
  push-Owns q q' ps fresh o real free begin (inr (new, linked, spare, new_is, kept)) = (
    ps ++ new ∷ [],
    record {
      linked = linked;
      owned = (
        ap before begin ∙ o.owned.0,
        All-snoc (λ a. before a ≡ none) ps new o.owned.1 (new_free new_is),
      );
      spare_owned = λ k. absurd (k spare);
      outside = λ a k u j.
          let (far, not_new) = Apart-snoc_inv a ps new u.1 in
          let apart : Apart a (q.begin_chunk ∷ ps) = (λ e. u.0 (e ∙ sym begin), far) in
          kept a (of_last (λ b. a ≢ b) q.heap q.begin_chunk ps q.end_chunk o.linked.chain apart)
            not_new
          ∙ o.outside a k apart (not_spare a k not_new new_is);
    },
  )
    where
      new_free : NewIs q fresh new → before new ≡ none
      new_free (inl (no_spare, e)) = ap before e ∙ free-outside q ps fresh o real free
      new_free (inr (has_spare, e)) = ap before e ∙ o.spare_owned has_spare

      not_spare : (a : Ptr) → a ≢ null → a ≢ new → NewIs q fresh new → a ≢ q.spare_chunk
      not_spare a k not_new (inl (no_spare, e)) = λ at. k (at ∙ no_spare)
      not_spare a k not_new (inr (has_spare, e)) = λ at. not_new (at ∙ sym e)

  pop-Owns :
      (q q' : ChunkQueue A) (n : Ptr) (ps : List Ptr)
      → Owns q (n ∷ ps)
      → Shrunk q q' n ps
      → (ps' : List Ptr) × Owns q' ps'
  pop-Owns q q' n ps o (inl (linked, begin, heap, spare)) =
      (n ∷ ps, same-Owns q q' (n ∷ ps) o linked begin heap spare)
  pop-Owns q q' n ps o (inr (linked, begin, spare, gone, kept)) = (
    ps,
    record {
      linked = linked;
      owned = (ap before begin ∙ o.owned.1.0, o.owned.1.1);
      spare_owned = λ k. ap before spare ∙ o.owned.0;
      outside = λ a k u j.
          let apart = subst (λ b. Apart a (b ∷ ps)) begin u in
          elim (ℕ_discrete a q.spare_chunk) [
            | yes e ↦
                let has_spare = λ (z : q.spare_chunk ≡ null). k (e ∙ z) in
                ap q'.heap e ∙ gone has_spare ∙ sym (ap before e ∙ o.spare_owned has_spare)
            | no ne ↦ kept a apart.0 ne ∙ o.outside a k ((λ e. j (e ∙ sym spare)), apart) ne
          ];
    },
  )

  abbrev unwrap : ChunkQueue A → Option (ChunkQueue A) → ChunkQueue A
  unwrap q none = q
  unwrap q (some q') = q'

  Reached-Owns : (q : ChunkQueue A) → Reached q → (ps : List Ptr) × Owns q ps
  Reached-Owns q (makes fresh raw real free) = ([], make-Owns fresh raw real free)
  Reached-Owns q (pushes fresh raw p q' r real free eq) =
      let (ps, o) = Reached-Owns p r in
      let (p', at, begin, grown) = push-IsLinked size fresh raw p ps real free o.linked in
      subst (λ x. (ps' : List Ptr) × Owns x ps') (ap (unwrap p) (sym at ∙ eq))
        (push-Owns p p' ps fresh o real free begin grown)
  Reached-Owns q (pops p q' r more eq) = let (ps, o) = Reached-Owns p r in go ps o
    where
      go : (ps : List Ptr) → Owns p ps → (ps' : List Ptr) × Owns q ps'
      go [] o = absurd (more o.linked.chain.0)
      go (n ∷ ps) o =
          let (p', at, shrunk) = pop-IsLinked size p n ps o.linked in
          subst (λ x. (ps' : List Ptr) × Owns x ps') (ap (unwrap p) (sym at ∙ eq))
            (pop-Owns p p' n ps o shrunk)

  -- An address is none of the chunks, or was free before and is free again.
  freed_or_outside :
      (h' : Heap A) (a : Ptr) (ps : List Ptr)
      → All (λ b. h' b ≡ none) ps
      → All (λ b. before b ≡ none) ps
      → Apart a ps ⊎ (h' a ≡ before a)
  freed_or_outside h' a [] freed owned = inl tt
  freed_or_outside h' a (p ∷ ps) freed owned = elim (ℕ_discrete a p) [
    | yes e ↦ inr (ap h' e ∙ freed.0 ∙ sym (ap before e ∙ owned.0))
    | no ne ↦ elim (freed_or_outside h' a ps freed.1 owned.1) [
      | inl apart ↦ inl (ne, apart)
      | inr same ↦ inr same
    ]
  ]

  -- For every queue that the constructor, any number of `push` and `pop`, each malloc at a free address
  -- that is not null and each `pop` with two or more chunks, lead to: there is fuel with which the
  -- destructor ends without a fault, and it leaves the heap as it was before the constructor, at
  -- every address but null, so no chunk is lost and none is freed that was not the queue's.
  pub whole_life :
      (q : ChunkQueue A)
      → Reached q
      → (fuel : ℕ) × (h' : Heap A) × (destroy fuel q ≡ some h')
        × ((a : Ptr) → a ≢ null → h' a ≡ before a)
  whole_life q r =
      let (ps, o) = Reached-Owns q r in
      let (h', eq, w) = destroy-Freed (suc (length ps)) q ps (omega arith) o.linked in
      (
        suc (length ps),
        h',
        eq,
        λ a k. elim (freed_or_outside h' a (q.begin_chunk ∷ ps) w.freed o.owned) [
          | inr same ↦ same
          | inl apart ↦ elim (ℕ_discrete a q.spare_chunk) [
            | yes e ↦
                let has_spare = λ (z : q.spare_chunk ≡ null). k (e ∙ z) in
                ap h' e ∙ w.spare_freed has_spare ∙ sym (ap before e ∙ o.spare_owned has_spare)
            | no ne ↦ w.kept a apart ne ∙ o.outside a k apart ne
          ]
        ],
      )
