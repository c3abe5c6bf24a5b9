-- ===== src/ChunkQueue/Links.antt =====
-- The chunks under the constructor and `push` of DataChunkQueue.h.
use cpp_concurrency_data_str.Base.{
  ℕ, ◌+◌, ◌%◌, ◌^◌, ◌≡◌, ◌≢◌, refl, ◌∙◌, sym, subst, ◌⊎◌, inl, inr, none, some, List, [], ◌∷◌, ◌++◌,
  ◌==◌, ==-refl, ==_iff, ==_of_ne, update, update_self, update-ne, Bool-cases,
}
use cpp_concurrency_data_str.ChunkQueue.{
  Ptr, null, Chunk, Heap, ChunkQueue, set_next, set_prev, make, add_chunk, push,
}
use cpp_concurrency_data_str.ChunkQueue.Chain.{
  Apart, Apart-snoc, Chain, IsAllocated, Chain-IsAllocated, of_last, Apart-free, Chain-snoc,
}

module _ {ℓ} {A : Type ℓ} where
  -- The chunks of a queue, from the first one at `begin`: linked, not null, and apart from the spare
  -- one, if there is one.
  pub record IsLinked (h : Heap A) (begin : Ptr) (ps : List Ptr) (end spare : Ptr) : Type ℓ where
    pub chain : Chain h begin ps end
    pub not_null : Apart null (begin ∷ ps)
    pub spare_ok :
        (spare ≡ null) ⊎ ((spare ≢ null) × IsAllocated h spare × Apart spare (begin ∷ ps))

  abbrev pub Linked : ChunkQueue A → List Ptr → Type ℓ
  Linked q ps = IsLinked q.heap q.begin_chunk ps q.end_chunk q.spare_chunk

  pub make-IsLinked :
      (fresh : Ptr) (raw : Chunk A) (h : Heap A) → fresh ≢ null → Linked (make fresh raw h) []
  unfolding make
  make-IsLinked fresh raw h real = record {
    chain = (refl, raw, update_self h fresh (some raw));
    not_null = (λ e. real (sym e), tt);
    spare_ok = inl refl;
  }

  -- What `add_chunk` leaves: a chunk `new` behind the last one.
  pub record Added (q : ChunkQueue A) (ps : List Ptr) (h' : Heap A) (new : Ptr) : Type ℓ where
    pub not_null : new ≢ null
    pub apart : Apart new (q.begin_chunk ∷ ps)
    pub linked : (c : Chunk A) × (h' q.end_chunk ≡ some c) × (c.next ≡ new)
    pub allocated : IsAllocated h' new
    pub kept : (a : Ptr) → a ≢ q.end_chunk → a ≢ new → h' a ≡ q.heap a

  -- The chunk that is linked in: one from malloc, or the spare one.
  abbrev pub NewIs : ChunkQueue A → Ptr → Ptr → Type 0
  NewIs q fresh new =
      ((q.spare_chunk ≡ null) × (new ≡ fresh)) ⊎ ((q.spare_chunk ≢ null) × (new ≡ q.spare_chunk))

  -- The heap with the chunk `n` at `new` linked behind the chunk `e`.
  abbrev behind : Heap A → Ptr → Chunk A → Ptr → Chunk A → Heap A
  behind h end e new n =
      update (update h end (some (record e { next = new }))) new (some (record n { prev = end }))

  behind-Added :
      (q : ChunkQueue A) (ps : List Ptr) (h : Heap A) (e n : Chunk A) (new : Ptr)
      → new ≢ null
      → Apart new (q.begin_chunk ∷ ps)
      → new ≢ q.end_chunk
      → ((a : Ptr) → a ≢ new → h a ≡ q.heap a)
      → Added q ps (behind h q.end_chunk e new n) new
  behind-Added q ps h e n new nn apart ne old =
      let linked_heap = update h q.end_chunk (some (record e { next = new })) in
      let filled = some (record n { prev = q.end_chunk }) in
      record {
        not_null = nn;
        apart = apart;
        linked = (
          record e { next = new },
          update-ne linked_heap new q.end_chunk filled ne
              ∙ update_self h q.end_chunk (some (record e { next = new })),
          refl,
        );
        allocated = (record n { prev = q.end_chunk }, update_self linked_heap new filled);
        kept = λ a other not_new.
            update-ne linked_heap new a filled (λ k. not_new (sym k))
            ∙ update-ne h q.end_chunk a (some (record e { next = new })) (λ k. other (sym k))
            ∙ old a not_new;
      }

  module _ (q : ChunkQueue A) (ps : List Ptr) (v : Linked q ps) (fresh : Ptr) (raw : Chunk A)
      (real : fresh ≢ null) (unused : q.heap fresh ≡ none) where
    add_chunk-Added :
        (h' : Heap A) × (new : Ptr) × (add_chunk fresh raw q ≡ some h')
        × Added q ps h' new
        × NewIs q fresh new
    unfolding add_chunk set_next set_prev
    add_chunk-Added =
        let (e, last) =
          of_last (IsAllocated q.heap) q.heap q.begin_chunk ps q.end_chunk v.chain
            (Chain-IsAllocated q.heap q.begin_chunk ps q.end_chunk v.chain) in
        elim v.spare_ok [
          | inl no_spare ↦
              let apart = Apart-free q.heap q.begin_chunk ps q.end_chunk fresh v.chain unused in
              let ne = of_last (λ a. fresh ≢ a) q.heap q.begin_chunk ps q.end_chunk v.chain apart in
              (
                behind (update q.heap fresh (some raw)) q.end_chunk e fresh raw,
                fresh,
                rw
                    (
                      (==_iff q.spare_chunk null).1 no_spare,
                      ==_of_ne _ _ ne,
                      last,
                      ==_of_ne _ _ (λ k. ne (sym k)),
                      ==-refl fresh,
                    )
                    refl,
                behind-Added q ps (update q.heap fresh (some raw)) e raw fresh real apart ne
                    (λ a k. update-ne q.heap fresh a (some raw) (λ j. k (sym j))),
                inl (no_spare, refl),
              )
          | inr (has_spare, (n, at), apart) ↦
              let ne =
                of_last (λ a. q.spare_chunk ≢ a) q.heap q.begin_chunk ps q.end_chunk v.chain
                  apart in
              (
                behind q.heap q.end_chunk e q.spare_chunk n,
                q.spare_chunk,
                rw (==_of_ne _ _ has_spare, last, ==_of_ne _ _ (λ k. ne (sym k)), at) refl,
                behind-Added q ps q.heap e n q.spare_chunk has_spare apart ne (λ a k. refl),
                inr (has_spare, refl),
              )
        ]

  -- After `push` the chunks are those before, or one more: no chunk is lost.
  abbrev pub Grown : ChunkQueue A → ChunkQueue A → Ptr → List Ptr → Type ℓ
  Grown q q' fresh ps =
      (Linked q' ps × (q'.heap ≡ q.heap) × (q'.spare_chunk ≡ q.spare_chunk))
      ⊎ ((new : Ptr) × Linked q' (ps ++ new ∷ [])
          × (q'.spare_chunk ≡ null)
          × NewIs q fresh new
          × ((a : Ptr) → a ≢ q.end_chunk → a ≢ new → q'.heap a ≡ q.heap a))

  grow-IsLinked :
      (q : ChunkQueue A) (ps : List Ptr) (h' : Heap A) (new : Ptr)
      → Linked q ps
      → Added q ps h' new
      → IsLinked h' q.begin_chunk (ps ++ new ∷ []) new null
  grow-IsLinked q ps h' new v a = record {
    chain =
        Chain-snoc q.heap h' q.begin_chunk ps q.end_chunk new v.chain a.apart a.linked a.allocated
          a.kept;
    not_null = Apart-snoc null (q.begin_chunk ∷ ps) new v.not_null (λ k. a.not_null (sym k));
    spare_ok = inl refl;
  }

  -- On a queue whose chunks are linked, `push` with a new chunk at a free address that is not null
  -- does not fault, and the chunks stay linked: the same ones, or one more at the end. The rest of the
  -- heap stays as it is.
  pub push-IsLinked :
      (size : ℕ) (fresh : Ptr) (raw : Chunk A) (q : ChunkQueue A) (ps : List Ptr)
      → fresh ≢ null
      → q.heap fresh ≡ none
      → Linked q ps
      → (q' : ChunkQueue A) × (push size fresh raw q ≡ some q')
        × (q'.begin_chunk ≡ q.begin_chunk)
        × Grown q q' fresh ps
  unfolding push
  push-IsLinked size fresh raw q ps real unused v =
      elim (Bool-cases ((q.end_pos + 1) % 2 ^ 32 == size)) [
        | inl filled ↦ (
          record q {
            back_chunk = q.end_chunk;
            back_pos = q.end_pos;
            end_pos = (q.end_pos + 1) % 2 ^ 32;
          },
          rw filled refl,
          refl,
          inl (
            record { chain = v.chain; not_null = v.not_null; spare_ok = v.spare_ok },
            refl,
            refl,
          ),
        )
        | inr not_filled ↦
            let q1 : ChunkQueue A = record q {
              back_chunk = q.end_chunk;
              back_pos = q.end_pos;
              end_pos = (q.end_pos + 1) % 2 ^ 32;
            } in
            let v1 : Linked q1 ps = record {
              chain = v.chain;
              not_null = v.not_null;
              spare_ok = v.spare_ok;
            } in
            let (h', new, eq, a, new_is) = add_chunk-Added q1 ps v1 fresh raw real unused in
            let (c, at, to_new) = a.linked in
            (
              record q {
                back_chunk = q.end_chunk;
                back_pos = q.end_pos;
                heap = h';
                end_chunk = c.next;
                end_pos = 0;
                spare_chunk = null;
              },
              rw (not_filled, eq, at) refl,
              refl,
              inr (
                new,
                subst (λ end. IsLinked h' q.begin_chunk (ps ++ new ∷ []) end null) (sym to_new)
                    (grow-IsLinked q1 ps h' new v1 a),
                refl,
                new_is,
                a.kept,
              ),
            )
      ]
