-- ===== src/ChunkQueue/Destroys.antt =====
-- What the destructor of DataChunkQueue.h leaves on the heap.
use cpp_concurrency_data_str.Base.{
  ℕ, zero, suc, ◌<◌, ◌≡◌, ◌≢◌, refl, ◌∙◌, sym, inl, inr, none, some, List, [], ◌∷◌, length, All,
  arith, ==_iff, ==_of_ne, update, update_self, update-ne,
}
use cpp_concurrency_data_str.ChunkQueue.{Ptr, null, Heap, ChunkQueue, destroy}
use cpp_concurrency_data_str.ChunkQueue.Chain.{
  Apart, of_last, SameNext, SameNext-of_eq, Chain-SameNext,
}
use cpp_concurrency_data_str.ChunkQueue.Links.{Linked}
use cpp_concurrency_data_str.ChunkQueue.Frees.{
  Apart-kept, Apart-spare, CanFree-spare, free_lem, free-chunk,
}

module _ {ℓ} {A : Type ℓ} where
  -- What the destructor leaves: every chunk and the spare one are freed, and nothing else is.
  pub record Freed (h h' : Heap A) (chunks : List Ptr) (spare : Ptr) : Type ℓ where
    pub freed : All (λ a. h' a ≡ none) chunks
    pub spare_freed : spare ≢ null → h' spare ≡ none
    pub kept : (a : Ptr) → Apart a chunks → a ≢ spare → h' a ≡ h a

  -- On a queue whose chunks are linked, with fuel for as many rounds as there are chunks, the destructor
  -- ends without a fault: it frees every chunk, and the spare one, and nothing else.
  pub destroy-Freed :
      (fuel : ℕ) (q : ChunkQueue A) (ps : List Ptr)
      → length ps < fuel
      → Linked q ps
      → (h' : Heap A) × (destroy fuel q ≡ some h')
        × Freed q.heap h' (q.begin_chunk ∷ ps) q.spare_chunk
  unfolding destroy
  destroy-Freed zero q ps lt v = elim lt [ ]
  destroy-Freed (suc fuel) q [] lt v =
      let h1 = update q.heap q.begin_chunk none in
      let apart = Apart-spare q.heap q.begin_chunk [] q.end_chunk q.spare_chunk v in
      let (h2, eq, spare_gone, kept) = free_lem h1 q.spare_chunk (
        CanFree-spare q.heap h1 q.begin_chunk [] q.end_chunk q.spare_chunk v (λ u.
          (u.0, update-ne q.heap q.begin_chunk q.spare_chunk none (λ k. apart.0 (sym k)) ∙ u.1))) in
      (
        h2,
        rw
            (
              (==_iff q.begin_chunk q.end_chunk).1 v.chain.0,
              free-chunk q.heap q.begin_chunk (λ k. v.not_null.0 (sym k)) (v.chain.1, v.chain.2),
              eq,
            )
            refl,
        record {
          freed = (
            kept q.begin_chunk (λ k. apart.0 (sym k)) ∙ update_self q.heap q.begin_chunk none,
            tt,
          );
          spare_freed = spare_gone;
          kept = λ a u k. kept a k ∙ update-ne q.heap q.begin_chunk a none (λ j. u.0 (sym j));
        },
      )
  destroy-Freed (suc fuel) q (n ∷ ps) lt v =
      let h1 = update q.heap q.begin_chunk none in
      let apart = Apart-spare q.heap q.begin_chunk (n ∷ ps) q.end_chunk q.spare_chunk v in
      let not_first : (a : Ptr) → a ≢ q.begin_chunk → h1 a ≡ q.heap a =
        λ a k. update-ne q.heap q.begin_chunk a none (λ j. k (sym j)) in
      let q1 : ChunkQueue A = record q { heap = h1; begin_chunk = n } in
      let v1 : Linked q1 ps = record {
        chain =
            Chain-SameNext q.heap h1 n ps q.end_chunk
              (Apart-kept (SameNext q.heap h1) q.begin_chunk (n ∷ ps)
                (λ a k. SameNext-of_eq q.heap h1 a (not_first a k)) v.chain.1)
              v.chain.2;
        not_null = v.not_null.1;
        spare_ok = elim v.spare_ok [
          | inl no_spare ↦ inl no_spare
          | inr (has_spare, (c, at), far) ↦
              inr (has_spare, (c, not_first q.spare_chunk far.0 ∙ at), far.1)
        ];
      } in
      let (h2, eq, w) = destroy-Freed fuel q1 ps (omega arith) v1 in
      (
        h2,
        rw
            (
              ==_of_ne _ _
                  (of_last (λ a. q.begin_chunk ≢ a) q.heap n ps q.end_chunk v.chain.2 v.chain.1),
              free-chunk q.heap q.begin_chunk (λ k. v.not_null.0 (sym k))
                  (v.chain.0.0, v.chain.0.1),
              v.chain.0.1,
              v.chain.0.2,
              eq,
            )
            refl,
        record {
          freed = (
            w.kept q.begin_chunk v.chain.1 (λ k. apart.0 (sym k))
                ∙ update_self q.heap q.begin_chunk none,
            w.freed,
          );
          spare_freed = w.spare_freed;
          kept = λ a u k. w.kept a u.1 k ∙ not_first a u.0;
        },
      )
