-- ===== src/ChunkQueue/Chain.antt =====
-- The chunks of DataChunkQueue.h as a chain on the heap.
use cpp_concurrency_data_str.Base.{
  ◌≡◌, ◌≢◌, refl, ◌∙◌, ap, sym, subst, List, [], ◌∷◌, ◌++◌, none, some, All, arith,
}
use cpp_concurrency_data_str.ChunkQueue.{Ptr, Chunk, Heap}

abbrev pub Apart : Ptr → List Ptr → Type 0
Apart p ps = All (λ a. p ≢ a) ps

pub Apart-snoc : (p : Ptr) (xs : List Ptr) (x : Ptr) → Apart p xs → p ≢ x → Apart p (xs ++ x ∷ [])
Apart-snoc p [] x u ne = (ne, tt)
Apart-snoc p (y ∷ ys) x u ne = (u.0, Apart-snoc p ys x u.1 ne)

module _ {ℓ} {A : Type ℓ} where
  -- The chunk at `p`, and those at `ps` behind it, linked by `next`, of which `last` is the last.
  abbrev pub Chain : Heap A → Ptr → List Ptr → Ptr → Type ℓ
  Chain h p [] last = (p ≡ last) × (c : Chunk A) × (h p ≡ some c)
  Chain h p (n ∷ ps) last =
      ((c : Chunk A) × (h p ≡ some c) × (c.next ≡ n)) × Apart p (n ∷ ps) × Chain h n ps last

  abbrev pub IsAllocated : Heap A → Ptr → Type ℓ
  IsAllocated h a = (c : Chunk A) × (h a ≡ some c)

  pub Chain-IsAllocated :
      (h : Heap A) (p : Ptr) (ps : List Ptr) (last : Ptr)
      → Chain h p ps last
      → All (IsAllocated h) (p ∷ ps)
  Chain-IsAllocated h p [] last u = ((u.1, u.2), tt)
  Chain-IsAllocated h p (n ∷ ps) last u = ((u.0.0, u.0.1), Chain-IsAllocated h n ps last u.2)

  -- What holds of every chunk holds of the last.
  pub of_last {κ} :
      (P : Ptr → Type κ) (h : Heap A) (p : Ptr) (ps : List Ptr) (last : Ptr)
      → Chain h p ps last
      → All P (p ∷ ps)
      → P last
  of_last P h p [] last u all = subst P u.0 all.0
  of_last P h p (n ∷ ps) last u all = of_last P h n ps last u.2 all.1

  -- A free address is none of the chunks.
  pub Apart-free :
      (h : Heap A) (p : Ptr) (ps : List Ptr) (last fresh : Ptr)
      → Chain h p ps last
      → h fresh ≡ none
      → Apart fresh (p ∷ ps)
  Apart-free h p [] last fresh u free = (λ e. ground (arith, ap h e, u.2), tt)
  Apart-free h p (n ∷ ps) last fresh u free =
      (λ e. ground (arith, ap h e, u.0.1), Apart-free h n ps last fresh u.2 free)

  -- The chunk at `a` stays, with the same next chunk.
  abbrev pub SameNext : Heap A → Heap A → Ptr → Type ℓ
  SameNext h h' a =
      (c : Chunk A) → h a ≡ some c → (c' : Chunk A) × (h' a ≡ some c') × (c'.next ≡ c.next)

  pub SameNext-of_eq : (h h' : Heap A) (a : Ptr) → h' a ≡ h a → SameNext h h' a
  SameNext-of_eq h h' a e c at = (c, e ∙ at, refl)

  pub Chain-SameNext :
      (h h' : Heap A) (p : Ptr) (ps : List Ptr) (last : Ptr)
      → All (SameNext h h') (p ∷ ps)
      → Chain h p ps last
      → Chain h' p ps last
  Chain-SameNext h h' p [] last all u = let (c, e, f) = all.0 u.1 u.2 in (u.0, c, e)
  Chain-SameNext h h' p (n ∷ ps) last all u =
      let (c, e, f) = all.0 u.0.0 u.0.1 in
      ((c, e, f ∙ u.0.2), u.1, Chain-SameNext h h' n ps last all.1 u.2)

  -- A chunk `new` is linked behind the last one.
  pub Chain-snoc :
      (h h' : Heap A) (p : Ptr) (ps : List Ptr) (last new : Ptr)
      → Chain h p ps last
      → Apart new (p ∷ ps)
      → ((c : Chunk A) × (h' last ≡ some c) × (c.next ≡ new))
      → IsAllocated h' new
      → ((a : Ptr) → a ≢ last → a ≢ new → h' a ≡ h a)
      → Chain h' p (ps ++ new ∷ []) new
  Chain-snoc h h' p [] last new u apart link alloc kept =
      let (c, e, f) = link in
      ((c, ap h' u.0 ∙ e, f), (λ k. apart.0 (sym k), tt), (refl, alloc.0, alloc.1))
  Chain-snoc h h' p (n ∷ ps) last new u apart link alloc kept =
      let not_new : p ≢ new = λ k. apart.0 (sym k) in
      let at = kept p (of_last (λ a. p ≢ a) h n ps last u.2 u.1) not_new in
      (
        (u.0.0, at ∙ u.0.1, u.0.2),
        Apart-snoc p (n ∷ ps) new u.1 not_new,
        Chain-snoc h h' n ps last new u.2 apart.1 link alloc kept,
      )
