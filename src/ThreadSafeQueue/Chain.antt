-- ===== src/ThreadSafeQueue/Chain.antt =====
-- The chain of nodes behind a queue of ThreadSafeQueue.h, and what leaves it as it is.
use cpp_concurrency_data_str.Base.{
  ◌≡◌, ◌≢◌, refl, ◌∙◌, sym, ap, Option, none, some, List, [], ◌∷◌, ◌++◌, arith, update, update_self,
  update-ne,
}
use cpp_concurrency_data_str.ThreadSafeQueue.{Ptr, null, Node, dummy, Heap, Queue}

-- the nodes with values, by address and value, in order
abbrev pub Cells {ℓ} : Type ℓ → Type ℓ
Cells A = List (Ptr × A)

module _ {ℓ} {A : Type ℓ} where
  abbrev pub first : Ptr → Cells A → Ptr
  first t [] = t
  first t ((p, x) ∷ cs) = p

  -- From the first cell the `next` pointers lead through the cells to the dummy node at `t`.
  abbrev pub Linked : Heap A → Ptr → Cells A → Type ℓ
  Linked h t [] = h t ≡ some dummy
  Linked h t ((p, x) ∷ cs) =
      (h p ≡ some (record { value = some x; next = first t cs })) × Linked h t cs

  -- No node of the chain stands at `a`.
  abbrev pub Avoids : Ptr → Ptr → Cells A → Type 0
  Avoids a t [] = t ≢ a
  Avoids a t ((p, x) ∷ cs) = (p ≢ a) × Avoids a t cs

  abbrev pub Distinct : Ptr → Cells A → Type 0
  Distinct t [] = Unit
  Distinct t ((p, x) ∷ cs) = Avoids p t cs × Distinct t cs

  -- A queue that holds the cells, oldest first.
  pub record Holds (q : Queue A) (cs : Cells A) : Type ℓ where
    pub head_eq : q.head ≡ first q.tail cs
    pub linked : Linked q.heap q.tail cs
    pub distinct : Distinct q.tail cs
    pub not_null : Avoids null q.tail cs

  pub tail-ne : (a t : Ptr) (cs : Cells A) → Avoids a t cs → t ≢ a
  tail-ne a t [] u = u
  tail-ne a t ((p, x) ∷ cs) u = tail-ne a t cs u.1

  pub Linked-tail : (h : Heap A) (t : Ptr) (cs : Cells A) → Linked h t cs → h t ≡ some dummy
  Linked-tail h t [] l = l
  Linked-tail h t ((p, x) ∷ cs) l = Linked-tail h t cs l.1

  pub Linked-update :
      (h : Heap A) (t a : Ptr) (v : Option (Node A)) (cs : Cells A)
      → Avoids a t cs
      → Linked h t cs
      → Linked (update h a v) t cs
  Linked-update h t a v [] u l = update-ne h a t v (λ e. u (sym e)) ∙ l
  Linked-update h t a v ((p, x) ∷ cs) u l =
      (update-ne h a p v (λ e. u.0 (sym e)) ∙ l.0, Linked-update h t a v cs u.1 l.1)

  -- A free address is none of the chain.
  pub Avoids-of_free :
      (h : Heap A) (t a : Ptr) (cs : Cells A) → h a ≡ none → Linked h t cs → Avoids a t cs
  Avoids-of_free h t a [] free l = λ e. ground (arith, ap h e)
  Avoids-of_free h t a ((p, x) ∷ cs) free l =
      (λ e. ground (arith, ap h e), Avoids-of_free h t a cs free l.1)

  first-snoc : (f t : Ptr) (x : A) (cs : Cells A) → first f (cs ++ (t, x) ∷ []) ≡ first t cs
  first-snoc f t x [] = refl
  first-snoc f t x ((p, y) ∷ cs) = refl

  Avoids-snoc :
      (a f t : Ptr) (x : A) (cs : Cells A) → Avoids a t cs → f ≢ a → Avoids a f (cs ++ (t, x) ∷ [])
  Avoids-snoc a f t x [] u n = (u, n)
  Avoids-snoc a f t x ((p, y) ∷ cs) u n = (u.0, Avoids-snoc a f t x cs u.1 n)

  Distinct-snoc :
      (f t : Ptr) (x : A) (cs : Cells A)
      → Distinct t cs
      → Avoids f t cs
      → Distinct f (cs ++ (t, x) ∷ [])
  Distinct-snoc f t x [] d u = ((λ e. u (sym e)), tt)
  Distinct-snoc f t x ((p, y) ∷ cs) d u =
      (Avoids-snoc p f t x cs d.0 (λ e. u.0 (sym e)), Distinct-snoc f t x cs d.1 u.1)

  -- The dummy node becomes the cell of `x`, and a new dummy node stands behind it.
  abbrev pub extend : Heap A → Ptr → Ptr → A → Heap A
  extend h f t x = update (update h f (some dummy)) t (some (record { value = some x; next = f }))

  pub extend-other : (h : Heap A) (f t p : Ptr) (x : A) → t ≢ p → p ≢ f → extend h f t x p ≡ h p
  extend-other h f t p x tp pf =
      update-ne (update h f (some dummy)) t p _ tp ∙ update-ne h f p _ (λ e. pf (sym e))

  Linked-extend :
      (h : Heap A) (f t : Ptr) (x : A) (cs : Cells A)
      → Linked h t cs
      → Distinct t cs
      → Avoids f t cs
      → Linked (extend h f t x) f (cs ++ (t, x) ∷ [])
  Linked-extend h f t x [] l d u = (
    update_self (update h f (some dummy)) t _,
    update-ne (update h f (some dummy)) t f _ u ∙ update_self h f (some dummy),
  )
  Linked-extend h f t x ((p, y) ∷ cs) l d u = (
    extend-other h f t p x (tail-ne p t cs d.0) u.0
        ∙ l.0
        ∙ ap (λ n. some (record { value = some y; next = n })) (sym (first-snoc f t x cs)),
    Linked-extend h f t x cs l.1 d.1 u.1,
  )

  -- What holds after a push, whose new node stands at a free address.
  pub extend-Holds :
      (f : Ptr) (x : A) {q : Queue A} {cs : Cells A}
      → Holds q cs
      → q.heap f ≡ none
      → f ≢ null
      → Holds (record q { heap = extend q.heap f q.tail x; tail = f }) (cs ++ (q.tail, x) ∷ [])
  extend-Holds f x {q} {cs} v free real =
      let u = Avoids-of_free q.heap q.tail f cs free v.linked in
      record {
        head_eq = v.head_eq ∙ sym (first-snoc f q.tail x cs);
        linked = Linked-extend q.heap f q.tail x cs v.linked v.distinct u;
        distinct = Distinct-snoc f q.tail x cs v.distinct u;
        not_null = Avoids-snoc null f q.tail x cs v.not_null real;
      }
