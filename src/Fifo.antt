-- ===== src/Fifo.antt =====
-- What a queue promises its callers: values leave in the order in which they came, and a bounded
-- queue refuses a value at its bound. The queues of the repository are compared with this.
use cpp_concurrency_data_str.Base.{
  ℕ, Bool, true, false, Option, none, some, List, [], ◌∷◌, ◌++◌, ltb, if◌then◌else◌, length,
}

-- a caller's request, and what it sees: the returned flag, and the value that it receives
pub data Op {ℓ} (A : Type ℓ) : Type ℓ where
  put : A → Op A
  take : Op A

abbrev pub Reply {ℓ} : Type ℓ → Type ℓ
Reply A = Bool × Option A

module _ {ℓ} {A : Type ℓ} where
  abbrev pub enqueue : ℕ → List A → A → Bool × List A
  enqueue bound xs x = if ltb (length xs) bound then (true, xs ++ x ∷ []) else (false, xs)

  abbrev pub dequeue : List A → Bool × Option A × List A
  dequeue [] = (false, none, [])
  dequeue (x ∷ xs) = (true, some x, xs)

  unfoldable pub run : ℕ → List A → List (Op A) → List (Reply A)
  run bound xs [] = []
  run bound xs (put x ∷ ops) =
      let (done, ys) = enqueue bound xs x in (done, none) ∷ run bound ys ops
  run bound xs (take ∷ ops) = let (done, out, ys) = dequeue xs in (done, out) ∷ run bound ys ops
