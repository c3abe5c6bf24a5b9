-- ===== src/Accumulate/Blocks.antt =====
-- The blocks of `parallel_accumulate` of test_threadpool.cpp, and what becomes of their elements.
use cpp_concurrency_data_str.Base.{
  ℕ, zero, suc, ◌+◌, ◌-◌, ◌*◌, ◌^◌, ◌≤◌, ◌<◌, ◌≡◌, refl, ◌∙◌, ap, List, [], ◌∷◌, ◌++◌, append_assoc,
  arith, All, length, ◌==◌, if◌then◌else◌,
}
use cpp_concurrency_data_str.Accumulate.{
  block_size, num_blocks, take, drop, cut, add_results, parallel_accumulate,
}

module _ {ℓ} {A : Type ℓ} where
  abbrev pub concat : List (List A) → List A
  concat [] = []
  concat (b ∷ bs) = b ++ concat bs

  take-drop : (n : ℕ) (xs : List A) → take n xs ++ drop n xs ≡ xs
  take-drop zero xs = refl
  take-drop (suc n) [] = refl
  take-drop (suc n) (x ∷ xs) = ap (λ l. x ∷ l) (take-drop n xs)

  length-take : (n : ℕ) (xs : List A) → n ≤ length xs → length (take n xs) ≡ n
  length-take zero xs h = refl
  length-take (suc n) [] h = absurd (omega arith)
  length-take (suc n) (x ∷ xs) h = ap suc (length-take n xs (omega arith))

  length-drop : (n : ℕ) (xs : List A) → n ≤ length xs → length (drop n xs) + n ≡ length xs
  length-drop zero xs h = omega arith
  length-drop (suc n) [] h = absurd (omega arith)
  length-drop (suc n) (x ∷ xs) h = omega (arith, length-drop n xs (omega arith))

  -- The blocks cover the range in order; all but the last have 25 elements, and it has the others.
  pub record IsCut (n : ℕ) (xs : List A) (blocks : List (List A)) (last : List A) : Type ℓ where
    pub covers : concat blocks ++ last ≡ xs
    pub count : length blocks ≡ n
    pub sizes : All (λ b. length b ≡ block_size) blocks
    pub last_size : length last + n * block_size ≡ length xs

  cut-IsCut :
      (n : ℕ) (xs : List A) → n * block_size ≤ length xs → IsCut n xs (cut n xs).0 (cut n xs).1
  unfolding cut
  cut-IsCut zero xs h = record { covers = refl; count = refl; sizes = tt; last_size = omega arith }
  cut-IsCut (suc n) xs h =
      let len = length-drop block_size xs (omega arith) in
      let v = cut-IsCut n (drop block_size xs) (omega (arith, len)) in
      record {
        covers =
            append_assoc (take block_size xs) (concat (cut n (drop block_size xs)).0)
              (cut n (drop block_size xs)).1
            ∙ ap (λ l. take block_size xs ++ l) v.covers
            ∙ take-drop block_size xs;
        count = ap suc v.count;
        sizes = (length-take block_size xs (omega arith), v.sizes);
        last_size = omega (arith, v.last_size, len);
      }

  -- For a range that is not empty and whose length and 24 do not wrap: its blocks cover it in order,
  -- each submitted block has 25 elements, and the last, which the caller sums up, has from 1 to 25.
  pub blocks_lem :
      (xs : List A)
      → 0 < length xs
      → length xs + 24 < 2 ^ 64
      → let n = num_blocks (length xs) - 1 in
        let (blocks, last) = cut n xs in
        IsCut n xs blocks last × (0 < length last) × (length last ≤ block_size)
  unfolding num_blocks
  blocks_lem xs some_x fits =
      let n = num_blocks (length xs) - 1 in
      let v = cut-IsCut n xs (omega arith) in
      (v, omega (arith, v.last_size), omega (arith, v.last_size))

  results_ignore :
      (add : A → A → A) (raw : ℕ → A) (n i : ℕ) (xs ys : List A) (r : A)
      → add_results add raw i (cut n xs).0 r ≡ add_results add raw i (cut n ys).0 r
  unfolding cut
  results_ignore add raw zero i xs ys r = refl
  results_ignore add raw (suc n) i xs ys r =
      results_ignore add raw n (suc i) (drop block_size xs) (drop block_size ys) (add r (raw i))

  -- Whatever the variables that are not set hold: `parallel_accumulate` gives the same for any two
  -- ranges of the same length, with the same such variables and initial value.
  pub parallel_accumulate_blind :
      (add : A → A → A) (raw : ℕ → A) (xs ys : List A) (init : A)
      → length xs ≡ length ys
      → parallel_accumulate add raw xs init ≡ parallel_accumulate add raw ys init
  unfolding parallel_accumulate
  parallel_accumulate_blind add raw xs ys init e = rw e (
      ap (λ r. if length ys == 0 then init else add r (raw (num_blocks (length ys) - 1)))
        (results_ignore add raw (num_blocks (length ys) - 1) 0 xs ys init))
