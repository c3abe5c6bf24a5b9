-- ===== src/Accumulate.antt =====
-- `parallel_accumulate` of test_threadpool.cpp: it cuts a range into blocks of 25, submits all but the
-- last to a pool and adds up what the blocks give. The range is the list of its elements.
-- `accumulate_block` returns a variable that it never sets: what block `i` finds there is `raw i`.
pub mod Blocks
mod Tests
use cpp_concurrency_data_str.Base.{
  ℕ, zero, suc, ◌+◌, ◌-◌, ◌/◌, ◌%◌, ◌^◌, Bool, true, false, List, [], ◌∷◌, ◌==◌, if◌then◌else◌,
  length,
}

abbrev pub block_size : ℕ
block_size = 25

-- `unsigned long` wraps.
unfoldable pub num_blocks : ℕ → ℕ
num_blocks len = (len + block_size - 1) % 2 ^ 64 / block_size

module _ {ℓ} {A : Type ℓ} where
  -- The first elements, and what std::advance by their number leaves.
  abbrev pub take : ℕ → List A → List A
  take zero xs = []
  take (suc n) [] = []
  take (suc n) (x ∷ xs) = x ∷ take n xs

  abbrev pub drop : ℕ → List A → List A
  drop zero xs = xs
  drop (suc n) [] = []
  drop (suc n) (x ∷ xs) = drop n xs

  -- The loop that submits: its blocks, and the range from the last `block_start` on.
  unfoldable pub cut : ℕ → List A → List (List A) × List A
  cut zero xs = ([], xs)
  cut (suc n) xs =
      let (blocks, last) = cut n (drop block_size xs) in (take block_size xs ∷ blocks, last)

  -- `res` is not set before it is read.
  abbrev pub accumulate_block : A → List A → A
  accumulate_block res xs = res

  -- The results of blocks `i`, `i + 1` and so on, added to `result`.
  abbrev pub add_results : (A → A → A) → (ℕ → A) → ℕ → List (List A) → A → A
  add_results add raw i [] result = result
  add_results add raw i (block ∷ blocks) result =
      add_results add raw (suc i) blocks (add result (accumulate_block (raw i) block))

  unfoldable pub parallel_accumulate : (A → A → A) → (ℕ → A) → List A → A → A
  unfolding num_blocks cut
  parallel_accumulate add raw xs init =
      if length xs == 0
      then init
      else let n = num_blocks (length xs) - 1 in
        let (blocks, last) = cut n xs in
        add (add_results add raw 0 blocks init) (accumulate_block (raw n) last)
