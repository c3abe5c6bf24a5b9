-- ===== src/Accumulate/Tests.antt =====
-- The theorems on `parallel_accumulate` at inputs that meet their hypotheses.
use cpp_concurrency_data_str.Base.{ℕ, ◌+◌, ◌≡◌, refl, List, [], ◌∷◌, replicate}
use cpp_concurrency_data_str.Accumulate.{parallel_accumulate}
use cpp_concurrency_data_str.Accumulate.Blocks.{parallel_accumulate_blind}

abbrev thirty : List ℕ
thirty = replicate 30 1

parallel_accumulate_blind_example :
    parallel_accumulate (λ a b. a + b) (λ i. 7) (1 ∷ 2 ∷ []) 0
    ≡ parallel_accumulate (λ a b. a + b) (λ i. 7) (5 ∷ 6 ∷ []) 0
parallel_accumulate_blind_example =
    parallel_accumulate_blind (λ a b. a + b) (λ i. 7) (1 ∷ 2 ∷ []) (5 ∷ 6 ∷ []) 0 refl
