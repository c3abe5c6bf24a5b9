-- ===== src/ChunkQueue/Tests.antt =====
-- The theorem on the life of a DataChunkQueue.h at an input that meets its hypotheses.
use cpp_concurrency_data_str.Base.{ℕ, ◌≡◌, ◌≢◌, refl, Option, none, some, arith}
use cpp_concurrency_data_str.ChunkQueue.{
  Ptr, null, ChunkQueue, Chunk, Heap, make, set_next, set_prev, add_chunk, push, free, pop, destroy,
}
use cpp_concurrency_data_str.ChunkQueue.Life.{Reached, makes, pushes, pops, whole_life}

abbrev raw : Chunk ℕ
raw = record { values = λ i. none; prev = 9; next = 9 }

abbrev nothing : Heap ℕ
nothing p = none

abbrev new : ChunkQueue ℕ
new = make 1 raw nothing

abbrev result : Option (ChunkQueue ℕ) → ChunkQueue ℕ
result none = new
result (some q) = q

-- Chunks of two slots: a push adds a chunk, and the second pop makes the first chunk the spare one.
abbrev pushed : ChunkQueue ℕ
pushed = result (push 2 2 raw new)

abbrev popped : ChunkQueue ℕ
popped = result (pop 2 pushed)

abbrev twice : ChunkQueue ℕ
twice = result (pop 2 popped)

twice_lem : (twice.begin_chunk ≡ 2) × (twice.spare_chunk ≡ 1)
unfolding make push add_chunk set_next set_prev pop free
twice_lem = (refl, refl)

twice-Reached : Reached 2 nothing twice
unfolding make push add_chunk set_next set_prev pop free
twice-Reached =
    pops popped twice
      (pops pushed popped
        (pushes 2 raw new pushed (makes 1 raw (λ e. omega (arith, e)) refl) (λ e. omega (arith, e))
          refl refl)
        (λ e. omega (arith, e)) refl)
      (λ e. omega (arith, e)) refl

whole_life_example :
    (fuel : ℕ) × (h' : Heap ℕ) × (destroy fuel twice ≡ some h')
    × ((a : Ptr) → a ≢ null → h' a ≡ nothing a)
whole_life_example = whole_life 2 nothing twice twice-Reached
