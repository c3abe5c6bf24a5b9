-- ===== src/Pipe/Unwrite.antt =====
-- What `unwrite` of LockFreePipe.h gives back.
use cpp_concurrency_data_str.Base.{ℕ, Bool, true, Option, none, some, ◌>>=◌}
use cpp_concurrency_data_str.ChunkQueue
use cpp_concurrency_data_str.ChunkQueue.{
  ChunkQueue, Chunk, Heap, unpush_back, set_next, set_prev, free,
}
use cpp_concurrency_data_str.Pipe.{make, write, unwrite}

module _ {ℓ} {A : Type ℓ} where
  -- On a new pipe, whose chunks lie at 1, 2 and 3, an incomplete value is written and taken back.
  abbrev pub write_unwrite : ℕ → Chunk A → A → Option (Bool × Option A)
  write_unwrite size raw x = do
    p ← make size 1 raw 2 raw (λ a. none)
    p' ← write size 3 raw x true p
    (done, out, p'') ← unwrite size p'
    some (done, out)
