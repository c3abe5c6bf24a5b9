-- ===== src/Pipe/Tests.antt =====
-- The theorems on LockFreePipe.h at inputs that meet their hypotheses.
use cpp_concurrency_data_str.Base.{ℕ, ◌≡◌, refl, true, false, none, some, arith}
use cpp_concurrency_data_str.ChunkQueue
use cpp_concurrency_data_str.ChunkQueue.{ChunkQueue, Chunk, Heap, Slot}
use cpp_concurrency_data_str.Pipe.{Pipe, make, flush, check_read, check_load, check_swap}
use cpp_concurrency_data_str.Pipe.Handshake.{
  IsDrained, written, make-IsDrained, flush-check_read, flush_unheard,
}

abbrev raw : Chunk ℕ
raw = record { values = λ i. none; prev = 9; next = 9 }

abbrev no_chunks : Heap ℕ
no_chunks = λ p. none

make-IsDrained_example :
    (p : Pipe ℕ) × (make 4 1 raw 2 raw no_chunks ≡ some p)
    × IsDrained p (record { chunk = 1; pos = 0 })
make-IsDrained_example =
    make-IsDrained 4 1 2 raw raw no_chunks (omega arith) (omega arith) (λ e. omega arith) refl

abbrev a : Slot
a = record { chunk = 1; pos = 0 }

abbrev b : Slot
b = record { chunk = 2; pos = 0 }

abbrev drained : Pipe ℕ
drained = record {
  queue = ChunkQueue.make 1 raw no_chunks;
  w = some a;
  r = some a;
  f = some a;
  c = some a;
}

drained-IsDrained : IsDrained drained a
unfolding ChunkQueue.make
drained-IsDrained = record { front_eq = refl; w_eq = refl; r_eq = refl; c_eq = refl }

flush-check_read_example :
    let (ready, p1) = check_read false drained in
    (ready ≡ false)
    × (p1.c ≡ none)
    × ((flush true (written p1 drained.queue b)).0 ≡ false)
    × ((flush true (written p1 drained.queue b)).1.c ≡ some b)
flush-check_read_example = flush-check_read drained a b drained.queue true drained-IsDrained refl

flush_unheard_example :
    let (heard, p1) = flush false (written (check_load drained) drained.queue b) in
    let (ready, p2) = check_swap false p1 in (heard ≡ true) × (ready ≡ false) × (p2.c ≡ some b)
flush_unheard_example =
    flush_unheard drained a b drained.queue false drained-IsDrained refl refl
      drained-IsDrained.front_eq
