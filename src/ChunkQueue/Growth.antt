-- ===== src/ChunkQueue/Growth.antt =====
-- How the chunk queue of DataChunkQueue.h grows: `if(++end_pos == N) return;` takes the branch that
-- reuses the chunk only when the chunk is full.
use cpp_concurrency_data_str.Base.{
  ℕ, suc, ◌+◌, ◌%◌, ◌^◌, ◌≤◌, ◌<◌, ◌≡◌, ◌≢◌, refl, ap, sym, arith, true, false, Option, none, some,
  ◌==◌, ==-refl, ==_iff, ==_of_ne, update, update_self, ◌>>=◌, ltb,
}
use cpp_concurrency_data_str.ChunkQueue.{
  Ptr, null, Chunk, ChunkQueue, front, back, load, set_next, set_prev, add_chunk, make, push, pop,
  store,
}

module _ {ℓ} {A : Type ℓ} where
  -- What `push` leaves when it links the new chunk `fresh` behind the last one, `e`.
  abbrev pub grown : ChunkQueue A → Ptr → Chunk A → Chunk A → ChunkQueue A
  grown q fresh raw e = record q {
    heap =
        update
          (update (update q.heap fresh (some raw)) q.end_chunk (some (record e { next = fresh })))
          fresh (some (record raw { prev = q.end_chunk }));
    back_chunk = q.end_chunk;
    back_pos = q.end_pos;
    end_chunk = fresh;
    end_pos = 0;
    spare_chunk = null;
  }

  -- A `push` that does not fill its chunk, without a spare chunk and with a new one at a free address,
  -- does not fault: it hands out the slot at the end, and then goes on to the new chunk.
  pub push-grown :
      (size fresh : ℕ) (raw e : Chunk A) (q : ChunkQueue A)
      → suc q.end_pos < size
      → size ≤ 2 ^ 32
      → q.spare_chunk ≡ null
      → q.heap q.end_chunk ≡ some e
      → q.heap fresh ≡ none
      → push size fresh raw q ≡ some (grown q fresh raw e)
  unfolding push add_chunk set_next set_prev
  push-grown size fresh raw e q room small spare last free =
      let apart : fresh ≢ q.end_chunk = λ k. ground (arith, ap q.heap k) in
      let not_full : ((q.end_pos + 1) % 2 ^ 32 == size) ≡ false = ==_of_ne _ _ (λ k. omega arith) in
      let no_spare : (q.spare_chunk == null) ≡ true = (==_iff q.spare_chunk null).1 spare in
      let ne1 : (fresh == q.end_chunk) ≡ false = ==_of_ne _ _ apart in
      let ne2 : (q.end_chunk == fresh) ≡ false = ==_of_ne _ _ (λ k. apart (sym k)) in
      rw (not_full, no_spare, ne1, last, ne2, ==-refl fresh, ne1, ==-refl q.end_chunk) refl

  -- A queue whose end is the first slot of a chunk, as `make` leaves it.
  pub record AtStart (q : ChunkQueue A) : Type ℓ where
    pub end_pos : q.end_pos ≡ 0
    pub spare : q.spare_chunk ≡ null
    pub last : Chunk A
    pub end_chunk : q.heap q.end_chunk ≡ some last

  -- At a chunk size from two to 2 ^ 32, a `push` on a queue whose end is the first slot of a chunk,
  -- without a spare chunk and with a new one at a free address, does not fault and leaves such a
  -- queue: `back` is the first slot of the old end chunk, and the new chunk is the end.
  pub push-AtStart :
      (size fresh : ℕ) (raw : Chunk A) {q : ChunkQueue A}
      → 2 ≤ size
      → size ≤ 2 ^ 32
      → AtStart q
      → q.heap fresh ≡ none
      → (q' : ChunkQueue A) × (push size fresh raw q ≡ some q')
        × AtStart q'
        × (q'.back_chunk ≡ q.end_chunk)
        × (q'.back_pos ≡ 0)
        × (q'.end_chunk ≡ fresh)
  push-AtStart size fresh raw {q} h small v free = (
    grown q fresh raw v.last,
    push-grown size fresh raw v.last q (omega (arith, v.end_pos)) small v.spare v.end_chunk free,
    record {
      end_pos = refl;
      spare = refl;
      last = record raw { prev = q.end_chunk };
      end_chunk =
          update_self
            (update (update q.heap fresh (some raw)) q.end_chunk
              (some (record v.last { next = fresh })))
            fresh (some (record raw { prev = q.end_chunk }));
    },
    refl,
    v.end_pos,
    refl,
  )

  -- `*queue.back() = value`
  abbrev pub write : ℕ → A → ChunkQueue A → Option (ChunkQueue A)
  write size x q = do h ← store size (back q) x q.heap; some (record q { heap = h })

  -- Two values are pushed on a new queue, whose chunks lie at 1, 2 and 3, and one is popped.
  abbrev pub two_then_pop : ℕ → Chunk A → A → A → Option (ChunkQueue A)
  two_then_pop size raw x y = do
    q1 ← push size 2 raw (make 1 raw (λ p. none))
    q2 ← write size x q1
    q3 ← push size 3 raw q2
    q4 ← write size y q3
    pop size q4

  -- At a chunk size of two or more: after two values have been pushed on a new queue, whose chunks
  -- lie at 1, 2 and 3, and one has been popped, none of which faults, reading `front` gives
  -- whatever malloc left in the second slot of the first chunk, and reading `back` the second
  -- value.
  pub front-two_then_pop :
      (size : ℕ) (raw : Chunk A) (x y : A)
      → 2 ≤ size
      → ((two_then_pop size raw x y >>= λ q. load size (front q) q.heap) ≡ some (raw.values 1))
        × ((two_then_pop size raw x y >>= λ q. load size (back q) q.heap) ≡ some (some y))
  unfolding make push pop store load add_chunk
  front-two_then_pop size raw x y h =
      let not_full : (1 == size) ≡ false = ground arith in
      let first_in : ltb 0 size ≡ true = ground arith in
      let second_in : ltb 1 size ≡ true = ground arith in
      (
        rw (not_full, first_in, not_full, first_in, not_full, second_in) refl,
        rw (not_full, first_in, not_full, first_in, not_full, first_in) refl,
      )
