-- ===== src/ChunkQueue.antt =====
-- DataStructures/DataChunkQueue.h, `zmqQueue<T, N>`: a queue in chunks of `size` slots (the N of
-- the source) on an explicit heap. `malloc` gives the address `fresh`, with the contents `raw`. An
-- operation gives `none` where the source would follow or free an invalid pointer.
pub mod Growth
pub mod Chain
pub mod Links
pub mod Frees
pub mod Destroys
pub mod Life
mod Tests
use cpp_concurrency_data_str.Base.{
  ℕ, zero, suc, ◌+◌, ◌-◌, ◌%◌, ◌^◌, Bool, true, false, Option, none, some, ◌==◌, ltb, if◌then◌else◌,
  update, ◌>>=◌,
}

abbrev pub Ptr : Type 0
Ptr = ℕ

abbrev pub null : Ptr
null = 0

-- A value is `none` in a slot that nothing was written to.
pub record Chunk {ℓ} (A : Type ℓ) : Type ℓ where
  pub values : ℕ → Option A
  pub prev : Ptr
  pub next : Ptr

abbrev pub Heap {ℓ} : Type ℓ → Type ℓ
Heap A = Ptr → Option (Chunk A)

-- The positions are `unsigned int`.
pub record ChunkQueue {ℓ} (A : Type ℓ) : Type ℓ where
  pub heap : Heap A
  pub begin_chunk : Ptr
  pub back_chunk : Ptr
  pub end_chunk : Ptr
  pub begin_pos : ℕ
  pub back_pos : ℕ
  pub end_pos : ℕ
  pub spare_chunk : Ptr

-- What `front` and `back` return: the address of a slot.
pub record Slot : Type 0 where
  pub chunk : Ptr
  pub pos : ℕ

module _ {ℓ} {A : Type ℓ} where
  unfoldable pub set_next : Ptr → Ptr → Heap A → Option (Heap A)
  set_next p next h = do c ← h p; some (update h p (some (record c { next = next })))

  unfoldable pub set_prev : Ptr → Ptr → Heap A → Option (Heap A)
  set_prev p prev h = do c ← h p; some (update h p (some (record c { prev = prev })))

  -- `free`, of nothing if the pointer is null
  unfoldable pub free : Ptr → Heap A → Option (Heap A)
  free p h = let freed = (do c ← h p; some (update h p none)) in if p == null then some h else freed

  unfoldable pub make : Ptr → Chunk A → Heap A → ChunkQueue A
  make fresh raw h = record {
    heap = update h fresh (some raw);
    begin_chunk = fresh;
    back_chunk = null;
    end_chunk = fresh;
    begin_pos = 0;
    back_pos = 0;
    end_pos = 0;
    spare_chunk = null;
  }

  abbrev pub front : ChunkQueue A → Slot
  front q = record { chunk = q.begin_chunk; pos = q.begin_pos }

  abbrev pub back : ChunkQueue A → Slot
  back q = record { chunk = q.back_chunk; pos = q.back_pos }

  -- `*slot` and `*slot = value`, which fault outside of the slots of a chunk.
  unfoldable pub load : ℕ → Slot → Heap A → Option (Option A)
  load size s h = do c ← h s.chunk; if ltb s.pos size then some (c.values s.pos) else none

  unfoldable pub store : ℕ → Slot → A → Heap A → Option (Heap A)
  store size s value h = do
    c ← h s.chunk
    let written = record c { values = update c.values s.pos (some value) }
    if ltb s.pos size then some (update h s.chunk (some written)) else none

  -- The new chunk for `push`: the spare one, or one from malloc; and the heap with it linked in.
  unfoldable pub add_chunk : Ptr → Chunk A → ChunkQueue A → Option (Heap A)
  unfolding set_next set_prev
  add_chunk fresh raw q =
      let spare = (do
        h ← set_next q.end_chunk q.spare_chunk q.heap
        set_prev q.spare_chunk q.end_chunk h) in
      let new = (do
        h ← set_next q.end_chunk fresh (update q.heap fresh (some raw))
        set_prev fresh q.end_chunk h) in
      if q.spare_chunk == null then new else spare

  unfoldable pub push : ℕ → Ptr → Chunk A → ChunkQueue A → Option (ChunkQueue A)
  push size fresh raw q =
      let q1 : ChunkQueue A = record q {
        back_chunk = q.end_chunk;
        back_pos = q.end_pos;
        end_pos = (q.end_pos + 1) % 2 ^ 32;
      } in
      if q1.end_pos == size then some q1 else do
        h ← add_chunk fresh raw q1
        e ← h q1.end_chunk
        some (record q1 { heap = h; end_chunk = e.next; end_pos = 0; spare_chunk = null })

  unfoldable pub unpush_back : ℕ → ChunkQueue A → Option (ChunkQueue A)
  unpush_back size q =
      let over = (do
        b ← q.heap q.back_chunk
        some (record q { back_pos = size - 1; back_chunk = b.prev })) in
      if q.back_pos == 0 then over else some (record q { back_pos = q.back_pos - 1 })

  unfoldable pub unpush : ℕ → ChunkQueue A → Option (ChunkQueue A)
  unfolding unpush_back set_next free
  unpush size q = do
    q1 ← unpush_back size q
    let over = (do
      e ← q1.heap q1.end_chunk
      p ← q1.heap e.prev
      h ← free p.next q1.heap
      h' ← set_next e.prev null h
      some (record q1 { heap = h'; end_pos = size - 1; end_chunk = e.prev }))
    if q1.end_pos == 0 then over else some (record q1 { end_pos = q1.end_pos - 1 })

  unfoldable pub pop : ℕ → ChunkQueue A → Option (ChunkQueue A)
  unfolding set_prev free
  pop size q =
      let q1 : ChunkQueue A = record q { begin_pos = (q.begin_pos + 1) % 2 ^ 32 } in
      let over = (do
        t ← q1.heap q1.begin_chunk
        h ← set_prev t.next null q1.heap
        h' ← free q1.spare_chunk h
        some (record q1 {
          heap = h';
          begin_chunk = t.next;
          begin_pos = 0;
          spare_chunk = q1.begin_chunk;
        })) in
      if q1.begin_pos == size then over else some q1

  -- The destructor; `none` is a fault or a chain of more chunks than the fuel.
  unfoldable pub destroy : ℕ → ChunkQueue A → Option (Heap A)
  unfolding free
  destroy zero q = none
  destroy (suc fuel) q =
      let rest = (do
        t ← q.heap q.begin_chunk
        h ← free q.begin_chunk q.heap
        destroy fuel (record q { heap = h; begin_chunk = t.next })) in
      let last = (do h ← free q.begin_chunk q.heap; free q.spare_chunk h) in
      if q.begin_chunk == q.end_chunk then last else rest
