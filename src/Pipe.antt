-- ===== src/Pipe.antt =====
-- DataStructures/LockFreePipe.h: a pipe from one writer to one reader over the chunk queue. `c` is
-- the pointer that both exchange; it is null while the reader waits to be woken. The weak exchange may
-- fail although the pointers agree: `spurious` says that it does. `probe` is declared and has no body.
pub mod Handshake
pub mod Unwrite
mod Tests
use cpp_concurrency_data_str.Base.{
  ℕ, Bool, true, false, not, ◌&&◌, ◌||◌, Option, none, some, ◌==◌, if◌then◌else◌, ◌>>=◌,
}
use cpp_concurrency_data_str.ChunkQueue
use cpp_concurrency_data_str.ChunkQueue.{ChunkQueue, Chunk, Heap, Slot, front, back, load, store}

-- A `T*` that may be null.
abbrev pub Ref : Type 0
Ref = Option Slot

abbrev pub same_slot : Slot → Slot → Bool
same_slot a b = (a.chunk == b.chunk) && (a.pos == b.pos)

abbrev pub same_ref : Ref → Ref → Bool
same_ref none none = true
same_ref (some a) (some b) = same_slot a b
same_ref _ _ = false

abbrev pub is_null : Ref → Bool
is_null none = true
is_null (some a) = false

pub record Pipe {ℓ} (A : Type ℓ) : Type ℓ where
  pub queue : ChunkQueue A
  pub w : Ref
  pub r : Ref
  pub f : Ref
  pub c : Ref

module _ {ℓ} {A : Type ℓ} (size : ℕ) where
  unfoldable pub make : ℕ → Chunk A → ℕ → Chunk A → Heap A → Option (Pipe A)
  make fresh raw fresh' raw' h = do
    q ← ChunkQueue.push size fresh' raw' (ChunkQueue.make fresh raw h)
    let b = some (back q)
    some (record { queue = q; w = b; r = b; f = b; c = b })

  unfoldable pub write : ℕ → Chunk A → A → Bool → Pipe A → Option (Pipe A)
  write fresh raw value incomplete p = do
    h ← store size (back p.queue) value p.queue.heap
    q ← ChunkQueue.push size fresh raw (record p.queue { heap = h })
    some (if incomplete then record p { queue = q } else record p { queue = q; f = some (back q) })

  -- With the flag and what is assigned to `*value`.
  unfoldable pub unwrite : Pipe A → Option (Bool × Option A × Pipe A)
  unwrite p =
      let last = (do
        q ← ChunkQueue.unpush size p.queue
        v ← load size (back q) q.heap
        some (true, v, record p { queue = q })) in
      if same_ref p.f (some (back p.queue)) then some (false, none, p) else last

module _ {ℓ} {A : Type ℓ} where
  -- `false` asks the writer to wake the reader.
  unfoldable pub flush : Bool → Pipe A → Bool × Pipe A
  flush spurious p =
      if same_ref p.w p.f
      then (true, p)
      else if same_ref p.c p.w && not spurious
      then (true, record p { c = p.f; w = p.f })
      else (false, record p { w = p.f; c = p.f })

  -- r = c.load();
  abbrev pub check_load : Pipe A → Pipe A
  check_load p = record p { r = p.c }

  -- The exchange of `check_read`, and the test after it.
  unfoldable pub check_swap : Bool → Pipe A → Bool × Pipe A
  check_swap spurious p = (
    not (same_ref (some (front p.queue)) p.r || is_null p.r),
    if same_ref p.c (some (front p.queue)) && not spurious then record p { c = none } else p,
  )

  unfoldable pub check_read : Bool → Pipe A → Bool × Pipe A
  check_read spurious p =
      if not (same_ref (some (front p.queue)) p.r) && not (is_null p.r)
      then (true, p)
      else check_swap spurious (check_load p)

  unfoldable pub read : ℕ → Bool → Pipe A → Option (Bool × Option A × Pipe A)
  read size spurious p =
      let (ready, p1) = check_read spurious p in
      let taken = (do
        v ← load size (front p1.queue) p1.queue.heap
        q ← ChunkQueue.pop size p1.queue
        some (true, v, record p1 { queue = q })) in
      if ready then taken else some (false, none, p1)
