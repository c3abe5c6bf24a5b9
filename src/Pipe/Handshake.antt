-- ===== src/Pipe/Handshake.antt =====
-- How the writer of LockFreePipe.h learns that the reader has to be woken, and how it does not.
use cpp_concurrency_data_str.Base.{
  ℕ, ◌≡◌, ◌≢◌, refl, ◌∙◌, ap, arith, Bool, true, false, none, some, ==-refl, if◌then◌else◌, ◌^◌,
  ◌≤◌, update_self, update-ne,
}
use cpp_concurrency_data_str.ChunkQueue
use cpp_concurrency_data_str.ChunkQueue.{ChunkQueue, Chunk, Heap, Slot, front, back}
use cpp_concurrency_data_str.ChunkQueue.Growth.{push-grown, grown}
use cpp_concurrency_data_str.Pipe.{
  make, Ref, same_slot, Pipe, flush, check_load, check_swap, check_read,
}

same_slot_self : (a : Slot) → same_slot a a ≡ true
same_slot_self a = rw (==-refl a.chunk, ==-refl a.pos)

module _ {ℓ} {A : Type ℓ} where
  -- The reader has read all that it was given, and the writer has flushed no more: every pointer is
  -- at the slot `a`, where the front is.
  pub record IsDrained (p : Pipe A) (a : Slot) : Type 0 where
    pub front_eq : front p.queue ≡ a
    pub w_eq : p.w ≡ some a
    pub r_eq : p.r ≡ some a
    pub c_eq : p.c ≡ some a

  -- At a chunk size of two or more a new pipe, whose second chunk has a free address that is not that
  -- of the first, is made without a fault, and is drained.
  pub make-IsDrained :
      (size fresh fresh' : ℕ) (raw raw' : Chunk A) (h : Heap A)
      → 2 ≤ size
      → size ≤ 2 ^ 32
      → fresh ≢ fresh'
      → h fresh' ≡ none
      → (p : Pipe A) × (make size fresh raw fresh' raw' h ≡ some p)
        × IsDrained p (record { chunk = fresh; pos = 0 })
  unfolding make ChunkQueue.make
  make-IsDrained size fresh fresh' raw raw' h large small ne free =
      let start = ChunkQueue.make fresh raw h in
      let pushed =
        push-grown size fresh' raw' raw start (omega arith) small refl
          (update_self h fresh (some raw)) (update-ne h fresh fresh' (some raw) ne ∙ free) in
      let b : Ref = some (record { chunk = fresh; pos = 0 }) in
      (
        record { queue = grown start fresh' raw' raw; w = b; r = b; f = b; c = b },
        rw pushed refl,
        record { front_eq = refl; w_eq = refl; r_eq = refl; c_eq = refl },
      )

  -- The pipe once the writer has written up to the slot `b`, with the queue `q`.
  abbrev pub written : Pipe A → ChunkQueue A → Slot → Pipe A
  written p q b = record p { queue = q; f = some b }

  module _ {p : Pipe A} {a : Slot} (v : IsDrained p a) where
    front-same : same_slot (front p.queue) a ≡ true
    front-same = ap (λ s. same_slot s a) v.front_eq ∙ same_slot_self a

    same-front : same_slot a (front p.queue) ≡ true
    same-front = ap (same_slot a) v.front_eq ∙ same_slot_self a

    check_read-drained :
        (spurious : Bool)
        → check_read spurious p
          ≡ (false, record p { r = some a; c = if spurious then some a else none })
    unfolding check_read check_swap
    check_read-drained true = rw (v.r_eq, front-same, v.c_eq, front-same, same-front) refl
    check_read-drained false = rw (v.r_eq, front-same, v.c_eq, front-same, same-front) refl

  -- On a drained pipe, if the exchange does not fail spuriously, `check_read` says false and makes `c`
  -- null; and whatever is written then, up to another slot, `flush` says false and publishes it.
  pub flush-check_read :
      (p : Pipe A) (a b : Slot) (q : ChunkQueue A) (spurious : Bool)
      → IsDrained p a
      → same_slot a b ≡ false
      → let (ready, p1) = check_read false p in
        (ready ≡ false)
        × (p1.c ≡ none)
        × ((flush spurious (written p1 q b)).0 ≡ false)
        × ((flush spurious (written p1 q b)).1.c ≡ some b)
  unfolding check_read check_swap flush
  flush-check_read p a b q spurious v other =
      rw (check_read-drained v false, v.w_eq, other) (refl, refl, refl, refl)

  -- On a drained pipe, if the exchange of `check_read` fails spuriously, `check_read` says false, and
  -- yet `flush` of what is written then, up to another slot, says true: nobody wakes the reader.
  pub flush_unheard_spurious :
      (p : Pipe A) (a b : Slot) (q : ChunkQueue A)
      → IsDrained p a
      → same_slot a b ≡ false
      → let (ready, p1) = check_read true p in
        (ready ≡ false) × ((flush false (written p1 q b)).0 ≡ true)
  unfolding check_read check_swap flush
  flush_unheard_spurious p a b q v other =
      rw (check_read-drained v true, v.w_eq, other, same_slot_self a) (refl, refl)

  -- On a drained pipe, if the writer writes up to another slot, keeping the front, and flushes between
  -- the load and the exchange of `check_read`: the flush says true and `check_read` says false, whether
  -- its exchange fails spuriously or not, so nobody wakes the reader.
  pub flush_unheard :
      (p : Pipe A) (a b : Slot) (q : ChunkQueue A) (spurious : Bool)
      → IsDrained p a
      → same_slot a b ≡ false
      → same_slot b a ≡ false
      → front q ≡ a
      → let (heard, p1) = flush false (written (check_load p) q b) in
        let (ready, p2) = check_swap spurious p1 in
        (heard ≡ true) × (ready ≡ false) × (p2.c ≡ some b)
  unfolding check_swap flush
  flush_unheard p a b q spurious v other other' at =
      let at_front : same_slot (front q) a ≡ true = ap (λ s. same_slot s a) at ∙ same_slot_self a in
      let moved : same_slot b (front q) ≡ false = ap (same_slot b) at ∙ other' in
      rw (v.w_eq, other, v.c_eq, same_slot_self a, at_front, moved) (refl, refl, refl)
