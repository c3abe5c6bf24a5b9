-- ===== src/RingQueue/Threads/Safety.antt =====
-- What holds of threads that call push and pop of LockFreeQueue.h on one queue, in every interleaving.
use cpp_concurrency_data_str.Base.{
  ℕ, ◌+◌, ◌^◌, ◌≤◌, ◌<◌, ◌≡◌, refl, ◌∙◌, ap, sym, subst, Option, none, some, [], length, get_elem?,
  get_elem?_of_lt, arith, inl, inr,
}
use cpp_concurrency_data_str.RingQueue.{RingQueue, make, index}
use cpp_concurrency_data_str.RingQueue.Holds.{Holds, capacity_pos}
use cpp_concurrency_data_str.RingQueue.Make.{make-Holds}
use cpp_concurrency_data_str.RingQueue.Threads.{
  loads, checks, exchanges, constructs, publishes, pushed, reads, destroys, releases, popped, Call,
  idle, pushing, popping, System, Reach, here, next, start,
}
use cpp_concurrency_data_str.RingQueue.Threads.Abstract.{abstract, phase_of, IsCounted, IsShort}
use cpp_concurrency_data_str.RingQueue.Threads.Frame.{index-mod}
use cpp_concurrency_data_str.RingQueue.Threads.Simulates.{Step-simulates, short_before}
use cpp_concurrency_data_str.Protocol
use cpp_concurrency_data_str.Protocol.{Protocol, Phase, outside, got}
use cpp_concurrency_data_str.Protocol.Inv.{Inv, Knows, uses, read_ticket, one_user, start-Inv}
use cpp_concurrency_data_str.Protocol.Steps.{Reach-Inv}

module _ {ℓ} {A : Type ℓ} where
  -- The node that a call has to itself.
  abbrev pub touches : RingQueue A → Call A → Option ℕ
  touches q (pushing x (constructs k)) = some (index q k)
  touches q (pushing x (publishes k)) = some (index q k)
  touches q (popping (reads k)) = some (index q k)
  touches q (popping (destroys k o)) = some (index q k)
  touches q (popping (releases k o)) = some (index q k)
  touches q c = none

  -- The ticket of a pop that has read its node, and what it read.
  abbrev pub has_read : Call A → Option (ℕ × Option A)
  has_read (popping (destroys k o)) = some (k, o)
  has_read (popping (releases k o)) = some (k, o)
  has_read c = none

  abbrev read_phase : Option (ℕ × Option A) → Phase A
  read_phase (some (k, o)) = got k o
  read_phase none = outside

  phase-has_read :
      (c : Call A) (k : ℕ) (o : Option A) → has_read c ≡ some (k, o) → phase_of c ≡ got k o
  phase-has_read (popping (destroys n r)) k o e = ap read_phase e
  phase-has_read (popping (releases n r)) k o e = ap read_phase e
  phase-has_read idle k o e = absurd (ground arith)
  phase-has_read (pushing x loads) k o e = absurd (ground arith)
  phase-has_read (pushing x (checks n)) k o e = absurd (ground arith)
  phase-has_read (pushing x (exchanges n)) k o e = absurd (ground arith)
  phase-has_read (pushing x (constructs n)) k o e = absurd (ground arith)
  phase-has_read (pushing x (publishes n)) k o e = absurd (ground arith)
  phase-has_read (pushing x (pushed b)) k o e = absurd (ground arith)
  phase-has_read (popping loads) k o e = absurd (ground arith)
  phase-has_read (popping (checks n)) k o e = absurd (ground arith)
  phase-has_read (popping (exchanges n)) k o e = absurd (ground arith)
  phase-has_read (popping (reads n)) k o e = absurd (ground arith)
  phase-has_read (popping (popped b r)) k o e = absurd (ground arith)

  -- The nodes that the threads touch are those that their tickets use.
  uses_of_touches :
      {s : System A}
      → IsCounted s
      → (c : Call A) (at : ℕ) → touches s.queue c ≡ some at
      → uses s.queue.capacity (phase_of c) ≡ some at
  uses_of_touches v (pushing x (constructs k)) at t = ap some (sym (index-mod v k)) ∙ t
  uses_of_touches v (pushing x (publishes k)) at t = ap some (sym (index-mod v k)) ∙ t
  uses_of_touches v (popping (reads k)) at t = ap some (sym (index-mod v k)) ∙ t
  uses_of_touches v (popping (destroys k o)) at t = ap some (sym (index-mod v k)) ∙ t
  uses_of_touches v (popping (releases k o)) at t = ap some (sym (index-mod v k)) ∙ t
  uses_of_touches v idle at t = absurd (ground arith)
  uses_of_touches v (pushing x loads) at t = absurd (ground arith)
  uses_of_touches v (pushing x (checks k)) at t = absurd (ground arith)
  uses_of_touches v (pushing x (exchanges k)) at t = absurd (ground arith)
  uses_of_touches v (pushing x (pushed b)) at t = absurd (ground arith)
  uses_of_touches v (popping loads) at t = absurd (ground arith)
  uses_of_touches v (popping (checks k)) at t = absurd (ground arith)
  uses_of_touches v (popping (exchanges k)) at t = absurd (ground arith)
  uses_of_touches v (popping (popped b o)) at t = absurd (ground arith)

  module _ (capacity : ℕ) (positive : 0 < capacity) (small : capacity ≤ 2 ^ 63) where
    made : Holds (make {A = A} capacity) 0 []
    made = (make-Holds A capacity positive small).0

    start-IsCounted : IsCounted (start {A = A} capacity)
    unfolding make
    start-IsCounted = record {
      log = made.log;
      mask_eq = made.mask_eq;
      capacity_eq = made.capacity_eq;
      tail_eq = refl;
      shaped = λ j. inr (inl refl);
      loaded_le = λ i. omega arith;
    }

    start-protocol :
        abstract (start {A = A} capacity) ≡ Protocol.start (make {A = A} capacity).capacity
    unfolding make
    start-protocol = refl

    -- While the counters have not been wrapped the threads follow the ticket protocol.
    pub protocol_Inv :
        {s : System A} → Reach (start capacity) s → IsShort s → IsCounted s × Inv (abstract s)
    protocol_Inv here short =
        (start-IsCounted, subst Inv (sym start-protocol) (start-Inv _ (capacity_pos made)))
    protocol_Inv (next r st) short =
        let before = short_before st short in
        let (v, w) = protocol_Inv r before in
        let (v', steps) = Step-simulates st v w before in (v', Reach-Inv steps w)

    module _ {s : System A} (r : Reach (start capacity) s) (short : IsShort s) where
      abbrev inv : IsCounted s × Inv (abstract s)
      inv = protocol_Inv r short

      -- In every state that any number of threads can reach with steps of push and pop from a fresh
      -- queue (of a requested capacity from 1 to 2 ^ 63), where the
      -- pushes that moved `_tail` and the capacity add up to less than 2 ^ 64: what a pop has read is the value of the push that got the
      -- same ticket.
      pub pop_reads_pushed :
          (i ticket : ℕ) (out : Option A)
          → has_read (s.calls i) ≡ some (ticket, out)
          → (x : A) × (out ≡ some x) × (get_elem? s.given ticket ≡ some x)
      pop_reads_pushed i ticket out e =
          let w = inv.1 in
          let phase = phase-has_read (s.calls i) ticket out e in
          let u : Knows (abstract s) (got ticket out) =
            subst (Knows (abstract s)) phase (w.knows i) in
          let lt = w.read_of i ticket (ap read_ticket phase) in
          let le = w.taken_le in
          let (x, f) = get_elem?_of_lt s.given ticket (omega arith) in (x, u.0 ∙ f, f)

      -- In every state that any number of threads can reach with steps of push and pop from a fresh
      -- queue (of a requested capacity from 1 to 2 ^ 63), where the
      -- pushes that moved `_tail` and the capacity add up to less than 2 ^ 64: no two threads are at one node, to construct, publish,
      -- read, destroy or free its value.
      pub node_owner :
          (i j at : ℕ)
          → touches s.queue (s.calls i) ≡ some at
          → touches s.queue (s.calls j) ≡ some at
          → i ≡ j
      node_owner i j at e f =
          one_user inv.1 i j at (uses_of_touches inv.0 (s.calls i) at e)
            (uses_of_touches inv.0 (s.calls j) at f)

      -- In every state that any number of threads can reach with steps of push and pop from a fresh
      -- queue (of a requested capacity from 1 to 2 ^ 63), where the
      -- pushes that moved `_tail` and the capacity add up to less than 2 ^ 64: `_tail` counts these pushes, and `_head` is not above it and
      -- at most the capacity below it.
      pub counters_bounded :
          (s.queue.tail ≡ length s.given)
          × (s.queue.head ≤ s.queue.tail)
          × (s.queue.tail ≤ s.queue.head + s.queue.capacity)
      counters_bounded =
          let v = inv.0 in
          let w = inv.1 in
          (v.tail_eq, omega (arith, v.tail_eq, w.taken_le), omega (arith, v.tail_eq, w.room))
