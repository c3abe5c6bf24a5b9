-- ===== src/ArrayQueue/Threads/Safety.antt =====
-- What holds of threads that call Push_CAS and Pop_CAS of other/LockFreeArrayQueue.h on one queue, in
-- every interleaving.
use native.Mathlib.Nat.{pow-suc, one-le-pow}
use cpp_concurrency_data_str.Base.{
  ℕ, suc, ◌+◌, ◌^◌, ◌≤◌, ◌≡◌, refl, ◌∙◌, ap, sym, subst, true, false, Option, none, some, [],
  length, get_elem?, get_elem?_of_lt, arith, leb,
}
use cpp_concurrency_data_str.Base.Int.{ℤ, pos, pos_part}
use cpp_concurrency_data_str.ArrayQueue.{trans_index, init}
use cpp_concurrency_data_str.ArrayQueue.Cas.{
  loads_write, loads_read, exchanges, waits, writes, publishes, pushed, reads, releases, popped,
}
use cpp_concurrency_data_str.ArrayQueue.Threads.{
  Call, idle, pushing, popping, System, Reach, here, next, start,
}
use cpp_concurrency_data_str.ArrayQueue.Threads.Abstract.{abstract, phase_of, Local, IsCounted}
use cpp_concurrency_data_str.ArrayQueue.Threads.Simulates.{Step-simulates}
use cpp_concurrency_data_str.ArrayQueue.Threads.Frame.{slot}
use cpp_concurrency_data_str.Protocol
use cpp_concurrency_data_str.Protocol.{Protocol, got}
use cpp_concurrency_data_str.Protocol.Inv.{Inv, Knows, uses, one_user, start-Inv}
use cpp_concurrency_data_str.Protocol.Steps.{Reach-Inv}

module _ {ℓ} {A : Type ℓ} where
  -- The slot that a call reads or writes.
  abbrev pub touches : ℕ → Call A → Option ℕ
  touches cap (pushing e (writes w)) = some (trans_index cap w)
  touches cap (pushing e (publishes w)) = some (trans_index cap w)
  touches cap (popping (reads r)) = some (trans_index cap r)
  touches cap (popping (releases r o)) = some (trans_index cap r)
  touches cap c = none

  start_lem :
      (k : ℕ)
      → start {A = A} k ≡ record {
        queue = record {
          elements = λ i. none;
          active = λ i. pos 0;
          max_size = 2 ^ suc k;
          write_index = pos 0;
          read_index = pos 0;
          cas = true;
        };
        calls = λ i. idle;
        given = [];
      }
  unfolding init
  start_lem k =
      let large : leb (2 ^ suc k) 1 ≡ false = ground (arith, pow-suc 2 k, one-le-pow k 2) in
      rw (start, init, large) refl

  start-IsCounted : (k : ℕ) → IsCounted (start {A = A} k)
  start-IsCounted k =
      subst IsCounted (sym (start_lem k))
        (record { log = suc k; size_eq = refl; write_eq = refl; read_eq = refl; locals = λ i. tt })

  start-protocol : (k : ℕ) → abstract (start {A = A} k) ≡ Protocol.start (2 ^ suc k)
  start-protocol k = ap abstract (start_lem k)

  module _ (k : ℕ) where
    counted : {s : System A} → Reach (start k) s → IsCounted s
    counted here = start-IsCounted k
    counted (next r st) = (Step-simulates st (counted r)).0

    protocol_Inv : {s : System A} → Reach (start k) s → Inv (abstract s)
    protocol_Inv here =
        subst Inv (sym (start-protocol k))
          (start-Inv (2 ^ suc k) (omega (arith, one-le-pow (suc k) 2)))
    protocol_Inv (next r st) = Reach-Inv (Step-simulates st (counted r)).1 (protocol_Inv r)

  -- The slots that the threads touch are those that their tickets use.
  uses_of_touches :
      {s : System A}
      → IsCounted s
      → (c : Call A) (at : ℕ) → Local c
      → touches s.queue.max_size c ≡ some at
      → uses s.queue.max_size (phase_of c) ≡ some at
  uses_of_touches v (pushing e (writes w)) at l t = ap some (sym (slot v 0 w l)) ∙ t
  uses_of_touches v (pushing e (publishes w)) at l t = ap some (sym (slot v 0 w l)) ∙ t
  uses_of_touches v (popping (reads r)) at l t = ap some (sym (slot v 0 r l)) ∙ t
  uses_of_touches v (popping (releases r o)) at l t = ap some (sym (slot v 0 r l)) ∙ t
  uses_of_touches v idle at l t = absurd (ground arith)
  uses_of_touches v (pushing e loads_write) at l t = absurd (ground arith)
  uses_of_touches v (pushing e (loads_read w)) at l t = absurd (ground arith)
  uses_of_touches v (pushing e (exchanges w)) at l t = absurd (ground arith)
  uses_of_touches v (pushing e (waits w)) at l t = absurd (ground arith)
  uses_of_touches v (pushing e (pushed b)) at l t = absurd (ground arith)
  uses_of_touches v (popping loads_write) at l t = absurd (ground arith)
  uses_of_touches v (popping (loads_read w)) at l t = absurd (ground arith)
  uses_of_touches v (popping (exchanges r)) at l t = absurd (ground arith)
  uses_of_touches v (popping (waits r)) at l t = absurd (ground arith)
  uses_of_touches v (popping (popped b o)) at l t = absurd (ground arith)

  module _ (k : ℕ) {s : System A} (r : Reach (start k) s) where
    -- In every state that any number of threads can reach with steps of Push_CAS and Pop_CAS from a
    -- fresh queue of the size 2 ^ (k + 1): when a pop has read the slot of its index, it has the value
    -- of the push that got the same index.
    pub pop_reads_given :
        (i : ℕ) (index : ℤ) (o : Option A)
        → s.calls i ≡ popping (releases index o)
        → (x : A) × (o ≡ some x) × (get_elem? s.given (pos_part index) ≡ some x)
    pop_reads_given i index o e =
        let v = protocol_Inv k r in
        let u : Knows (abstract s) (got (pos_part index) o) =
          subst (λ c. Knows (abstract s) (phase_of c)) e (v.knows i) in
        let lt = v.read_of i (pos_part index) (ap (λ c. Protocol.Inv.read_ticket (phase_of c)) e) in
        let le = v.taken_le in
        let (x, f) = get_elem?_of_lt s.given (pos_part index) (omega arith) in (x, u.0 ∙ f, f)

    -- In every state that any number of threads can reach with steps of Push_CAS and Pop_CAS from a
    -- fresh queue of the size 2 ^ (k + 1): no two threads are at one slot, to read or write its element
    -- or to change its mark.
    pub slot_owner :
        (i j at : ℕ)
        → touches s.queue.max_size (s.calls i) ≡ some at
        → touches s.queue.max_size (s.calls j) ≡ some at
        → i ≡ j
    slot_owner i j at e f =
        let c = counted k r in
        one_user (protocol_Inv k r) i j at (uses_of_touches c (s.calls i) at (c.locals i) e)
          (uses_of_touches c (s.calls j) at (c.locals j) f)

    -- In every state that any number of threads can reach with steps of Push_CAS and Pop_CAS from a
    -- fresh queue of the size 2 ^ (k + 1): the write index counts the pushes that got an index, and the
    -- read index is a number, not above the write index and at most the queue's size below it.
    pub indices_bounded :
        (taken : ℕ) × (s.queue.read_index ≡ pos taken)
        × (s.queue.write_index ≡ pos (length s.given))
        × (taken ≤ length s.given)
        × (length s.given ≤ taken + s.queue.max_size)
    indices_bounded =
        let c = counted k r in
        let v = protocol_Inv k r in
        (pos_part s.queue.read_index, c.read_eq, c.write_eq, v.taken_le, v.room)
