-- ===== src/RingQueue/Threads/Abstract.antt =====
-- How a queue of LockFreeQueue.h and the calls on it stand for a state of the ticket protocol.
use cpp_concurrency_data_str.Base.{
  ℕ, ◌+◌, ◌-◌, ◌^◌, ◌≤◌, ◌<◌, ◌≡◌, ◌⊎◌, length, ◌==◌, if◌then◌else◌,
}
use cpp_concurrency_data_str.RingQueue.{word, Node}
use cpp_concurrency_data_str.RingQueue.Threads.{
  loads, checks, exchanges, constructs, publishes, pushed, reads, destroys, releases, popped, Call,
  idle, pushing, popping, System,
}
use cpp_concurrency_data_str.Protocol.{
  Mark, free, full, Phase, outside, sees_free, sees_full, writing, written, reading, got, Protocol,
}

module _ {ℓ} {A : Type ℓ} where
  -- What a node waits for: a published one holds the value of its ticket. `word - 1` stands in a
  -- node that was never published.
  abbrev pub decode : Node A → Mark
  decode v =
      if v.head == word - 1
      then free v.tail
      else if v.head == v.tail
      then full v.tail
      else free v.tail

  -- A node is published, or was never, or was freed for the ticket one round later.
  abbrev pub IsShaped : ℕ → Node A → Type 0
  IsShaped capacity v = (v.head ≡ v.tail) ⊎ ((v.head ≡ word - 1) ⊎ (v.head + capacity ≡ v.tail))

  abbrev pub phase_of : Call A → Phase A
  phase_of idle = outside
  phase_of (pushing x loads) = outside
  phase_of (pushing x (checks k)) = outside
  phase_of (pushing x (exchanges k)) = sees_free k
  phase_of (pushing x (constructs k)) = writing k x
  phase_of (pushing x (publishes k)) = written k
  phase_of (pushing x (pushed b)) = outside
  phase_of (popping loads) = outside
  phase_of (popping (checks k)) = outside
  phase_of (popping (exchanges k)) = sees_full k
  phase_of (popping (reads k)) = reading k
  phase_of (popping (destroys k o)) = got k o
  phase_of (popping (releases k o)) = got k o
  phase_of (popping (popped b o)) = outside

  abbrev pub abstract : System A → Protocol A
  abstract s = record {
    cap = s.queue.capacity;
    given = s.given;
    taken = s.queue.head;
    marks = λ j. decode (s.queue.nodes j);
    values = λ j. (s.queue.nodes j).item;
    phases = λ i. phase_of (s.calls i);
  }

  -- The counter that a call has loaded.
  abbrev pub loaded : Call A → ℕ
  loaded (pushing x (checks k)) = k
  loaded (pushing x (exchanges k)) = k
  loaded (popping (checks k)) = k
  loaded (popping (exchanges k)) = k
  loaded _ = 0

  pub record IsCounted (s : System A) : Type 0 where
    pub log : ℕ
    pub mask_eq : s.queue.capacity_mask ≡ 2 ^ log - 1
    pub capacity_eq : s.queue.capacity ≡ 2 ^ log
    pub tail_eq : s.queue.tail ≡ length s.given
    pub shaped : (j : ℕ) → IsShaped s.queue.capacity (s.queue.nodes j)
    pub loaded_le : (i : ℕ) → loaded (s.calls i) ≤ length s.given

  -- The counters have not been wrapped.
  abbrev pub IsShort : System A → Type 0
  IsShort s = length s.given + s.queue.capacity < word
