-- ===== src/ArrayQueue/Threads/Abstract.antt =====
-- How a queue of other/LockFreeArrayQueue.h and the calls on it stand for a state of the ticket protocol.
use native.Mathlib.Nat.{mod-eq_of_lt}
use cpp_concurrency_data_str.Base.{
  ℕ, zero, suc, ◌+◌, ◌%◌, ◌^◌, ◌≤◌, ◌≡◌, ap, length, arith, leb, Bool-cases, inl, inr,
}
use cpp_concurrency_data_str.Base.Int.{ℤ, pos, negsuc, pos_part}
use cpp_concurrency_data_str.ArrayQueue.Cas.{
  loads_write, loads_read, exchanges, waits, writes, publishes, pushed, reads, releases, popped,
}
use cpp_concurrency_data_str.ArrayQueue.Holds.{free_mark}
use cpp_concurrency_data_str.ArrayQueue.Threads.{Call, idle, pushing, popping, System}
use cpp_concurrency_data_str.Protocol.{
  Mark, free, full, Phase, outside, saw_given, sees_room, sees_value, waits_free, writing, written,
  waits_full, reading, got, Protocol,
}

-- What the mark of slot `j` waits for.
abbrev pub decode : ℕ → ℕ → ℤ → Mark
decode cap j (pos zero) = free j
decode cap j (pos (suc k)) = full k
decode cap j (negsuc k) = free (k + cap)

pub decode-free_mark : (cap k : ℕ) → decode cap (k % cap) (free_mark cap k) ≡ free k
decode-free_mark cap k = elim (Bool-cases (leb cap k)) [
  | inl late ↦ let le : cap ≤ k = ground arith in rw late (ap free (omega arith))
  | inr first ↦ rw first (ap free (mod-eq_of_lt (ground arith)))
]

abbrev pub IsNatural : ℤ → Type 0
IsNatural z = z ≡ pos (pos_part z)

module _ {ℓ} {A : Type ℓ} where
  abbrev pub phase_of : Call A → Phase A
  phase_of idle = outside
  phase_of (pushing e loads_write) = outside
  phase_of (pushing e (loads_read w)) = outside
  phase_of (pushing e (exchanges w)) = sees_room (pos_part w)
  phase_of (pushing e (waits w)) = waits_free (pos_part w) e
  phase_of (pushing e (writes w)) = writing (pos_part w) e
  phase_of (pushing e (publishes w)) = written (pos_part w)
  phase_of (pushing e (pushed b)) = outside
  phase_of (popping loads_write) = outside
  phase_of (popping (loads_read w)) = saw_given (pos_part w)
  phase_of (popping (exchanges r)) = sees_value (pos_part r)
  phase_of (popping (waits r)) = waits_full (pos_part r)
  phase_of (popping (reads r)) = reading (pos_part r)
  phase_of (popping (releases r o)) = got (pos_part r) o
  phase_of (popping (popped b o)) = outside

  abbrev pub abstract : System A → Protocol A
  abstract s = record {
    cap = s.queue.max_size;
    given = s.given;
    taken = pos_part s.queue.read_index;
    marks = λ j. decode s.queue.max_size j (s.queue.active j);
    values = s.queue.elements;
    phases = λ i. phase_of (s.calls i);
  }

  -- The indices that a call has loaded are not negative.
  abbrev pub Local : Call A → Type 0
  Local (pushing e (loads_read w)) = IsNatural w
  Local (pushing e (exchanges w)) = IsNatural w
  Local (pushing e (waits w)) = IsNatural w
  Local (pushing e (writes w)) = IsNatural w
  Local (pushing e (publishes w)) = IsNatural w
  Local (popping (loads_read w)) = IsNatural w
  Local (popping (exchanges r)) = IsNatural r
  Local (popping (waits r)) = IsNatural r
  Local (popping (reads r)) = IsNatural r
  Local (popping (releases r o)) = IsNatural r
  Local _ = Unit {0}

  pub record IsCounted (s : System A) : Type 0 where
    pub log : ℕ
    pub size_eq : s.queue.max_size ≡ 2 ^ log
    pub write_eq : s.queue.write_index ≡ pos (length s.given)
    pub read_eq : IsNatural s.queue.read_index
    pub locals : (i : ℕ) → Local (s.calls i)
