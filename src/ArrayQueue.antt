-- ===== src/ArrayQueue.antt =====
-- other/LockFreeArrayQueue.h: a bounded queue on an array, either under a lock or by tickets taken
-- with compare-and-swap (child Cas). The built variant is USE_CAS_STL_STRONG. MultipleLock.h is
-- not in the repository: its `Init` is the number that it returns, and the critical sections of
-- Push_Lock and Pop_Lock are single steps. `long long` indices are ℤ: they grow by one for each
-- value, and the program has no behaviour at 2^63 values.
pub mod Cas
pub mod Holds
pub mod Locked
pub mod Threads
pub mod Tickets
pub mod Modes
pub mod Collision
mod Tests
use cpp_concurrency_data_str.Base.{
  ℕ, ◌-◌, ◌^◌, ◌+◌, Bool, true, false, Option, none, some, leb, if◌then◌else◌, update, bit_and, not,
}
use cpp_concurrency_data_str.Base.Int.{ℤ, pos, negsuc, ◌+ℤ◌, ◌-ℤ◌, leb_ℤ, ltb_ℤ}

-- `cas` is `m_nMode == E_CAS`. An element is `none` where no push has written.
pub record ArrayQueue {ℓ} (A : Type ℓ) : Type ℓ where
  pub elements : ℕ → Option A
  pub active : ℕ → ℤ
  pub max_size : ℕ
  pub write_index : ℤ
  pub read_index : ℤ
  pub cas : Bool

-- nIndex & (m_nMaxQueueSize - 1); a negative index has 64 bits in two's complement.
unfoldable pub trans_index : ℕ → ℤ → ℕ
trans_index max_size (pos n) = bit_and n (max_size - 1)
trans_index max_size (negsuc n) = bit_and (2 ^ 64 - (n + 1)) (max_size - 1)

unfoldable pub is_empty : ℤ → ℤ → Bool
is_empty write_index read_index = leb_ℤ write_index read_index

module _ {ℓ} {A : Type ℓ} where
  abbrev pub make : ArrayQueue A
  make = record {
    elements = λ i. none;
    active = λ i. pos 0;
    max_size = 0;
    write_index = negsuc 0;
    read_index = negsuc 0;
    cas = true;
  }

  -- With whether each `new` gives an array, and what the lock's `Init` returns.
  pub init : Bool → Bool → ℤ → Bool → ℕ → ArrayQueue A → ℤ × ArrayQueue A
  init has_elements has_active lock_init cas size q =
      let q1 : ArrayQueue A = record q { cas = cas; elements = λ i. none } in
      if not has_elements
      then (negsuc 0, q1)
      else if not has_active
      then (negsuc 0, q1)
      else let q2 : ArrayQueue A = record q1 { active = λ i. pos 0; max_size = size } in
        if leb size 1
        then (negsuc 1, q2)
        else let q3 : ArrayQueue A = record q2 { write_index = pos 0; read_index = pos 0 } in
          if ltb_ℤ lock_init (pos 0) then (negsuc 0, q3) else (pos 0, q3)

  pub clear : ArrayQueue A → ArrayQueue A
  clear q = record q {
    elements = λ i. none;
    active = λ i. pos 0;
    max_size = 0;
    write_index = negsuc 0;
    read_index = negsuc 0;
  }

  unfoldable pub size : ArrayQueue A → ℤ
  size q =
      if leb_ℤ q.read_index q.write_index
      then q.write_index -ℤ q.read_index
      else q.write_index -ℤ q.read_index +ℤ pos q.max_size

  unfoldable pub is_full : ArrayQueue A → ℤ → ℤ → Bool
  is_full q write_index read_index = leb_ℤ (pos q.max_size) (write_index -ℤ read_index)

  pub push_lock : A → ArrayQueue A → Bool × ArrayQueue A
  push_lock e q = if is_full q q.write_index q.read_index then (false, q) else (
    true,
    record q {
      elements = update q.elements (trans_index q.max_size q.write_index) (some e);
      write_index = q.write_index +ℤ pos 1;
    },
  )

  pub pop_lock : ArrayQueue A → Bool × Option A × ArrayQueue A
  pop_lock q = if is_empty q.write_index q.read_index then (false, none, q) else (
    true,
    q.elements (trans_index q.max_size q.read_index),
    record q { read_index = q.read_index +ℤ pos 1 },
  )
