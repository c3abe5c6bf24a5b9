-- ===== src/ArrayQueue/Holds.antt =====
-- What a queue of other/LockFreeArrayQueue.h stands for, if its size is a power of two.
use native.Mathlib.Nat.{one-le-pow}
use cpp_concurrency_data_str.Base.{
  ℕ, suc, ◌+◌, ◌-◌, ◌%◌, ◌^◌, ◌<◌, ◌≡◌, ◌∙◌, ap, sym, some, Option, List, arith, length, leb,
  bit_and, if◌then◌else◌,
}
use cpp_concurrency_data_str.Base.Bits.{bit_and_mask}
use cpp_concurrency_data_str.Base.Int.{ℤ, pos, negsuc, ◌-ℤ◌, ◌+ℤ◌, pos_add-sub}
use cpp_concurrency_data_str.ArrayQueue.{ArrayQueue, trans_index, is_full, is_empty, size}
use cpp_concurrency_data_str.ArrayQueue.Cas.{compare_active}
use cpp_concurrency_data_str.Window.{IsWindow}

-- The mark of a slot that holds the value of ticket `k`, and of one that waits for it.
abbrev pub full_mark : ℕ → ℤ
full_mark k = pos (suc k)

abbrev pub free_mark : ℕ → ℕ → ℤ
free_mark cap k = if leb cap k then negsuc (k - cap) else pos 0

abbrev pub HasFreeMark : ℕ → ℤ → ℕ → Type 0
HasFreeMark cap m k = m ≡ free_mark cap k

-- At a power of two the masked index is a remainder.
pub trans_index-mod :
    (max_size log : ℕ) → max_size ≡ 2 ^ log → (k : ℕ) → trans_index max_size (pos k) ≡ k % max_size
unfolding trans_index
trans_index-mod max_size log e k =
    ap (λ m. bit_and k (m - 1)) e ∙ bit_and_mask log k ∙ ap (λ c. k % c) (sym e)

module _ {ℓ} {A : Type ℓ} where
  abbrev pub HasItem : Option A → ℕ → A → Type ℓ
  HasItem o k x = o ≡ some x

  abbrev pub AnyItem : Option A → ℕ → Type 0
  AnyItem o k = Unit {0}

  -- `r` values have been popped, and `xs` are in the array, oldest first.
  pub record Stores (q : ArrayQueue A) (r : ℕ) (xs : List A) : Type ℓ where
    pub log : ℕ
    pub size_eq : q.max_size ≡ 2 ^ log
    pub read_eq : q.read_index ≡ pos r
    pub write_eq : q.write_index ≡ pos (r + length xs)
    pub items : IsWindow HasItem AnyItem q.elements q.max_size r xs

  abbrev pub HasMark : ℤ → ℕ → A → Type 0
  HasMark m k x = m ≡ full_mark k

  -- No call is under way: the marks say which slots are taken, and by which ticket.
  pub record Holds (q : ArrayQueue A) (r : ℕ) (xs : List A) : Type ℓ where
    pub stores : Stores q r xs
    pub marks : IsWindow HasMark (HasFreeMark q.max_size) q.active q.max_size r xs

  module _ {q : ArrayQueue A} {r : ℕ} {xs : List A} (v : Stores q r xs) where
    pub max_size_pos : 0 < q.max_size
    max_size_pos = omega (arith, v.size_eq, one-le-pow v.log 2)

    pub trans_index-eq : (k : ℕ) → trans_index q.max_size (pos k) ≡ k % q.max_size
    trans_index-eq k = trans_index-mod q.max_size v.log v.size_eq k

    pub is_full_lem : is_full q q.write_index q.read_index ≡ leb q.max_size (length xs)
    unfolding is_full
    is_full_lem = rw (v.write_eq, v.read_eq, pos_add-sub r (length xs)) (ground arith)

    pub is_empty_lem : is_empty q.write_index q.read_index ≡ leb (length xs) 0
    unfolding is_empty
    is_empty_lem = rw (v.write_eq, v.read_eq) (ground arith)

    -- `Size` is the number of values held.
    pub signed_size-length : size q ≡ pos (length xs)
    unfolding size
    signed_size-length = rw (v.write_eq, v.read_eq, pos_add-sub r (length xs)) (ground arith)

pub compare_active_lem : (cap k : ℕ) → compare_active cap (pos k) ≡ free_mark cap k
unfolding compare_active ◌-ℤ◌ ◌+ℤ◌
compare_active_lem cap k = ground arith

-- What a pop leaves is what the ticket one round later waits for.
pub pop_mark : (cap k : ℕ) → pos 0 -ℤ (pos k +ℤ pos 1) ≡ free_mark cap (k + cap)
unfolding ◌-ℤ◌ ◌+ℤ◌
pop_mark cap k = ground arith
