-- ===== src/SharedPtr.antt =====
-- DataStructures/ThreadSafeShared_ptr.h: a pointer that counts its owners in an atomic on the heap.
-- A world is what the heap holds: the counters, and which objects live. Each operation makes at most
-- one change of a counter; `new` gives the address `fresh`.
pub mod Counting
pub mod Births
pub mod Assign
pub mod Threads
mod Tests
use cpp_concurrency_data_str.Base.{
  ℕ, ◌-◌, ◌%◌, ◌^◌, Bool, true, false, Option, none, some, ◌==◌, ltb, if◌then◌else◌, update, ◌>>=◌,
  not,
}
use cpp_concurrency_data_str.Base.Int.{ℤ, pos, negsuc, ◌+ℤ◌, ◌-ℤ◌}

abbrev pub Ptr : Type 0
Ptr = ℕ

abbrev pub null : Ptr
null = 0

-- `none` is an address with no counter: `*count` faults there, and at the null pointer.
pub record World : Type 0 where
  pub counts : Ptr → Option ℤ
  pub objects : Ptr → Bool

pub record SharedPtr : Type 0 where
  pub ptr : Ptr
  pub count : Ptr

-- operator bool, to which `==` converts both its sides.
abbrev pub to_bool : SharedPtr → Bool
to_bool s = not (s.ptr == null)

abbrev pub bool_eq : Bool → Bool → Bool
bool_eq true b = b
bool_eq false b = not b

abbrev pub is_one : ℤ → Bool
is_one (pos n) = n == 1
is_one (negsuc n) = false

pub of_ptr : Ptr → Ptr → World → SharedPtr × World
of_ptr fresh ptr w = (
  record { ptr = ptr; count = fresh },
  record w { counts = update w.counts fresh (some (pos 1)) },
)

pub make_null : Ptr → World → SharedPtr × World
make_null fresh w = (
  record { ptr = null; count = fresh },
  record w { counts = update w.counts fresh (some (pos 0)) },
)

-- The move constructor: the new pointer, and what is left of the other.
pub move : SharedPtr → SharedPtr × SharedPtr
move other = (other, record { ptr = null; count = null })

-- (*count).fetch_add(1) and (*count).fetch_sub(1), with the value before.
unfoldable pub fetch_add : Ptr → World → Option (ℤ × World)
fetch_add c w = do
  n ← w.counts c
  some (n, record w { counts = update w.counts c (some (n +ℤ pos 1)) })

unfoldable pub fetch_sub : Ptr → World → Option (ℤ × World)
fetch_sub c w = do
  n ← w.counts c
  some (n, record w { counts = update w.counts c (some (n -ℤ pos 1)) })

-- delete count; delete ptr;
abbrev pub delete : SharedPtr → World → World
delete s w = record {
  counts = update w.counts s.count none;
  objects = update w.objects s.ptr false;
}

pub copy : SharedPtr → World → Option (SharedPtr × World)
unfolding fetch_add
copy other w = do (n, w') ← fetch_add other.count w; some (other, w')

pub destroy : SharedPtr → World → Option World
unfolding fetch_sub
destroy s w =
    if s.ptr == null
    then some w
    else do (n, w') ← fetch_sub s.count w; some (if is_one n then delete s w' else w')

pub assign : SharedPtr → SharedPtr → World → Option (SharedPtr × World)
unfolding fetch_add fetch_sub
assign this other w = if bool_eq (to_bool this) (to_bool other) then some (this, w) else do
  (n, w') ← fetch_sub this.count w
  let w'' = if is_one n then delete this w' else w'
  (m, w''') ← fetch_add other.count w''
  some (other, w''')

-- A `long` as an `int` of 32 bits.
abbrev pub to_int : ℤ → ℤ
to_int (pos n) = let m = n % 2 ^ 32 in if ltb m (2 ^ 31) then pos m else negsuc (2 ^ 32 - 1 - m)
to_int (negsuc n) = let m = n % 2 ^ 32 in if ltb m (2 ^ 31) then negsuc m else pos (2 ^ 32 - 1 - m)

pub use_count : SharedPtr → World → Option ℤ
use_count s w = do n ← w.counts s.count; some (to_int n)

-- `swap`: this and the other, exchanged
abbrev pub swap : SharedPtr → SharedPtr → SharedPtr × SharedPtr
swap this other =
    (record { ptr = other.ptr; count = other.count }, record { ptr = this.ptr; count = this.count })
