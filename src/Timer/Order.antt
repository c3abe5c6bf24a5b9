-- ===== src/Timer/Order.antt =====
-- The order of timers is a strict total order on expiry and id.
use cpp_concurrency_data_str.Base.{◌≡◌, true, false, arith}
use cpp_concurrency_data_str.Base.Int.{eq_of_parts, ◌≤ℤ◌}
use cpp_concurrency_data_str.Timer.{TimerNodeBase, less, same}

pub less_irrefl : (a : TimerNodeBase) → less a a ≡ false
unfolding less
less_irrefl a = ground arith

pub less_trans : (a b c : TimerNodeBase) → less a b ≡ true → less b c ≡ true → less a c ≡ true
unfolding less
less_trans a b c p q = ground arith

pub less-asymm : (a b : TimerNodeBase) → less a b ≡ true → less b a ≡ false
unfolding less
less-asymm a b p = ground arith

pub less-le : (a b : TimerNodeBase) → less a b ≡ true → a.expire_time ≤ℤ b.expire_time
unfolding less
less-le a b p = ground arith

pub eq_of_same : (a b : TimerNodeBase) → same a b ≡ true → a ≡ b
unfolding same
eq_of_same a b p = ground (arith, eq_of_parts a.expire_time b.expire_time)

pub same_refl : (a : TimerNodeBase) → same a a ≡ true
unfolding same
same_refl a = ground (arith, less_irrefl a)

pub same_of_less : (a b : TimerNodeBase) → less a b ≡ true → same a b ≡ false
unfolding same
same_of_less a b p = ground arith

pub same_of_greater : (a b : TimerNodeBase) → less b a ≡ true → same a b ≡ false
unfolding same
same_of_greater a b p = ground arith

pub same_of_neither : (a b : TimerNodeBase) → less a b ≡ false → less b a ≡ false → same a b ≡ true
unfolding same
same_of_neither a b p q = ground arith
