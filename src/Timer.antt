-- ===== src/Timer.antt =====
-- DataStructures/timer.cpp: timers in a std::set ordered by expiry and id. The set is the list of
-- its elements in order. What steady_clock gives for `getTick` is an argument `now` of each call, and
-- what a callback does to the timer is an argument `call`.
pub mod Order
pub mod Set
pub mod Laws
pub mod Fire
mod Tests
use cpp_concurrency_data_str.Base.{
  ℕ, zero, suc, ◌+◌, Bool, true, false, not, ◌&&◌, Option, none, some, List, [], ◌∷◌, ltb,
  if◌then◌else◌,
}
use cpp_concurrency_data_str.Base.Int.{ℤ, pos, negsuc, ◌+ℤ◌, ◌-ℤ◌, ltb_ℤ, leb_ℤ}

pub record TimerNodeBase : Type 0 where
  pub expire_time : ℤ
  pub id : ℕ

pub record TimerNode (Task : Type 0) : Type 0 where
  pub base : TimerNodeBase
  pub callback : Task

unfoldable pub less : TimerNodeBase → TimerNodeBase → Bool
less lhd rhd =
    if ltb_ℤ lhd.expire_time rhd.expire_time
    then true
    else if ltb_ℤ rhd.expire_time lhd.expire_time
    then false
    else ltb lhd.id rhd.id

-- Keys that are not ordered are equivalent.
unfoldable pub same : TimerNodeBase → TimerNodeBase → Bool
unfolding less
same a b = not (less a b) && not (less b a)

module _ {Task : Type 0} where
  -- std::set::insert, find and erase. An equivalent element keeps a new one out.
  unfoldable pub insert : TimerNode Task → List (TimerNode Task) → List (TimerNode Task)
  unfolding less
  insert x [] = x ∷ []
  insert x (y ∷ ys) =
      if less x.base y.base
      then x ∷ y ∷ ys
      else if less y.base x.base
      then y ∷ insert x ys
      else y ∷ ys

  unfoldable pub find : TimerNodeBase → List (TimerNode Task) → Bool
  unfolding same
  find k [] = false
  find k (y ∷ ys) = if same k y.base then true else find k ys

  unfoldable pub erase : TimerNodeBase → List (TimerNode Task) → List (TimerNode Task)
  unfolding same
  erase k [] = []
  erase k (y ∷ ys) = if same k y.base then ys else y ∷ erase k ys

-- `gid` is a static member, kept with the set.
pub record Timer (Task : Type 0) : Type 0 where
  pub gid : ℕ
  pub set : List (TimerNode Task)

module _ {Task : Type 0} where
  pub add_timer : ℤ → ℤ → Task → Timer Task → TimerNodeBase × Timer Task
  add_timer now msec f t =
      let gid = t.gid + 1 in
      let key : TimerNodeBase = record { expire_time = now +ℤ msec; id = gid } in
      (key, record { gid = gid; set = insert (record { base = key; callback = f }) t.set })

  pub del_timer : TimerNodeBase → Timer Task → Bool × Timer Task
  del_timer k t = if find k t.set then (true, record t { set = erase k t.set }) else (false, t)

  -- The milliseconds to the first expiry, and -1 with no timer.
  pub time_to_sleep : ℤ → Timer Task → ℤ
  time_to_sleep now t = elim t.set [
    | [] ↦ negsuc 0
    | it ∷ rest ↦
        let diff = it.base.expire_time -ℤ now in if ltb_ℤ (pos 0) diff then diff else pos 0
  ]

-- `World` is what the callbacks act on besides the timer.
module _ {Task World : Type 0} (call : Task → World × Timer Task → World × Timer Task) where
  -- `none` is the erasure through an iterator whose element the callback has erased.
  pub check_timer : ℤ → World → Timer Task → Option (Bool × World × Timer Task)
  check_timer now w t = elim t.set [
    | [] ↦ some (false, w, t)
    | it ∷ rest ↦
        if leb_ℤ it.base.expire_time now
        then (let (w', t') = call it.callback (w, t) in
            if find it.base t'.set
            then some (true, w', record t' { set = erase it.base t'.set })
            else none)
        else some (false, w, t)
  ]

  -- `while(timer->checkTimer());` of `main`: the readings of the clock are the list, and `none` is
  -- a loop that goes on when they are used up, or a faulty erasure.
  pub check_all : List ℤ → World → Timer Task → Option (World × Timer Task)
  check_all [] w t = none
  check_all (now ∷ later) w t = elim (check_timer now w t) [
    | none ↦ none
    | some (true, w', t') ↦ check_all later w' t'
    | some (false, w', t') ↦ some (w', t')
  ]
