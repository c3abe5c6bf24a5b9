-- ===== src/Timer/Laws.antt =====
-- What the operations of timer.cpp do to a well-formed timer.
use cpp_concurrency_data_str.Base.{
  ℕ, suc, ◌+◌, ◌≤◌, ◌<◌, ◌≡◌, refl, true, false, List, [], ◌∷◌, arith, All, Bool-cases, inl, inr,
  ◌⊎◌, if◌then◌else◌,
}
use cpp_concurrency_data_str.Base.Int.{
  ℤ, pos, negsuc, ◌+ℤ◌, ◌-ℤ◌, -ℤ_parts, +ℤ_parts, ltb_ℤ→lt, le_of_not_ltb_ℤ, ◌≤ℤ◌, ltb_ℤ,
}
use cpp_concurrency_data_str.Timer.{
  TimerNodeBase, TimerNode, find, Timer, add_timer, del_timer, time_to_sleep,
}
use cpp_concurrency_data_str.Timer.Order.{less-le}
use cpp_concurrency_data_str.Timer.Set.{
  After, IsSorted, All-insert, All-erase, insert-IsSorted, erase-IsSorted, find_of_fresh,
  find-insert, erase-insert,
}

sleep_bounds :
    (e now : ℤ)
    → let d = e -ℤ now in
      let s = if ltb_ℤ (pos 0) d then d else pos 0 in
      ((s ≡ pos 0) × (e ≤ℤ now +ℤ pos 0)) ⊎ ((pos 0 ≤ℤ s) × (e ≤ℤ now +ℤ s) × (now +ℤ s ≤ℤ e))
sleep_bounds e now = elim (Bool-cases (ltb_ℤ (pos 0) (e -ℤ now))) [
  | inl late ↦
      let p = ltb_ℤ→lt (pos 0) (e -ℤ now) late in
      rw late (
        inr (
          omega (arith, p),
          omega (arith, -ℤ_parts e now, +ℤ_parts now (e -ℤ now)),
          omega (arith, -ℤ_parts e now, +ℤ_parts now (e -ℤ now)),
        ))
  | inr due ↦
      let p = le_of_not_ltb_ℤ (pos 0) (e -ℤ now) due in
      rw due (inl (refl, omega (arith, p, -ℤ_parts e now, +ℤ_parts now (pos 0))))
]

module _ {Task : Type 0} where
  -- The elements are in order, and each id was given before.
  pub record IsValid (t : Timer Task) : Type 0 where
    pub sorted : IsSorted t.set
    pub ids : All (λ y. y.base.id < suc t.gid) t.set

  All-weaken :
      (m n : ℕ) (ys : List (TimerNode Task))
      → m ≤ n
      → All (λ y. y.base.id < m) ys
      → All (λ y. y.base.id < n) ys
  All-weaken m n [] h u = tt
  All-weaken m n (y ∷ ys) h u = (omega (arith, u.0), All-weaken m n ys h u.1)

  -- `addTimer` keeps a well-formed timer well-formed, at any time and delay.
  pub add_timer-IsValid :
      (now msec : ℤ) (f : Task) {t : Timer Task} → IsValid t → IsValid (add_timer now msec f t).1
  unfolding add_timer
  add_timer-IsValid now msec f {t} v = record {
    sorted = insert-IsSorted _ t.set v.sorted;
    ids =
        All-insert (λ y. y.base.id < suc (t.gid + 1)) _ t.set (omega arith)
          (All-weaken (suc t.gid) (suc (t.gid + 1)) t.set (omega arith) v.ids);
  }

  -- `delTimer` of any node keeps a well-formed timer well-formed.
  pub del_timer-IsValid :
      (k : TimerNodeBase) {t : Timer Task} → IsValid t → IsValid (del_timer k t).1
  unfolding del_timer
  del_timer-IsValid k {t} v = elim (Bool-cases (find k t.set)) [
    | inl found ↦
        rw found
          (record { sorted = erase-IsSorted k t.set v.sorted; ids = All-erase _ k t.set v.ids })
    | inr absent ↦ rw absent v
  ]

  -- On a well-formed timer the node that `addTimer` returns can be deleted, once: `delTimer` says
  -- true and restores the set, and a second `delTimer` of the node says false and changes nothing.
  pub del_timer-add_timer :
      (now msec : ℤ) (f : Task) {t : Timer Task}
      → IsValid t
      → let (key, t') = add_timer now msec f t in
        (del_timer key t' ≡ (true, record t' { set = t.set }))
        × (del_timer key (record t' { set = t.set }) ≡ (false, record t' { set = t.set }))
  unfolding del_timer add_timer
  del_timer-add_timer now msec f {t} v =
      let x : TimerNode Task = record {
        base = record { expire_time = now +ℤ msec; id = t.gid + 1 };
        callback = f;
      } in
      let fresh =
        find_of_fresh x.base t.set (All-weaken (suc t.gid) (t.gid + 1) t.set (omega arith) v.ids) in
      (rw (find-insert x t.set, erase-insert x t.set fresh), rw fresh)

  abbrev pub Any : (TimerNode Task → Type 0) → List (TimerNode Task) → Type 0
  Any P [] = ⊥
  Any P (x ∷ xs) = P x ⊎ Any P xs

  All-later :
      (k : TimerNodeBase) (l : ℤ) (ys : List (TimerNode Task))
      → l ≤ℤ k.expire_time
      → After k ys
      → All (λ y. l ≤ℤ y.base.expire_time) ys
  All-later k l [] h u = tt
  All-later k l (y ∷ ys) h u = (omega (arith, less-le k y.base u.0), All-later k l ys h u.1)

  -- On a well-formed timer `timeToSleep` is -1 with an empty set. Otherwise it is at least 0, some
  -- timer is due when it has passed, and if it is not 0 no timer is due before that.
  pub time_to_sleep_lem :
      (now : ℤ) {t : Timer Task}
      → IsValid t
      → let s = time_to_sleep now t in
        ((t.set ≡ []) × (s ≡ negsuc 0))
        ⊎ ((pos 0 ≤ℤ s)
            × Any (λ y. y.base.expire_time ≤ℤ now +ℤ s) t.set
            × ((s ≡ pos 0) ⊎ All (λ y. now +ℤ s ≤ℤ y.base.expire_time) t.set))
  unfolding time_to_sleep
  time_to_sleep_lem now {t} v = go t.set v.sorted
    where
      go :
          (ys : List (TimerNode Task))
          → IsSorted ys
          → let s = time_to_sleep now (record { gid = 0; set = ys }) in
            ((ys ≡ []) × (s ≡ negsuc 0))
            ⊎ ((pos 0 ≤ℤ s)
                × Any (λ y. y.base.expire_time ≤ℤ now +ℤ s) ys
                × ((s ≡ pos 0) ⊎ All (λ y. now +ℤ s ≤ℤ y.base.expire_time) ys))
      go [] u = inl (refl, refl)
      go (it ∷ rest) u = elim (sleep_bounds it.base.expire_time now) [
        | inl (e, due) ↦ inr (rw e (omega arith), inl (rw e due), inl e)
        | inr (late, due, exact) ↦
            inr (late, inl due, inr (exact, All-later it.base _ rest exact u.0))
      ]
