-- ===== src/Timer/Fire.antt =====
-- Which callbacks `checkTimer` of timer.cpp runs, one at a time and in the loop of `main`.
use cpp_concurrency_data_str.Base.{
  ℕ, zero, suc, ◌<◌, ◌≡◌, refl, true, false, none, some, List, [], ◌∷◌, arith, All, Bool-cases, inl,
  inr, if◌then◌else◌, length, replicate,
}
use cpp_concurrency_data_str.Base.Int.{ℤ, ◌≤ℤ◌, ◌<ℤ◌, leb_ℤ, leb_ℤ→le, le→leb_ℤ, lt_of_not_leb_ℤ}
use cpp_concurrency_data_str.Timer.{
  TimerNodeBase, TimerNode, find, erase, Timer, del_timer, check_timer, check_all,
}
use cpp_concurrency_data_str.Timer.Order.{less-le, same_refl}
use cpp_concurrency_data_str.Timer.Set.{After, IsSorted, find_of_After}
use cpp_concurrency_data_str.Timer.Laws.{IsValid}

module _ {Task : Type 0} where
  -- The elements that have expired at `now`, and those that have not, in order.
  pub due : ℤ → List (TimerNode Task) → List (TimerNode Task)
  due now [] = []
  due now (y ∷ ys) = if leb_ℤ y.base.expire_time now then y ∷ due now ys else due now ys

  pub pending : ℤ → List (TimerNode Task) → List (TimerNode Task)
  pending now [] = []
  pending now (y ∷ ys) = if leb_ℤ y.base.expire_time now then pending now ys else y ∷ pending now ys

  All-late :
      (k : TimerNodeBase) (now : ℤ) (ys : List (TimerNode Task))
      → now <ℤ k.expire_time
      → After k ys
      → All (λ y. now <ℤ y.base.expire_time) ys
  All-late k now [] h u = tt
  All-late k now (y ∷ ys) h u = (omega (arith, less-le k y.base u.0), All-late k now ys h u.1)

  none_due :
      (now : ℤ) (ys : List (TimerNode Task))
      → All (λ y. now <ℤ y.base.expire_time) ys
      → (due now ys ≡ []) × (pending now ys ≡ ys)
  unfolding due pending
  none_due now [] u = (refl, refl)
  none_due now (y ∷ ys) u = elim (Bool-cases (leb_ℤ y.base.expire_time now)) [
    | inl e ↦ absurd (omega (arith, leb_ℤ→le y.base.expire_time now e, u.0))
    | inr e ↦ let (d, p) = none_due now ys u.1 in (rw e d, rw (e, p))
  ]

  module _ {World : Type 0} where
    -- On a well-formed timer, with callbacks that may do anything to the world and the timer: when
    -- `checkTimer` says false, world and timer are as they were, and no timer is due.
    pub check_timer-false :
        (call : Task → World × Timer Task → World × Timer Task) (now : ℤ) (w w' : World)
        {t t' : Timer Task}
        → IsValid t
        → check_timer call now w t ≡ some (false, w', t')
        → (w ≡ w') × (t ≡ t') × All (λ y. now <ℤ y.base.expire_time) t.set
    unfolding check_timer
    check_timer-false call now w w' {t} {t'} v e = go t.set v.sorted e
      where
        go :
            (ys : List (TimerNode Task))
            → IsSorted ys
            → check_timer call now w (record { gid = t.gid; set = ys }) ≡ some (false, w', t')
            → (w ≡ w')
              × (record { gid = t.gid; set = ys } ≡ t')
              × All (λ y. now <ℤ y.base.expire_time) ys
        go [] u e = (cc, cc, tt)
        go (it ∷ rest) u e = elim (Bool-cases (leb_ℤ it.base.expire_time now)) [
          | inl d ↦ absurd (ground arith)
          | inr d ↦
              let later = lt_of_not_leb_ℤ it.base.expire_time now d in
              (ground arith, ground arith, (later, All-late it.base now rest later u.0))
        ]

    module _ (effect : Task → World → World) where
      -- A callback that leaves the timer alone, such as that of `main`.
      abbrev pub quiet : Task → World × Timer Task → World × Timer Task
      quiet f s = (effect f s.0, s.1)

      -- The effects of callbacks, one after the other.
      abbrev pub run_callbacks : World → List (TimerNode Task) → World
      run_callbacks w [] = w
      run_callbacks w (y ∷ ys) = run_callbacks (effect y.callback w) ys

      fire_first :
          (now : ℤ) (w : World) (gid : ℕ) (it : TimerNode Task) (rest : List (TimerNode Task))
          → leb_ℤ it.base.expire_time now ≡ true
          → check_timer quiet now w (record { gid = gid; set = it ∷ rest })
            ≡ some (true, effect it.callback w, record { gid = gid; set = rest })
      unfolding check_timer find erase
      fire_first now w gid it rest e = rw (e, same_refl it.base)

      wait_first :
          (now : ℤ) (w : World) (gid : ℕ) (it : TimerNode Task) (rest : List (TimerNode Task))
          → leb_ℤ it.base.expire_time now ≡ false
          → check_timer quiet now w (record { gid = gid; set = it ∷ rest })
            ≡ some (false, w, record { gid = gid; set = it ∷ rest })
      unfolding check_timer
      wait_first now w gid it rest e = rw e

      check_none :
          (now : ℤ) (w : World) (gid : ℕ)
          → check_timer quiet now w (record { gid = gid; set = [] })
            ≡ some (false, w, record { gid = gid; set = [] })
      unfolding check_timer
      check_none now w gid = refl

      check_all_sorted :
          (k : ℕ) (now : ℤ) (w : World) (gid : ℕ) (ys : List (TimerNode Task))
          → length ys < k
          → IsSorted ys
          → check_all quiet (replicate k now) w (record { gid = gid; set = ys })
            ≡ some (run_callbacks w (due now ys), record { gid = gid; set = pending now ys })
      unfolding check_all due pending
      check_all_sorted zero now w gid ys h u = absurd (omega arith)
      check_all_sorted (suc k) now w gid [] h u = rw (check_none now w gid, check_all)
      check_all_sorted (suc k) now w gid (it ∷ rest) h u =
          elim (Bool-cases (leb_ℤ it.base.expire_time now)) [
            | inl e ↦
                rw (fire_first now w gid it rest e, check_all, e)
                  (check_all_sorted k now (effect it.callback w) gid rest (omega arith) u.1)
            | inr e ↦
                let (d, p) =
                  none_due now rest
                    (All-late it.base now rest (lt_of_not_leb_ℤ it.base.expire_time now e) u.0) in
                rw (wait_first now w gid it rest e, check_all, e, d, p)
          ]

      -- On a well-formed timer, with callbacks that leave the timer alone, and a clock that stands at
      -- `now` for more readings than there are timers, the loop of `main` ends: it has run the
      -- callbacks of the timers that are due, in order, each once, and the others are left.
      pub check_all_lem :
          (k : ℕ) (now : ℤ) (w : World) {t : Timer Task}
          → IsValid t
          → length t.set < k
          → check_all quiet (replicate k now) w t
            ≡ some (run_callbacks w (due now t.set), record t { set = pending now t.set })
      check_all_lem k now w {t} v h = check_all_sorted k now w t.gid t.set h v.sorted

  -- On every well-formed timer whose first element is due, a callback that deletes its own timer makes
  -- `checkTimer` erase through an invalid iterator.
  pub check_timer-self_cancel :
      {World : Type 0} (now : ℤ) (w : World) (gid : ℕ) (it : TimerNode Task)
      (rest : List (TimerNode Task))
      → IsValid (record { gid = gid; set = it ∷ rest })
      → it.base.expire_time ≤ℤ now
      → check_timer
          (λ f s. (s.0, (del_timer it.base s.1).1))
          now
          w
          (record { gid = gid; set = it ∷ rest })
        ≡ none
  unfolding check_timer del_timer find erase
  check_timer-self_cancel now w gid it rest v h =
      rw (
        le→leb_ℤ it.base.expire_time now h,
        same_refl it.base,
        find_of_After it.base rest v.sorted.0,
      )
