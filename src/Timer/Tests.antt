-- ===== src/Timer/Tests.antt =====
-- Runs of timer.cpp at concrete inputs, and the theorems at inputs that meet their hypotheses.
use cpp_concurrency_data_str.Base.{
  ℕ, ◌≡◌, refl, true, false, some, List, [], ◌∷◌, ◌++◌, arith, All, ◌⊎◌, replicate,
}
use cpp_concurrency_data_str.Base.Int.{pos, negsuc, ◌+ℤ◌, ◌-ℤ◌, ◌≤ℤ◌}
use cpp_concurrency_data_str.Timer.{
  TimerNode, Timer, add_timer, del_timer, check_timer, time_to_sleep, check_all, insert, erase,
  find, less,
}
use cpp_concurrency_data_str.Timer.Laws.{
  IsValid, Any, add_timer-IsValid, del_timer-add_timer, time_to_sleep_lem,
}
use cpp_concurrency_data_str.Timer.Fire.{due, pending, quiet, run_callbacks, check_all_lem}

abbrev empty : Timer ℕ
empty = record { gid = 0; set = [] }

abbrev node : ℕ → ℕ → ℕ → TimerNode ℕ
node e i f = record { base = record { expire_time = pos e; id = i }; callback = f }

-- Two timers that expire at 1007 and one at 1012, added in another order.
abbrev three : Timer ℕ
three = record { gid = 3; set = node 1007 1 50 ∷ node 1007 3 70 ∷ node 1012 2 60 ∷ [] }

three_added :
    (add_timer
      (pos 1005)
      (pos 2)
      70
      (add_timer (pos 1002) (pos 10) 60 (add_timer (pos 1000) (pos 7) 50 empty).1).1).1
    ≡ three
unfolding add_timer ◌+ℤ◌ insert
three_added = refl

three-IsValid : IsValid three
unfolding less
three-IsValid = record { sorted = ((refl, (refl, tt)), ((refl, tt), (tt, tt))); ids = omega arith }

sleeps : time_to_sleep (pos 1000) three ≡ pos 7
unfolding time_to_sleep ◌-ℤ◌
sleeps = refl

-- A callback adds its number to the trace.
abbrev note : ℕ → List ℕ → List ℕ
note f w = w ++ f ∷ []

fires :
    check_all (quiet note) (replicate 4 (pos 1010)) [] three
    ≡ some (50 ∷ 70 ∷ [], record three { set = node 1012 2 60 ∷ [] })
unfolding check_all check_timer find erase
fires = refl

add_timer-IsValid_example : IsValid (add_timer (pos 1005) (pos 2) 80 three).1
add_timer-IsValid_example = add_timer-IsValid (pos 1005) (pos 2) 80 three-IsValid

del_timer-add_timer_example :
    let (key, t') = add_timer (pos 1005) (pos 2) 80 three in
    (del_timer key t' ≡ (true, record t' { set = three.set }))
    × (del_timer key (record t' { set = three.set }) ≡ (false, record t' { set = three.set }))
del_timer-add_timer_example = del_timer-add_timer (pos 1005) (pos 2) 80 three-IsValid

time_to_sleep_lem_example :
    let s = time_to_sleep (pos 1000) three in
    ((three.set ≡ []) × (s ≡ negsuc 0))
    ⊎ ((pos 0 ≤ℤ s)
        × Any (λ y. y.base.expire_time ≤ℤ pos 1000 +ℤ s) three.set
        × ((s ≡ pos 0) ⊎ All (λ y. pos 1000 +ℤ s ≤ℤ y.base.expire_time) three.set))
time_to_sleep_lem_example = time_to_sleep_lem (pos 1000) three-IsValid

check_all_lem_example :
    check_all (quiet note) (replicate 4 (pos 1010)) [] three
    ≡ some (
      run_callbacks note [] (due (pos 1010) three.set),
      record three { set = pending (pos 1010) three.set },
    )
check_all_lem_example = check_all_lem note 4 (pos 1010) [] three-IsValid (omega arith)
