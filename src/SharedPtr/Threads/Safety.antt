-- ===== src/SharedPtr/Threads/Safety.antt =====
-- What holds of threads that share one object by pointers of ThreadSafeShared_ptr.h.
use cpp_concurrency_data_str.Base.{
  empty_of_length, ℕ, ◌≡◌, ◌≢◌, refl, ◌∙◌, ap, sym, true, some, List, [], ◌∷◌, ◌++◌, length,
}
use cpp_concurrency_data_str.Base.Int.{pos}
use cpp_concurrency_data_str.SharedPtr.{World, SharedPtr}
use cpp_concurrency_data_str.SharedPtr.Threads.{idle, System, Reach, here, next, start}
use cpp_concurrency_data_str.SharedPtr.Threads.Life.{
  AloneBusy, Life, shared, unowned, uncounted, gone, same_thread, no_owners, Step-Life,
}

module _ (s : SharedPtr) where
  module _ {w : World} (counter : w.counts s.count ≡ some (pos 1))
      (object : w.objects s.ptr ≡ true) where
    Reach-Life : {t : System} → Reach s (start s w) t → Life s t
    Reach-Life here = shared 0 refl counter object (λ j. refl)
    Reach-Life (next r st) = Step-Life s st (Reach-Life r)

    -- From one pointer to an object that lives, with the counter 1, in every state that any number of
    -- threads can reach by copying, moving and destroying pointers to it: while some thread has a
    -- pointer the counter is there, and is the number of pointers, and the object lives.
    pub owners_keep_alive :
        {t : System} (i : ℕ) (xs ys : List ℕ)
        → Reach s (start s w) t
        → t.owners ≡ xs ++ i ∷ ys
        → (t.world.counts s.count ≡ some (pos (length t.owners))) × (t.world.objects s.ptr ≡ true)
    owners_keep_alive {t} i xs ys r at = from_life (Reach-Life r)
      where
        from_life :
            Life s t
            → (t.world.counts s.count ≡ some (pos (length t.owners)))
              × (t.world.objects s.ptr ≡ true)
        from_life (shared n len count live rest) = (count ∙ ap (λ k. some (pos k)) (sym len), live)
        from_life (unowned l len count live e alone) = absurd (no_owners s t i xs ys at len)
        from_life (uncounted l len count live e alone) = absurd (no_owners s t i xs ys at len)
        from_life (gone len count live rest) = absurd (no_owners s t i xs ys at len)

    -- From one pointer to an object that lives, with the counter 1, in every state that any number of
    -- threads can reach by copying, moving and destroying pointers to it: threads that have to delete
    -- are one and the same, no thread has a pointer any more, and the object still lives.
    pub deleted_once :
        {t : System} (i j : ℕ)
        → Reach s (start s w) t
        → t.calls i ≢ idle
        → t.calls j ≢ idle
        → (i ≡ j) × (t.owners ≡ []) × (t.world.objects s.ptr ≡ true)
    deleted_once {t} i j r busy busy' = from_life (Reach-Life r)
      where
        both : (l : ℕ) → AloneBusy t.calls l → i ≡ j
        both l alone = same_thread s t i l alone busy ∙ sym (same_thread s t j l alone busy')

        from_life : Life s t → (i ≡ j) × (t.owners ≡ []) × (t.world.objects s.ptr ≡ true)
        from_life (shared n len count live rest) = absurd (busy (rest i))
        from_life (unowned l len count live e alone) =
            (both l alone, empty_of_length t.owners len, live)
        from_life (uncounted l len count live e alone) =
            (both l alone, empty_of_length t.owners len, live)
        from_life (gone len count live rest) = absurd (busy (rest i))
