-- ===== src/ThreadPool/Lifetime/Moves.antt =====
-- The steps of the thread that owns a ThreadPool.h, and all steps together.
use cpp_concurrency_data_str.Base.{
  ℕ, suc, ◌<◌, ◌≡◌, refl, ◌∙◌, ap, sym, subst, Bool, true, false, Bool-cases, Option, none, some,
  List, [], ◌∷◌, ◌++◌, append-nil, append_assoc, if◌then◌else◌, ltb, arith, inl, inr, ℕ_discrete,
  ◌>>=◌,
}
use cpp_concurrency_data_str.ThreadPool.{Worker, testing, popping, running, exited, submit, stop}
use cpp_concurrency_data_str.ThreadPool.Lifetime.{
  Owner, starting, made, stopped, queue_destroyed, joining, gone, Lifetime, Event, works, submits,
  starts, throws, destroys, tears, queue_lives, can_work, has_exited, worked, start_next, fail,
  destroy, tear, happens, run,
}
use cpp_concurrency_data_str.ThreadPool.Lifetime.Inv.{busy, Joined, Inv, worked-Inv}

module _ {ℓ} {Task : Type ℓ} where
  submit-Inv :
      (task : Task) (l : Lifetime Task)
      → queue_lives l.owner ≡ true
      → Inv l
      → Inv (record l { pool = submit task l.pool; submitted = l.submitted ++ task ∷ [] })
  submit-Inv task l lives inv =
      let p = l.pool in
      let none_broken = inv.kept lives in
      record {
        accounts =
            ap (λ k. (p.started ++ (p.work_queue ++ task ∷ [])) ++ k) none_broken
            ∙ append-nil (p.started ++ (p.work_queue ++ task ∷ []))
            ∙ sym (append_assoc p.started p.work_queue (task ∷ []))
            ∙ ap (λ k. k ++ task ∷ [])
                (sym (append-nil (p.started ++ p.work_queue))
                  ∙ ap ((p.started ++ p.work_queue) ++◌) (sym none_broken)
                  ∙ inv.accounts);
        counts = inv.counts;
        unborn = inv.unborn;
        joined = inv.joined;
        kept = inv.kept;
        drained = λ e. absurd (ground (arith, lives, e));
      }

  start_next-Inv :
      (n : ℕ) (o : Owner) (l : Lifetime Task) → l.owner ≡ o → Inv l → Inv (start_next n o l)
  start_next-Inv n starting l at inv = elim (Bool-cases (ltb l.size n)) [
    | inl e ↦ rw e (record {
      accounts = inv.accounts;
      counts = omega (arith, inv.counts, ap busy (inv.unborn l.size (omega arith)));
      unborn = λ i h. inv.unborn i (omega arith);
      joined = subst (λ o. Joined o (suc l.size) l.pool.threads) (sym at) tt;
      kept = inv.kept;
      drained = inv.drained;
    })
    | inr e ↦ rw e (record {
      accounts = inv.accounts;
      counts = inv.counts;
      unborn = inv.unborn;
      joined = tt;
      kept = λ h. inv.kept (ap queue_lives at);
      drained = λ h. absurd (ground (arith, h));
    })
  ]
  start_next-Inv n made l at inv = inv
  start_next-Inv n stopped l at inv = inv
  start_next-Inv n queue_destroyed l at inv = inv
  start_next-Inv n (joining k) l at inv = inv
  start_next-Inv n gone l at inv = inv

  stop-Inv :
      (l : Lifetime Task)
      → queue_lives l.owner ≡ true
      → Inv l
      → Inv (record l { pool = stop l.pool; owner = stopped })
  stop-Inv l lives inv = record {
    accounts = inv.accounts;
    counts = inv.counts;
    unborn = inv.unborn;
    joined = tt;
    kept = λ h. inv.kept lives;
    drained = λ h. absurd (ground (arith, h));
  }

  fail-Inv : (n : ℕ) (o : Owner) (l : Lifetime Task) → l.owner ≡ o → Inv l → Inv (fail n o l)
  fail-Inv n starting l at inv = elim (Bool-cases (ltb l.size n)) [
    | inl e ↦ rw e (stop-Inv l (ap queue_lives at) inv)
    | inr e ↦ rw e inv
  ]
  fail-Inv n made l at inv = inv
  fail-Inv n stopped l at inv = inv
  fail-Inv n queue_destroyed l at inv = inv
  fail-Inv n (joining k) l at inv = inv
  fail-Inv n gone l at inv = inv

  destroy-Inv : (o : Owner) (l : Lifetime Task) → l.owner ≡ o → Inv l → Inv (destroy o l)
  destroy-Inv made l at inv = stop-Inv l (ap queue_lives at) inv
  destroy-Inv starting l at inv = inv
  destroy-Inv stopped l at inv = inv
  destroy-Inv queue_destroyed l at inv = inv
  destroy-Inv (joining k) l at inv = inv
  destroy-Inv gone l at inv = inv

  tear-Inv : (o : Owner) (l : Lifetime Task) → l.owner ≡ o → Inv l → Inv (tear o l)
  tear-Inv stopped l at inv =
      let none_broken = inv.kept (ap queue_lives at) in
      let p = l.pool in
      record {
        accounts =
            ap (λ k. k ++ p.work_queue) (append-nil p.started)
            ∙ sym (append-nil (p.started ++ p.work_queue))
            ∙ ap ((p.started ++ p.work_queue) ++◌) (sym none_broken)
            ∙ inv.accounts;
        counts = inv.counts;
        unborn = inv.unborn;
        joined = tt;
        kept = λ h. absurd (ground (arith, h));
        drained = λ h. refl;
      }
  tear-Inv queue_destroyed l at inv = record {
    accounts = inv.accounts;
    counts = inv.counts;
    unborn = inv.unborn;
    joined = λ i lt. absurd (omega arith);
    kept = λ h. absurd (ground (arith, h));
    drained = λ h. inv.drained (ap queue_lives at);
  }
  tear-Inv (joining k) l at inv = elim (Bool-cases (ltb k l.size)) [
    | inl e ↦ rw e (join (l.pool.threads k) refl)
    | inr e ↦ rw e (record {
      accounts = inv.accounts;
      counts = inv.counts;
      unborn = inv.unborn;
      joined = λ i lt.
          subst (λ o. Joined o l.size l.pool.threads) at inv.joined i (ground (arith, lt, e));
      kept = λ h. absurd (ground (arith, h));
      drained = λ h. inv.drained (ap queue_lives at);
    })
  ]
    where
      more : l.pool.threads k ≡ exited → (i : ℕ) → i < suc k → l.pool.threads i ≡ exited
      more e i lt = elim (ℕ_discrete i k) [
        | yes same ↦ ap l.pool.threads same ∙ e
        | no ne ↦ subst (λ o. Joined o l.size l.pool.threads) at inv.joined i (omega arith)
      ]

      join :
          (w : Worker Task)
          → l.pool.threads k ≡ w
          → Inv (if has_exited w then record l { owner = joining (suc k) } else l)
      join exited e = record {
        accounts = inv.accounts;
        counts = inv.counts;
        unborn = inv.unborn;
        joined = more e;
        kept = λ h. absurd (ground (arith, h));
        drained = λ h. inv.drained (ap queue_lives at);
      }
      join testing e = inv
      join popping e = inv
      join (running task) e = inv
  tear-Inv starting l at inv = inv
  tear-Inv made l at inv = inv
  tear-Inv gone l at inv = inv

  -- What holds where no destroyed member was used.
  abbrev pub IfSound : (Lifetime Task → Type ℓ) → Option (Lifetime Task) → Type ℓ
  IfSound P none = Unit
  IfSound P (some l) = P l

  happens-Inv : (n : ℕ) (e : Event Task) (l : Lifetime Task) → Inv l → IfSound Inv (happens n e l)
  unfolding happens
  happens-Inv n (works i) l inv = elim (Bool-cases (ltb i l.size)) [
    | inl e ↦ rw e (touch (can_work (l.pool.threads i) l.owner) (ground arith))
    | inr e ↦ rw e inv
  ]
    where
      touch : (b : Bool) → i < l.size → IfSound Inv (if b then some (worked i l) else none)
      touch true lt = worked-Inv i l lt inv
      touch false lt = tt
  happens-Inv n (submits task) l inv = elim (Bool-cases (queue_lives l.owner)) [
    | inl e ↦ rw e (submit-Inv task l e inv)
    | inr e ↦ rw e tt
  ]
  happens-Inv n starts l inv = start_next-Inv n l.owner l refl inv
  happens-Inv n throws l inv = fail-Inv n l.owner l refl inv
  happens-Inv n destroys l inv = destroy-Inv l.owner l refl inv
  happens-Inv n tears l inv = tear-Inv l.owner l refl inv

  pub run-Inv :
      (n : ℕ) (es : List (Event Task)) (l : Lifetime Task) → Inv l → IfSound Inv (run n es l)
  unfolding run
  run-Inv n [] l inv = inv
  run-Inv n (e ∷ es) l inv = go (happens n e l) (happens-Inv n e l inv) (run-Inv n es)
    where
      go :
          (o : Option (Lifetime Task))
          → IfSound Inv o
          → ((k : Lifetime Task) → Inv k → IfSound Inv (run n es k))
          → IfSound Inv (o >>= run n es)
      go none u next = tt
      go (some k) inv' next = next k inv'
