-- ===== src/ArrayQueue/Threads/Pushes.antt =====
-- The steps of a Push_CAS of other/LockFreeArrayQueue.h as steps of the ticket protocol.
use cpp_concurrency_data_str.Base.{
  ℕ, ◌+◌, ◌%◌, ◌<◌, ◌≡◌, refl, ◌∙◌, ap, ap₂, sym, subst, true, false, some, [], ◌∷◌, ◌++◌, length,
  length-snoc, arith, update, Bool-cases, inl, inr,
}
use cpp_concurrency_data_str.Base.Updates.{map-update}
use cpp_concurrency_data_str.Base.Int.{ℤ, pos, pos_part, ◌+ℤ◌, ◌-ℤ◌, eq_ℤ, leb_ℤ, pos-add_one}
use cpp_concurrency_data_str.ArrayQueue.{trans_index, is_full}
use cpp_concurrency_data_str.ArrayQueue.Cas.{
  Pushing, loads_write, loads_read, exchanges, waits, writes, publishes, pushed, compare_active,
  push_step,
}
use cpp_concurrency_data_str.ArrayQueue.Holds.{compare_active_lem}
use cpp_concurrency_data_str.ArrayQueue.Threads.{pushing, System, push_works}
use cpp_concurrency_data_str.ArrayQueue.Threads.Abstract.{
  decode, decode-free_mark, phase_of, abstract, IsNatural, Local, IsCounted,
}
use cpp_concurrency_data_str.Protocol
use cpp_concurrency_data_str.Protocol.{
  Mark, free, full, Phase, outside, saw_given, sees_room, sees_value, waits_free, writing, written,
  waits_full, reading, got, Protocol, goes, IsFree, here, next, rests, looks_given, looks_room,
  looks_value, claims_write, claims_read, finds_free, finds_full,
}
use cpp_concurrency_data_str.ArrayQueue.Threads.Frame.{
  eq_of_eq_ℤ, Simulated, Local-turned, turn, rest, stay, change, slot,
}

below_bound : (cap a b : ℕ) → leb_ℤ (pos cap) (pos a -ℤ pos b) ≡ false → a < b + cap
unfolding ◌-ℤ◌
below_bound cap a b h = ground arith

module _ {ℓ} {A : Type ℓ} {s : System A} (v : IsCounted s) (i : ℕ) where
  abbrev cap : ℕ
  cap = s.queue.max_size

  -- A slot marked as the push of index `w` expects it waits for the value of that ticket.
  free_slot :
      (w : ℤ)
      → IsNatural w
      → eq_ℤ (s.queue.active (trans_index cap w)) (compare_active cap w) ≡ true
      → decode cap (pos_part w % cap) (s.queue.active (pos_part w % cap)) ≡ free (pos_part w)
  free_slot w n ready =
      let k = pos_part w in
      ap (λ j. decode cap (k % cap) (s.queue.active j)) (sym (slot v i w n))
      ∙ ap (decode cap (k % cap))
          (eq_of_eq_ℤ _ _ ready ∙ ap (compare_active cap) n ∙ compare_active_lem cap k)
      ∙ decode-free_mark cap k

  published :
      (w : ℤ)
      → IsNatural w
      → update (λ j. decode cap j (s.queue.active j)) (pos_part w % cap) (full (pos_part w))
        ≡ (λ j. decode cap j (update s.queue.active (pos_part w % cap) (w +ℤ pos 1) j))
  published w n =
      ap (update (λ j. decode cap j (s.queue.active j)) (pos_part w % cap)) (
        sym (
          ap (λ z. decode cap (pos_part w % cap) (z +ℤ pos 1)) n
          ∙ ap (decode cap (pos_part w % cap)) (pos-add_one (pos_part w))))
      ∙ sym (map-update (decode cap) s.queue.active (pos_part w % cap) (w +ℤ pos 1))

  pub push_simulates :
      (x : A) (pc : Pushing) → s.calls i ≡ pushing x pc → Simulated s (push_works s i x pc)
  unfolding push_step is_full
  push_simulates x loads_write e =
      rest v i (pushing x (loads_read s.queue.write_index))
        (v.write_eq ∙ ap (λ z. pos (pos_part z)) (sym v.write_eq)) refl (rw e tt)
  push_simulates x (loads_read w) e =
      let n : IsNatural w = subst Local e (v.locals i) in
      elim (Bool-cases (leb_ℤ (pos cap) (w -ℤ s.queue.read_index))) [
        | inl refused ↦ rw refused (rest v i (pushing x (pushed false)) tt refl (rw e tt))
        | inr some_room ↦ rw some_room (
            turn v i (pushing x (exchanges w)) n (
              looks_room i (pos_part w) (rw e tt) (
                below_bound cap (pos_part w) (pos_part s.queue.read_index)
                  (ap₂ (λ a b. leb_ℤ (pos cap) (a -ℤ b)) (sym n) (sym v.read_eq) ∙ some_room))))
      ]
  push_simulates x (exchanges w) e =
      let n : IsNatural w = subst Local e (v.locals i) in
      elim (Bool-cases (eq_ℤ s.queue.write_index w)) [
        | inl same ↦
            let at : w ≡ pos (length s.given) = sym (eq_of_eq_ℤ _ _ same) ∙ v.write_eq in
            rw same (
              record {
                log = v.log;
                size_eq = v.size_eq;
                write_eq =
                    ap (λ z. z +ℤ pos 1) at ∙ pos-add_one _ ∙ ap pos (sym (length-snoc s.given x));
                read_eq = v.read_eq;
                locals = Local-turned v i (pushing x (waits w)) n;
              },
              subst (Protocol.Reach (abstract s))
                  (ap (λ ps. record (abstract s) { given = s.given ++ x ∷ []; phases = ps })
                    (ap (λ k. update (λ j. phase_of (s.calls j)) i (waits_free k x))
                        (sym (ap pos_part at))
                      ∙ sym (map-update (λ j. phase_of) s.calls i (pushing x (waits w)))))
                  (next here
                    (claims_write i x (ap phase_of e ∙ ap (λ z. sees_room (pos_part z)) at))),
            )
        | inr other ↦ rw other (rest v i (pushing x loads_write) tt refl (rw e tt))
      ]
  push_simulates x (waits w) e =
      let n : IsNatural w = subst Local e (v.locals i) in
      elim (Bool-cases (eq_ℤ (s.queue.active (trans_index cap w)) (compare_active cap w))) [
        | inl ready ↦ rw ready (
            turn v i (pushing x (writes w)) n
              (finds_free i (pos_part w) x (ap phase_of e) (free_slot w n ready)))
        | inr not_yet ↦ rw not_yet (stay v i (pushing x (waits w)) e)
      ]
  push_simulates x (writes w) e =
      let n : IsNatural w = subst Local e (v.locals i) in
      rw (slot v i w n) (
        change v i (pushing x (publishes w)) (update s.queue.elements (pos_part w % cap) (some x))
          s.queue.active _ n refl (Protocol.writes i (pos_part w) x (ap phase_of e)))
  push_simulates x (publishes w) e =
      let n : IsNatural w = subst Local e (v.locals i) in
      rw (slot v i w n) (
        change v i (pushing x (pushed true)) s.queue.elements
          (update s.queue.active (pos_part w % cap) (w +ℤ pos 1))
          (update (λ j. decode cap j (s.queue.active j)) (pos_part w % cap) (full (pos_part w))) tt
          (published w n) (Protocol.publishes i (pos_part w) (ap phase_of e)))
  push_simulates x (pushed b) e = stay v i (pushing x (pushed b)) e
