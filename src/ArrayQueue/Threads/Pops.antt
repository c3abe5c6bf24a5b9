-- ===== src/ArrayQueue/Threads/Pops.antt =====
-- The steps of a Pop_CAS of other/LockFreeArrayQueue.h as steps of the ticket protocol.
use native.Mathlib.Nat.{add-mod_right}
use cpp_concurrency_data_str.Base.{
  ℕ, suc, ◌+◌, ◌%◌, ◌<◌, ◌≡◌, refl, ◌∙◌, ap, ap₂, sym, subst, true, false, none, arith, update,
  Bool-cases, inl, inr,
}
use cpp_concurrency_data_str.Base.Updates.{map-update}
use cpp_concurrency_data_str.Base.Int.{ℤ, pos, pos_part, ◌+ℤ◌, ◌-ℤ◌, eq_ℤ, leb_ℤ, pos-add_one}
use cpp_concurrency_data_str.ArrayQueue.{trans_index, is_empty}
use cpp_concurrency_data_str.ArrayQueue.Cas.{
  Popping, loads_write, loads_read, exchanges, waits, reads, releases, popped, pop_step,
}
use cpp_concurrency_data_str.ArrayQueue.Holds.{free_mark, pop_mark}
use cpp_concurrency_data_str.ArrayQueue.Threads.{popping, System, pop_works}
use cpp_concurrency_data_str.ArrayQueue.Threads.Abstract.{
  decode, decode-free_mark, phase_of, abstract, IsNatural, Local, IsCounted,
}
use cpp_concurrency_data_str.Protocol
use cpp_concurrency_data_str.Protocol.{
  Mark, free, full, Phase, outside, saw_given, sees_room, sees_value, waits_free, writing, written,
  waits_full, reading, got, Protocol, goes, IsFree, here, next, rests, looks_given, looks_room,
  looks_value, claims_write, claims_read, finds_free, finds_full,
}
use cpp_concurrency_data_str.ArrayQueue.Threads.Frame.{
  eq_of_eq_ℤ, Simulated, Local-turned, turn, rest, stay, change, slot,
}

module _ {ℓ} {A : Type ℓ} {s : System A} (v : IsCounted s) (i : ℕ) where
  abbrev cap : ℕ
  cap = s.queue.max_size

  above : (a b : ℕ) → leb_ℤ (pos a) (pos b) ≡ false → b < a
  above a b h = ground arith

  full_slot :
      (r : ℤ)
      → IsNatural r
      → eq_ℤ (s.queue.active (trans_index cap r)) (r +ℤ pos 1) ≡ true
      → decode cap (pos_part r % cap) (s.queue.active (pos_part r % cap)) ≡ full (pos_part r)
  full_slot r n ready =
      let k = pos_part r in
      ap (λ j. decode cap (k % cap) (s.queue.active j)) (sym (slot v i r n))
      ∙ ap (decode cap (k % cap)) (eq_of_eq_ℤ _ _ ready ∙ ap (λ z. z +ℤ pos 1) n ∙ pos-add_one k)

  released :
      (r : ℤ)
      → IsNatural r
      → update (λ j. decode cap j (s.queue.active j)) (pos_part r % cap) (free (pos_part r + cap))
        ≡ (λ j. decode cap j (update s.queue.active (pos_part r % cap) (pos 0 -ℤ (r +ℤ pos 1)) j))
  released r n =
      let k = pos_part r in
      ap (update (λ j. decode cap j (s.queue.active j)) (k % cap)) (
        sym (
          ap (λ z. decode cap (k % cap) (pos 0 -ℤ (z +ℤ pos 1))) n
          ∙ ap (decode cap (k % cap)) (pop_mark cap k)
          ∙ ap (λ j. decode cap j (free_mark cap (k + cap))) (sym (add-mod_right k cap))
          ∙ decode-free_mark cap (k + cap)))
      ∙ sym (map-update (decode cap) s.queue.active (k % cap) (pos 0 -ℤ (r +ℤ pos 1)))

  pub pop_simulates : (pc : Popping A) → s.calls i ≡ popping pc → Simulated s (pop_works s i pc)
  unfolding pop_step is_empty
  pop_simulates loads_write e =
      turn v i (popping (loads_read s.queue.write_index))
        (v.write_eq ∙ ap (λ z. pos (pos_part z)) (sym v.write_eq))
        (subst (λ k. Protocol.Step (abstract s) (goes (abstract s) i (saw_given k)))
          (sym (ap pos_part v.write_eq)) (looks_given i (rw e tt)))
  pop_simulates (loads_read w) e =
      let n : IsNatural w = subst Local e (v.locals i) in
      elim (Bool-cases (leb_ℤ w s.queue.read_index)) [
        | inl none_left ↦ rw none_left (rest v i (popping (popped false none)) tt refl (rw e tt))
        | inr some_left ↦ rw some_left (
            turn v i (popping (exchanges s.queue.read_index)) v.read_eq (
              looks_value i (pos_part s.queue.read_index) (pos_part w) (ap phase_of e) (
                above (pos_part w) (pos_part s.queue.read_index)
                  (ap₂ leb_ℤ (sym n) (sym v.read_eq) ∙ some_left))))
      ]
  pop_simulates (exchanges r) e =
      let n : IsNatural r = subst Local e (v.locals i) in
      elim (Bool-cases (eq_ℤ s.queue.read_index r)) [
        | inl same ↦
            let at : s.queue.read_index ≡ r = eq_of_eq_ℤ _ _ same in
            let more : r +ℤ pos 1 ≡ pos (suc (pos_part r)) =
              ap (λ z. z +ℤ pos 1) n ∙ pos-add_one (pos_part r) in
            rw same (
              record {
                log = v.log;
                size_eq = v.size_eq;
                write_eq = v.write_eq;
                read_eq = more ∙ ap (λ z. pos (pos_part z)) (sym more);
                locals = Local-turned v i (popping (waits r)) n;
              },
              subst (Protocol.Reach (abstract s))
                  (ap₂ (λ k ps. record (abstract s) { taken = k; phases = ps })
                    (ap (λ z. suc (pos_part z)) at ∙ sym (ap pos_part more))
                    (ap (λ z. update (λ j. phase_of (s.calls j)) i (waits_full (pos_part z))) at
                      ∙ sym (map-update (λ j. phase_of) s.calls i (popping (waits r)))))
                  (next here
                    (claims_read i (ap phase_of e ∙ ap (λ z. sees_value (pos_part z)) (sym at)))),
            )
        | inr other ↦ rw other (rest v i (popping loads_write) tt refl (rw e tt))
      ]
  pop_simulates (waits r) e =
      let n : IsNatural r = subst Local e (v.locals i) in
      elim (Bool-cases (eq_ℤ (s.queue.active (trans_index cap r)) (r +ℤ pos 1))) [
        | inl ready ↦ rw ready (
            turn v i (popping (reads r)) n
              (finds_full i (pos_part r) (ap phase_of e) (full_slot r n ready)))
        | inr not_yet ↦ rw not_yet (stay v i (popping (waits r)) e)
      ]
  pop_simulates (reads r) e =
      let n : IsNatural r = subst Local e (v.locals i) in
      rw (slot v i r n) (
        turn v i (popping (releases r (s.queue.elements (pos_part r % cap)))) n
          (Protocol.reads i (pos_part r) (ap phase_of e)))
  pop_simulates (releases r o) e =
      let n : IsNatural r = subst Local e (v.locals i) in
      rw (slot v i r n) (
        change v i (popping (popped true o)) s.queue.elements
          (update s.queue.active (pos_part r % cap) (pos 0 -ℤ (r +ℤ pos 1)))
          (update (λ j. decode cap j (s.queue.active j)) (pos_part r % cap)
            (free (pos_part r + cap)))
          tt (released r n) (Protocol.releases i (pos_part r) o (ap phase_of e)))
  pop_simulates (popped b o) e = stay v i (popping (popped b o)) e
