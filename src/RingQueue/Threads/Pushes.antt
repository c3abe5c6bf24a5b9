-- ===== src/RingQueue/Threads/Pushes.antt =====
-- The steps of a push of LockFreeQueue.h as steps of the ticket protocol.
use native.Mathlib.Nat.{mod-eq_of_lt}
use cpp_concurrency_data_str.Base.{
  ℕ, ◌-◌, ◌%◌, ◌≤◌, ◌<◌, ◌≡◌, refl, ◌∙◌, ap, sym, subst, ◌⊎◌, inl, inr, Bool, true, false, not,
  ◌&&◌, some, [], ◌∷◌, ◌++◌, length, length-snoc, ◌==◌, ==_iff, arith, update, Bool-cases,
}
use cpp_concurrency_data_str.Base.Updates.{map-update, update_same}
use cpp_concurrency_data_str.RingQueue.{word, Node, index, node}
use cpp_concurrency_data_str.RingQueue.Threads.{
  Pushing, loads, checks, exchanges, constructs, publishes, pushed, pushing, System, push_step,
  push_works,
}
use cpp_concurrency_data_str.RingQueue.Threads.Abstract.{
  decode, phase_of, abstract, loaded, IsCounted, IsShort,
}
use cpp_concurrency_data_str.RingQueue.Threads.Frame.{
  Simulated, index-mod, loaded-update, turn, rest, stay, change,
}
use cpp_concurrency_data_str.Protocol
use cpp_concurrency_data_str.Protocol.{
  Mark, free, full, Phase, sees_free, writing, written, Protocol, IsFree, here, next, looks_free,
  claims_free,
}
use cpp_concurrency_data_str.Protocol.Inv.{Inv, Knows, write_ticket}

pub exchanged : (t k : ℕ) (fails : Bool) → ((t == k) && not fails) ≡ true → t ≡ k
exchanged t k true h = ground arith
exchanged t k false h = ground arith

module _ {ℓ} {A : Type ℓ} where
  tail_of_free : (n : Node A) (k : ℕ) → decode n ≡ free k → n.tail ≡ k
  tail_of_free n k h = ground arith

  marks_of_tail : (n : Node A) (k : ℕ) → n.tail ≡ k → (decode n ≡ free k) ⊎ (decode n ≡ full k)
  marks_of_tail n k h = ground arith

  pub decode-published :
      (n : Node A) (k : ℕ)
      → decode n ≡ free k
      → k < word - 1
      → decode (record n { head = k }) ≡ full k
  decode-published n k h lt = ground (arith, tail_of_free n k h)

  module _ {s : System A} (v : IsCounted s) (w : Inv (abstract s)) (short : IsShort s) (i : ℕ) where
    abbrev cap : ℕ
    cap = s.queue.capacity

    -- A node whose `tail` is the counter that a push has loaded is free for its ticket.
    awaited :
        (k : ℕ)
        → (node s.queue k).tail ≡ k
        → length s.given ≤ k
        → decode (s.queue.nodes (k % cap)) ≡ free k
    awaited k e le = elim (marks_of_tail (node s.queue k) k e) [
      | inl is_free ↦ ap (λ j. decode (s.queue.nodes j)) (sym (index-mod v k)) ∙ is_free
      | inr is_full ↦ absurd (omega (arith, w.stored (index s.queue k) k is_full))
    ]

    pub push_simulates :
        (fails : Bool) (x : A) (pc : Pushing)
        → s.calls i ≡ pushing x pc
        → Simulated s (push_works s i fails x pc)
    unfolding push_step
    push_simulates fails x loads e =
        rest v i (pushing x (checks s.queue.tail)) (omega (arith, v.tail_eq)) refl (rw e tt)
    push_simulates fails x (checks k) e =
        let l : k ≤ length s.given = subst (λ c. loaded c ≤ length s.given) e (v.loaded_le i) in
        elim (Bool-cases ((node s.queue k).tail == k)) [
          | inl same ↦ rw same (
              turn v i (pushing x (exchanges k)) l
                (looks_free i k (rw e tt) (awaited k ((==_iff _ _).0 same))))
          | inr other ↦ rw other (rest v i (pushing x (pushed false)) (omega arith) refl (rw e tt))
        ]
    push_simulates fails x (exchanges k) e = elim (Bool-cases ((s.queue.tail == k) && not fails)) [
      | inl same ↦
          let at : k ≡ length s.given = sym (exchanged s.queue.tail k fails same) ∙ v.tail_eq in
          rw same (
            record {
              log = v.log;
              mask_eq = v.mask_eq;
              capacity_eq = v.capacity_eq;
              tail_eq =
                  mod-eq_of_lt (omega (arith, w.cap_pos)) ∙ omega (arith, length-snoc s.given x);
              shaped = v.shaped;
              loaded_le = λ j. omega (
                arith,
                length-snoc s.given x,
                loaded-update v i (pushing x (constructs k)) (omega arith) j,
              );
            },
            subst (Protocol.Reach (abstract s))
                (ap (λ ps. record (abstract s) { given = s.given ++ x ∷ []; phases = ps })
                  (ap (λ t. update (λ j. phase_of (s.calls j)) i (writing t x)) (sym at)
                    ∙ sym (map-update (λ j. phase_of) s.calls i (pushing x (constructs k)))))
                (next here (claims_free i x (ap phase_of e ∙ ap sees_free at))),
          )
      | inr other ↦
          rw other
            (rest v i (pushing x (checks s.queue.tail)) (omega (arith, v.tail_eq)) refl (rw e tt))
    ]
    push_simulates fails x (constructs k) e =
        change v i k (record (node s.queue k) { item = some x }) (pushing x (publishes k))
          (λ j. decode (s.queue.nodes j)) (update (λ j. (s.queue.nodes j).item) (k % cap) (some x))
          (v.shaped (index s.queue k)) (omega arith)
          (sym (update_same (λ j. decode (s.queue.nodes j)) (k % cap))
            ∙ ap (λ j. update (λ j. decode (s.queue.nodes j)) (k % cap) (decode (s.queue.nodes j)))
                (sym (index-mod v k)))
          refl (Protocol.writes i k x (ap phase_of e))
    push_simulates fails x (publishes k) e =
        let u : Knows (abstract s) (written k) =
          subst (λ c. Knows (abstract s) (phase_of c)) e (w.knows i) in
        let lt : k < length s.given = w.written_of i k (ap (λ c. write_ticket (phase_of c)) e) in
        let is_free : decode (node s.queue k) ≡ free k =
          ap (λ j. decode (s.queue.nodes j)) (index-mod v k) ∙ u.1 in
        change v i k (record (node s.queue k) { head = k }) (pushing x (pushed true))
          (update (λ j. decode (s.queue.nodes j)) (k % cap) (full k)) (λ j. (s.queue.nodes j).item)
          (inl (sym (tail_of_free (node s.queue k) k is_free))) (omega arith)
          (ap (update (λ j. decode (s.queue.nodes j)) (k % cap))
            (sym (decode-published (node s.queue k) k is_free (omega (arith, w.cap_pos)))))
          (sym (update_same (λ j. (s.queue.nodes j).item) (k % cap))
            ∙ ap (λ j. update (λ j. (s.queue.nodes j).item) (k % cap) ((s.queue.nodes j).item))
                (sym (index-mod v k)))
          (Protocol.publishes i k (ap phase_of e))
    push_simulates fails x (pushed b) e = stay v i (pushing x (pushed b)) e
