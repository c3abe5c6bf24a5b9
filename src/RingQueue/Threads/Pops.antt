-- ===== src/RingQueue/Threads/Pops.antt =====
-- The steps of a pop of LockFreeQueue.h as steps of the ticket protocol.
use native.Mathlib.Nat.{mod-eq_of_lt, mod-lt}
use cpp_concurrency_data_str.Base.{
  ℕ, suc, ◌+◌, ◌-◌, ◌%◌, ◌≤◌, ◌<◌, ◌≡◌, refl, ◌∙◌, ap, ap₂, sym, subst, ◌⊎◌, inl, inr, Bool, true,
  false, not, ◌&&◌, Option, none, length, ◌==◌, ==_iff, arith, update, Bool-cases,
}
use cpp_concurrency_data_str.Base.Updates.{map-update, update_same}
use cpp_concurrency_data_str.RingQueue.{word, Node, index, node}
use cpp_concurrency_data_str.RingQueue.Threads.{
  Popping, loads, checks, exchanges, reads, destroys, releases, popped, popping, System, pop_step,
  pop_works,
}
use cpp_concurrency_data_str.RingQueue.Threads.Abstract.{
  decode, IsShaped, phase_of, abstract, loaded, IsCounted, IsShort,
}
use cpp_concurrency_data_str.RingQueue.Threads.Frame.{
  Simulated, index-mod, loaded-update, turn, rest, stay, change,
}
use cpp_concurrency_data_str.Protocol
use cpp_concurrency_data_str.Protocol.{
  Mark, free, full, Phase, sees_full, reading, got, Protocol, goes, IsFree, here, next, looks_full,
  claims_full,
}
use cpp_concurrency_data_str.Protocol.Inv.{Inv, Knows, read_ticket}
use cpp_concurrency_data_str.RingQueue.Threads.Pushes.{exchanged}

module _ {ℓ} {A : Type ℓ} where
  -- A published node, and what the others have in `head`.
  parts_of_full : (n : Node A) (k : ℕ) → decode n ≡ full k → (n.head ≡ k) × (n.tail ≡ k)
  parts_of_full n k h = ground arith

  marks_of_head :
      (cap : ℕ) (n : Node A) (k : ℕ)
      → IsShaped cap n
      → n.head ≡ k
      → k < word - 1
      → (decode n ≡ full k) ⊎ (decode n ≡ free (k + cap))
  marks_of_head cap n k (inl same) e lt = inl (ground arith)
  marks_of_head cap n k (inr (inl never)) e lt = absurd (omega arith)
  marks_of_head cap n k (inr (inr freed)) e lt = ground arith

  decode-freed :
      (n : Node A) (cap k : ℕ)
      → decode n ≡ full k
      → 0 < cap
      → k + cap < word
      → decode (record n { tail = (k + cap) % word }) ≡ free (k + cap)
  decode-freed n cap k h pos lt = ground (arith, parts_of_full n k h, mod-eq_of_lt lt)

  module _ {s : System A} (v : IsCounted s) (w : Inv (abstract s)) (short : IsShort s) (i : ℕ) where
    abbrev cap : ℕ
    cap = s.queue.capacity

    abbrev marks : ℕ → Mark
    marks j = decode (s.queue.nodes j)

    abbrev items : ℕ → Option A
    items j = (s.queue.nodes j).item

    -- A node whose `head` is the counter that a pop has loaded holds the value of its ticket.
    published :
        (k : ℕ)
        → (node s.queue k).head ≡ k
        → k ≤ length s.given
        → s.queue.head ≤ k
        → marks (k % cap) ≡ full k
    published k e l le =
        elim (marks_of_head cap (node s.queue k) k (v.shaped (index s.queue k)) e
          (omega (arith, w.cap_pos))) [
            | inl is_full ↦ ap marks (sym (index-mod v k)) ∙ is_full
            | inr is_free ↦ absurd (
                omega (
                  arith,
                  w.soon (k % cap) (k + cap) (mod-lt k w.cap_pos)
                      (ap marks (sym (index-mod v k)) ∙ is_free),
                ))
          ]

    -- What a pop that has read knows of its node.
    read_node :
        (k : ℕ) (o : Option A) → phase_of (s.calls i) ≡ got k o → decode (node s.queue k) ≡ full k
    read_node k o e =
        let u : Knows (abstract s) (got k o) = subst (Knows (abstract s)) e (w.knows i) in
        ap marks (index-mod v k) ∙ u.1

    pub pop_simulates :
        (fails : Bool) (pc : Popping A)
        → s.calls i ≡ popping pc
        → Simulated s (pop_works s i fails pc)
    unfolding pop_step
    pop_simulates fails loads e =
        rest v i (popping (checks s.queue.head)) (omega (arith, w.taken_le)) refl (rw e tt)
    pop_simulates fails (checks k) e =
        let l : k ≤ length s.given = subst (λ c. loaded c ≤ length s.given) e (v.loaded_le i) in
        elim (Bool-cases ((node s.queue k).head == k)) [
          | inl same ↦ rw same (
              turn v i (popping (exchanges k)) l
                (looks_full i k (rw e tt) (published k ((==_iff _ _).0 same) l)))
          | inr other ↦
              rw other (rest v i (popping (popped false none)) (omega arith) refl (rw e tt))
        ]
    pop_simulates fails (exchanges k) e = elim (Bool-cases ((s.queue.head == k) && not fails)) [
      | inl same ↦
          let at : k ≡ s.queue.head = sym (exchanged s.queue.head k fails same) in
          let more : (k + 1) % word ≡ suc s.queue.head =
            mod-eq_of_lt (omega (arith, w.cap_pos, w.taken_le)) ∙ omega arith in
          rw same (
            record {
              log = v.log;
              mask_eq = v.mask_eq;
              capacity_eq = v.capacity_eq;
              tail_eq = v.tail_eq;
              shaped = v.shaped;
              loaded_le = loaded-update v i (popping (reads k)) (omega arith);
            },
            subst (Protocol.Reach (abstract s))
                (ap₂ (λ t ps. record (abstract s) { taken = t; phases = ps }) (sym more)
                  (ap (λ t. update (λ j. phase_of (s.calls j)) i (reading t)) (sym at)
                    ∙ sym (map-update (λ j. phase_of) s.calls i (popping (reads k)))))
                (next here (claims_full i (ap phase_of e ∙ ap sees_full at))),
          )
      | inr other ↦
          rw other
            (rest v i (popping (checks s.queue.head)) (omega (arith, w.taken_le)) refl (rw e tt))
    ]
    pop_simulates fails (reads k) e =
        turn v i (popping (destroys k (node s.queue k).item)) (omega arith) (
          subst (λ j. Protocol.Step (abstract s) (goes (abstract s) i (got k (items j))))
            (sym (index-mod v k)) (Protocol.reads i k (ap phase_of e)))
    pop_simulates fails (destroys k o) e =
        change v i k (record (node s.queue k) { item = none }) (popping (releases k o)) marks
          (update items (k % cap) none) (v.shaped (index s.queue k)) (omega arith)
          (sym (update_same marks (k % cap))
            ∙ ap (λ j. update marks (k % cap) (marks j)) (sym (index-mod v k)))
          refl
          (subst
            (λ ps.
              Protocol.Step (abstract s)
                (record (abstract s) { values = update items (k % cap) none; phases = ps }))
            (sym (update_same (abstract s).phases i)
              ∙ ap (λ c. update (abstract s).phases i (phase_of c)) e)
            (Protocol.destroys i k o (ap phase_of e)))
    pop_simulates fails (releases k o) e =
        let is_full = read_node k o (ap phase_of e) in
        let lt : k < s.queue.head = w.read_of i k (ap (λ c. read_ticket (phase_of c)) e) in
        let near : k + cap < word = omega (arith, w.taken_le) in
        change v i k (record (node s.queue k) { tail = (k + cap) % word }) (popping (popped true o))
          (update marks (k % cap) (free (k + cap))) items
          (inr
            (inr (omega (arith, mod-eq_of_lt near, (parts_of_full (node s.queue k) k is_full).0))))
          (omega arith)
          (ap (update marks (k % cap))
            (sym (decode-freed (node s.queue k) cap k is_full w.cap_pos near)))
          (sym (update_same items (k % cap))
            ∙ ap (λ j. update items (k % cap) (items j)) (sym (index-mod v k)))
          (Protocol.releases i k o (ap phase_of e))
    pop_simulates fails (popped b o) e = stay v i (popping (popped b o)) e
