-- ===== src/RingQueue/Threads/Frame.antt =====
-- What one step of a call of LockFreeQueue.h changes, and how that shows in the ticket protocol.
use cpp_concurrency_data_str.Base.{
  ℕ, ◌%◌, ◌≤◌, ◌≡◌, ◌∙◌, ap, ap₂, sym, subst, Option, length, ◌==◌, update, Bool-cases, inl, inr,
  bit_and,
}
use cpp_concurrency_data_str.Base.Bits.{bit_and_mask}
use cpp_concurrency_data_str.Base.Updates.{map-update, update_same}
use cpp_concurrency_data_str.RingQueue.{Node, index, set_node}
use cpp_concurrency_data_str.RingQueue.Threads.{Call, System}
use cpp_concurrency_data_str.RingQueue.Threads.Abstract.{
  decode, IsShaped, phase_of, abstract, loaded, IsCounted,
}
use cpp_concurrency_data_str.Protocol
use cpp_concurrency_data_str.Protocol.{
  Mark, Phase, outside, Protocol, goes, IsFree, here, next, rests,
}

module _ {ℓ} {A : Type ℓ} where
  -- What a step of the system has to give.
  abbrev pub Simulated : System A → System A → Type ℓ
  Simulated s t = IsCounted t × Protocol.Reach (abstract s) (abstract t)

  module _ {s : System A} (v : IsCounted s) where
    -- The masked index of a counter is its remainder by the capacity.
    pub index-mod : (k : ℕ) → index s.queue k ≡ k % s.queue.capacity
    index-mod k =
        ap (bit_and k) v.mask_eq ∙ bit_and_mask v.log k ∙ ap (λ c. k % c) (sym v.capacity_eq)

    nodes-changed {κ} :
        (k : ℕ) (w : Node A) {B : Type κ} (g : ℕ → Node A → B)
        → update (λ j. g j (s.queue.nodes j)) (k % s.queue.capacity) (g (k % s.queue.capacity) w)
          ≡ (λ j. g j (update s.queue.nodes (index s.queue k) w j))
    nodes-changed k w g =
        ap (λ l. update (λ j. g j (s.queue.nodes j)) l (g l w)) (sym (index-mod k))
        ∙ sym (map-update g s.queue.nodes (index s.queue k) w)

    module _ (i : ℕ) where
      pub loaded-update :
          (c : Call A)
          → loaded c ≤ length s.given
          → (j : ℕ) → loaded (update s.calls i c j) ≤ length s.given
      loaded-update c l j = elim (Bool-cases (i == j)) [
        | inl e ↦ rw e l
        | inr e ↦ rw e (v.loaded_le j)
      ]

      -- One protocol step that changes only the phase of thread `i`.
      pub turn :
          (c : Call A)
          → loaded c ≤ length s.given
          → Protocol.Step (abstract s) (goes (abstract s) i (phase_of c))
          → Simulated s (record s { calls = update s.calls i c })
      turn c l st = (
        record {
          log = v.log;
          mask_eq = v.mask_eq;
          capacity_eq = v.capacity_eq;
          tail_eq = v.tail_eq;
          shaped = v.shaped;
          loaded_le = loaded-update c l;
        },
        subst (Protocol.Reach (abstract s))
            (ap (λ ps. record (abstract s) { phases = ps })
              (sym (map-update (λ j. phase_of) s.calls i c)))
            (next here st),
      )

      -- Outside of any ticket a call may come to rest.
      pub rest :
          (c : Call A)
          → loaded c ≤ length s.given
          → phase_of c ≡ outside
          → IsFree (phase_of (s.calls i))
          → Simulated s (record s { calls = update s.calls i c })
      rest c l e f =
          turn c l
            (subst (λ x. Protocol.Step (abstract s) (goes (abstract s) i x)) (sym e) (rests i f))

      -- The call has returned before.
      pub stay :
          (c : Call A) → s.calls i ≡ c → Simulated s (record s { calls = update s.calls i c })
      stay c e =
          subst (λ cs. Simulated s (record s { calls = cs }))
            (sym (update_same s.calls i) ∙ ap (update s.calls i) e) (v, here)

      -- One protocol step that also changes a node.
      pub change :
          (k : ℕ) (w : Node A) (c : Call A) (marks : ℕ → Mark) (values : ℕ → Option A)
          → IsShaped s.queue.capacity w
          → loaded c ≤ length s.given
          → marks ≡ update (λ j. decode (s.queue.nodes j)) (k % s.queue.capacity) (decode w)
          → values ≡ update (λ j. (s.queue.nodes j).item) (k % s.queue.capacity) w.item
          → Protocol.Step
              (abstract s)
              (goes (record (abstract s) { marks = marks; values = values }) i (phase_of c))
          → Simulated s (record s { queue = set_node s.queue k w; calls = update s.calls i c })
      change k w c marks values shape l em ev st = (
        record {
          log = v.log;
          mask_eq = v.mask_eq;
          capacity_eq = v.capacity_eq;
          tail_eq = v.tail_eq;
          shaped = λ j. elim (Bool-cases (index s.queue k == j)) [
            | inl e ↦ rw e shape
            | inr e ↦ rw e (v.shaped j)
          ];
          loaded_le = loaded-update c l;
        },
        subst (Protocol.Reach (abstract s))
            (ap₂
              (λ (mv : (ℕ → Mark) × (ℕ → Option A)) ps. record (abstract s) {
                marks = mv.0;
                values = mv.1;
                phases = ps;
              })
              (ap₂ (λ m x. (m, x)) (em ∙ nodes-changed k w (λ j. decode))
                (ev ∙ nodes-changed k w (λ j u. u.item)))
              (sym (map-update (λ j. phase_of) s.calls i c)))
            (next here st),
      )
