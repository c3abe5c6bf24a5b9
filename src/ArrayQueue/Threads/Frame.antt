-- ===== src/ArrayQueue/Threads/Frame.antt =====
-- What one step of a call of other/LockFreeArrayQueue.h changes, and how that shows in the ticket
-- protocol: the parts that the steps of a push and of a pop share.
use cpp_concurrency_data_str.Base.{
  ℕ, ◌%◌, ◌≡◌, ◌∙◌, ap, ap₂, sym, subst, true, Option, update, ◌==◌, ==_iff, Bool-cases, inl, inr,
}
use cpp_concurrency_data_str.Base.Updates.{map-update, update_same}
use cpp_concurrency_data_str.Base.Int.{ℤ, pos_part, eq_ℤ, eq_of_parts}
use cpp_concurrency_data_str.ArrayQueue.{trans_index}
use cpp_concurrency_data_str.ArrayQueue.Holds.{trans_index-mod}
use cpp_concurrency_data_str.ArrayQueue.Threads.{Call, System}
use cpp_concurrency_data_str.ArrayQueue.Threads.Abstract.{
  decode, phase_of, abstract, IsNatural, Local, IsCounted,
}
use cpp_concurrency_data_str.Protocol
use cpp_concurrency_data_str.Protocol.{
  Mark, free, full, Phase, outside, saw_given, sees_room, sees_value, waits_free, writing, written,
  waits_full, reading, got, Protocol, goes, IsFree, here, next, rests, looks_given, looks_room,
  looks_value, claims_write, claims_read, finds_free, finds_full,
}

pub eq_of_eq_ℤ : (a b : ℤ) → eq_ℤ a b ≡ true → a ≡ b
eq_of_eq_ℤ a b h = eq_of_parts a b ((==_iff _ _).0 h)

module _ {ℓ} {A : Type ℓ} where
  -- What a step of the system has to give.
  abbrev pub Simulated : System A → System A → Type ℓ
  Simulated s t = IsCounted t × Protocol.Reach (abstract s) (abstract t)

  -- Call `i` goes on, and the queue stays.
  abbrev pub turned : System A → ℕ → Call A → System A
  turned s i c = record s { calls = update s.calls i c }

  module _ {s : System A} (v : IsCounted s) (i : ℕ) where
    pub Local-turned : (c : Call A) → Local c → (j : ℕ) → Local (update s.calls i c j)
    Local-turned c l j = elim (Bool-cases (i == j)) [ inl e ↦ rw e l | inr e ↦ rw e (v.locals j) ]

    turned-IsCounted : (c : Call A) → Local c → IsCounted (turned s i c)
    turned-IsCounted c l = record {
      log = v.log;
      size_eq = v.size_eq;
      write_eq = v.write_eq;
      read_eq = v.read_eq;
      locals = Local-turned c l;
    }

    -- One protocol step that changes only the phase of thread `i`.
    pub turn :
        (c : Call A)
        → Local c
        → Protocol.Step (abstract s) (goes (abstract s) i (phase_of c))
        → Simulated s (turned s i c)
    turn c l st = (
      turned-IsCounted c l,
      subst (Protocol.Reach (abstract s))
          (ap (λ ps. record (abstract s) { phases = ps })
            (sym (map-update (λ j. phase_of) s.calls i c)))
          (next here st),
    )

    -- Outside of any ticket a call may come to rest.
    pub rest :
        (c : Call A)
        → Local c
        → phase_of c ≡ outside
        → IsFree (phase_of (s.calls i))
        → Simulated s (turned s i c)
    rest c l e f =
        turn c l
          (subst (λ x. Protocol.Step (abstract s) (goes (abstract s) i x)) (sym e) (rests i f))

    -- The call makes no progress.
    pub stay : (c : Call A) → s.calls i ≡ c → Simulated s (turned s i c)
    stay c e =
        subst (λ cs. Simulated s (record s { calls = cs }))
          (sym (update_same s.calls i) ∙ ap (update s.calls i) e) (v, here)

    -- One protocol step that also changes values or marks.
    pub change :
        (c : Call A) (elements : ℕ → Option A) (active : ℕ → ℤ) (marks : ℕ → Mark)
        → Local c
        → marks ≡ (λ j. decode s.queue.max_size j (active j))
        → Protocol.Step
            (abstract s)
            (goes (record (abstract s) { values = elements; marks = marks }) i (phase_of c))
        → Simulated s (record s {
          queue = record s.queue { elements = elements; active = active };
          calls = update s.calls i c;
        })
    change c elements active marks l e st = (
      record {
        log = v.log;
        size_eq = v.size_eq;
        write_eq = v.write_eq;
        read_eq = v.read_eq;
        locals = Local-turned c l;
      },
      subst (Protocol.Reach (abstract s))
          (ap₂ (λ ms ps. record (abstract s) { values = elements; marks = ms; phases = ps }) e
            (sym (map-update (λ j. phase_of) s.calls i c)))
          (next here st),
    )

    -- The slot of a natural index.
    pub slot :
        (w : ℤ) → IsNatural w → trans_index s.queue.max_size w ≡ pos_part w % s.queue.max_size
    slot w n =
        ap (trans_index s.queue.max_size) n
        ∙ trans_index-mod s.queue.max_size v.log v.size_eq (pos_part w)
