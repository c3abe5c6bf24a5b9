-- ===== src/Protocol/Moves.antt =====
-- The steps of the ticket protocol that only move a thread on or give it a ticket, and the invariant.
use cpp_concurrency_data_str.Base.{
  ℕ, suc, ◌+◌, ◌<◌, ◌≡◌, ◌≢◌, subst, ◌∙◌, ap, sym, Option, none, some, [], ◌∷◌, ◌++◌, length,
  length-snoc, arith, update-ne, ℕ_discrete,
}
use cpp_concurrency_data_str.Protocol.{Phase, got, Protocol, goes, IsFree}
use cpp_concurrency_data_str.Protocol.Inv.{write_ticket, read_ticket, Knows, IsUnread, Inv}
use cpp_concurrency_data_str.Protocol.Knowledge.{each, get_elem?-given, Knows-given, Knows-taken}

module _ {ℓ} {A : Type ℓ} where
  -- When a thread that is not `got` goes on, a value that is unread afterwards was unread before.
  pub IsUnread-goes :
      (p : Protocol A) (i : ℕ) (s : Phase A) (k : ℕ)
      → ((o : Option A) → p.phases i ≢ got k o)
      → IsUnread (goes p i s) k
      → IsUnread p k
  IsUnread-goes p i s k ne un j o e = elim (ℕ_discrete i j) [
    | yes same ↦ ne o (ap p.phases same ∙ e)
    | no other ↦ un j o (update-ne p.phases i j s other ∙ e)
  ]

  pub got_of_IsFree : (s : Phase A) (k : ℕ) (o : Option A) → IsFree s → s ≢ got k o
  got_of_IsFree s k o f e = subst IsFree e f

  module _ {p : Protocol A} (v : Inv p) (i : ℕ) where
    -- A thread changes its phase, and keeps or gives up its ticket.
    pub phase-Inv :
        (s : Phase A)
        → ((k : ℕ) → write_ticket s ≡ some k → write_ticket (p.phases i) ≡ some k)
        → ((k : ℕ) → read_ticket s ≡ some k → read_ticket (p.phases i) ≡ some k)
        → ((k : ℕ) (o : Option A) → p.phases i ≢ got k o)
        → Knows p s
        → Inv (goes p i s)
    phase-Inv s w r ne own = record {
      cap_pos = v.cap_pos;
      taken_le = v.taken_le;
      room = v.room;
      slot = v.slot;
      soon = v.soon;
      stored = v.stored;
      kept = λ j k lt e un. v.kept j k lt e (IsUnread-goes p i s k (ne k) un);
      written_of = λ j k e. ground (arith, v.written_of j k, v.written_of i k, w k);
      read_of = λ j k e. ground (arith, v.read_of j k, v.read_of i k, r k);
      one_writer = λ j l k e f.
          ground (arith, v.one_writer j l k, v.one_writer i l k, v.one_writer j i k, w k);
      one_reader = λ j l k e f.
          ground (arith, v.one_reader j l k, v.one_reader i l k, v.one_reader j i k, r k);
      knows = each (λ j x. Knows p x) p.phases i s own (λ j ne. v.knows j);
    }

  module _ {p : Protocol A} (v : Inv p) (i : ℕ) where
    -- A thread takes the next ticket to write.
    pub claim-Inv :
        (x : A) (s : Phase A)
        → length p.given < p.taken + p.cap
        → write_ticket s ≡ some (length p.given)
        → read_ticket s ≡ none
        → ((k : ℕ) (o : Option A) → p.phases i ≢ got k o)
        → Knows (record p { given = p.given ++ x ∷ [] }) s
        → Inv (goes (record p { given = p.given ++ x ∷ [] }) i s)
    claim-Inv x s fits w r ne own =
        let more = length-snoc p.given x in
        record {
          cap_pos = v.cap_pos;
          taken_le = omega (arith, more, v.taken_le);
          room = omega (arith, more);
          slot = v.slot;
          soon = v.soon;
          stored = λ j k e. omega (arith, more, v.stored j k e);
          kept = λ j k lt e un.
              v.kept j k lt e (IsUnread-goes p i s k (ne k) un)
              ∙ sym (get_elem?-given p.given x k (v.stored j k e));
          written_of = λ j k e. ground (arith, more, v.written_of j k, w);
          read_of = λ j k e. ground (arith, v.read_of j k, r);
          one_writer = λ j l k e f.
              ground (arith, v.one_writer j l k, v.written_of j k, v.written_of l k, w);
          one_reader = λ j l k e f. ground (arith, v.one_reader j l k, r);
          knows =
              each (λ j. Knows (record p { given = p.given ++ x ∷ [] })) p.phases i s own
                (λ j ne.
                  Knows-given p x (p.phases j) (v.written_of j)
                    (λ k e. omega (arith, v.read_of j k e, v.taken_le)) (v.knows j));
        }

    -- A thread takes the next ticket to read.
    pub take-Inv :
        (s : Phase A)
        → p.taken < length p.given
        → write_ticket s ≡ none
        → read_ticket s ≡ some p.taken
        → ((k : ℕ) (o : Option A) → p.phases i ≢ got k o)
        → Knows (record p { taken = suc p.taken }) s
        → Inv (goes (record p { taken = suc p.taken }) i s)
    take-Inv s lt w r ne own = record {
      cap_pos = v.cap_pos;
      taken_le = omega arith;
      room = omega (arith, v.room);
      slot = v.slot;
      soon = λ j k lt e. omega (arith, v.soon j k lt e);
      stored = v.stored;
      kept = λ j k lt e un. v.kept j k lt e (IsUnread-goes p i s k (ne k) un);
      written_of = λ j k e. ground (arith, v.written_of j k, w);
      read_of = λ j k e. ground (arith, v.read_of j k, r);
      one_writer = λ j l k e f. ground (arith, v.one_writer j l k, w);
      one_reader = λ j l k e f. ground (arith, v.one_reader j l k, v.read_of j k, v.read_of l k, r);
      knows =
          each (λ j. Knows (record p { taken = suc p.taken })) p.phases i s own
            (λ j ne. Knows-taken p (p.phases j) (v.knows j));
    }
