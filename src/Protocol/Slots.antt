-- ===== src/Protocol/Slots.antt =====
-- The steps of the ticket protocol that change a slot, and the invariant.
use native.Mathlib.Nat.{add-mod_right}
use cpp_concurrency_data_str.Base.{
  ℕ, ◌+◌, ◌%◌, ◌<◌, ◌≡◌, ◌≢◌, subst, ◌∙◌, ap, sym, Option, none, some, length, get_elem?, arith,
  update, update_self, update-ne, ℕ_discrete,
}
use cpp_concurrency_data_str.Protocol.{free, full, outside, writing, written, got, Protocol, goes}
use cpp_concurrency_data_str.Protocol.Inv.{
  ticket, write_ticket, read_ticket, uses, Knows, Inv, one_user,
}
use cpp_concurrency_data_str.Protocol.Knowledge.{each, Knows-marks, Knows-values}
use cpp_concurrency_data_str.Protocol.Moves.{IsUnread-goes}

module _ {ℓ} {A : Type ℓ} where
  module _ {p : Protocol A} (v : Inv p) (i k : ℕ) where
    abbrev at : ℕ
    at = k % p.cap

    unused : uses p.cap (p.phases i) ≡ some at → (j : ℕ) → j ≢ i → uses p.cap (p.phases j) ≢ some at
    unused e j ne f = ne (one_user v j i at f e)

    full_inj : {m n : ℕ} → full m ≡ full n → m ≡ n
    full_inj e = ap ticket e

    pub publish-Inv :
        p.phases i ≡ written k
        → Inv (goes (record p { marks = update p.marks at (full k) }) i outside)
    publish-Inv e =
        let u : Knows p (written k) = subst (Knows p) e (v.knows i) in
        let lt : k < length p.given = v.written_of i k (ap write_ticket e) in
        record {
          cap_pos = v.cap_pos;
          taken_le = v.taken_le;
          room = v.room;
          slot = λ j h. ground (arith, v.slot j h);
          soon = λ j n h f. ground (arith, v.soon j n h);
          stored = λ j n f. ground (arith, v.stored j n, lt);
          kept = λ j n h f un. elim (ℕ_discrete at j) [
            | yes same ↦
                ap p.values (sym same)
                ∙ u.0
                ∙ ap (get_elem? p.given) (
                    full_inj (
                      sym (
                        subst (λ l. update p.marks at (full k) l ≡ full k) same
                          (update_self p.marks at (full k)))
                      ∙ f))
            | no other ↦
                v.kept j n h (sym (update-ne p.marks at j (full k) other) ∙ f)
                  (IsUnread-goes p i outside n (λ o g. ground (arith, e, g)) un)
          ];
          written_of = λ j n f. ground (arith, v.written_of j n);
          read_of = λ j n f. ground (arith, v.read_of j n);
          one_writer = λ j l n f g. ground (arith, v.one_writer j l n);
          one_reader = λ j l n f g. ground (arith, v.one_reader j l n);
          knows =
              each (λ j. Knows (record p { marks = update p.marks at (full k) })) p.phases i outside
                tt
                (λ j ne.
                  Knows-marks p at (full k) (p.phases j) (unused (ap (uses p.cap) e) j ne)
                    (λ n f. ground (arith, u.1, lt)) (λ n f. ground (arith, u.1)) (v.knows j));
        }

    -- A slot marked with ticket `k` is slot `at`.
    elsewhere :
        (j n : ℕ) → j < p.cap → update p.marks at (free (k + p.cap)) j ≡ full n → some k ≢ some n
    elsewhere j n h f e = ground (arith, v.slot j h)

    pub release-Inv :
        (o : Option A)
        → p.phases i ≡ got k o
        → Inv (goes (record p { marks = update p.marks at (free (k + p.cap)) }) i outside)
    release-Inv o e =
        let u : Knows p (got k o) = subst (Knows p) e (v.knows i) in
        let lt : k < p.taken = v.read_of i k (ap read_ticket e) in
        record {
          cap_pos = v.cap_pos;
          taken_le = v.taken_le;
          room = v.room;
          slot = λ j h. ground (arith, v.slot j h, add-mod_right k p.cap);
          soon = λ j n h f. ground (arith, v.soon j n h, lt);
          stored = λ j n f. ground (arith, v.stored j n);
          kept = λ j n h f un.
              let old : p.marks j ≡ full n = ground (arith, f) in
              v.kept j n h old (
                IsUnread-goes p i outside n (λ x g. elsewhere j n h f (ap read_ticket (sym e ∙ g)))
                  un);
          written_of = λ j n f. ground (arith, v.written_of j n);
          read_of = λ j n f. ground (arith, v.read_of j n);
          one_writer = λ j l n f g. ground (arith, v.one_writer j l n);
          one_reader = λ j l n f g. ground (arith, v.one_reader j l n);
          knows =
              each (λ j. Knows (record p { marks = update p.marks at (free (k + p.cap)) })) p.phases
                i outside tt
                (λ j ne.
                  Knows-marks p at (free (k + p.cap)) (p.phases j) (unused (ap (uses p.cap) e) j ne)
                    (λ n f. ground (arith, u.1)) (λ n f. ground (arith, u.1, lt)) (v.knows j));
        }

    pub write-Inv :
        (x : A)
        → p.phases i ≡ writing k x
        → Inv (goes (record p { values = update p.values at (some x) }) i (written k))
    write-Inv x e =
        let u : Knows p (writing k x) = subst (Knows p) e (v.knows i) in
        record {
          cap_pos = v.cap_pos;
          taken_le = v.taken_le;
          room = v.room;
          slot = v.slot;
          soon = v.soon;
          stored = v.stored;
          kept = λ j n h f un.
              update-ne p.values at j (some x) (λ same. ground (arith, same, u.1, f))
              ∙ v.kept j n h f (IsUnread-goes p i (written k) n (λ o g. ground (arith, e, g)) un);
          written_of = λ j n f. ground (arith, v.written_of j n, v.written_of i n);
          read_of = λ j n f. ground (arith, v.read_of j n);
          one_writer = λ j l n f g.
              ground (arith, v.one_writer j l n, v.one_writer i l n, v.one_writer j i n);
          one_reader = λ j l n f g. ground (arith, v.one_reader j l n);
          knows =
              each (λ j. Knows (record p { values = update p.values at (some x) })) p.phases i
                (written k) (update_self p.values at (some x) ∙ sym u.0, u.1)
                (λ j ne.
                  Knows-values p at (some x) (p.phases j) (unused (ap (uses p.cap) e) j ne)
                    (v.knows j));
        }

    pub destroy-Inv :
        (o : Option A) → p.phases i ≡ got k o → Inv (record p { values = update p.values at none })
    destroy-Inv o e =
        let u : Knows p (got k o) = subst (Knows p) e (v.knows i) in
        record {
          cap_pos = v.cap_pos;
          taken_le = v.taken_le;
          room = v.room;
          slot = v.slot;
          soon = v.soon;
          stored = v.stored;
          kept = λ j n h f un.
              update-ne p.values at j none
                (λ same. un i o (e ∙ ap (λ l. got l o) (ground (arith, same, u.1, f))))
              ∙ v.kept j n h f un;
          written_of = v.written_of;
          read_of = v.read_of;
          one_writer = v.one_writer;
          one_reader = v.one_reader;
          knows = λ j. elim (ℕ_discrete i j) [
            | yes same ↦
                subst (λ l. Knows (record p { values = update p.values at none }) (p.phases l)) same
                  (subst (Knows (record p { values = update p.values at none })) (sym e) u)
            | no other ↦
                Knows-values p at none (p.phases j)
                  (unused (ap (uses p.cap) e) j (λ f. other (sym f))) (v.knows j)
          ];
        }
