-- ===== src/Protocol/Steps.antt =====
-- The steps of the ticket protocol, and the invariant.
use native.Mathlib.Nat.{mod-lt}
use cpp_concurrency_data_str.Base.{
  ℕ, ◌%◌, ◌≡◌, ◌≢◌, refl, subst, ◌∙◌, ap, sym, Option, length, get_elem?-snoc, arith,
}
use cpp_concurrency_data_str.Protocol.{
  Reach, here, next, outside, saw_given, sees_room, sees_value, sees_free, sees_full, waits_free,
  writing, waits_full, reading, got, Protocol, Step, rests, looks_given, looks_room, looks_value,
  looks_free, looks_full, claims_write, claims_free, claims_read, claims_full, finds_free,
  finds_full, writes, publishes, reads, destroys, releases,
}
use cpp_concurrency_data_str.Protocol.Inv.{write_ticket, read_ticket, Knows, IsUnread, Inv}
use cpp_concurrency_data_str.Protocol.Moves.{got_of_IsFree, phase-Inv, claim-Inv, take-Inv}
use cpp_concurrency_data_str.Protocol.Slots.{publish-Inv, release-Inv, write-Inv, destroy-Inv}

module _ {ℓ} {A : Type ℓ} where
  -- Nobody but the holder of a ticket reads its value.
  reading-IsUnread : {p : Protocol A} → Inv p → {i k : ℕ} → p.phases i ≡ reading k → IsUnread p k
  reading-IsUnread {p} v {i} {k} e j o g =
      let same : i ≡ j = v.one_reader i j k (ap read_ticket e) (ap read_ticket g) in
      reading_got (sym e ∙ ap p.phases same ∙ g)
    where
      reading_got : {k n : ℕ} {o : Option A} → reading k ≢ got n o
      reading_got h = absurd (ground arith)

  -- Every step keeps the invariant.
  pub Step-Inv : {p q : Protocol A} → Step p q → Inv p → Inv q
  Step-Inv (rests i f) v =
      phase-Inv v i outside (λ k e. absurd (ground arith)) (λ k e. absurd (ground arith))
        (λ k o. got_of_IsFree _ k o f) tt
  Step-Inv (looks_given i f) v =
      phase-Inv v i (saw_given _) (λ k e. absurd (ground arith)) (λ k e. absurd (ground arith))
        (λ k o. got_of_IsFree _ k o f) (tt, omega arith)
  Step-Inv (looks_room i n f h) v =
      phase-Inv v i (sees_room n) (λ k e. absurd (ground arith)) (λ k e. absurd (ground arith))
        (λ k o. got_of_IsFree _ k o f) (tt, h)
  Step-Inv {p} (looks_value i n m e h) v =
      let u : Knows p (saw_given m) = subst (Knows p) e (v.knows i) in
      phase-Inv v i (sees_value n) (λ k e. absurd (ground arith)) (λ k e. absurd (ground arith))
        (λ k o g. ground (arith, e, g)) (tt, omega (arith, u.1))
  Step-Inv (looks_free i n f h) v =
      phase-Inv v i (sees_free n) (λ k e. absurd (ground arith)) (λ k e. absurd (ground arith))
        (λ k o. got_of_IsFree _ k o f) (tt, h)
  Step-Inv (looks_full i n f h) v =
      phase-Inv v i (sees_full n) (λ k e. absurd (ground arith)) (λ k e. absurd (ground arith))
        (λ k o. got_of_IsFree _ k o f) (tt, h)
  Step-Inv {p} (claims_write i x e) v =
      let u : Knows p (sees_room (length p.given)) = subst (Knows p) e (v.knows i) in
      claim-Inv v i x (waits_free (length p.given) x) u.1 refl refl (λ k o g. ground (arith, e, g))
        (get_elem?-snoc p.given x)
  Step-Inv {p} (claims_free i x e) v =
      let u : Knows p (sees_free (length p.given)) = subst (Knows p) e (v.knows i) in
      let marked = u.1 (omega arith) in
      claim-Inv v i x (writing (length p.given) x)
        (v.soon (length p.given % p.cap) (length p.given) (mod-lt _ v.cap_pos) marked) refl refl
        (λ k o g. ground (arith, e, g)) (get_elem?-snoc p.given x, marked)
  Step-Inv {p} (claims_read i e) v =
      let u : Knows p (sees_value p.taken) = subst (Knows p) e (v.knows i) in
      take-Inv v i (waits_full p.taken) u.1 refl refl (λ k o g. ground (arith, e, g)) tt
  Step-Inv {p} (claims_full i e) v =
      let u : Knows p (sees_full p.taken) = subst (Knows p) e (v.knows i) in
      let marked = u.1 (omega arith) in
      take-Inv v i (reading p.taken) (v.stored (p.taken % p.cap) p.taken marked) refl refl
        (λ k o g. ground (arith, e, g)) (tt, marked)
  Step-Inv {p} (finds_free i k x e m) v =
      let u : Knows p (waits_free k x) = subst (Knows p) e (v.knows i) in
      phase-Inv v i (writing k x) (λ n h. ap write_ticket e ∙ h) (λ n h. absurd (ground arith))
        (λ n o g. ground (arith, e, g)) (u, m)
  Step-Inv {p} (finds_full i k e m) v =
      phase-Inv v i (reading k) (λ n h. absurd (ground arith)) (λ n h. ap read_ticket e ∙ h)
        (λ n o g. ground (arith, e, g)) (tt, m)
  Step-Inv (writes i k x e) v = write-Inv v i k x e
  Step-Inv (publishes i k e) v = publish-Inv v i k e
  Step-Inv {p} (reads i k e) v =
      let u : Knows p (reading k) = subst (Knows p) e (v.knows i) in
      phase-Inv v i (got k _) (λ n h. absurd (ground arith)) (λ n h. ap read_ticket e ∙ h)
        (λ n o g. ground (arith, e, g))
        (v.kept (k % p.cap) k (mod-lt _ v.cap_pos) u.1 (reading-IsUnread v e), u.1)
  Step-Inv (destroys i k o e) v = destroy-Inv v i k o e
  Step-Inv (releases i k o e) v = release-Inv v i k o e

  pub Reach-Inv : {p q : Protocol A} → Reach p q → Inv p → Inv q
  Reach-Inv here v = v
  Reach-Inv (next r st) v = Step-Inv st (Reach-Inv r v)
