-- ===== src/Protocol/Inv.antt =====
-- What the threads of the ticket protocol may rely on.
use native.Mathlib.Nat.{mod-eq_of_lt}
use cpp_concurrency_data_str.Base.{
  ℕ, ◌+◌, ◌%◌, ◌≤◌, ◌<◌, ◌≡◌, ◌≢◌, Option, none, some, length, get_elem?, arith, ◌⊎◌, inl, inr,
  refl,
}
use cpp_concurrency_data_str.Protocol.{
  Mark, free, full, Phase, outside, saw_given, sees_room, sees_value, sees_free, sees_full,
  waits_free, writing, written, waits_full, reading, got, Protocol, start,
}

abbrev pub ticket : Mark → ℕ
ticket (free k) = k
ticket (full k) = k

module _ {ℓ} {A : Type ℓ} where
  -- The ticket to write, or to read, that a thread holds.
  abbrev pub write_ticket : Phase A → Option ℕ
  write_ticket (waits_free k x) = some k
  write_ticket (writing k x) = some k
  write_ticket (written k) = some k
  write_ticket s = none

  abbrev pub read_ticket : Phase A → Option ℕ
  read_ticket (waits_full k) = some k
  read_ticket (reading k) = some k
  read_ticket (got k o) = some k
  read_ticket s = none

  -- The slot that a thread reads or writes.
  abbrev pub uses : ℕ → Phase A → Option ℕ
  uses cap (writing k x) = some (k % cap)
  uses cap (written k) = some (k % cap)
  uses cap (reading k) = some (k % cap)
  uses cap (got k o) = some (k % cap)
  uses cap s = none

  -- What a thread knows of the queue.
  abbrev pub Knows : Protocol A → Phase A → Type ℓ
  Knows p outside = Unit
  Knows p (saw_given n) = Unit {ℓ} × (n ≤ length p.given)
  Knows p (sees_room k) = Unit {ℓ} × (k < p.taken + p.cap)
  Knows p (sees_value k) = Unit {ℓ} × (k < length p.given)
  Knows p (sees_free k) = Unit {ℓ} × (length p.given ≤ k → p.marks (k % p.cap) ≡ free k)
  Knows p (sees_full k) = Unit {ℓ} × (p.taken ≤ k → p.marks (k % p.cap) ≡ full k)
  Knows p (waits_free k x) = get_elem? p.given k ≡ some x
  Knows p (writing k x) = (get_elem? p.given k ≡ some x) × (p.marks (k % p.cap) ≡ free k)
  Knows p (written k) =
      (p.values (k % p.cap) ≡ get_elem? p.given k) × (p.marks (k % p.cap) ≡ free k)
  Knows p (waits_full k) = Unit {ℓ}
  Knows p (reading k) = Unit {ℓ} × (p.marks (k % p.cap) ≡ full k)
  Knows p (got k o) = (o ≡ get_elem? p.given k) × (p.marks (k % p.cap) ≡ full k)

  -- No thread has read the value of ticket `k` and not yet freed its slot.
  abbrev pub IsUnread : Protocol A → ℕ → Type ℓ
  IsUnread p k = (i : ℕ) (o : Option A) → p.phases i ≢ got k o

  pub record Inv (p : Protocol A) : Type ℓ where
    pub cap_pos : 0 < p.cap
    pub taken_le : p.taken ≤ length p.given
    pub room : length p.given ≤ p.taken + p.cap
    pub slot : (j : ℕ) → j < p.cap → ticket (p.marks j) % p.cap ≡ j
    pub soon : (j k : ℕ) → j < p.cap → p.marks j ≡ free k → k < p.taken + p.cap
    pub stored : (j k : ℕ) → p.marks j ≡ full k → k < length p.given
    pub kept :
        (j k : ℕ) → j < p.cap → p.marks j ≡ full k → IsUnread p k → p.values j ≡ get_elem? p.given k
    pub written_of : (i k : ℕ) → write_ticket (p.phases i) ≡ some k → k < length p.given
    pub read_of : (i k : ℕ) → read_ticket (p.phases i) ≡ some k → k < p.taken
    pub one_writer :
        (i j k : ℕ)
        → write_ticket (p.phases i) ≡ some k
        → write_ticket (p.phases j) ≡ some k
        → i ≡ j
    pub one_reader :
        (i j k : ℕ) → read_ticket (p.phases i) ≡ some k → read_ticket (p.phases j) ≡ some k → i ≡ j
    pub knows : (i : ℕ) → Knows p (p.phases i)

  -- A slot in use is marked with the ticket of its user.
  used_mark :
      (p : Protocol A) (s : ℕ) (x : Phase A)
      → Knows p x
      → uses p.cap x ≡ some s
      → (k : ℕ) × (((p.marks s ≡ free k) × (write_ticket x ≡ some k))
          ⊎ ((p.marks s ≡ full k) × (read_ticket x ≡ some k)))
  used_mark p s (writing k x) v e = (k, inl (ground (arith, v.1), refl))
  used_mark p s (written k) v e = (k, inl (ground (arith, v.1), refl))
  used_mark p s (reading k) v e = (k, inr (ground (arith, v.1), refl))
  used_mark p s (got k o) v e = (k, inr (ground (arith, v.1), refl))
  used_mark p s outside v e = absurd (ground arith)
  used_mark p s (saw_given n) v e = absurd (ground arith)
  used_mark p s (sees_room k) v e = absurd (ground arith)
  used_mark p s (sees_value k) v e = absurd (ground arith)
  used_mark p s (sees_free k) v e = absurd (ground arith)
  used_mark p s (sees_full k) v e = absurd (ground arith)
  used_mark p s (waits_free k x) v e = absurd (ground arith)
  used_mark p s (waits_full k) v e = absurd (ground arith)

  -- No two threads use one slot.
  pub one_user :
      {p : Protocol A}
      → Inv p
      → (i j s : ℕ) → uses p.cap (p.phases i) ≡ some s
      → uses p.cap (p.phases j) ≡ some s
      → i ≡ j
  one_user {p} v i j s e f =
      let (k, a) = used_mark p s (p.phases i) (v.knows i) e in
      let (l, b) = used_mark p s (p.phases j) (v.knows j) f in
      elim a [
        | inl (m, t) ↦ elim b [
          | inl (n, u) ↦ v.one_writer i j k t (ground arith)
          | inr (n, u) ↦ absurd (ground arith)
        ]
        | inr (m, t) ↦ elim b [
          | inl (n, u) ↦ absurd (ground arith)
          | inr (n, u) ↦ v.one_reader i j k t (ground arith)
        ]
      ]

  pub start-Inv : (cap : ℕ) → 0 < cap → Inv (start {A = A} cap)
  start-Inv cap h = record {
    cap_pos = h;
    taken_le = omega arith;
    room = omega arith;
    slot = λ j lt. mod-eq_of_lt lt;
    soon = λ j k lt e. ground arith;
    stored = λ j k e. absurd (ground arith);
    kept = λ j k lt e un. absurd (ground arith);
    written_of = λ i k e. absurd (ground arith);
    read_of = λ i k e. absurd (ground arith);
    one_writer = λ i j k e f. absurd (ground arith);
    one_reader = λ i j k e f. absurd (ground arith);
    knows = λ i. tt;
  }
