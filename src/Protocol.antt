-- ===== src/Protocol.antt =====
-- The ticket protocol behind the two lock-free queues (LockFreeQueue.h, LockFreeArrayQueue.h), as any
-- number of threads follow it: what their interleavings promise, apart from how a queue counts its
-- tickets and marks its slots. Ticket `k` uses slot `k % cap`.
pub mod Inv
pub mod Knowledge
pub mod Moves
pub mod Slots
pub mod Steps
use cpp_concurrency_data_str.Base.{
  ℕ, suc, ◌+◌, ◌%◌, ◌≤◌, ◌<◌, ◌≡◌, Option, none, some, List, [], ◌∷◌, ◌++◌, length, update,
}

-- What a slot waits for: the value of ticket `k`, or the thread that takes the value of ticket `k`.
pub data Mark : Type 0 where
  free : ℕ → Mark
  full : ℕ → Mark

-- Where a thread stands. Before it has a ticket it knows what it has loaded: the number of tickets
-- given (`saw_given`), that a ticket has room or a value (`sees_room`, `sees_value`), or that a slot
-- is marked for it (`sees_free`, `sees_full`). Then it holds a ticket, to write or to read.
pub data Phase {ℓ} (A : Type ℓ) : Type ℓ where
  outside : Phase A
  saw_given : ℕ → Phase A
  sees_room : ℕ → Phase A
  sees_value : ℕ → Phase A
  sees_free : ℕ → Phase A
  sees_full : ℕ → Phase A
  waits_free : ℕ → A → Phase A
  writing : ℕ → A → Phase A
  written : ℕ → Phase A
  waits_full : ℕ → Phase A
  reading : ℕ → Phase A
  got : ℕ → Option A → Phase A

-- `given` has the values of the tickets to write, in order; `taken` counts the tickets to read.
pub record Protocol {ℓ} (A : Type ℓ) : Type ℓ where
  pub cap : ℕ
  pub given : List A
  pub taken : ℕ
  pub marks : ℕ → Mark
  pub values : ℕ → Option A
  pub phases : ℕ → Phase A

module _ {ℓ} {A : Type ℓ} where
  abbrev pub start : ℕ → Protocol A
  start cap = record {
    cap = cap;
    given = [];
    taken = 0;
    marks = free;
    values = λ _. none;
    phases = λ _. outside;
  }

  abbrev pub goes : Protocol A → ℕ → Phase A → Protocol A
  goes p i s = record p { phases = update p.phases i s }

  -- A thread that has no ticket may stop or begin anew at any time.
  abbrev pub IsFree : Phase A → Type 0
  IsFree (waits_free k x) = ⊥
  IsFree (writing k x) = ⊥
  IsFree (written k) = ⊥
  IsFree (waits_full k) = ⊥
  IsFree (reading k) = ⊥
  IsFree (got k o) = ⊥
  IsFree s = Unit {0}

  pub data Step (p : Protocol A) : Protocol A → Type ℓ where
    rests : (i : ℕ) → IsFree (p.phases i) → Step p (goes p i outside)
    looks_given : (i : ℕ) → IsFree (p.phases i) → Step p (goes p i (saw_given (length p.given)))
    looks_room :
        (i k : ℕ) → IsFree (p.phases i) → k < p.taken + p.cap → Step p (goes p i (sees_room k))
    looks_value : (i k n : ℕ) → p.phases i ≡ saw_given n → k < n → Step p (goes p i (sees_value k))
    looks_free :
        (i k : ℕ)
        → IsFree (p.phases i)
        → (length p.given ≤ k → p.marks (k % p.cap) ≡ free k)
        → Step p (goes p i (sees_free k))
    looks_full :
        (i k : ℕ)
        → IsFree (p.phases i)
        → (p.taken ≤ k → p.marks (k % p.cap) ≡ full k)
        → Step p (goes p i (sees_full k))
    claims_write :
        (i : ℕ) (x : A)
        → p.phases i ≡ sees_room (length p.given)
        → Step p (goes (record p { given = p.given ++ x ∷ [] }) i (waits_free (length p.given) x))
    claims_free :
        (i : ℕ) (x : A)
        → p.phases i ≡ sees_free (length p.given)
        → Step p (goes (record p { given = p.given ++ x ∷ [] }) i (writing (length p.given) x))
    claims_read :
        (i : ℕ)
        → p.phases i ≡ sees_value p.taken
        → Step p (goes (record p { taken = suc p.taken }) i (waits_full p.taken))
    claims_full :
        (i : ℕ)
        → p.phases i ≡ sees_full p.taken
        → Step p (goes (record p { taken = suc p.taken }) i (reading p.taken))
    finds_free :
        (i k : ℕ) (x : A)
        → p.phases i ≡ waits_free k x
        → p.marks (k % p.cap) ≡ free k
        → Step p (goes p i (writing k x))
    finds_full :
        (i k : ℕ)
        → p.phases i ≡ waits_full k
        → p.marks (k % p.cap) ≡ full k
        → Step p (goes p i (reading k))
    writes :
        (i k : ℕ) (x : A)
        → p.phases i ≡ writing k x
        → Step p (goes (record p { values = update p.values (k % p.cap) (some x) }) i (written k))
    publishes :
        (i k : ℕ)
        → p.phases i ≡ written k
        → Step p (goes (record p { marks = update p.marks (k % p.cap) (full k) }) i outside)
    reads : (i k : ℕ) → p.phases i ≡ reading k → Step p (goes p i (got k (p.values (k % p.cap))))
    -- The slot is emptied by the thread that has read it, before it is marked as free.
    destroys :
        (i k : ℕ) (o : Option A)
        → p.phases i ≡ got k o
        → Step p (record p { values = update p.values (k % p.cap) none })
    releases :
        (i k : ℕ) (o : Option A)
        → p.phases i ≡ got k o
        → Step p
            (goes (record p { marks = update p.marks (k % p.cap) (free (k + p.cap)) }) i outside)

  pub data Reach (p : Protocol A) : Protocol A → Type ℓ where
    here : Reach p p
    next : {q r : Protocol A} → Reach p q → Step q r → Reach p r
