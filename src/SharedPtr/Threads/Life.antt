-- ===== src/SharedPtr/Threads/Life.antt =====
-- The life of an object that threads share by pointers of ThreadSafeShared_ptr.h.
use cpp_concurrency_data_str.Base.{
  ℕ, zero, suc, ◌≡◌, ◌≢◌, refl, ◌∙◌, ap, sym, subst, true, false, Option, none, some, List, ◌∷◌,
  ◌++◌, length, length-append, arith, ==_of_ne, if◌then◌else◌, update, update_self, update-ne,
  ℕ_discrete,
}
use cpp_concurrency_data_str.Base.Int.{ℤ, pos, pos-add_one, pos_suc-sub_one}
use cpp_concurrency_data_str.SharedPtr.{World, SharedPtr, fetch_add, fetch_sub}
use cpp_concurrency_data_str.SharedPtr.Threads.{
  Call, idle, deletes_count, deletes_object, System, after_sub, Step, copies, hands, subtracts,
  frees_count, frees_object,
}

length-at : (xs : List ℕ) (i : ℕ) (ys : List ℕ) → length (xs ++ i ∷ ys) ≡ suc (length (xs ++ ys))
length-at xs i ys = omega (arith, length-append xs (i ∷ ys), length-append xs ys)

-- All other threads are in no destructor that has to delete.
abbrev pub AloneBusy : (ℕ → Call) → ℕ → Type 0
AloneBusy calls i = (j : ℕ) → j ≢ i → calls j ≡ idle

-- The life of the object: shared by its owners, then deleted by the thread whose pointer was the last.
pub data Life (s : SharedPtr) (t : System) : Type 0 where
  shared :
      (n : ℕ)
      → length t.owners ≡ suc n
      → t.world.counts s.count ≡ some (pos (suc n))
      → t.world.objects s.ptr ≡ true
      → ((j : ℕ) → t.calls j ≡ idle)
      → Life s t
  unowned :
      (i : ℕ)
      → length t.owners ≡ 0
      → t.world.counts s.count ≡ some (pos 0)
      → t.world.objects s.ptr ≡ true
      → t.calls i ≡ deletes_count
      → AloneBusy t.calls i
      → Life s t
  uncounted :
      (i : ℕ)
      → length t.owners ≡ 0
      → t.world.counts s.count ≡ none
      → t.world.objects s.ptr ≡ true
      → t.calls i ≡ deletes_object
      → AloneBusy t.calls i
      → Life s t
  gone :
      length t.owners ≡ 0
      → t.world.counts s.count ≡ none
      → t.world.objects s.ptr ≡ false
      → ((j : ℕ) → t.calls j ≡ idle)
      → Life s t

counts_ne_idle : deletes_count ≢ idle
counts_ne_idle e = absurd (ground arith)

objects_ne_idle : deletes_object ≢ idle
objects_ne_idle e = absurd (ground arith)

counts_ne_objects : deletes_count ≢ deletes_object
counts_ne_objects e = absurd (ground arith)

module _ (s : SharedPtr) where
  -- A thread that deletes is the one that the life of the object names.
  pub same_thread : (t : System) (i j : ℕ) → AloneBusy t.calls j → t.calls i ≢ idle → i ≡ j
  same_thread t i j alone busy = elim (ℕ_discrete i j) [
    | yes e ↦ e
    | no ne ↦ absurd (busy (alone i ne))
  ]

  moves_on :
      (calls : ℕ → Call) (i : ℕ) (c : Call) → AloneBusy calls i → AloneBusy (update calls i c) i
  moves_on calls i c alone j ne = update-ne calls i j c (λ e. ne (sym e)) ∙ alone j ne

  all_idle : (calls : ℕ → Call) (i : ℕ) → AloneBusy calls i → (j : ℕ) → update calls i idle j ≡ idle
  all_idle calls i alone j = elim (ℕ_discrete i j) [
    | yes e ↦ ap (update calls i idle) (sym e) ∙ update_self calls i idle
    | no ne ↦ update-ne calls i j idle ne ∙ alone j (λ e. ne (sym e))
  ]

  abbrev value_of : Option (ℤ × World) → ℤ
  value_of none = pos 0
  value_of (some (k, w)) = k

  abbrev world_of : World → Option (ℤ × World) → World
  world_of v none = v
  world_of v (some (k, w)) = w

  -- The world with the counter changed to `m`.
  abbrev counted : World → ℕ → World
  counted w m = record w { counts = update w.counts s.count (some (pos m)) }

  fetch_add_lem :
      (w : World) (n : ℕ)
      → w.counts s.count ≡ some (pos n)
      → fetch_add s.count w ≡ some (pos n, counted w (suc n))
  unfolding fetch_add
  fetch_add_lem w n e = rw (e, pos-add_one n) refl

  fetch_sub_lem :
      (w : World) (n : ℕ)
      → w.counts s.count ≡ some (pos (suc n))
      → fetch_sub s.count w ≡ some (pos (suc n), counted w n)
  unfolding fetch_sub
  fetch_sub_lem w n e = rw (e, pos_suc-sub_one n) refl

  copy-Life :
      (t : System) (i n : ℕ) (k : ℤ) (w : World)
      → fetch_add s.count t.world ≡ some (k, w)
      → length t.owners ≡ suc n
      → t.world.counts s.count ≡ some (pos (suc n))
      → t.world.objects s.ptr ≡ true
      → ((j : ℕ) → t.calls j ≡ idle)
      → Life s (record t { world = w; owners = i ∷ t.owners })
  copy-Life t i n k w f len count live rest =
      let e = sym (fetch_add_lem t.world (suc n) count) ∙ f in
      subst (λ v. Life s (record t { world = v; owners = i ∷ t.owners })) (ap (world_of t.world) e)
        (shared (suc n) (omega arith)
          (update_self t.world.counts s.count (some (pos (suc (suc n))))) live rest)

  -- The destructor of one of more owners, and of the last.
  sub-Life :
      (t : System) (i : ℕ) (owners : List ℕ) (n : ℕ)
      → length owners ≡ n
      → t.world.objects s.ptr ≡ true
      → ((j : ℕ) → t.calls j ≡ idle)
      → Life s (record {
        world = counted t.world n;
        owners = owners;
        calls = update t.calls i (after_sub (pos (suc n)));
      })
  sub-Life t i owners zero len live rest =
      unowned i len (update_self t.world.counts s.count (some (pos 0))) live
        (update_self t.calls i deletes_count) (moves_on t.calls i deletes_count (λ j ne. rest j))
  sub-Life t i owners (suc n) len live rest =
      shared n len (update_self t.world.counts s.count (some (pos (suc n)))) live (
        subst (λ b. (j : ℕ) → update t.calls i (if b then deletes_count else idle) j ≡ idle)
          (sym (==_of_ne (suc (suc n)) 1 (λ e. omega arith))) (all_idle t.calls i (λ j ne. rest j)))

  subtract-Life :
      (t : System) (i n : ℕ) (xs ys : List ℕ) (k : ℤ) (w : World)
      → fetch_sub s.count t.world ≡ some (k, w)
      → t.owners ≡ xs ++ i ∷ ys
      → length t.owners ≡ suc n
      → t.world.counts s.count ≡ some (pos (suc n))
      → t.world.objects s.ptr ≡ true
      → ((j : ℕ) → t.calls j ≡ idle)
      → Life s (record { world = w; owners = xs ++ ys; calls = update t.calls i (after_sub k) })
  subtract-Life t i n xs ys k w f at len count live rest =
      let e = sym (fetch_sub_lem t.world n count) ∙ f in
      subst
        (λ o. Life s (record {
          world = world_of t.world o;
          owners = xs ++ ys;
          calls = update t.calls i (after_sub (value_of o));
        }))
        e (sub-Life t i (xs ++ ys) n (omega (arith, length-at xs i ys, ap length at)) live rest)

  -- A thread that holds a pointer finds an owner among them.
  pub no_owners :
      (t : System) (i : ℕ) (xs ys : List ℕ) → t.owners ≡ xs ++ i ∷ ys → length t.owners ≢ 0
  no_owners t i xs ys at e = omega (arith, length-at xs i ys, ap length at)

  pub Step-Life : {t u : System} → Step s t u → Life s t → Life s u
  Step-Life {t} (copies i xs ys k w c at f) (shared n len count live rest) =
      copy-Life t i n k w f len count live rest
  Step-Life {t} (copies i xs ys k w c at f) (unowned j len count live e alone) =
      absurd (no_owners t i xs ys at len)
  Step-Life {t} (copies i xs ys k w c at f) (uncounted j len count live e alone) =
      absurd (no_owners t i xs ys at len)
  Step-Life {t} (copies i xs ys k w c at f) (gone len count live rest) =
      absurd (no_owners t i xs ys at len)
  Step-Life {t} (hands i j xs ys at) (shared n len count live rest) =
      shared n (omega (arith, length-at xs i ys, length-at xs j ys, ap length at)) count live rest
  Step-Life {t} (hands i j xs ys at) (unowned l len count live e alone) =
      absurd (no_owners t i xs ys at len)
  Step-Life {t} (hands i j xs ys at) (uncounted l len count live e alone) =
      absurd (no_owners t i xs ys at len)
  Step-Life {t} (hands i j xs ys at) (gone len count live rest) =
      absurd (no_owners t i xs ys at len)
  Step-Life {t} (subtracts i xs ys k w c at f) (shared n len count live rest) =
      subtract-Life t i n xs ys k w f at len count live rest
  Step-Life {t} (subtracts i xs ys k w c at f) (unowned j len count live e alone) =
      absurd (no_owners t i xs ys at len)
  Step-Life {t} (subtracts i xs ys k w c at f) (uncounted j len count live e alone) =
      absurd (no_owners t i xs ys at len)
  Step-Life {t} (subtracts i xs ys k w c at f) (gone len count live rest) =
      absurd (no_owners t i xs ys at len)
  Step-Life {t} (frees_count i at) (shared n len count live rest) =
      absurd (counts_ne_idle (sym at ∙ rest i))
  Step-Life {t} (frees_count i at) (unowned j len count live e alone) =
      let same = same_thread t i j alone (λ k. counts_ne_idle (sym at ∙ k)) in
      uncounted i len (update_self t.world.counts s.count none) live
        (update_self t.calls i deletes_object)
        (moves_on t.calls i deletes_object (subst (AloneBusy t.calls) (sym same) alone))
  Step-Life {t} (frees_count i at) (uncounted j len count live e alone) =
      let same = same_thread t i j alone (λ k. counts_ne_idle (sym at ∙ k)) in
      absurd (counts_ne_objects (sym at ∙ ap t.calls same ∙ e))
  Step-Life {t} (frees_count i at) (gone len count live rest) =
      absurd (counts_ne_idle (sym at ∙ rest i))
  Step-Life {t} (frees_object i at) (shared n len count live rest) =
      absurd (objects_ne_idle (sym at ∙ rest i))
  Step-Life {t} (frees_object i at) (unowned j len count live e alone) =
      let same = same_thread t i j alone (λ k. objects_ne_idle (sym at ∙ k)) in
      absurd (counts_ne_objects (sym e ∙ ap t.calls (sym same) ∙ at))
  Step-Life {t} (frees_object i at) (uncounted j len count live e alone) =
      let same = same_thread t i j alone (λ k. objects_ne_idle (sym at ∙ k)) in
      gone len count (update_self t.world.objects s.ptr false)
        (all_idle t.calls i (subst (AloneBusy t.calls) (sym same) alone))
  Step-Life {t} (frees_object i at) (gone len count live rest) =
      absurd (objects_ne_idle (sym at ∙ rest i))
