-- ===== src/Louds/Batch/Agree.antt =====
-- The LOUDS engine against the memory engine, over batches.
use mathlib.Core.Path.{subst}
use oxigraph_nova.Prelude.{
  false-ne-true, ℕ, ◌≡◌, ◌↔◌, inl, inr, refl, sym, ap, Bool, true, false, List, [], ◌∷◌, ◌++◌,
}
use oxigraph_nova.Prelude.Result.{Result, ok, err}
use oxigraph_nova.Rdf.{Oxrdf, Quad}
use oxigraph_nova.Reasoning.Keys.{In}
use oxigraph_nova.Store.Vec.{Nodup}
use oxigraph_nova.Store.Memory.{Equality, MemoryStore, QuadOp, insert_op, remove_op, count_if}
use oxigraph_nova.Store.Memory
use oxigraph_nova.Store.Memory.Laws.{insert-Inserted, remove-Removed}
use oxigraph_nova.Louds.Parts.{Parts, PartsLaws}
use oxigraph_nova.Louds.Delta.{get}
use oxigraph_nova.Louds.Store.{Inner, new, is_live, in_ring, and_then, apply_insert, apply_remove}
use oxigraph_nova.Louds.Store.Held.{IsStore, Held, new-IsStore}
use oxigraph_nova.Louds.Store.Writes.{Inserted}
use oxigraph_nova.Louds.Store.Applied.{apply_insert-Inserted, apply_remove-Removed}
use oxigraph_nova.Louds.Batch.{apply_ops, apply_batch}

same_flag : (a b : Bool) → (a ≡ true) ↔ (b ≡ true) → a ≡ b
same_flag true true h = refl
same_flag true false h = sym (h.0 refl)
same_flag false true h = h.1 refl
same_flag false false h = refl

module _ (x : Oxrdf) (eq : Equality x) (parts : Parts x) (laws : PartsLaws x parts) where
  -- Two well-formed stores that hold the same quads.
  pub record Agree (m : MemoryStore x eq) (st : Inner x parts) : Type 0 where
    pub nodup : Nodup m.quads
    pub inv : IsStore x parts laws st
    pub same : (q : Quad x) → In q m.quads ↔ Held x parts laws st q

  pub new-Agree : Agree (Memory.new x eq) (new x parts)
  unfolding Memory.new new is_live in_ring get
  new-Agree = record {
    nodup = tt;
    inv = new-IsStore x parts laws;
    same = λ q. (λ i. absurd i, λ w. absurd (false-ne-true w.2));
  }

  -- After the operations, on the memory engine and on the other one.
  abbrev pub BothDone :
      MemoryStore x eq → ℕ → ℕ → List (QuadOp x eq) → Inner x parts × Result (ℕ × ℕ) → Type 0
  BothDone m i r ops (st', ok counts) =
      Agree (Memory.apply_ops x eq m i r ops).0 st'
      × (counts.0 ≡ (Memory.apply_ops x eq m i r ops).1)
      × (counts.1 ≡ (Memory.apply_ops x eq m i r ops).2)
  BothDone m i r ops (st', err e) =
      (done rest : List (QuadOp x eq)) × (ops ≡ done ++ rest)
      × Agree (Memory.apply_ops x eq m i r done).0 st'

  abbrev memory_insert : MemoryStore x eq → Quad x → MemoryStore x eq × Bool
  memory_insert m q = Memory.insert x eq m q

  abbrev memory_remove : MemoryStore x eq → Quad x → MemoryStore x eq × Bool
  memory_remove m q = Memory.remove x eq m q

  abbrev InsertAgrees : MemoryStore x eq → Quad x → Inner x parts × Result Bool → Type 0
  InsertAgrees m q (st', err e) = Agree m st'
  InsertAgrees m q (st', ok b) = Agree (memory_insert m q).0 st' × (b ≡ (memory_insert m q).1)

  Inserted-Agrees :
      (m : MemoryStore x eq) (st : Inner x parts) (q : Quad x) (r : Inner x parts × Result Bool)
      → Agree m st
      → Inserted x parts laws st q r
      → InsertAgrees m q r
  Inserted-Agrees m st q (st', err e) a h = record {
    nodup = a.nodup;
    inv = h.0;
    same = λ v. (λ i. (h.1 v).1 ((a.same v).0 i), λ w. (a.same v).1 ((h.1 v).0 w));
  }
  Inserted-Agrees m st q (st', ok b) a h =
      let done = insert-Inserted x eq m q a.nodup in
      (
        record {
          nodup = done.nodup;
          inv = h.0;
          same = λ v. (
            λ i.
                (h.1 v).1
                  (elim ((done.members v).0 i) [ inl e ↦ inl e | inr j ↦ inr ((a.same v).0 j) ]),
            λ w.
                (done.members v).1
                  (elim ((h.1 v).0 w) [ inl e ↦ inl e | inr j ↦ inr ((a.same v).1 j) ]),
          );
        },
        same_flag b (memory_insert m q).1 (
          λ e. done.flag.1 (λ i. h.2.0 e ((a.same q).0 i)),
          λ e. h.2.1 (λ w. done.flag.0 e ((a.same q).1 w)),
        ),
      )

  remove-Agree :
      (m : MemoryStore x eq) (st : Inner x parts) (q : Quad x)
      → Agree m st
      → let r = apply_remove x parts st q in
        Agree (memory_remove m q).0 r.0 × (r.1 ≡ (memory_remove m q).1)
  remove-Agree m st q a =
      let done = remove-Removed x eq m q a.nodup in
      let h = apply_remove-Removed x parts laws st q a.inv in
      (
        record {
          nodup = done.nodup;
          inv = h.inv;
          same = λ v. (
            λ i. let j = (done.members v).0 i in (h.held v).1 ((a.same v).0 j.0, j.1),
            λ w. let u = (h.held v).0 w in (done.members v).1 ((a.same v).1 u.0, u.1),
          );
        },
        same_flag (apply_remove x parts st q).1 (memory_remove m q).1 (
          λ e. done.flag.1 ((a.same q).1 (h.flag.0 e)),
          λ e. h.flag.1 ((a.same q).0 (done.flag.0 e)),
        ),
      )

  insert_first :
      (m : MemoryStore x eq) (i r : ℕ) (q : Quad x) (ops : List (QuadOp x eq))
      (res : Inner x parts × Result (ℕ × ℕ))
      → BothDone (memory_insert m q).0 (count_if x eq (memory_insert m q).1 i) r ops res
      → BothDone m i r (insert_op q ∷ ops) res
  unfolding Memory.apply_ops
  insert_first m i r q ops (st', ok counts) h = h
  insert_first m i r q ops (st', err e) h =
      (insert_op q ∷ h.0, h.1, ap (λ z. insert_op q ∷ z) h.2, h.3)

  remove_first :
      (m : MemoryStore x eq) (i r : ℕ) (q : Quad x) (ops : List (QuadOp x eq))
      (res : Inner x parts × Result (ℕ × ℕ))
      → BothDone (memory_remove m q).0 i (count_if x eq (memory_remove m q).1 r) ops res
      → BothDone m i r (remove_op q ∷ ops) res
  unfolding Memory.apply_ops
  remove_first m i r q ops (st', ok counts) h = h
  remove_first m i r q ops (st', err e) h =
      (remove_op q ∷ h.0, h.1, ap (λ z. remove_op q ∷ z) h.2, h.3)

  insert_step :
      (m : MemoryStore x eq) (i r : ℕ) (q : Quad x) (ops : List (QuadOp x eq))
      (res : Inner x parts × Result Bool)
      → InsertAgrees m q res
      → ((m' : MemoryStore x eq) (st' : Inner x parts) (i' : ℕ)
          → Agree m' st'
          → BothDone m' i' r ops (apply_ops x eq parts st' i' r ops))
      → BothDone m i r
          (insert_op q ∷ ops)
          (and_then x parts res (λ st' b. apply_ops x eq parts st' (count_if x eq b i) r ops))
  unfolding Memory.apply_ops
  insert_step m i r q ops (st', err e) a rest = ([], insert_op q ∷ ops, refl, a)
  insert_step m i r q ops (st', ok b) a rest =
      insert_first m i r q ops (apply_ops x eq parts st' (count_if x eq b i) r ops) (
        subst
          (λ z.
            BothDone (memory_insert m q).0 (count_if x eq z i) r ops
              (apply_ops x eq parts st' (count_if x eq b i) r ops))
          a.1 (rest (memory_insert m q).0 st' (count_if x eq b i) a.0))

  apply_ops-BothDone :
      (ops : List (QuadOp x eq)) (m : MemoryStore x eq) (st : Inner x parts) (i r : ℕ)
      → Agree m st
      → BothDone m i r ops (apply_ops x eq parts st i r ops)
  unfolding apply_ops Memory.apply_ops
  apply_ops-BothDone [] m st i r a = (a, refl, refl)
  apply_ops-BothDone (insert_op q ∷ ops) m st i r a =
      insert_step m i r q ops (apply_insert x parts st q)
        (Inserted-Agrees m st q (apply_insert x parts st q) a
          (apply_insert-Inserted x parts laws st q a.inv))
        (λ m' st' i' a'. apply_ops-BothDone ops m' st' i' r a')
  apply_ops-BothDone (remove_op q ∷ ops) m st i r a =
      let done = apply_remove x parts st q in
      let h = remove-Agree m st q a in
      let r' = count_if x eq done.1 r in
      remove_first m i r q ops (apply_ops x eq parts done.0 i r' ops) (
        subst
          (λ z.
            BothDone (memory_remove m q).0 i (count_if x eq z r) ops
              (apply_ops x eq parts done.0 i r' ops))
          h.1 (apply_ops-BothDone ops (memory_remove m q).0 done.0 i r' h.0))

  -- From stores that hold the same quads, a batch on the LOUDS engine that succeeds leaves stores
  -- that hold the same quads, and returns the numbers inserted and removed that the memory engine
  -- returns. If it fails, it has done a first part of the operations as the memory engine does it.
  pub apply_batch-BothDone :
      (m : MemoryStore x eq) (st : Inner x parts) (ops : List (QuadOp x eq))
      → Agree m st
      → BothDone m 0 0 ops (apply_batch x eq parts st ops)
  unfolding apply_batch
  apply_batch-BothDone m st ops a = apply_ops-BothDone ops m st 0 0 a
