-- ===== src/Store/Memory/Refines.antt =====
-- The memory engine against a set of quads, over any sequence of operations.
use mathlib.Core.Path.{subst}
use oxigraph_nova.Prelude.{
  ℕ, ◌+◌, ◌≡◌, ◌↔◌, ◌⊎◌, inl, inr, refl, sym, ap, ◌∙◌, Bool, true, false, Bool-cases, List, [], ◌∷◌,
  length, arith, if◌then◌else◌,
}
use oxigraph_nova.Prelude.Bytes.{Bytes}
use oxigraph_nova.Rdf.{Oxrdf, Quad, GraphName, default_graph, named_graph, blank_graph}
use oxigraph_nova.Reasoning.Keys.{In}
use oxigraph_nova.Store.Vec.{Nodup, contains, In-contains, In-snoc}
use oxigraph_nova.Store.Memory.{
  Equality, MemoryStore, new, insert, remove, add_graph, add_iri, QuadOp, insert_op, remove_op,
  apply_ops, apply_batch, count_if,
}
use oxigraph_nova.Store.Memory.Laws.{insert-Inserted, remove-Removed}

module _ (x : Oxrdf) (eq : Equality x) where
  -- The set of quads behind the operations, from that before them.
  abbrev pub After : List (QuadOp x eq) → (Quad x → Type 0) → Quad x → Type 0
  After [] P v = P v
  After (insert_op q ∷ ops) P v = After ops (λ w. (w ≡ q) ⊎ P w) v
  After (remove_op q ∷ ops) P v = After ops (λ w. P w × (w ≡ q → ⊥)) v

  -- The store holds exactly the quads of the set, each once, and knows the graph of each.
  pub record Holds (m : MemoryStore x eq) (P : Quad x → Type 0) : Type 0 where
    pub nodup : Nodup m.quads
    pub members : (v : Quad x) → In v m.quads ↔ P v
    pub graphs :
        (v : Quad x) (n : x.NamedNode)
        → In v m.quads
        → v.graph_name ≡ named_graph n
        → In (x.node_str n) m.named_graph_iris

  pub new-Holds : Holds (new x eq) (λ v. ⊥)
  unfolding new
  new-Holds = record { nodup = tt; members = λ v. (λ h. h, λ h. h); graphs = λ v n h e. absurd h }

  In-add_iri : (iris : List Bytes) (t u : Bytes) → In u iris → In u (add_iri x eq iris t)
  In-add_iri iris t u h = elim (Bool-cases (contains eq.text_eq iris t)) [
    | inl old ↦ rw old h
    | inr fresh ↦ rw fresh ((In-snoc u iris t).1 (inr h))
  ]

  In-add_iri_self : (iris : List Bytes) (t : Bytes) → In t (add_iri x eq iris t)
  In-add_iri_self iris t = elim (Bool-cases (contains eq.text_eq iris t)) [
    | inl old ↦ rw old ((In-contains eq.text_eq iris t).0 old)
    | inr fresh ↦ rw fresh ((In-snoc t iris t).1 (inl refl))
  ]

  In-add_graph :
      (iris : List Bytes) (g : GraphName x) (u : Bytes) → In u iris → In u (add_graph x eq iris g)
  unfolding add_graph
  In-add_graph iris default_graph u h = h
  In-add_graph iris (named_graph n) u h = In-add_iri iris (x.node_str n) u h
  In-add_graph iris (blank_graph b) u h = h

  In-add_graph_self :
      (iris : List Bytes) (n : x.NamedNode)
      → In (x.node_str n) (add_graph x eq iris (named_graph n))
  unfolding add_graph
  In-add_graph_self iris n = In-add_iri_self iris (x.node_str n)

  insert-iris :
      (m : MemoryStore x eq) (q : Quad x)
      → (insert x eq m q).0.named_graph_iris ≡ add_graph x eq m.named_graph_iris q.graph_name
  unfolding insert
  insert-iris m q = elim (Bool-cases (contains eq.quad_eq m.quads q)) [
    | inl old ↦ rw old refl
    | inr fresh ↦ rw fresh refl
  ]

  remove-iris :
      (m : MemoryStore x eq) (q : Quad x)
      → (remove x eq m q).0.named_graph_iris ≡ m.named_graph_iris
  unfolding remove
  remove-iris m q = ground arith

  pub insert-Holds :
      (m : MemoryStore x eq) (P : Quad x → Type 0) (q : Quad x)
      → Holds m P
      → Holds (insert x eq m q).0 (λ w. (w ≡ q) ⊎ P w)
  insert-Holds m P q h =
      let step = insert-Inserted x eq m q h.nodup in
      let iris = insert-iris m q in
      record {
        nodup = step.nodup;
        members = λ v. (
          λ i. elim ((step.members v).0 i) [ inl e ↦ inl e | inr j ↦ inr ((h.members v).0 j) ],
          λ i. (step.members v).1 (elim i [ inl e ↦ inl e | inr j ↦ inr ((h.members v).1 j) ]),
        );
        graphs = λ v n i e.
            subst (λ z. In (x.node_str n) z) (sym iris)
              (elim ((step.members v).0 i) [
                | inl same ↦
                    let g : q.graph_name ≡ named_graph n =
                      ap (λ (z : Quad x). z.graph_name) (sym same) ∙ e in
                    subst (λ z. In (x.node_str n) (add_graph x eq m.named_graph_iris z)) (sym g)
                      (In-add_graph_self m.named_graph_iris n)
                | inr j ↦
                    In-add_graph m.named_graph_iris q.graph_name (x.node_str n) (h.graphs v n j e)
              ]);
      }

  pub remove-Holds :
      (m : MemoryStore x eq) (P : Quad x → Type 0) (q : Quad x)
      → Holds m P
      → Holds (remove x eq m q).0 (λ w. P w × (w ≡ q → ⊥))
  remove-Holds m P q h =
      let step = remove-Removed x eq m q h.nodup in
      let iris = remove-iris m q in
      record {
        nodup = step.nodup;
        members = λ v. (
          λ i. ((h.members v).0 ((step.members v).0 i).0, ((step.members v).0 i).1),
          λ i. (step.members v).1 ((h.members v).1 i.0, i.1),
        );
        graphs = λ v n i e.
            subst (λ z. In (x.node_str n) z) (sym iris) (h.graphs v n ((step.members v).0 i).0 e);
      }

  -- What a batch has done, with the counts that it started from.
  pub record Batched (m m' : MemoryStore x eq) (inserted removed inserted' removed' : ℕ)
      (P : Quad x → Type 0) : Type 0 where
    pub holds : Holds m' P
    pub counts : length m'.quads + removed' + inserted ≡ length m.quads + inserted' + removed

  insert_counts :
      (m m' m2 : MemoryStore x eq) (b : Bool) (i r i2 r2 : ℕ)
      → length m'.quads ≡ (if b then length m.quads + 1 else length m.quads)
      → length m2.quads + r2 + count_if x eq b i ≡ length m'.quads + i2 + r
      → length m2.quads + r2 + i ≡ length m.quads + i2 + r
  insert_counts m m' m2 true i r i2 r2 e h = omega arith
  insert_counts m m' m2 false i r i2 r2 e h = omega arith

  remove_counts :
      (m m' m2 : MemoryStore x eq) (b : Bool) (i r i2 r2 : ℕ)
      → length m.quads ≡ (if b then length m'.quads + 1 else length m'.quads)
      → length m2.quads + r2 + i ≡ length m'.quads + i2 + count_if x eq b r
      → length m2.quads + r2 + i ≡ length m.quads + i2 + r
  remove_counts m m' m2 true i r i2 r2 e h = omega arith
  remove_counts m m' m2 false i r i2 r2 e h = omega arith

  apply_ops-Batched :
      (m : MemoryStore x eq) (P : Quad x → Type 0) (inserted removed : ℕ) (ops : List (QuadOp x eq))
      → Holds m P
      → let r = apply_ops x eq m inserted removed ops in
        Batched m r.0 inserted removed r.1 r.2 (After ops P)
  unfolding apply_ops
  apply_ops-Batched m P inserted removed [] h = record { holds = h; counts = omega arith }
  apply_ops-Batched m P inserted removed (insert_op q ∷ ops) h =
      let (m', b) = insert x eq m q in
      let r = apply_ops x eq m' (count_if x eq b inserted) removed ops in
      let rest =
        apply_ops-Batched m' (λ w. (w ≡ q) ⊎ P w) (count_if x eq b inserted) removed ops
          (insert-Holds m P q h) in
      record {
        holds = rest.holds;
        counts =
            insert_counts m m' r.0 b inserted removed r.1 r.2
              (insert-Inserted x eq m q h.nodup).count rest.counts;
      }
  apply_ops-Batched m P inserted removed (remove_op q ∷ ops) h =
      let (m', b) = remove x eq m q in
      let r = apply_ops x eq m' inserted (count_if x eq b removed) ops in
      let rest =
        apply_ops-Batched m' (λ w. P w × (w ≡ q → ⊥)) inserted (count_if x eq b removed) ops
          (remove-Holds m P q h) in
      record {
        holds = rest.holds;
        counts =
            remove_counts m m' r.0 b inserted removed r.1 r.2
              (remove-Removed x eq m q h.nodup).count rest.counts;
      }

  -- On a store that holds exactly the quads of a set, each once, and knows the graphs of these,
  -- `apply_batch` leaves a store that holds exactly the quads of the set after the operations in
  -- order, each once, and knows the graphs of these; the number of quads has grown by the number
  -- inserted and shrunk by the number removed.
  pub apply_batch-Batched :
      (m : MemoryStore x eq) (P : Quad x → Type 0) (ops : List (QuadOp x eq))
      → Holds m P
      → let r = apply_batch x eq m ops in
        Holds r.0 (After ops P) × (length r.0.quads + r.2 ≡ length m.quads + r.1)
  unfolding apply_batch
  apply_batch-Batched m P ops h =
      let done = apply_ops-Batched m P 0 0 ops h in (done.holds, omega (arith, done.counts))
