-- ===== src/Store/Memory/Tests.antt =====
-- The memory engine on a small vocabulary.
use native.Mathlib.Decide.{ℕ_discrete}
use oxigraph_nova.Prelude.{◌≡◌, refl, none, some, List, [], ◌∷◌, length, ◌+◌, ◌⊎◌, ◌↔◌}
use oxigraph_nova.Rdf.{Quad, iri}
use oxigraph_nova.Reasoning.Keys.{In}
use oxigraph_nova.Store.Vec.{Nodup, contains, position, swap_remove}
use oxigraph_nova.Store.Memory.Demo.{
  demo, demo_eq, ex_a, ex_b, first, second, Quad-discrete, Bytes-discrete,
}
use oxigraph_nova.Store.Memory.{
  QuadOp, new, insert, insert_op, remove_op, apply_batch, quads_for_pattern, StoredQuad,
  MemoryStore,
}
use oxigraph_nova.Store.Memory.Patterns.{Fits, IsStored, quads_for_pattern-Answers}
use oxigraph_nova.Store.Memory.Refines.{After, Holds, new-Holds, insert-Holds, apply_batch-Batched}

abbrev batch : List (QuadOp demo demo_eq)
batch = insert_op first ∷ insert_op second ∷ insert_op first ∷ remove_op second ∷ []

-- Two quads go in, the repeated one not, and one comes out.
batch_run :
    apply_batch demo demo_eq (new demo demo_eq) batch
    ≡ (record { quads = first ∷ []; named_graph_iris = (97 ∷ []) ∷ [] }, 2, 1)
unfolding apply_batch new position contains Quad-discrete swap_remove Bytes-discrete ℕ_discrete
batch_run = refl

batch-Holds : Holds demo demo_eq (new demo demo_eq) (λ v. ⊥)
batch-Holds = new-Holds demo demo_eq

apply_batch-Batched_example :
    let r = apply_batch demo demo_eq (new demo demo_eq) batch in
    Holds demo demo_eq r.0 (After demo demo_eq batch (λ v. ⊥))
    × (length r.0.quads + r.2 ≡ length (new demo demo_eq).quads + r.1)
apply_batch-Batched_example =
    apply_batch-Batched demo demo_eq (new demo demo_eq) (λ v. ⊥) batch batch-Holds

abbrev one_quad : MemoryStore demo demo_eq
one_quad = (insert demo demo_eq (new demo demo_eq) first).0

quads_for_pattern-Answers_example :
    Nodup (quads_for_pattern demo demo_eq one_quad (some (iri ex_a)) (some ex_b) none none)
    × ((r : StoredQuad demo demo_eq)
        → In r (quads_for_pattern demo demo_eq one_quad (some (iri ex_a)) (some ex_b) none none) ↔ (
            (q : Quad demo) × ((q ≡ first) ⊎ ⊥)
            × Fits demo demo_eq (some (iri ex_a)) (some ex_b) none none q
            × IsStored demo demo_eq r q))
quads_for_pattern-Answers_example =
    quads_for_pattern-Answers demo demo_eq one_quad (λ w. (w ≡ first) ⊎ ⊥) (some (iri ex_a))
      (some ex_b) none none
      (insert-Holds demo demo_eq (new demo demo_eq) (λ v. ⊥) first batch-Holds)
