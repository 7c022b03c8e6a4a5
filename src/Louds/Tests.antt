-- ===== src/Louds/Tests.antt =====
-- The engine with rings of lists, on a few quads.
use native.Mathlib.Decide.{ℕ_discrete}
use mathlib.Core.Path.{subst}
use oxigraph_nova.Store.Vec.{In-contains}
use oxigraph_nova.Louds.Store.Ids.{HasIds}
use oxigraph_nova.Dictionary.Graphs.{intern_graph, no_graphs}
use oxigraph_nova.Dictionary.Terms.{intern, intern_regular, no_terms, get_id}
use oxigraph_nova.Prelude.{
  Bool, ◌≡◌, ◌&&◌, ◌==◌, refl, sym, ap, inl, inr, Bool-cases, false-ne-true, true, false, Option,
  none, some, List, [], ◌∷◌, arith, length, if◌then◌else◌,
}
use oxigraph_nova.Rdf.{default_graph}
use oxigraph_nova.Store.Memory.{QuadOp, insert_op, remove_op}
use oxigraph_nova.Store.Vec
use oxigraph_nova.Store.Memory
use oxigraph_nova.Store.Memory.Demo.{demo, demo_eq, first, second, Term-discrete, Graph-discrete}
use oxigraph_nova.Dictionary.Keys.{
  TermId, new_term_id, QuadKey, IsKey, pack_quad, graph_id, term_id,
}
use oxigraph_nova.Louds.Delta.{Entry, get, insert_key, tombstone_key, map_insert}
use oxigraph_nova.Louds.Delta.Laws.{IsDelta, In-map_insert, map_insert-IsSorted}
use oxigraph_nova.Louds.Parts.{Triple, Rings, Parts, PartsLaws}
use oxigraph_nova.Louds.Engine.{
  engine, engine_laws, apply_insert-Holds, apply_remove-Holds, apply_batch-Agrees,
}
use oxigraph_nova.Louds.Store.{
  Inner, new, intern_quad, in_ring, is_live, insert_ids, remove_ids, triple_of, apply_insert,
  apply_remove,
}
use oxigraph_nova.Louds.Store.Held.{IsStore, new-IsStore}
use oxigraph_nova.Louds.Store.Writes.{Inserted, Inserted-IsStore, Removed}
use oxigraph_nova.Louds.Compact.{Group, merge_delta, ring_groups, build_graphs_from_triples}
use oxigraph_nova.Louds.Compact.Rebuilt.{Rebuilt, merge_delta-Rebuilt}
use oxigraph_nova.Louds.Pattern.{Pattern}
use oxigraph_nova.Louds.Batch.{apply_batch, len}
use oxigraph_nova.Louds.Batch.Agree.{BothDone, new-Agree}

unfoldable Triple-discrete : Discrete Triple
Triple-discrete = hlevel (ℕ_discrete)

-- Rings that are lists of triples.
abbrev id_in : Option TermId → TermId → Bool
id_in none i = true
id_in (some j) i = i.raw == j.raw

abbrev matching : Option TermId → Option TermId → Option TermId → List Triple → List Triple
matching s p o [] = []
matching s p o (t ∷ ts) =
    let rest = matching s p o ts in
    if id_in s t.s && (id_in p t.p && id_in o t.o) then t ∷ rest else rest

abbrev list_rings : Rings
list_rings = record {
  Ring = List Triple;
  build = λ ts. ts;
  ring_contains = λ r t. Vec.contains Triple-discrete r t;
  spo_triples = λ r. r;
  match_triples = λ r s p o. matching s p o r;
  ring_len = λ r. length r;
}

abbrev parts : Parts demo
parts = engine demo demo_eq list_rings

abbrev laws : PartsLaws demo parts
laws = engine_laws demo demo_eq list_rings

abbrev empty : Inner demo parts
empty = new demo parts

abbrev one : Inner demo parts
one = (apply_insert demo parts empty first).0

one-IsStore : IsStore demo parts laws one
one-IsStore =
    Inserted-IsStore demo parts laws empty first (apply_insert demo parts empty first)
      (apply_insert-Holds demo demo_eq list_rings empty first (new-IsStore demo parts laws))

-- The quad in a ring, with an empty delta.
abbrev first_key : QuadKey
first_key = record { g = graph_id 1; s = term_id 0; p = term_id 1; o = term_id 2 }

abbrev carried : Inner demo parts
carried = record one {
  delta = [];
  graphs = record { graph = 1; ring = triple_of first_key ∷ [] } ∷ [];
}

first-HasIds : HasIds demo parts laws carried.names carried.terms first first_key
unfolding apply_insert intern_quad insert_ids get in_ring new intern_graph no_graphs intern
    intern_regular new_term_id no_terms get_id Term-discrete Graph-discrete
first-HasIds = record { graph = refl; subject = refl; predicate = refl; object = refl }

same_key : (k j : QuadKey) → k.g.raw ≡ j.g.raw → triple_of k ≡ triple_of j → k ≡ j
same_key k j g t =
    let s = ap (λ (z : Triple). z.s) t in
    let p = ap (λ (z : Triple). z.p) t in let o = ap (λ (z : Triple). z.o) t in rw (g, s, p, o) refl

carried_key :
    (k : QuadKey) → is_live demo parts carried.delta carried.graphs k ≡ true → k ≡ first_key
unfolding is_live get in_ring
carried_key k live = elim (Bool-cases (1 == k.g.raw)) [
  | inl same ↦
      let held = rw (same, is_live, in_ring) at live in
      elim ((In-contains Triple-discrete (triple_of first_key ∷ []) (triple_of k)).0 held) [
        | inl e ↦ same_key k first_key (ground (arith, same)) e
        | inr absent ↦ absurd absent
      ]
  | inr other ↦ absurd (false-ne-true (rw (other, is_live, in_ring) at live))
]

carried-IsStore : IsStore demo parts laws carried
carried-IsStore = record {
  linked = one-IsStore.linked;
  valid = one-IsStore.valid;
  sorted = tt;
  keyed = λ n v i. absurd i;
  distinct = ((λ absent. absent), tt);
  covered = λ k key live. (
    first,
    subst (HasIds demo parts laws carried.names carried.terms first) (sym (carried_key k live))
        first-HasIds,
  );
}

apply_insert-Holds_example :
    Inserted demo parts laws carried second (apply_insert demo parts carried second)
apply_insert-Holds_example =
    apply_insert-Holds demo demo_eq list_rings carried second carried-IsStore

apply_remove-Holds_example :
    Removed demo parts laws carried first
      (apply_remove demo parts carried first).0
      (apply_remove demo parts carried first).1
apply_remove-Holds_example =
    apply_remove-Holds demo demo_eq list_rings carried first carried-IsStore

abbrev batch : List (QuadOp demo demo_eq)
batch = insert_op first ∷ insert_op second ∷ insert_op first ∷ remove_op second ∷ []

apply_batch-Agrees_example :
    BothDone demo demo_eq parts laws
      (Memory.new demo demo_eq)
      0
      0
      batch
      (apply_batch demo demo_eq parts empty batch)
apply_batch-Agrees_example =
    apply_batch-Agrees demo demo_eq list_rings (Memory.new demo demo_eq) empty batch
      (new-Agree demo demo_eq parts laws)

abbrev old_key : QuadKey
old_key = record { g = graph_id 0; s = term_id 1; p = term_id 2; o = term_id 3 }

abbrev new_key : QuadKey
new_key = record old_key { o = term_id 4 }

-- One quad, in a ring.
abbrev base : Inner demo parts
base = record empty { graphs = record { graph = 0; ring = triple_of old_key ∷ [] } ∷ [] }

-- Another quad comes and goes: its tombstone stays, and `len` takes it off the ring's quad.
abbrev ghost : Inner demo parts
ghost = (remove_ids demo parts (insert_ids demo parts base default_graph new_key).0 new_key).0

ghost_live : is_live demo parts ghost.delta ghost.graphs old_key ≡ true
unfolding is_live new remove_ids insert_ids get in_ring Vec.contains Triple-discrete ℕ_discrete
    insert_key map_insert pack_quad tombstone_key
ghost_live = refl

ghosts : len demo demo_eq parts ghost ≡ 0
unfolding len new remove_ids insert_ids get in_ring Vec.contains Triple-discrete ℕ_discrete
    insert_key map_insert pack_quad tombstone_key
ghosts = refl

-- The ring's quad goes and comes: the ring and the delta both have it, and `len` counts it twice.
abbrev returned : Inner demo parts
returned = (insert_ids demo parts (remove_ids demo parts base old_key).0 default_graph old_key).0

returns : len demo demo_eq parts returned ≡ 2
unfolding len new remove_ids insert_ids get in_ring Vec.contains Triple-discrete ℕ_discrete
    insert_key map_insert pack_quad tombstone_key
returns = refl

old_key-IsKey : IsKey old_key
old_key-IsKey = record {
  graph = omega arith;
  subject = omega arith;
  predicate = omega arith;
  object = omega arith;
}

new_key-IsKey : IsKey new_key
new_key-IsKey = record {
  graph = omega arith;
  subject = omega arith;
  predicate = omega arith;
  object = omega arith;
}

-- A delta that buries the quad of the ring and has another one.
abbrev buried : List Entry
buried = map_insert (map_insert [] (pack_quad old_key) false) (pack_quad new_key) true

buried-IsDelta : IsDelta buried
buried-IsDelta = record {
  sorted =
      map_insert-IsSorted (map_insert [] (pack_quad old_key) false) (pack_quad new_key) true
        (map_insert-IsSorted [] (pack_quad old_key) false tt);
  keyed = λ n v i.
      elim (In-map_insert (map_insert [] (pack_quad old_key) false) (pack_quad new_key) true n v
        i) [
          | inl e ↦ (new_key, new_key-IsKey, e)
          | inr j ↦ elim (In-map_insert [] (pack_quad old_key) false n v j) [
            | inl e ↦ (old_key, old_key-IsKey, e)
            | inr absent ↦ absurd absent
          ]
        ];
}

abbrev base_groups : List Group
base_groups = merge_delta buried (ring_groups demo parts base.graphs)

merge_delta-Rebuilt_example :
    Rebuilt demo parts buried base.graphs base_groups
      (build_graphs_from_triples demo parts base_groups)
merge_delta-Rebuilt_example =
    merge_delta-Rebuilt demo parts buried base.graphs buried-IsDelta ((λ absent. absent), tt)

abbrev by_subject : Pattern
by_subject = record { s = some (term_id 1); p = none; o = none }

abbrev base_buried : Inner demo parts
base_buried = record base { delta = buried }
