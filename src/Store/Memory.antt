-- ===== src/Store/Memory.antt =====
-- crates/engines/nova-engine-memory/src/lib.rs, with the parts of nova-core's trait `QuadStore`
-- (store.rs) and of `StoredQuad` (lib.rs) that it relies on. The locks are not modelled: each method
-- holds them to its end. The operations cannot fail, so `Ok` is left out.
pub mod Laws
pub mod Refines
pub mod Patterns
pub mod Demo
mod Tests
use oxigraph_nova.Prelude.{
  ℕ, ◌+◌, ◌≡◌, refl, Bool, true, false, ◌&&◌, Option, none, some, List, [], ◌∷◌, ◌++◌, map, length,
  if◌then◌else◌,
}
use oxigraph_nova.Prelude.Bytes.{Bytes}
use oxigraph_nova.Rdf.{
  Oxrdf, Subject, named, blank, Term, iri, bnode, GraphName, named_graph, blank_graph,
  default_graph, Quad,
}
use oxigraph_nova.Store.Vec.{contains, position, swap_remove}

-- `==` of `oxrdf`'s types and of strings.
pub record Equality (x : Oxrdf) : Type 0 where
  pub quad_eq : (a b : Quad x) → Dec (a ≡ b)
  pub term_eq : (a b : Term x) → Dec (a ≡ b)
  pub graph_eq : (a b : GraphName x) → Dec (a ≡ b)
  pub text_eq : (a b : Bytes) → Dec (a ≡ b)

module _ (x : Oxrdf) (eq : Equality x) where
  open x use {NamedNode, node_str, new_node, node_eq}
  open eq use {quad_eq, term_eq, graph_eq, text_eq}

  -- The terms are shared by `Arc`.
  pub record StoredQuad : Type 0 where
    pub subject : Term x
    pub predicate : Term x
    pub object : Term x
    pub graph_name : GraphName x

  -- `Term::from` of a subject
  abbrev pub term_of : Subject x → Term x
  term_of (named n) = iri n
  term_of (blank b) = bnode b

  unfoldable pub stored_quad : Quad x → StoredQuad
  stored_quad q = record {
    subject = term_of q.subject;
    predicate = iri q.predicate;
    object = q.object;
    graph_name = q.graph_name;
  }

  pub record MemoryStore : Type 0 where
    pub quads : List (Quad x)
    -- a `HashSet`, by its elements
    pub named_graph_iris : List Bytes

  unfoldable pub new : MemoryStore
  new = record { quads = []; named_graph_iris = [] }

  abbrev add_iri : List Bytes → Bytes → List Bytes
  add_iri iris t = if contains text_eq iris t then iris else iris ++ t ∷ []

  add_graph : List Bytes → GraphName x → List Bytes
  add_graph iris default_graph = iris
  add_graph iris (named_graph n) = add_iri iris (node_str n)
  add_graph iris (blank_graph b) = iris

  -- With the flag that is returned.
  unfoldable pub insert : MemoryStore → Quad x → MemoryStore × Bool
  unfolding add_graph
  insert m q =
      let iris = add_graph m.named_graph_iris q.graph_name in
      if contains quad_eq m.quads q
      then (record { quads = m.quads; named_graph_iris = iris }, false)
      else (record { quads = m.quads ++ q ∷ []; named_graph_iris = iris }, true)

  abbrev pub remove_at : MemoryStore → Option ℕ → MemoryStore × Bool
  remove_at m none = (m, false)
  remove_at m (some pos) = (record m { quads = swap_remove m.quads pos }, true)

  unfoldable pub remove : MemoryStore → Quad x → MemoryStore × Bool
  remove m q = remove_at m (position quad_eq m.quads q)

  -- `as_ref().is_none_or(|v| a == *v)`
  abbrev pub fits : {A : Type 0} → ((a b : A) → Dec (a ≡ b)) → Option A → A → Bool
  fits d none a = true
  fits d (some v) a = elim (d a v) [ yes _ ↦ true | no _ ↦ false ]

  unfoldable pub quad_fits :
      Option (Term x) → Option NamedNode → Option (Term x) → Option (GraphName x) → Quad x → Bool
  quad_fits s p o g q =
      fits term_eq s (term_of q.subject)
      && (fits node_eq p q.predicate && (fits term_eq o q.object && fits graph_eq g q.graph_name))

  scan :
      Option (Term x)
      → Option NamedNode
      → Option (Term x)
      → Option (GraphName x)
      → List (Quad x)
      → List StoredQuad
  unfolding stored_quad quad_fits
  scan s p o g [] = []
  scan s p o g (q ∷ qs) =
      let rest = scan s p o g qs in if quad_fits s p o g q then stored_quad q ∷ rest else rest

  unfoldable pub quads_for_pattern :
      MemoryStore
      → Option (Term x)
      → Option NamedNode
      → Option (Term x)
      → Option (GraphName x)
      → List StoredQuad
  unfolding scan
  quads_for_pattern m s p o g = scan s p o g m.quads

  unfoldable pub len : MemoryStore → ℕ
  len m = length m.quads

  unfoldable pub has_quad : MemoryStore → Quad x → Bool
  has_quad m q = contains quad_eq m.quads q

  unfoldable pub known_named_graphs : MemoryStore → List (GraphName x)
  known_named_graphs m = map (λ t. named_graph (new_node t)) m.named_graph_iris

  unfoldable pub register_named_graph : MemoryStore → GraphName x → MemoryStore
  unfolding add_graph
  register_named_graph m g = record m { named_graph_iris = add_graph m.named_graph_iris g }

  pub data QuadOp : Type 0 where
    insert_op : Quad x → QuadOp
    remove_op : Quad x → QuadOp

  abbrev pub count_if : Bool → ℕ → ℕ
  count_if true n = n + 1
  count_if false n = n

  -- The trait's default, with the numbers inserted and removed so far.
  unfoldable pub apply_ops : MemoryStore → ℕ → ℕ → List QuadOp → MemoryStore × ℕ × ℕ
  unfolding insert remove
  apply_ops m inserted removed [] = (m, inserted, removed)
  apply_ops m inserted removed (insert_op q ∷ ops) =
      let (m', new_quad) = insert m q in apply_ops m' (count_if new_quad inserted) removed ops
  apply_ops m inserted removed (remove_op q ∷ ops) =
      let (m', present) = remove m q in apply_ops m' inserted (count_if present removed) ops

  unfoldable pub apply_batch : MemoryStore → List QuadOp → MemoryStore × ℕ × ℕ
  unfolding apply_ops
  apply_batch m ops = apply_ops m 0 0 ops
