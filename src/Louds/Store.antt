-- ===== src/Louds/Store.antt =====
-- store.rs: the engine's state and operations, for a store in memory: one that `LoudsStore::new` has
-- made, without a data directory and a log. A lock is held for a whole operation, and the published
-- snapshot of the decoded terms is left out.
pub mod Live
pub mod Ids
pub mod Interning
pub mod Held
pub mod Writes
pub mod Applied
use oxigraph_nova.Prelude.{
  ℕ, ◌+◌, ◌-◌, ◌≡◌, Bool, true, false, Option, none, some, List, [], ◌∷◌, ◌++◌, ◌==◌, if◌then◌else◌,
}
use oxigraph_nova.Prelude.Result.{Result, ok, err}
use oxigraph_nova.Rdf.{
  Oxrdf, Subject, named, blank, Term, iri, bnode, GraphName, named_graph, blank_graph,
  default_graph, Quad,
}
use oxigraph_nova.Dictionary.Keys.{TermId, GraphId, graph_id, QuadKey, pack_quad, unpack_quad}
use oxigraph_nova.Dictionary.Graphs.{Graphs, no_graphs, intern_graph}
use oxigraph_nova.Louds.Parts.{Triple, Parts}
use oxigraph_nova.Louds.Delta.{Entry, get, insert_key, tombstone_key, insert_count, tombstone_count}

abbrev pub triple_of : QuadKey → Triple
triple_of k = record { s = k.s; p = k.p; o = k.o }

module _ (x : Oxrdf) (parts : Parts x) where
  open parts use {graph_eq, Terms, no_terms, intern, get_id, rings}

  -- An entry of the `HashMap` of the rings.
  pub record Slot : Type 0 where
    pub graph : ℕ
    pub ring : rings.Ring

  abbrev pub Names : Type 0
  Names = Graphs (GraphName x) graph_eq default_graph

  pub record Inner : Type 0 where
    pub names : Names
    pub terms : Terms
    pub graphs : List Slot
    pub delta : List Entry
    -- a `HashSet`, by its elements
    pub named_graph_ids : List ℕ

  unfoldable pub new : Inner
  new = record {
    names = no_graphs (GraphName x) graph_eq default_graph;
    terms = no_terms;
    graphs = [];
    delta = [];
    named_graph_ids = [];
  }

  abbrev pub subject_to_term : Subject x → Term x
  subject_to_term (named n) = iri n
  subject_to_term (blank b) = bnode b

  -- `?`, with the state that the call before it leaves.
  abbrev pub and_then :
      {A B : Type 0} → Inner × Result A → (Inner → A → Inner × Result B) → Inner × Result B
  and_then (st, err e) next = (st, err e)
  and_then (st, ok a) next = next st a

  abbrev pub named_in : Inner → Result (ℕ × Names) → Inner × Result GraphId
  named_in st (err e) = (st, err e)
  named_in st (ok (id, names)) = (record st { names = names }, ok (graph_id id))

  -- `self.dict.intern_graph`
  abbrev pub intern_name : Inner → GraphName x → Inner × Result GraphId
  intern_name st g = named_in st (intern_graph (GraphName x) graph_eq default_graph st.names g)

  -- `self.dict.intern`
  abbrev pub intern_term : Inner → Term x → Inner × Result TermId
  intern_term st t = let r = intern st.terms t in (record st { terms = r.0 }, r.1)

  unfoldable pub intern_quad : Inner → Quad x → Inner × Result QuadKey
  intern_quad st q = and_then (intern_name st q.graph_name) (λ st1 g.
      and_then (intern_term st1 (subject_to_term q.subject)) (λ st2 s.
        and_then (intern_term st2 (iri q.predicate)) (λ st3 p.
          and_then (intern_term st3 q.object)
            (λ st4 o. (st4, ok (record { g = g; s = s; p = p; o = o }))))))

  -- Each of the lookups that finds nothing ends the operation.
  abbrev pub all_ids : Option ℕ → Option TermId → Option TermId → Option TermId → Option QuadKey
  all_ids none s p o = none
  all_ids (some g) none p o = none
  all_ids (some g) (some s) none o = none
  all_ids (some g) (some s) (some p) none = none
  all_ids (some g) (some s) (some p) (some o) =
      some (record { g = graph_id g; s = s; p = p; o = o })

  -- The ids of a quad, where its graph and its terms all have one. `get_id` does not panic: the
  -- dictionary has not been compacted.
  unfoldable pub quad_ids : Inner → Quad x → Option QuadKey
  quad_ids st q =
      all_ids (st.names.graph_to_id q.graph_name) (get_id st.terms (subject_to_term q.subject))
        (get_id st.terms (iri q.predicate)) (get_id st.terms q.object)

  abbrev pub get_ring : List Slot → ℕ → Option rings.Ring
  get_ring [] g = none
  get_ring (slot ∷ slots) g =
      let rest = get_ring slots g in if slot.graph == g then some slot.ring else rest

  unfoldable pub in_ring : List Slot → QuadKey → Bool
  in_ring slots k = elim (get_ring slots k.g.raw) [
    | none ↦ false
    | some ring ↦ rings.ring_contains ring (triple_of k)
  ]

  abbrev pub add_id : List ℕ → ℕ → List ℕ
  add_id [] g = g ∷ []
  add_id (i ∷ ids) g = let rest = add_id ids g in if i == g then i ∷ ids else i ∷ rest

  abbrev name_id : List ℕ → GraphName x → ℕ → List ℕ
  name_id ids (named_graph _) g = add_id ids g
  name_id ids (blank_graph _) g = ids
  name_id ids default_graph g = ids

  unfoldable pub insert_ids : Inner → GraphName x → QuadKey → Inner × Result Bool
  insert_ids st name k = elim (get st.delta (pack_quad k)) [
    | some true ↦ (st, ok false)
    | some false ↦ (record st { delta = insert_key st.delta (pack_quad k) }, ok true)
    | none ↦ if in_ring st.graphs k then (st, ok false) else (
      record st {
        delta = insert_key st.delta (pack_quad k);
        named_graph_ids = name_id st.named_graph_ids name k.g.raw;
      },
      ok true,
    )
  ]

  unfoldable pub apply_insert : Inner → Quad x → Inner × Result Bool
  apply_insert st q = and_then (intern_quad st q) (λ st' k. insert_ids st' q.graph_name k)

  unfoldable pub remove_ids : Inner → QuadKey → Inner × Bool
  remove_ids st k = elim (get st.delta (pack_quad k)) [
    | some true ↦ (record st { delta = tombstone_key st.delta (pack_quad k) }, true)
    | some false ↦ (st, false)
    | none ↦
        if in_ring st.graphs k
        then (record st { delta = tombstone_key st.delta (pack_quad k) }, true)
        else (st, false)
  ]

  abbrev pub remove_found : Inner → Option QuadKey → Inner × Bool
  remove_found st none = (st, false)
  remove_found st (some k) = remove_ids st k

  unfoldable pub apply_remove : Inner → Quad x → Inner × Bool
  apply_remove st q = remove_found st (quad_ids st q)

  -- The delta decides where it has the key.
  unfoldable pub is_live : List Entry → List Slot → QuadKey → Bool
  is_live delta slots k = elim (get delta (pack_quad k)) [
    | some live ↦ live
    | none ↦ in_ring slots k
  ]

  abbrev pub live_found : Inner → Option QuadKey → Bool
  live_found st none = false
  live_found st (some k) = is_live st.delta st.graphs k

  unfoldable pub contains : Inner → Quad x → Bool
  contains st q = live_found st (quad_ids st q)
