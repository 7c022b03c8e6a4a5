-- ===== src/Louds/Pattern.antt =====
-- store.rs, `quads_for_pattern`: the scan of one graph for a pattern of ids, up to the decoding of
-- the ids that it finds. The ids of a ring's triples have 40 bits, so `TermId::new` leaves them as
-- they are.
pub mod Scan
pub mod Live
use oxigraph_nova.Prelude.{
  ℕ, Bool, true, false, ◌&&◌, Option, none, some, List, [], ◌∷◌, ◌++◌, ◌==◌, if◌then◌else◌,
  ℕ_discrete,
}
use oxigraph_nova.Rdf.{Oxrdf, Term, iri, bnode, literal, triple}
use oxigraph_nova.Store.Vec
use oxigraph_nova.Store.Memory.{Equality, StoredQuad}
use oxigraph_nova.Dictionary.Keys.{TermId, GraphId, QuadKey, pack_quad, unpack_quad}
use oxigraph_nova.Louds.Parts.{Triple, Parts}
use oxigraph_nova.Louds.Delta.{Entry, graph_range, range_inclusive}
use oxigraph_nova.Louds.Store.{Slot, Inner, get_ring}

-- The ids that the subject, the predicate and the object are bound to.
pub record Pattern : Type 0 where
  pub s : Option TermId
  pub p : Option TermId
  pub o : Option TermId

abbrev pub id_fits : Option TermId → TermId → Bool
id_fits none i = true
id_fits (some j) i = i.raw == j.raw

-- The filter behind the range.
abbrev pub key_fits : GraphId → Pattern → QuadKey → Bool
key_fits g pattern k =
    k.g.raw == g.raw && (id_fits pattern.s k.s && (id_fits pattern.p k.p && id_fits pattern.o k.o))

-- The keys of the delta that suppress the ring's, tombstones too.
unfoldable pub seen : GraphId → Pattern → List Entry → List ℕ
seen g pattern [] = []
seen g pattern (e ∷ m) =
    let rest = seen g pattern m in
    if key_fits g pattern (unpack_quad e.key) then e.key ∷ rest else rest

unfoldable pub delta_keys : GraphId → Pattern → List Entry → List QuadKey
delta_keys g pattern [] = []
delta_keys g pattern (e ∷ m) =
    let rest = delta_keys g pattern m in
    if key_fits g pattern (unpack_quad e.key) && e.live then unpack_quad e.key ∷ rest else rest

abbrev pub key_of : GraphId → Triple → QuadKey
key_of g t = record { g = g; s = t.s; p = t.p; o = t.o }

unfoldable pub ring_keys : GraphId → List ℕ → List Triple → List QuadKey
unfolding Vec.contains
ring_keys g ns [] = []
ring_keys g ns (t ∷ ts) =
    let rest = ring_keys g ns ts in
    if Vec.contains ℕ_discrete ns (pack_quad (key_of g t)) then rest else key_of g t ∷ rest

module _ (x : Oxrdf) (eq : Equality x) (parts : Parts x) where
  abbrev pub matched : Option parts.rings.Ring → Pattern → List Triple
  matched none pattern = []
  matched (some ring) pattern = parts.rings.match_triples ring pattern.s pattern.p pattern.o

  abbrev pub found : Inner x parts → GraphId → Pattern → Option (List Entry) → Option (List QuadKey)
  found st g pattern none = none
  found st g pattern (some m) = some (
      delta_keys g pattern m
      ++ ring_keys g (seen g pattern m) (matched (get_ring x parts st.graphs g.raw) pattern))

  -- The ids of the quads that the scan decodes; `none` is a panic of the range.
  unfoldable pub scan_graph : Inner x parts → GraphId → Pattern → Option (List QuadKey)
  unfolding seen delta_keys ring_keys
  scan_graph st g pattern =
      let (lo, hi) = graph_range g pattern.s pattern.p pattern.o in
      found st g pattern (range_inclusive st.delta lo hi)
