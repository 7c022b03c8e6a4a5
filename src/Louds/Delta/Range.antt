-- ===== src/Louds/Delta/Range.antt =====
-- The range of keys that a pattern of ids asks for.
use oxigraph_nova.Prelude.{◌≤◌, ◌<◌, ◌≡◌, ◌↔◌, Option, none, some, arith}
use oxigraph_nova.Dictionary.Keys.{TermId, GraphId, QuadKey, IsKey, max_term_id, pack_quad}
use oxigraph_nova.Louds.Parts.{HasId}
use oxigraph_nova.Louds.Delta.{graph_range}

-- What the range asks of a key: the graph, and the bound fields up to the first that is unbound.
abbrev pub Asked : GraphId → Option TermId → Option TermId → Option TermId → QuadKey → Type 0
Asked g (some sv) (some pv) o q =
    (q.g.raw ≡ g.raw) × (q.s.raw ≡ sv.raw) × (q.p.raw ≡ pv.raw) × HasId o q.o
Asked g (some sv) none o q = (q.g.raw ≡ g.raw) × (q.s.raw ≡ sv.raw)
Asked g none p o q = q.g.raw ≡ g.raw

abbrev pub IsTermId : Option TermId → Type 0
IsTermId none = Unit
IsTermId (some i) = i.raw ≤ max_term_id

-- For ids of 8 and 40 bits, the range of `graph_range` starts at or before its end, and a packed quad
-- lies in it exactly if it has the graph, the subject that is bound, the predicate that is bound with
-- the subject, and the object that is bound with both.
pub graph_range-Asked :
    (g : GraphId) (s p o : Option TermId) (q : QuadKey)
    → g.raw < 256
    → IsTermId s
    → IsTermId p
    → IsTermId o
    → IsKey q
    → let r = graph_range g s p o in
      (r.0 ≤ r.1) × (((r.0 ≤ pack_quad q) × (pack_quad q ≤ r.1)) ↔ Asked g s p o q)
unfolding graph_range pack_quad
graph_range-Asked g (some sv) (some pv) (some ov) q hg hs hp ho k =
    ground (arith, k.graph, k.subject, k.predicate, k.object)
graph_range-Asked g (some sv) (some pv) none q hg hs hp ho k =
    ground (arith, k.graph, k.subject, k.predicate, k.object)
graph_range-Asked g (some sv) none o q hg hs hp ho k =
    ground (arith, k.graph, k.subject, k.predicate, k.object)
graph_range-Asked g none p o q hg hs hp ho k =
    ground (arith, k.graph, k.subject, k.predicate, k.object)
