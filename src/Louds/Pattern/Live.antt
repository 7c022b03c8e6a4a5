-- ===== src/Louds/Pattern/Live.antt =====
-- The scan of a graph against the delta and the graph's ring.
use oxigraph_nova.Prelude.{ℕ, ◌<◌, ◌≡◌, ◌↔◌, ◌⊎◌, true, Option, none, some, List, ◌++◌}
use oxigraph_nova.Rdf.{Oxrdf}
use oxigraph_nova.Reasoning.Keys.{In}
use oxigraph_nova.Store.Memory.{Equality}
use oxigraph_nova.Dictionary.Keys.{GraphId, graph_id, term_id, QuadKey, IsKey, pack_quad}
use oxigraph_nova.Louds.Parts.{Triple, Parts}
use oxigraph_nova.Louds.Delta.{Entry, get, entries_in, graph_range}
use oxigraph_nova.Louds.Delta.Laws.{IsDelta}
use oxigraph_nova.Louds.Delta.Range.{IsTermId}
use oxigraph_nova.Louds.Store.{Inner, get_ring, triple_of}
use oxigraph_nova.Louds.Pattern.{Pattern, seen, delta_keys, ring_keys, matched}
use oxigraph_nova.Louds.Pattern.Scan.{Fits}

abbrev zero_key : QuadKey
zero_key = record { g = graph_id 0; s = term_id 0; p = term_id 0; o = term_id 0 }

-- The ids of a pattern have 8 and 40 bits.
pub record IsPattern (g : GraphId) (pattern : Pattern) : Type 0 where
  pub graph : g.raw < 256
  pub subject : IsTermId pattern.s
  pub predicate : IsTermId pattern.p
  pub object : IsTermId pattern.o

module _ (g : GraphId) (pattern : Pattern) (ids : IsPattern g pattern) where
  abbrev ends : ℕ × ℕ
  ends = graph_range g pattern.s pattern.p pattern.o

  module _ (x : Oxrdf) (eq : Equality x) (parts : Parts x) (st : Inner x parts)
      (inv : IsDelta st.delta) where
    abbrev entries : List Entry
    entries = entries_in st.delta ends.0 ends.1

    -- The triples that the graph's ring gives for the pattern.
    abbrev pub offered : List Triple
    offered = matched x eq parts (get_ring x parts st.graphs g.raw) pattern

    abbrev ring_part : List QuadKey
    ring_part = ring_keys g (seen g pattern entries) offered

    scanned : List QuadKey
    scanned = delta_keys g pattern entries ++ ring_part

-- What a scan finds.
pub record Scanned (x : Oxrdf) (eq : Equality x) (parts : Parts x) (st : Inner x parts)
    (g : GraphId) (pattern : Pattern) (ks : List QuadKey) : Type 0 where
  pub fitting :
      (k : QuadKey)
      → IsKey k
      → Fits g pattern k
      → In k ks ↔ (
          (get st.delta (pack_quad k) ≡ some true)
          ⊎ ((get st.delta (pack_quad k) ≡ none)
              × In (triple_of k) (matched x eq parts (get_ring x parts st.graphs g.raw) pattern)))
  pub only :
      (k : QuadKey)
      → In k ks
      → (k.g.raw ≡ g.raw)
        × (Fits g pattern k
            ⊎ In (triple_of k) (matched x eq parts (get_ring x parts st.graphs g.raw) pattern))
