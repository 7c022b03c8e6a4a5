-- ===== src/Louds/Compact/Rebuilt.antt =====
-- store.rs, `compact_locked`: the triples that a compaction gathers, and the rings that it builds.
use mathlib.Core.Path.{subst}
use oxigraph_nova.Prelude.{ℕ, ◌≡◌, ◌↔◌, inl, inr, refl, sym, Bool, List, [], ◌∷◌}
use oxigraph_nova.Rdf.{Oxrdf}
use oxigraph_nova.Dictionary.Keys.{QuadKey, IsKey, pack_quad}
use oxigraph_nova.Reasoning.Keys.{In}
use oxigraph_nova.Store.Vec.{Nodup}
use oxigraph_nova.Louds.Parts.{Parts}
use oxigraph_nova.Louds.Delta.{Entry, entry, get}
use oxigraph_nova.Louds.Delta.Laws.{IsDelta}
use oxigraph_nova.Louds.Store.{Slot, triple_of, get_ring}
use oxigraph_nova.Louds.Compact.{Group, ring_groups, merge_delta, build_graphs_from_triples}
use oxigraph_nova.Louds.Compact.Groups.{triples_of}
use oxigraph_nova.Louds.Compact.Merge.{Overlaid, AllPacked, In-merge_delta, merge_delta-Nodup}
use oxigraph_nova.Louds.Compact.Rings.{
  slot_ids, slot_triples, triples_of-ring_groups, graph_ids-ring_groups, ring_of, built-Nodup,
  built-ring_of,
}

keyed-AllPacked :
    (m : List Entry)
    → ((n : ℕ) (v : Bool) → In (entry n v) m → (k : QuadKey) × IsKey k × (n ≡ pack_quad k))
    → AllPacked m
keyed-AllPacked [] h = tt
keyed-AllPacked (e ∷ m) h = (h e.key e.live (inl refl), keyed-AllPacked m (λ n v i. h n v (inr i)))

module _ (x : Oxrdf) (parts : Parts x) where
  -- What the groups of triples are to the rings and the delta, and the new rings to the groups.
  pub record Rebuilt (m : List Entry) (slots : List (Slot x parts)) (groups : List Group)
      (built : List (Slot x parts)) : Type 0 where
    -- an insertion of the delta is in, a tombstone is out, and the ring decides the rest
    pub gathered :
        (k : QuadKey)
        → IsKey k
        → In (triple_of k) (triples_of groups k.g.raw)
          ↔ Overlaid (get m (pack_quad k)) (In (triple_of k) (slot_triples x parts slots k.g.raw))
    -- a graph has a ring if it has triples, which is built of them
    pub rebuilt : (g : ℕ) → get_ring x parts built g ≡ ring_of x parts (triples_of groups g)
    pub once : Nodup (slot_ids x parts built)

  -- For a delta whose keys are in order and pack quads, and rings of distinct graphs, the triples that
  -- compaction gathers for a graph are the triples of the graph's ring with the insertions of the
  -- delta and without its tombstones, whichever came first; each graph that has any gets one ring,
  -- built of exactly these, and a graph without triples gets none. Nothing is assumed of the rings.
  pub merge_delta-Rebuilt :
      (m : List Entry) (slots : List (Slot x parts))
      → IsDelta m
      → Nodup (slot_ids x parts slots)
      → let groups = merge_delta m (ring_groups x parts slots) in
        Rebuilt m slots groups (build_graphs_from_triples x parts groups)
  merge_delta-Rebuilt m slots h distinct =
      let groups = merge_delta m (ring_groups x parts slots) in
      let old_once = subst Nodup (sym (graph_ids-ring_groups x parts slots)) distinct in
      let once = merge_delta-Nodup m (ring_groups x parts slots) old_once in
      record {
        gathered = λ k key.
            subst
              (λ ts.
                In (triple_of k) (triples_of groups k.g.raw)
                ↔ Overlaid (get m (pack_quad k)) (In (triple_of k) ts))
              (triples_of-ring_groups x parts slots k.g.raw)
              (In-merge_delta m (ring_groups x parts slots) k h.sorted (keyed-AllPacked m h.keyed)
                key);
        rebuilt = λ g. built-ring_of x parts groups g once;
        once = built-Nodup x parts groups once;
      }
