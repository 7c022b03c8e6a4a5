-- ===== src/Louds/Compact.antt =====
-- store.rs, `compact_locked` up to the new rings: the rings' triples with the delta merged into them,
-- and `build_graphs_from_triples`. The compaction of the dictionary and the commit are left out.
pub mod Groups
pub mod Merge
pub mod Rings
pub mod Rebuilt
use oxigraph_nova.Prelude.{
  ℕ, ◌+◌, ◌-◌, Bool, true, false, ◌&&◌, Option, none, some, List, [], ◌∷◌, ◌++◌, ◌==◌,
  if◌then◌else◌, map,
}
use oxigraph_nova.Prelude.Result.{Result, ok, err}
use oxigraph_nova.Rdf.{Oxrdf}
use oxigraph_nova.Dictionary.Keys.{QuadKey, unpack_quad}
use oxigraph_nova.Louds.Parts.{Triple, Parts}
use oxigraph_nova.Louds.Delta.{Entry, clear}
use oxigraph_nova.Louds.Store.{Slot, Inner, triple_of}

-- An entry of the `HashMap` of the triples by graph.
pub record Group : Type 0 where
  pub graph : ℕ
  pub triples : List Triple

abbrev pub triple_eq : Triple → Triple → Bool
triple_eq a b = a.s.raw == b.s.raw && (a.p.raw == b.p.raw && a.o.raw == b.o.raw)

-- `retain(|t| t != &triple)`
unfoldable pub retain_not : List Triple → Triple → List Triple
retain_not [] t = []
retain_not (u ∷ us) t = let rest = retain_not us t in if triple_eq u t then rest else u ∷ rest

-- `entry(g).or_default()`, with what is done to the triples.
unfoldable pub at_group : List Group → ℕ → (List Triple → List Triple) → List Group
at_group [] g f = record { graph = g; triples = f [] } ∷ []
at_group (e ∷ es) g f =
    let rest = at_group es g f in
    if e.graph == g then record e { triples = f e.triples } ∷ es else e ∷ rest

abbrev pub merge_entry : List Group → QuadKey → Bool → List Group
merge_entry groups k true = at_group groups k.g.raw (λ ts. ts ++ triple_of k ∷ [])
merge_entry groups k false = at_group groups k.g.raw (λ ts. retain_not ts (triple_of k))

unfoldable pub merge_delta : List Entry → List Group → List Group
unfolding at_group retain_not
merge_delta [] groups = groups
merge_delta (e ∷ m) groups = merge_delta m (merge_entry groups (unpack_quad e.key) e.live)

module _ (x : Oxrdf) (parts : Parts x) where
  open parts use {rings}

  unfoldable pub ring_groups : List (Slot x parts) → List Group
  ring_groups [] = []
  ring_groups (slot ∷ slots) =
      record { graph = slot.graph; triples = rings.spo_triples slot.ring } ∷ ring_groups slots

  -- A graph without triples gets no ring.
  abbrev pub add_built : ℕ → List Triple → List (Slot x parts) → List (Slot x parts)
  add_built g [] rest = rest
  add_built g (t ∷ ts) rest = record { graph = g; ring = rings.build (t ∷ ts) } ∷ rest

  unfoldable pub build_graphs_from_triples : List Group → List (Slot x parts)
  build_graphs_from_triples [] = []
  build_graphs_from_triples (e ∷ es) = add_built e.graph e.triples (build_graphs_from_triples es)
