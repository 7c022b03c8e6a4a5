-- ===== src/Louds/Batch.antt =====
-- store.rs: batches, the number of quads, and the graphs, of a store in memory, which has no log and
-- is compacted on demand only.
pub mod Agree
use oxigraph_nova.Prelude.{
  ℕ, ◌+◌, ◌-◌, Bool, true, false, Option, none, some, List, [], ◌∷◌, ◌==◌, if◌then◌else◌,
}
use oxigraph_nova.Prelude.Result.{Result, ok, err}
use oxigraph_nova.Rdf.{Oxrdf, GraphName, named_graph, blank_graph, default_graph, Quad}
use oxigraph_nova.Dictionary.Keys.{GraphId}
use oxigraph_nova.Louds.Parts.{Parts}
use oxigraph_nova.Louds.Delta.{insert_count, tombstone_count}
use oxigraph_nova.Louds.Store.{
  Slot, Inner, add_id, and_then, intern_name, apply_insert, apply_remove,
}
use oxigraph_nova.Store.Memory.{Equality, QuadOp, insert_op, remove_op, count_if}

module _ (x : Oxrdf) (eq : Equality x) (parts : Parts x) where
  -- The numbers inserted and removed so far come with the operations that are left.
  unfoldable pub apply_ops :
      Inner x parts → ℕ → ℕ → List (QuadOp x eq) → Inner x parts × Result (ℕ × ℕ)
  apply_ops st inserted removed [] = (st, ok (inserted, removed))
  apply_ops st inserted removed (insert_op q ∷ ops) =
      and_then x parts (apply_insert x parts st q)
        (λ st' new_quad. apply_ops st' (count_if x eq new_quad inserted) removed ops)
  apply_ops st inserted removed (remove_op q ∷ ops) =
      let (st', present) = apply_remove x parts st q in
      apply_ops st' inserted (count_if x eq present removed) ops

  unfoldable pub apply_batch : Inner x parts → List (QuadOp x eq) → Inner x parts × Result (ℕ × ℕ)
  unfolding apply_ops
  apply_batch st ops = apply_ops st 0 0 ops

  abbrev pub ring_total : List (Slot x parts) → ℕ
  ring_total [] = 0
  ring_total (slot ∷ slots) = parts.rings.ring_len slot.ring + ring_total slots

  unfoldable pub len : Inner x parts → ℕ
  unfolding insert_count tombstone_count
  len st = ring_total st.graphs - tombstone_count st.delta + insert_count st.delta

  abbrev pub registered : Inner x parts × Result GraphId → Inner x parts × Result (Unit {0})
  registered (st, err e) = (st, err e)
  registered (st, ok g) =
      (record st { named_graph_ids = add_id x parts st.named_graph_ids g.raw }, ok tt)

  unfoldable pub apply_register_graph :
      Inner x parts → GraphName x → Inner x parts × Result (Unit {0})
  apply_register_graph st (named_graph n) = registered (intern_name x parts st (named_graph n))
  apply_register_graph st (blank_graph b) = (st, ok tt)
  apply_register_graph st default_graph = (st, ok tt)
