-- ===== src/Louds/Delta/Tests.antt =====
-- The delta's ranges at concrete ids.
use oxigraph_nova.Prelude.{◌≤◌, ◌↔◌, refl, ◌≡◌, none, some, [], ◌∷◌, true, false, arith}
use oxigraph_nova.Dictionary.Keys.{term_id, graph_id, QuadKey, IsKey, pack_quad}
use oxigraph_nova.Louds.Delta.{
  entry, new, insert_key, tombstone_key, map_insert, range_inclusive, graph_range,
}
use oxigraph_nova.Louds.Delta.Range.{Asked, graph_range-Asked}

abbrev key : QuadKey
key = record { g = graph_id 7; s = term_id 1; p = term_id 2; o = term_id 3 }

key-IsKey : IsKey key
key-IsKey = record {
  graph = omega arith;
  subject = omega arith;
  predicate = omega arith;
  object = omega arith;
}

graph_range-Asked_example :
    let r = graph_range (graph_id 7) (some (term_id 1)) none (some (term_id 9)) in
    (r.0 ≤ r.1)
    × (((r.0 ≤ pack_quad key) × (pack_quad key ≤ r.1))
        ↔ Asked (graph_id 7) (some (term_id 1)) none (some (term_id 9)) key)
graph_range-Asked_example =
    graph_range-Asked (graph_id 7) (some (term_id 1)) none (some (term_id 9)) key (omega arith)
      (omega arith) tt (omega arith) key-IsKey

range_run :
    range_inclusive (tombstone_key (insert_key (insert_key new 5) 3) 8) 4 8
    ≡ some (entry 5 true ∷ entry 8 false ∷ [])
unfolding range_inclusive tombstone_key insert_key new map_insert
range_run = refl
