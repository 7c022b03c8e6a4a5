-- ===== src/Dictionary/Tests.antt =====
-- The dictionary at concrete inputs.
use oxigraph_nova.Prelude.{
  ◌≤◌, ◌++◌, List, [], ◌∷◌, some, length, refl, ℕ, ◌<◌, ◌≡◌, ◌↔◌, arith, ℕ_discrete,
}
use oxigraph_nova.Dictionary.Keys.{
  QuadKey, new_term_id, graph_id, term_id, pack_quad, unpack_quad, IsKey, Before,
  unpack_quad-pack_quad, Before-pack_quad,
}
use oxigraph_nova.Dictionary.Varint.{write_varint, read_varint, read_varint-write_varint}
use oxigraph_nova.Dictionary.Graphs.{
  no_graphs, intern_graph, Interned, no_graphs-IsLinked, intern_graph-Interned,
}
use oxigraph_nova.Dictionary.Terms.{Terms, no_terms, intern, intern_regular, intern_triple}
use oxigraph_nova.Dictionary.Terms.Tables.{no_terms-IsDictionary}
use oxigraph_nova.Dictionary.Terms.Interned.{Interns, intern-Interns}
use oxigraph_nova.Prelude.Result.{ok}
use oxigraph_nova.Rdf.{Term, triple, named, blank, literal}
use oxigraph_nova.Store.Memory.Demo.{demo, demo_eq, ex_a, ex_b, Term-discrete}

abbrev first_key : QuadKey
first_key = record { g = graph_id 3; s = term_id 1099511627775; p = term_id 2; o = term_id 7 }

abbrev second_key : QuadKey
second_key = record { g = graph_id 4; s = term_id 0; p = term_id 5; o = term_id 1 }

first_key-IsKey : IsKey first_key
first_key-IsKey = record {
  graph = omega arith;
  subject = omega arith;
  predicate = omega arith;
  object = omega arith;
}

second_key-IsKey : IsKey second_key
second_key-IsKey = record {
  graph = omega arith;
  subject = omega arith;
  predicate = omega arith;
  object = omega arith;
}

unpack_quad-pack_quad_example :
    (unpack_quad (pack_quad first_key) ≡ first_key)
    × (pack_quad first_key < 340282366920938463463374607431768211456)
unpack_quad-pack_quad_example = unpack_quad-pack_quad first_key first_key-IsKey

Before-pack_quad_example :
    (pack_quad first_key < pack_quad second_key) ↔ Before first_key second_key
Before-pack_quad_example = Before-pack_quad first_key second_key first_key-IsKey second_key-IsKey

-- Names are numbers here, and the default graph is 0.
intern_graph-Interned_example :
    Interned ℕ ℕ_discrete 0
      (no_graphs ℕ ℕ_discrete 0)
      9
      (intern_graph ℕ ℕ_discrete 0 (no_graphs ℕ ℕ_discrete 0) 9)
intern_graph-Interned_example =
    intern_graph-Interned ℕ ℕ_discrete 0 (no_graphs ℕ ℕ_discrete 0) 9
      (no_graphs-IsLinked ℕ ℕ_discrete 0)

-- 300 is 2 * 128 + 44.
write_varint_run : write_varint 300 ≡ some (172 ∷ 2 ∷ [])
unfolding write_varint
write_varint_run = refl

read_varint-write_varint_example :
    (bs : List ℕ) × (write_varint 300 ≡ some bs)
    × (length bs ≤ 10)
    × (read_varint (bs ++ 7 ∷ []) ≡ some (300, 7 ∷ []))
read_varint-write_varint_example = read_varint-write_varint 300 (7 ∷ []) (omega arith)

-- A quoted triple whose object is another one, and names a node of it again.
abbrev nested : Term demo
nested = triple (named ex_a) ex_b (triple (blank tt) ex_a (literal tt))

abbrev no_ids : Terms demo demo_eq.term_eq
no_ids = no_terms demo demo_eq.term_eq

-- Four nodes and literals and the inner triple get the ids in front of it.
nested_run : (intern demo demo_eq.term_eq no_ids nested).1 ≡ ok (term_id 5)
unfolding intern no_terms intern_regular intern_triple new_term_id Term-discrete
nested_run = refl

intern-Interns_example :
    Interns demo demo_eq.term_eq no_ids nested (intern demo demo_eq.term_eq no_ids nested)
intern-Interns_example =
    intern-Interns demo demo_eq.term_eq no_ids nested (no_terms-IsDictionary demo demo_eq.term_eq)
