-- ===== src/Store/Memory/Demo.antt =====
-- A small vocabulary, and two quads of it.
use native.Mathlib.Decide.{ℕ_discrete}
use oxigraph_nova.Prelude.{none, [], ◌∷◌, if◌then◌else◌, ◌==◌}
use oxigraph_nova.Prelude.Bytes.{Bytes}
use oxigraph_nova.Rdf.{
  Oxrdf, Subject, named, Term, bnode, literal, named_graph, default_graph, GraphName, Quad,
}
use oxigraph_nova.Store.Memory.{Equality}

pub data Node : Type 0 where
  ex_a ex_b : Node

unfoldable pub Node-discrete : Discrete Node
Node-discrete = hlevel

abbrev pub node_text : Node → Bytes
node_text ex_a = 97 ∷ []
node_text ex_b = 98 ∷ []

abbrev pub demo : Oxrdf
demo = record {
  NamedNode = Node;
  BlankNode = Unit {0};
  Literal = Unit {0};
  node_str = node_text;
  new_node = λ s. elim s [ [] ↦ ex_a | n ∷ _ ↦ if n == 97 then ex_a else ex_b ];
  blank_str = λ _. 98 ∷ [];
  new_blank = λ _. tt;
  value = λ _. 118 ∷ [];
  language = λ _. none;
  direction = λ _. none;
  datatype = λ _. ex_a;
  new_simple = λ _. tt;
  new_tagged = λ _ _. tt;
  new_directional = λ _ _ _. tt;
  new_typed = λ _ _. tt;
  xsd_string = ex_b;
  node_eq = Node-discrete;
}

unfoldable pub Subject-discrete : Discrete (Subject demo)
Subject-discrete = hlevel

unfoldable pub Term-discrete : Discrete (Term demo)
Term-discrete = hlevel

unfoldable pub Graph-discrete : Discrete (GraphName demo)
Graph-discrete = hlevel

unfoldable pub Bytes-discrete : Discrete Bytes
Bytes-discrete = hlevel (ℕ_discrete)

unfoldable pub Quad-discrete : Discrete (Quad demo)
Quad-discrete = hlevel

abbrev pub demo_eq : Equality demo
demo_eq = record {
  quad_eq = Quad-discrete;
  term_eq = Term-discrete;
  graph_eq = Graph-discrete;
  text_eq = Bytes-discrete;
}

abbrev pub first : Quad demo
first = record {
  subject = named ex_a;
  predicate = ex_b;
  object = literal tt;
  graph_name = named_graph ex_a;
}

abbrev pub second : Quad demo
second = record first { object = bnode tt; graph_name = default_graph }
