-- ===== src/Rdf.antt =====
-- The RDF terms that the storage crates pass around. They are the `oxrdf` crate's, which is a
-- dependency: its nodes and literals are a parameter, with the laws of its documentation.
use oxigraph_nova.Prelude.{◌≡◌, ◌≢◌, true, Option, none, some}
use oxigraph_nova.Prelude.Bytes.{Bytes, is_utf8}

-- `oxrdf::BaseDirection`
pub data BaseDirection : Type 0 where
  ltr rtl : BaseDirection

-- What the code calls of `oxrdf::{NamedNode, BlankNode, Literal}`. A `str` is its bytes.
pub record Oxrdf : Type 1 where
  pub NamedNode : Type 0
  pub BlankNode : Type 0
  pub Literal : Type 0
  pub node_str : NamedNode → Bytes
  pub new_node : Bytes → NamedNode
  pub blank_str : BlankNode → Bytes
  pub new_blank : Bytes → BlankNode
  pub value : Literal → Bytes
  pub language : Literal → Option Bytes
  pub direction : Literal → Option BaseDirection
  pub datatype : Literal → NamedNode
  pub new_simple : Bytes → Literal
  pub new_tagged : Bytes → Bytes → Literal
  pub new_directional : Bytes → Bytes → BaseDirection → Literal
  pub new_typed : Bytes → NamedNode → Literal
  pub xsd_string : NamedNode
  -- equality of nodes, as `==` on `NamedNode` decides it
  pub node_eq : (a b : NamedNode) → Dec (a ≡ b)

-- Every `str` is UTF-8, a node is its text, and a literal is rebuilt from what it shows.
pub record OxrdfLaws (x : Oxrdf) : Type 0 where
  pub node_utf8 : (n : x.NamedNode) → is_utf8 (x.node_str n) ≡ true
  pub blank_utf8 : (b : x.BlankNode) → is_utf8 (x.blank_str b) ≡ true
  pub value_utf8 : (l : x.Literal) → is_utf8 (x.value l) ≡ true
  pub language_utf8 : (l : x.Literal) (t : Bytes) → x.language l ≡ some t → is_utf8 t ≡ true
  pub node_text : (n : x.NamedNode) → x.new_node (x.node_str n) ≡ n
  pub blank_text : (b : x.BlankNode) → x.new_blank (x.blank_str b) ≡ b
  -- only a language-tagged literal has a direction
  pub directed_tagged :
      (l : x.Literal) (d : BaseDirection) → x.direction l ≡ some d → x.language l ≢ none
  pub simple_lem :
      (l : x.Literal)
      → x.language l ≡ none
      → x.datatype l ≡ x.xsd_string
      → x.new_simple (x.value l) ≡ l
  pub tagged_lem :
      (l : x.Literal) (t : Bytes)
      → x.direction l ≡ none
      → x.language l ≡ some t
      → x.new_tagged (x.value l) t ≡ l
  pub directional_lem :
      (l : x.Literal) (t : Bytes) (d : BaseDirection)
      → x.direction l ≡ some d
      → x.language l ≡ some t
      → x.new_directional (x.value l) t d ≡ l
  pub typed_lem : (l : x.Literal) → x.language l ≡ none → x.new_typed (x.value l) (x.datatype l) ≡ l

module _ (x : Oxrdf) where
  open x use {NamedNode, BlankNode, Literal}

  pub data Subject : Type 0 where
    named : NamedNode → Subject
    blank : BlankNode → Subject

  pub data Term : Type 0 where
    iri : NamedNode → Term
    bnode : BlankNode → Term
    literal : Literal → Term
    -- a quoted triple
    triple : Subject → NamedNode → Term → Term

  pub data GraphName : Type 0 where
    default_graph : GraphName
    named_graph : NamedNode → GraphName
    blank_graph : BlankNode → GraphName

  pub record Quad : Type 0 where
    pub subject : Subject
    pub predicate : NamedNode
    pub object : Term
    pub graph_name : GraphName
