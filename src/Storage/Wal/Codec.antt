-- ===== src/Storage/Wal/Codec.antt =====
-- wal.rs, the encoding of records. A `write_…` function is the bytes that it appends to `buf`; a
-- `read_…` function takes `buf[pos..]` and returns the value with the bytes behind it.
use mathlib.Core.Logic.{ite}
use oxigraph_nova.Prelude.{
  ℕ, zero, suc, ◌%◌, true, false, Option, none, some, [], ◌∷◌, ◌++◌, ltb, ◌==◌, if◌then◌else◌,
  length, take, drop,
}
use oxigraph_nova.Prelude.Result.{Result, ok, err, Fault, storage, ◌>>=◌}
use oxigraph_nova.Prelude.Bytes.{Bytes, u32_mod, le32, of_le32, is_utf8}
use oxigraph_nova.Rdf.{
  BaseDirection, ltr, rtl, Oxrdf, Subject, named, blank, Term, iri, bnode, literal, triple,
  GraphName, default_graph, named_graph, blank_graph, Quad,
}

abbrev pub Read : Type 0 → Type 0
Read A = Result (A × Bytes)

-- `bytes.len() as u32` wraps.
unfoldable pub write_string : Bytes → Bytes
write_string s = le32 (length s % u32_mod) ++ s

unfoldable pub read_string : Bytes → Read Bytes
read_string buf =
    if ltb (length buf) 4
    then err (storage Fault.truncated_string_length)
    else (let len = of_le32 (take 4 buf) in
        let rest = drop 4 buf in
        if ltb (length rest) len
        then err (storage Fault.truncated_string_content)
        else if is_utf8 (take len rest)
        then ok (take len rest, drop len rest)
        else err (storage Fault.invalid_utf8))

unfoldable pub read_tag : Bytes → Read ℕ
read_tag [] = err (storage Fault.truncated_tag)
read_tag (b ∷ rest) = ok (b, rest)

module _ (x : Oxrdf) where
  open x use {
    NamedNode, BlankNode, Literal, node_str, new_node, blank_str, new_blank, value, language,
    direction, datatype, new_simple, new_tagged, new_directional, new_typed, xsd_string, node_eq,
  }

  pub data WalRecord : Type 0 where
    insert_quad : Quad x → WalRecord
    remove_quad : Quad x → WalRecord
    register_graph : GraphName x → WalRecord

  unfoldable pub tag : WalRecord → ℕ
  tag (insert_quad _) = 1
  tag (remove_quad _) = 2
  tag (register_graph _) = 3

  direction_byte : BaseDirection → ℕ
  direction_byte ltr = 0
  direction_byte rtl = 1

  -- `l.language().unwrap_or("")`
  language_or_empty : Option Bytes → Bytes
  language_or_empty none = []
  language_or_empty (some t) = t

  write_undirected : Literal → Option Bytes → Bytes
  write_undirected l (some lang) = 3 ∷ write_string (value l) ++ write_string lang
  write_undirected l none =
      ite (node_eq (datatype l) xsd_string) (2 ∷ write_string (value l))
        (5 ∷ write_string (value l) ++ write_string (node_str (datatype l)))

  unfoldable pub write_literal : Literal → Option BaseDirection → Bytes
  unfolding write_undirected language_or_empty direction_byte
  write_literal l (some d) =
      4 ∷ write_string (value l)
      ++ (write_string (language_or_empty (language l)) ++ direction_byte d ∷ [])
  write_literal l none = write_undirected l (language l)

  -- `none` is the panic of the `unreachable!` arm.
  unfoldable pub write_term : Term x → Option Bytes
  unfolding write_literal
  write_term (iri n) = some (0 ∷ write_string (node_str n))
  write_term (bnode b) = some (1 ∷ write_string (blank_str b))
  write_term (literal l) = some (write_literal l (direction l))
  write_term (triple _ _ _) = none

  unfoldable pub write_subject : Subject x → Bytes
  write_subject (named n) = 0 ∷ write_string (node_str n)
  write_subject (blank b) = 1 ∷ write_string (blank_str b)

  after : Bytes → Option Bytes → Option Bytes
  after front none = none
  after front (some back) = some (front ++ back)

  unfoldable pub write_object_term : Term x → Option Bytes
  unfolding write_term after
  write_object_term (triple s p o) =
      after (6 ∷ write_subject s ++ write_string (node_str p)) (write_object_term o)
  write_object_term (iri n) = write_term (iri n)
  write_object_term (bnode b) = write_term (bnode b)
  write_object_term (literal l) = write_term (literal l)

  unfoldable pub write_graph_name : GraphName x → Bytes
  write_graph_name default_graph = 2 ∷ []
  write_graph_name (named_graph n) = 0 ∷ write_string (node_str n)
  write_graph_name (blank_graph b) = 1 ∷ write_string (blank_str b)

  unfoldable pub write_quad : Quad x → Option Bytes
  unfolding after
  write_quad q =
      after
        (write_graph_name q.graph_name
          ++ (write_subject q.subject ++ write_string (node_str q.predicate)))
        (write_object_term q.object)

  unfoldable pub encode_record : WalRecord → Option Bytes
  unfolding after tag
  encode_record (insert_quad q) = after (tag (insert_quad q) ∷ []) (write_quad q)
  encode_record (remove_quad q) = after (tag (remove_quad q) ∷ []) (write_quad q)
  encode_record (register_graph g) = some (tag (register_graph g) ∷ write_graph_name g)

  read_node : Bytes → Read NamedNode
  read_node buf = do (s, rest) ← read_string buf; ok (new_node s, rest)

  read_blank : Bytes → Read BlankNode
  read_blank buf = do (s, rest) ← read_string buf; ok (new_blank s, rest)

  direction_of : ℕ → Result BaseDirection
  direction_of b =
      if b == 0 then ok ltr else if b == 1 then ok rtl else err (storage Fault.invalid_direction)

  read_directional : Bytes → Read (Term x)
  unfolding direction_of
  read_directional buf = do
    (v, r1) ← read_string buf
    (lang, r2) ← read_string r1
    (b, r3) ← read_tag r2
    d ← direction_of b
    ok (literal (new_directional v lang d), r3)

  unfoldable pub read_term_from_tag : ℕ → Bytes → Read (Term x)
  unfolding read_node read_blank read_directional
  read_term_from_tag t buf =
      if t == 0
      then (do (n, r) ← read_node buf; ok (iri n, r))
      else if t == 1
      then (do (b, r) ← read_blank buf; ok (bnode b, r))
      else if t == 2
      then (do (v, r) ← read_string buf; ok (literal (new_simple v), r))
      else if t == 3
      then (do
        (v, r1) ← read_string buf
        (lang, r) ← read_string r1
        ok (literal (new_tagged v lang), r))
      else if t == 4
      then read_directional buf
      else if t == 5
      then (do (v, r1) ← read_string buf; (d, r) ← read_node r1; ok (literal (new_typed v d), r))
      else err (storage Fault.unknown_term_tag)

  unfoldable pub read_subject_from_tag : Bytes → Read (Subject x)
  unfolding read_node read_blank
  read_subject_from_tag buf = do
    (t, rest) ← read_tag buf
    if t == 0
        then (do (n, r) ← read_node rest; ok (named n, r))
        else if t == 1
        then (do (b, r) ← read_blank rest; ok (blank b, r))
        else err (storage Fault.unknown_subject_tag)

  -- The nesting of quoted triples is bounded by the bytes left, which are the fuel.
  unfoldable pub read_nested : ℕ → Bytes → Read (Term x)
  unfolding read_term_from_tag read_subject_from_tag read_node
  read_nested zero buf = err (storage Fault.out_of_fuel)
  read_nested (suc fuel) buf = do
    (t, rest) ← read_tag buf
    elim (t == 6) [
      | true ↦ do
        (s, r1) ← read_subject_from_tag rest
        (p, r2) ← read_node r1
        (o, r3) ← read_nested fuel r2
        ok (triple s p o, r3)
      | false ↦ read_term_from_tag t rest
    ]

  unfoldable pub read_object_term : Bytes → Read (Term x)
  read_object_term buf = read_nested (suc (length buf)) buf

  unfoldable pub read_graph_name : Bytes → Read (GraphName x)
  unfolding read_node read_blank
  read_graph_name buf = do
    (t, rest) ← read_tag buf
    if t == 0
        then (do (n, r) ← read_node rest; ok (named_graph n, r))
        else if t == 1
        then (do (b, r) ← read_blank rest; ok (blank_graph b, r))
        else if t == 2
        then ok (default_graph, rest)
        else err (storage Fault.unknown_graph_tag)

  unfoldable pub read_quad : Bytes → Read (Quad x)
  unfolding read_graph_name read_subject_from_tag read_node
  read_quad buf = do
    (g, r1) ← read_graph_name buf
    (s, r2) ← read_subject_from_tag r1
    (p, r3) ← read_node r2
    (o, r4) ← read_object_term r3
    ok (record { subject = s; predicate = p; object = o; graph_name = g }, r4)

  unfoldable pub decode_record : Bytes → Result WalRecord
  unfolding read_quad
  decode_record buf = do
    (t, rest) ← read_tag buf
    if t == 1
        then (do (q, _) ← read_quad rest; ok (insert_quad q))
        else if t == 2
        then (do (q, _) ← read_quad rest; ok (remove_quad q))
        else if t == 3
        then (do (g, _) ← read_graph_name rest; ok (register_graph g))
        else err (storage Fault.unknown_record_tag)
