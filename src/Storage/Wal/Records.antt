-- ===== src/Storage/Wal/Records.antt =====
-- wal.rs: graph names, quads and whole records survive the encoding.
use oxigraph_nova.Prelude.{◌≡◌, refl, some, [], ◌∷◌, ◌++◌, append_assoc, append-nil}
use oxigraph_nova.Prelude.Result.{ok}
use oxigraph_nova.Prelude.Bytes.{Bytes}
use oxigraph_nova.Rdf.{Oxrdf, OxrdfLaws, GraphName, default_graph, named_graph, blank_graph, Quad}
use oxigraph_nova.Storage.Wal.Codec.{
  write_string, read_tag, write_subject, write_graph_name, write_quad, encode_record,
  read_graph_name, read_quad, decode_record, WalRecord, insert_quad, remove_quad, register_graph,
}
use oxigraph_nova.Storage.Wal.RoundTrip.{
  Fits, SubjectFits, TermFits, Written, written, read_string-write_string,
  read_subject-write_subject, read_object_term-written,
}

module _ (x : Oxrdf) (laws : OxrdfLaws x) where
  open x use {node_str, blank_str}

  abbrev pub GraphFits : GraphName x → Type 0
  GraphFits default_graph = Unit
  GraphFits (named_graph n) = Fits (node_str n)
  GraphFits (blank_graph b) = Fits (blank_str b)

  pub record QuadFits (q : Quad x) : Type 0 where
    pub graph : GraphFits q.graph_name
    pub subject : SubjectFits x laws q.subject
    pub predicate : Fits (node_str q.predicate)
    pub object : TermFits x laws q.object

  -- Every string of the record has a length below 2^32.
  abbrev pub RecordFits : WalRecord x → Type 0
  RecordFits (insert_quad q) = QuadFits q
  RecordFits (remove_quad q) = QuadFits q
  RecordFits (register_graph g) = GraphFits g

  read_graph_name-write_graph_name :
      (g : GraphName x) (rest : Bytes)
      → GraphFits g
      → read_graph_name x (write_graph_name x g ++ rest) ≡ ok (g, rest)
  unfolding read_graph_name write_graph_name read_tag
  read_graph_name-write_graph_name default_graph rest h = refl
  read_graph_name-write_graph_name (named_graph n) rest h =
      simp (read_string-write_string (node_str n) rest (laws.node_utf8 n) h, laws.node_text n)
  read_graph_name-write_graph_name (blank_graph b) rest h =
      simp (read_string-write_string (blank_str b) rest (laws.blank_utf8 b) h, laws.blank_text b)

  module _ (q : Quad x) (fits : QuadFits q) where
    abbrev front : Bytes
    front =
        write_graph_name x q.graph_name
        ++ (write_subject x q.subject ++ write_string (node_str q.predicate))

    quad-Written :
        Written x laws q.object
        → (bs : Bytes) × (write_quad x q ≡ some bs) × (read_quad x bs ≡ ok (q, []))
    unfolding write_quad read_quad
    quad-Written (back, e, deep, reads) = (
      front ++ back,
      rw e,
      simp (
        append_assoc,
        read_graph_name-write_graph_name q.graph_name
            (write_subject x q.subject ++ (write_string (node_str q.predicate) ++ back)) fits.graph,
        read_subject-write_subject x laws q.subject (write_string (node_str q.predicate) ++ back)
            fits.subject,
        read_string-write_string (node_str q.predicate) back (laws.node_utf8 q.predicate)
            fits.predicate,
        laws.node_text q.predicate,
        read_object_term-written x laws q.object back deep reads,
      ),
    )

  -- Every record whose strings fit their length prefix is encoded, without reaching the
  -- `unreachable!` arm, to bytes that decode to that record.
  pub decode_record-encode_record :
      (r : WalRecord x)
      → RecordFits r
      → (bs : Bytes) × (encode_record x r ≡ some bs) × (decode_record x bs ≡ ok r)
  unfolding encode_record decode_record read_tag
  decode_record-encode_record (insert_quad q) h =
      let (bs, e, back) = quad-Written q h (written x laws q.object h.object) in
      (1 ∷ bs, rw e, rw back)
  decode_record-encode_record (remove_quad q) h =
      let (bs, e, back) = quad-Written q h (written x laws q.object h.object) in
      (2 ∷ bs, rw e, rw back)
  decode_record-encode_record (register_graph g) h = (
    3 ∷ write_graph_name x g,
    refl,
    (let e = rw append-nil at (read_graph_name-write_graph_name g [] h) in rw e),
  )
