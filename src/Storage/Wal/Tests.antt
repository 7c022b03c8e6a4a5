-- ===== src/Storage/Wal/Tests.antt =====
-- wal.rs at concrete inputs: a small vocabulary, a few records, and the theorems on them.
use oxigraph_nova.Prelude.{
  ℕ, ◌+◌, ◌%◌, ◌<◌, ◌≡◌, ◌≢◌, refl, ap, Option, none, some, List, [], ◌∷◌, ◌++◌, ◌==◌,
  if◌then◌else◌, arith, length,
}
use oxigraph_nova.Prelude.Result.{ok, err, Fault, storage}
use oxigraph_nova.Prelude.Bytes.{Bytes, u32_mod, is_utf8}
use oxigraph_nova.Rdf.{
  BaseDirection, rtl, Oxrdf, OxrdfLaws, named, blank, literal, triple, named_graph, blank_graph,
  Quad,
}
use oxigraph_nova.Storage.Wal.Codec.{
  write_string, write_subject, write_object_term, write_graph_name, write_quad, WalRecord,
  insert_quad, register_graph, encode_record, decode_record,
}
use oxigraph_nova.Storage.Wal.Records.{RecordFits, decode_record-encode_record}
use oxigraph_nova.Storage.Wal.Log.{
  frame_all, frame_record, WalFile, new_file, append, append_no_sync, append_batch, sync, replay,
}
use oxigraph_nova.Storage.Wal.Frames.{Loggable}
use oxigraph_nova.Storage.Wal.Recovery.{
  Op, append_op, append_no_sync_op, append_batch_op, run_op, run_ops, spec_ops, Refines, Recovered,
  crashed,
}
use oxigraph_nova.Storage.Wal.Crash.{OpsLoggable, no_records, writer-Refines, crash_recovery}
use oxigraph_nova.Storage.Wal.Faults.{decode_record_total, corrupt, replay-corrupt}

data Node : Type 0 where
  ex_a xsd : Node

data Lit : Type 0 where
  plain tagged typed : Lit
  directed : BaseDirection → Lit

Node-discrete : Discrete Node
Node-discrete = hlevel

abbrev node_text : Node → Bytes
node_text ex_a = 97 ∷ []
node_text xsd = 120 ∷ 115 ∷ []

abbrev lit_language : Lit → Option Bytes
lit_language tagged = some (101 ∷ 110 ∷ [])
lit_language (directed _) = some (101 ∷ 110 ∷ [])
lit_language _ = none

abbrev lit_direction : Lit → Option BaseDirection
lit_direction (directed d) = some d
lit_direction _ = none

abbrev demo : Oxrdf
demo = record {
  NamedNode = Node;
  BlankNode = Unit {0};
  Literal = Lit;
  node_str = node_text;
  new_node = λ s. if length s == 1 then ex_a else xsd;
  blank_str = λ _. 98 ∷ [];
  new_blank = λ _. tt;
  value = λ _. 118 ∷ [];
  language = lit_language;
  direction = lit_direction;
  datatype = λ l. elim l [ typed ↦ ex_a | _ ↦ xsd ];
  new_simple = λ _. plain;
  new_tagged = λ _ _. tagged;
  new_directional = λ _ _ d. directed d;
  new_typed = λ _ d. elim d [ ex_a ↦ typed | xsd ↦ plain ];
  xsd_string = xsd;
  node_eq = Node-discrete;
}

demo-laws : OxrdfLaws demo
unfolding is_utf8
demo-laws = record {
  node_utf8 = elim [ ex_a ↦ refl | xsd ↦ refl ];
  blank_utf8 = λ _. refl;
  value_utf8 = λ _. refl;
  language_utf8 = λ l t e. ground arith;
  node_text = elim [ ex_a ↦ refl | xsd ↦ refl ];
  blank_text = λ _. refl;
  directed_tagged = λ l d e. ground arith;
  simple_lem = λ l e k. ground arith;
  tagged_lem = λ l t d e. ground arith;
  directional_lem = λ l t d e k. ground arith;
  typed_lem = λ l e. ground arith;
}

abbrev quoted : Quad demo
quoted = record {
  subject = named ex_a;
  predicate = ex_a;
  object = triple (blank tt) ex_a (literal (directed rtl));
  graph_name = named_graph xsd;
}

abbrev first_record : WalRecord demo
first_record = insert_quad quoted

abbrev second_record : WalRecord demo
second_record = register_graph (blank_graph tt)

quoted_fits : RecordFits demo demo-laws first_record
quoted_fits = record {
  graph = omega arith;
  subject = omega arith;
  predicate = omega arith;
  object = (
    omega arith,
    omega arith,
    record { text = omega arith; lang = λ t e. ground arith; kind = omega arith },
  );
}

decode_record-encode_record_example :
    (bs : Bytes) × (encode_record demo first_record ≡ some bs)
    × (decode_record demo bs ≡ ok first_record)
decode_record-encode_record_example =
    decode_record-encode_record demo demo-laws first_record quoted_fits

sum : Bytes → ℕ
sum [] = 0
sum (b ∷ bs) = b + sum bs

-- A checksum that is a `u32`.
abbrev checksum : Bytes → ℕ
checksum bs = sum bs % u32_mod

checksum_u32 : (bs : Bytes) → checksum bs < u32_mod
checksum_u32 bs = omega arith

abbrev size : Option Bytes → ℕ
size none = 0
size (some bs) = length bs

first-Loggable : Loggable demo checksum demo-laws first_record
unfolding encode_record write_quad write_graph_name write_subject write_string write_object_term
first-Loggable = record { fits = quoted_fits; small = λ payload e. omega (arith, ap size e) }

second-Loggable : Loggable demo checksum demo-laws second_record
unfolding encode_record write_graph_name write_string
second-Loggable = record { fits = omega arith; small = λ payload e. omega (arith, ap size e) }

abbrev calls : List (Op demo checksum)
calls = append_op first_record ∷ append_batch_op [] ∷ append_no_sync_op second_record ∷ []

calls_loggable : OpsLoggable demo demo-laws checksum checksum_u32 calls
calls_loggable = (first-Loggable, (tt, (second-Loggable, tt)))

writer-Refines_example :
    (f : WalFile) × (run_ops demo checksum new_file calls ≡ some f)
    × Refines demo checksum
        (spec_ops demo checksum (no_records demo demo-laws checksum checksum_u32) calls)
        f
writer-Refines_example = writer-Refines demo demo-laws checksum checksum_u32 calls calls_loggable

abbrev newest_first : List (WalRecord demo) → WalRecord demo → List (WalRecord demo)
newest_first rs r = r ∷ rs

abbrev first_frame : Bytes
first_frame =
    44 ∷ 0 ∷ 0 ∷ 0 ∷ 1 ∷ 0 ∷ 2 ∷ 0 ∷ 0 ∷ 0 ∷ 120 ∷ 115 ∷ 0 ∷ 1 ∷ 0 ∷ 0 ∷ 0 ∷ 97 ∷ 1 ∷ 0 ∷ 0 ∷ 0 ∷ 97
    ∷ 6 ∷ 1 ∷ 1 ∷ 0 ∷ 0 ∷ 0 ∷ 98 ∷ 1 ∷ 0 ∷ 0 ∷ 0 ∷ 97 ∷ 4 ∷ 1 ∷ 0 ∷ 0 ∷ 0 ∷ 118 ∷ 2 ∷ 0 ∷ 0 ∷ 0
    ∷ 101 ∷ 110 ∷ 1 ∷ 207 ∷ 3 ∷ 0 ∷ 0 ∷ []

abbrev second_frame : Bytes
second_frame = 7 ∷ 0 ∷ 0 ∷ 0 ∷ 3 ∷ 1 ∷ 1 ∷ 0 ∷ 0 ∷ 0 ∷ 98 ∷ 103 ∷ 0 ∷ 0 ∷ 0 ∷ []

abbrev sample_file : WalFile
sample_file = record { bytes = first_frame ++ second_frame; synced = 52 }

calls_run : run_ops demo checksum new_file calls ≡ some sample_file
unfolding run_ops run_op append append_no_sync append_batch frame_all frame_record encode_record
    write_quad write_graph_name write_subject write_string write_object_term sync sum
calls_run = refl

crash_recovery_example :
    Recovered demo checksum newest_first
      (spec_ops demo checksum (no_records demo demo-laws checksum checksum_u32) calls)
      (replay demo checksum newest_first [] (some (crashed demo checksum sample_file 55)))
      []
crash_recovery_example =
    crash_recovery demo demo-laws checksum checksum_u32 newest_first calls 55 [] calls_loggable
      sample_file calls_run (omega arith)

decode_record_total_example : decode_record demo (1 ∷ 2 ∷ 0 ∷ []) ≢ err (storage Fault.out_of_fuel)
decode_record_total_example = decode_record_total demo (1 ∷ 2 ∷ 0 ∷ [])

checksum_differs : checksum (3 ∷ 2 ∷ []) ≢ 6
unfolding sum
checksum_differs = omega arith

abbrev logged : List (WalRecord demo)
logged = first_record ∷ second_record ∷ []

logged_frames : frame_all demo checksum logged ≡ some (first_frame ++ second_frame)
unfolding frame_all frame_record encode_record write_quad write_graph_name write_subject
    write_string write_object_term sum
logged_frames = refl

replay-corrupt_example :
    replay demo checksum newest_first [] (
      some (
        (first_frame ++ second_frame)
        ++ corrupt demo checksum (3 ∷ 2 ∷ []) (6 ∷ 0 ∷ 0 ∷ 0 ∷ []) (9 ∷ [])))
    ≡ some (record {
      state = second_record ∷ first_record ∷ [];
      count = 2;
      file = first_frame ++ second_frame;
    })
replay-corrupt_example =
    replay-corrupt demo checksum demo-laws checksum_u32 newest_first logged
      (first_frame ++ second_frame) (first-Loggable, (second-Loggable, tt)) logged_frames
      (3 ∷ 2 ∷ []) (6 ∷ 0 ∷ 0 ∷ 0 ∷ []) (9 ∷ []) (omega arith) refl checksum_differs []
