-- ===== src/Storage/Wal/Faults.antt =====
-- wal.rs: input that is not what the encoders wrote.
use mathlib.Core.List.{foldl}
use mathlib.Core.Option.{some-injective}
use mathlib.Core.Path.{subst}
use oxigraph_nova.Prelude.{
  ℕ, zero, suc, ◌≤◌, ◌<◌, ◌≡◌, ◌≢◌, some, sym, ◌∙◌, List, ◌++◌, arith, length, take, drop,
  take-append, drop-append, length-drop,
}
use oxigraph_nova.Prelude.Result.{ok, err, Fault, Error, storage}
use oxigraph_nova.Prelude.Bytes.{Bytes, u32_mod, le32, of_le32, of_le32-le32}
use oxigraph_nova.Rdf.{Oxrdf, OxrdfLaws}
use oxigraph_nova.Storage.Wal.Codec.{
  Read, WalRecord, read_string, read_tag, read_subject_from_tag, read_term_from_tag, read_nested,
  read_object_term, read_graph_name, read_quad, decode_record,
}
use oxigraph_nova.Storage.Wal.Log.{next_record, replay, frame_all}
use oxigraph_nova.Storage.Wal.Crash.{AllLoggable, Framed-all}
use oxigraph_nova.Storage.Wal.Replay.{Framed, IsTail, replay-Framed}

abbrev no_fuel : Error
no_fuel = storage Fault.out_of_fuel

-- one more than the bytes that a successful read leaves
abbrev left : {A : Type 0} → Read A → ℕ
left (ok (a, rest)) = suc (length rest)
left (err e) = 0

read_string_ends : (buf : Bytes) → read_string buf ≢ err no_fuel
unfolding read_string
read_string_ends buf e = ground arith

left-read_string : (buf : Bytes) → left (read_string buf) ≤ length buf
unfolding read_string
left-read_string buf =
    ground (arith, length-drop 4 buf, length-drop (of_le32 (take 4 buf)) (drop 4 buf))

read_tag_ends : (buf : Bytes) → read_tag buf ≢ err no_fuel
unfolding read_tag
read_tag_ends buf e = ground arith

left-read_tag : (buf : Bytes) → left (read_tag buf) ≤ length buf
unfolding read_tag
left-read_tag buf = ground arith

ruleset reads = (arith, read_string_ends, left-read_string, read_tag_ends, left-read_tag)

module _ (x : Oxrdf) where
  subject_ends : (buf : Bytes) → read_subject_from_tag x buf ≢ err no_fuel
  unfolding read_subject_from_tag
  subject_ends buf e = grind reads

  left-subject : (buf : Bytes) → left (read_subject_from_tag x buf) ≤ length buf
  unfolding read_subject_from_tag
  left-subject buf = grind reads

  term_ends : (t : ℕ) (buf : Bytes) → read_term_from_tag x t buf ≢ err no_fuel
  unfolding read_term_from_tag
  term_ends t buf e = grind reads

  graph_ends : (buf : Bytes) → read_graph_name x buf ≢ err no_fuel
  unfolding read_graph_name
  graph_ends buf e = grind reads

  nested_ends : (fuel : ℕ) (buf : Bytes) → length buf < fuel → read_nested x fuel buf ≢ err no_fuel
  unfolding read_nested
  nested_ends zero buf h e = absurd (omega arith)
  nested_ends (suc fuel) buf h e =
      grind (reads, subject_ends, left-subject, term_ends, nested_ends fuel)

  quad_ends : (buf : Bytes) → read_quad x buf ≢ err no_fuel
  unfolding read_quad read_object_term
  quad_ends buf e = grind (
    reads,
    subject_ends,
    left-subject,
    graph_ends,
    λ (b : Bytes). nested_ends (suc (length b)) b (omega arith),
  )

  -- Decoding ends on every input: the fuel for nested quoted triples never runs out.
  pub decode_record_total : (buf : Bytes) → decode_record x buf ≢ err (storage Fault.out_of_fuel)
  unfolding decode_record
  decode_record_total buf e = grind (reads, graph_ends, quad_ends)

  module _ (crc : Bytes → ℕ) where
    -- A frame of the right length whose stored checksum is not its payload's, before anything.
    abbrev pub corrupt : Bytes → Bytes → Bytes → Bytes
    corrupt payload stored rest = le32 (length payload) ++ (payload ++ (stored ++ rest))

    corrupt-IsTail :
        (payload stored rest : Bytes)
        → length payload < u32_mod
        → length stored ≡ 4
        → crc payload ≢ of_le32 stored
        → IsTail x crc (corrupt payload stored rest)
    unfolding next_record
    corrupt-IsTail payload stored rest small four differ valid = ground (
      arith,
      of_le32-le32 (length payload),
      take-append payload (stored ++ rest),
      drop-append payload (stored ++ rest),
      rw four at (take-append stored rest),
    )

    -- A log of the frames that `frame_record` makes of some records, then a frame whose stored
    -- checksum is not that of its payload, then any bytes: `replay` applies the records in front of
    -- that frame and truncates the file behind their frames. The strings and payloads of the records
    -- fit their 32-bit prefixes, and the laws of `oxrdf` hold.
    pub replay-corrupt :
        (laws : OxrdfLaws x) (crc_u32 : (bs : Bytes) → crc bs < u32_mod)
        → {S : Type 0} (apply : S → WalRecord x → S) (rs : List (WalRecord x)) (bs : Bytes)
        → AllLoggable x laws crc crc_u32 rs
        → frame_all x crc rs ≡ some bs
        → (payload stored rest : Bytes) → length payload < u32_mod
        → length stored ≡ 4
        → crc payload ≢ of_le32 stored
        → (s : S)
        → replay x crc apply s (some (bs ++ corrupt payload stored rest))
          ≡ some (record { state = foldl apply s rs; count = length rs; file = bs })
    replay-corrupt laws crc_u32 apply rs bs loggable written payload stored rest small four differ
          s =
        let (cs, e, g, le) = Framed-all x laws crc crc_u32 rs loggable in
        let same = some-injective cs bs (sym e ∙ written) in
        replay-Framed x crc apply (subst (Framed x crc rs) same g) (corrupt payload stored rest)
          (corrupt-IsTail payload stored rest small four differ) s
