-- ===== src/Storage/Wal/Frames.antt =====
-- wal.rs: one frame of the log, whole or cut short, as `replay` reads it.
use oxigraph_nova.Prelude.{
  ℕ, zero, suc, ◌+◌, ◌%◌, ◌<◌, ◌≡◌, refl, none, some, ◌++◌, append_assoc, arith, length, take,
  length-append, take-append, drop-append,
}
use oxigraph_nova.Prelude.Result.{ok}
use oxigraph_nova.Prelude.Bytes.{Bytes, u32_mod, le32, of_le32-le32}
use oxigraph_nova.Rdf.{Oxrdf, OxrdfLaws}
use oxigraph_nova.Storage.Wal.Codec.{WalRecord, encode_record, decode_record}
use oxigraph_nova.Storage.Wal.Records.{RecordFits, decode_record-encode_record}
use oxigraph_nova.Storage.Wal.Log.{frame_record, next_record}

module _ (x : Oxrdf) (crc : Bytes → ℕ) where
  -- A frame is read back whole in front of anything, and no proper prefix of it is read.
  pub record IsFrame (r : WalRecord x) (f : Bytes) : Type 0 where
    pub size : ℕ
    pub length_frame : length f ≡ size + 8
    pub reads :
        (valid : ℕ) (rest : Bytes)
        → next_record x crc (valid + length (f ++ rest)) valid (f ++ rest) ≡ some (r, size, rest)
    pub torn : (valid k : ℕ) → k < length f → next_record x crc (valid + k) valid (take k f) ≡ none

  module _ (payload : Bytes) (small : length payload < u32_mod)
      (crc_u32 : crc payload < u32_mod) where
    abbrev frame : Bytes
    frame = le32 (length payload % u32_mod) ++ (payload ++ le32 (crc payload))

    length_of_frame : length frame ≡ length payload + 8
    length_of_frame = omega (arith, length-append payload (le32 (crc payload)))

    frame_reads :
        (r : WalRecord x)
        → decode_record x payload ≡ ok r
        → (valid : ℕ) (rest : Bytes)
        → next_record x crc (valid + length (frame ++ rest)) valid (frame ++ rest)
          ≡ some (r, length payload, rest)
    unfolding next_record
    frame_reads r e valid rest = ground (
      arith,
      e,
      append_assoc payload (le32 (crc payload)) rest,
      take-append payload (le32 (crc payload) ++ rest),
      drop-append payload (le32 (crc payload) ++ rest),
      length-append payload (le32 (crc payload) ++ rest),
      of_le32-le32 (length payload),
      of_le32-le32 (crc payload),
    )

    frame_torn :
        (valid k : ℕ) → k < length frame → next_record x crc (valid + k) valid (take k frame) ≡ none
    unfolding next_record
    frame_torn valid zero h = refl
    frame_torn valid (suc zero) h = refl
    frame_torn valid (suc (suc zero)) h = refl
    frame_torn valid (suc (suc (suc zero))) h = refl
    frame_torn valid (suc (suc (suc (suc k)))) h = ground (arith, length_of_frame)

  -- The record's strings fit their prefixes, and its payload fits the frame's.
  pub record Loggable (laws : OxrdfLaws x) (r : WalRecord x) : Type 0 where
    pub fits : RecordFits x laws r
    pub small : (payload : Bytes) → encode_record x r ≡ some payload → length payload < u32_mod

  pub frame_record-IsFrame :
      (laws : OxrdfLaws x)
      → ((bs : Bytes) → crc bs < u32_mod)
      → (r : WalRecord x) → Loggable laws r
      → (f : Bytes) × (frame_record x crc r ≡ some f) × IsFrame r f
  unfolding frame_record
  frame_record-IsFrame laws crc_u32 r h =
      let (payload, e, d) = decode_record-encode_record x laws r h.fits in
      let small = h.small payload e in
      (
        frame payload small (crc_u32 payload),
        rw e,
        record {
          size = length payload;
          length_frame = length_of_frame payload small (crc_u32 payload);
          reads = frame_reads payload small (crc_u32 payload) r d;
          torn = frame_torn payload small (crc_u32 payload);
        },
      )
