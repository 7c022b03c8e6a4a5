-- ===== src/Storage/Wal/Log.antt =====
-- wal.rs: `WalWriter` over a file, and `replay`. A file is its bytes and the length of the prefix
-- that `sync_data` has made durable. `crc32fast::hash` is a dependency: `crc` is a parameter.
use oxigraph_nova.Prelude.{
  ℕ, zero, suc, ◌+◌, ◌-◌, ◌%◌, Option, none, some, List, [], ◌∷◌, ◌++◌, ltb, ◌==◌, if◌then◌else◌,
  length, take, drop,
}
use oxigraph_nova.Prelude.Result.{Result, ok, err}
use oxigraph_nova.Prelude.Bytes.{Bytes, u32_mod, le32, of_le32}
use oxigraph_nova.Rdf.{Oxrdf}
use oxigraph_nova.Storage.Wal.Codec.{WalRecord, encode_record, decode_record}

pub record WalFile : Type 0 where
  pub bytes : Bytes
  pub synced : ℕ

abbrev pub new_file : WalFile
new_file = record { bytes = []; synced = 0 }

-- `File::write_all` in append mode, and `File::sync_data`
abbrev pub write_all : WalFile → Bytes → WalFile
write_all f bs = record f { bytes = f.bytes ++ bs }

unfoldable pub sync : WalFile → WalFile
sync f = record f { synced = length f.bytes }

-- `fill_or_eof`: what is read, as far as the file goes, and the bytes behind it.
abbrev pub fill_or_eof : Bytes → ℕ → Bytes × Bytes
fill_or_eof reader n = (take n reader, drop n reader)

module _ (x : Oxrdf) (crc : Bytes → ℕ) where
  frame_payload : Option Bytes → Option Bytes
  frame_payload none = none
  frame_payload (some payload) =
      some (le32 (length payload % u32_mod) ++ (payload ++ le32 (crc payload)))

  unfoldable pub frame_record : WalRecord x → Option Bytes
  unfolding frame_payload
  frame_record r = frame_payload (encode_record x r)

  wrote : WalFile → Option Bytes → Option WalFile
  wrote f none = none
  wrote f (some bs) = some (write_all f bs)

  flushed : Option WalFile → Option WalFile
  flushed none = none
  flushed (some f) = some (sync f)

  unfoldable pub append : WalFile → WalRecord x → Option WalFile
  unfolding wrote flushed
  append f r = flushed (wrote f (frame_record r))

  unfoldable pub append_no_sync : WalFile → WalRecord x → Option WalFile
  unfolding wrote
  append_no_sync f r = wrote f (frame_record r)

  joined : Option Bytes → Option Bytes → Option Bytes
  joined (some a) (some b) = some (a ++ b)
  joined _ _ = none

  unfoldable pub frame_all : List (WalRecord x) → Option Bytes
  unfolding joined
  frame_all [] = some []
  frame_all (r ∷ rs) = joined (frame_record r) (frame_all rs)

  batch : WalFile → Option Bytes → Option WalFile
  batch f none = none
  batch f (some []) = some f
  batch f (some (b ∷ bs)) = some (sync (write_all f (b ∷ bs)))

  unfoldable pub append_batch : WalFile → List (WalRecord x) → Option WalFile
  unfolding batch
  append_batch f rs = batch f (frame_all rs)

  checked : Result (WalRecord x) → ℕ → Bytes → Option (WalRecord x × ℕ × Bytes)
  checked (ok r) len rest = some (r, len, rest)
  checked (err _) len rest = none

  -- One round of the loop of `replay`, with `unread` the bytes that the reader has left: the
  -- record, its payload's length and what is left then, or `none` where the loop breaks.
  unfoldable pub next_record : ℕ → ℕ → Bytes → Option (WalRecord x × ℕ × Bytes)
  unfolding checked
  next_record file_len valid_len unread =
      let (len_bytes, r1) = fill_or_eof unread 4 in
      if length len_bytes == 0
      then none
      else if ltb (length len_bytes) 4
      then none
      else (let len = of_le32 len_bytes in
          let remaining = file_len - valid_len - 4 in
          if ltb remaining (len + 4)
          then none
          else (let (payload, r2) = fill_or_eof r1 len in
              if ltb (length payload) len
              then none
              else (let (crc_bytes, r3) = fill_or_eof r2 4 in
                  if ltb (length crc_bytes) 4
                  then none
                  else if crc payload == of_le32 crc_bytes
                  then checked (decode_record x payload) len r3
                  else none)))

  pub record Replayed (S : Type 0) : Type 0 where
    pub state : S
    pub count : ℕ
    pub file : Bytes

  module _ {S : Type 0} (apply : S → WalRecord x → S) where
    -- `none` means that the fuel ran out; the result has the state, the count and `valid_len`.
    unfoldable pub replay_loop : ℕ → ℕ → ℕ → ℕ → S → Bytes → Option (S × ℕ × ℕ)
    replay_loop zero file_len valid_len count s unread = none
    replay_loop (suc fuel) file_len valid_len count s unread =
        elim (next_record file_len valid_len unread) [
          | none ↦ some (s, count, valid_len)
          | some (r, len, rest) ↦
              replay_loop fuel file_len (valid_len + 4 + len + 4) (count + 1) (apply s r) rest
        ]

    truncated : Bytes → Option (S × ℕ × ℕ) → Option (Replayed S)
    truncated file none = none
    truncated file (some (s, count, valid_len)) = some (record {
      state = s;
      count = count;
      file = if ltb valid_len (length file) then take valid_len file else file;
    })

    -- A path that does not exist is no file: nothing is applied.
    unfoldable pub replay : S → Option Bytes → Option (Replayed S)
    unfolding truncated
    replay s none = some (record { state = s; count = 0; file = [] })
    replay s (some file) = truncated file (replay_loop (suc (length file)) (length file) 0 0 s file)
