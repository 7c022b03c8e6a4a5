-- ===== src/Storage/Wal/Recovery.antt =====
-- wal.rs: the log against its abstract view, which is the durable records and those written since
-- the last `sync_data`. A crash keeps the durable prefix and any part of the rest.
use mathlib.Core.List.{foldl}
use oxigraph_nova.Prelude.{
  ℕ, ◌-◌, ◌≤◌, ◌≡◌, refl, sym, ap, ◌∙◌, Option, none, some, List, [], ◌∷◌, ◌++◌, append_assoc,
  append-nil, arith, length, take, take-append_ge,
}
use oxigraph_nova.Prelude.Bytes.{Bytes}
use oxigraph_nova.Rdf.{Oxrdf}
use oxigraph_nova.Storage.Wal.Codec.{WalRecord}
use oxigraph_nova.Storage.Wal.Log.{
  WalFile, sync, append, append_no_sync, append_batch, Replayed, replay,
}
use oxigraph_nova.Storage.Wal.Replay.{Framed, framed_nil, Framed-append, cut, replay-Framed}

module _ (x : Oxrdf) (crc : Bytes → ℕ) where
  pub record LogState : Type 0 where
    pub durable : List (WalRecord x)
    pub pending : List (WalRecord x)

  abbrev pub records : LogState → List (WalRecord x)
  records l = l.durable ++ l.pending

  -- The calls of a writer.
  pub data Op : Type 0 where
    append_op : WalRecord x → Op
    append_no_sync_op : WalRecord x → Op
    append_batch_op : List (WalRecord x) → Op
    sync_op : Op

  unfoldable pub run_op : WalFile → Op → Option WalFile
  run_op f (append_op r) = append x crc f r
  run_op f (append_no_sync_op r) = append_no_sync x crc f r
  run_op f (append_batch_op rs) = append_batch x crc f rs
  run_op f sync_op = some (sync f)

  -- A batch that is empty does not sync.
  unfoldable pub spec_op : LogState → Op → LogState
  spec_op l (append_op r) = record { durable = records l ++ r ∷ []; pending = [] }
  spec_op l (append_no_sync_op r) = record l { pending = l.pending ++ r ∷ [] }
  spec_op l (append_batch_op []) = l
  spec_op l (append_batch_op (r ∷ rs)) = record { durable = records l ++ r ∷ rs; pending = [] }
  spec_op l sync_op = record { durable = records l; pending = [] }

  abbrev run_after : Option WalFile → (WalFile → Option WalFile) → Option WalFile
  run_after none k = none
  run_after (some f) k = k f

  unfoldable pub run_ops : WalFile → List Op → Option WalFile
  run_ops f [] = some f
  run_ops f (op ∷ ops) = run_after (run_op f op) (λ f'. run_ops f' ops)

  unfoldable pub spec_ops : LogState → List Op → LogState
  spec_ops l [] = l
  spec_ops l (op ∷ ops) = spec_ops (spec_op l op) ops

  pub record Refines (l : LogState) (f : WalFile) : Type 0 where
    pub front : Bytes
    pub back : Bytes
    pub durable_framed : Framed x crc l.durable front
    pub pending_framed : Framed x crc l.pending back
    pub bytes : f.bytes ≡ front ++ back
    pub synced : f.synced ≡ length front

  module _ {l : LogState} {f : WalFile} (h : Refines l f) where
    all-Framed : Framed x crc (records l) (h.front ++ h.back)
    all-Framed = Framed-append x crc h.durable_framed h.pending_framed

    -- More frames at the end of the file, synced or not.
    pub extend_synced :
        {rs : List (WalRecord x)} {bs : Bytes}
        → Framed x crc rs bs
        → Refines
            (record { durable = records l ++ rs; pending = [] })
            (sync (record f { bytes = f.bytes ++ bs }))
    unfolding sync
    extend_synced {rs} {bs} g = record {
      front = (h.front ++ h.back) ++ bs;
      back = [];
      durable_framed = Framed-append x crc all-Framed g;
      pending_framed = framed_nil;
      bytes = rw (h.bytes, append-nil);
      synced = rw h.bytes;
    }

    pub extend_pending :
        {rs : List (WalRecord x)} {bs : Bytes}
        → Framed x crc rs bs
        → Refines (record l { pending = l.pending ++ rs }) (record f { bytes = f.bytes ++ bs })
    extend_pending {rs} {bs} g = record {
      front = h.front;
      back = h.back ++ bs;
      durable_framed = h.durable_framed;
      pending_framed = Framed-append x crc h.pending_framed g;
      bytes = rw (h.bytes, append_assoc);
      synced = h.synced;
    }

    pub synced_now : Refines (record { durable = records l; pending = [] }) (sync f)
    unfolding sync
    synced_now = record {
      front = h.front ++ h.back;
      back = [];
      durable_framed = all-Framed;
      pending_framed = framed_nil;
      bytes = rw (h.bytes, append-nil);
      synced = rw h.bytes;
    }

  -- A crash leaves the first `n` bytes, the synced ones among them.
  abbrev pub crashed : WalFile → ℕ → Bytes
  crashed f n = take n f.bytes

  module _ {S : Type 0} (apply : S → WalRecord x → S) where
    -- What `replay` finds: every durable record and the first `kept` of the others, in a file that
    -- holds these and nothing else.
    pub record Recovered (l : LogState) (found : Option (Replayed x crc S)) (s : S) : Type 0 where
      pub kept : ℕ
      pub kept_le : kept ≤ length l.pending
      pub file : Bytes
      pub result :
          found
          ≡ some (record {
            state = foldl apply s (l.durable ++ take kept l.pending);
            count = length (l.durable ++ take kept l.pending);
            file = file;
          })
      pub clean :
          Refines
            (record { durable = l.durable ++ take kept l.pending; pending = [] })
            (record { bytes = file; synced = length file })

    pub recover :
        {l : LogState} {f : WalFile}
        → Refines l f
        → (n : ℕ) (s : S) → f.synced ≤ n
        → Recovered l (replay x crc apply s (some (crashed f n))) s
    recover {l} {f} h n s sound =
        let c = cut x crc h.pending_framed (n - length h.front) in
        let whole = Framed-append x crc h.durable_framed c.framed in
        let parts : take n f.bytes ≡ (h.front ++ c.front) ++ c.tail = rw h.bytes (
          take-append_ge h.front h.back n (n - length h.front) (omega (arith, h.synced, sound))
          ∙ ap (λ t. h.front ++ t) c.parts
          ∙ sym (append_assoc h.front c.front c.tail)) in
        record {
          kept = c.kept;
          kept_le = c.kept_le;
          file = h.front ++ c.front;
          result = rw parts (replay-Framed x crc apply whole c.tail c.is_tail s);
          clean = record {
            front = h.front ++ c.front;
            back = [];
            durable_framed = whole;
            pending_framed = framed_nil;
            bytes = sym (append-nil _);
            synced = refl;
          };
        }
