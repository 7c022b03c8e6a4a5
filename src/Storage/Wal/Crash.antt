-- ===== src/Storage/Wal/Crash.antt =====
-- wal.rs: whatever a writer did before a crash, the replay brings back its durable records and some
-- first part of the others.
use mathlib.Core.Path.{subst}
use oxigraph_nova.Prelude.{
  ℕ, ◌≤◌, ◌<◌, ◌≡◌, refl, some, List, [], ◌∷◌, ◌++◌, arith, append-nil, length-append, length,
}
use oxigraph_nova.Prelude.Bytes.{Bytes, u32_mod}
use oxigraph_nova.Rdf.{Oxrdf, OxrdfLaws}
use oxigraph_nova.Storage.Wal.Codec.{WalRecord}
use oxigraph_nova.Storage.Wal.Log.{
  WalFile, new_file, sync, frame_record, frame_all, append, append_no_sync, append_batch, replay,
}
use oxigraph_nova.Storage.Wal.Frames.{Loggable, frame_record-IsFrame}
use oxigraph_nova.Storage.Wal.Replay.{Framed, framed_nil, framed_cons}
use oxigraph_nova.Storage.Wal.Recovery.{
  LogState, Op, append_op, append_no_sync_op, append_batch_op, sync_op, run_op, spec_op, run_ops,
  spec_ops, Refines, extend_synced, extend_pending, synced_now, crashed, Recovered, recover,
}

module _ (x : Oxrdf) (laws : OxrdfLaws x) (crc : Bytes → ℕ)
    (crc_u32 : (bs : Bytes) → crc bs < u32_mod) where
  abbrev pub AllLoggable : List (WalRecord x) → Type 0
  AllLoggable [] = Unit
  AllLoggable (r ∷ rs) = Loggable x crc laws r × AllLoggable rs

  abbrev pub OpLoggable : Op x crc → Type 0
  OpLoggable (append_op r) = Loggable x crc laws r
  OpLoggable (append_no_sync_op r) = Loggable x crc laws r
  OpLoggable (append_batch_op rs) = AllLoggable rs
  OpLoggable sync_op = Unit

  Framed-one :
      (r : WalRecord x)
      → Loggable x crc laws r
      → (f : Bytes) × (frame_record x crc r ≡ some f) × Framed x crc (r ∷ []) f
  Framed-one r h =
      let (f, e, i) = frame_record-IsFrame x crc laws crc_u32 r h in
      (f, e, rw append-nil at (framed_cons i framed_nil))

  -- The frames of records that can be logged are read back in any place.
  pub Framed-all :
      (rs : List (WalRecord x))
      → AllLoggable rs
      → (bs : Bytes) × (frame_all x crc rs ≡ some bs) × Framed x crc rs bs × (length rs ≤ length bs)
  unfolding frame_all
  Framed-all [] h = ([], refl, framed_nil, omega arith)
  Framed-all (r ∷ rs) h =
      let (f, e, i) = frame_record-IsFrame x crc laws crc_u32 r h.0 in
      let (bs, es, g, le) = Framed-all rs h.1 in
      (f ++ bs, rw (e, es), framed_cons i g, omega (arith, le, i.length_frame, length-append f bs))

  append_batch_lem :
      (f : WalFile) (rs : List (WalRecord x)) (bs : Bytes)
      → frame_all x crc rs ≡ some bs
      → 0 < length bs
      → append_batch x crc f rs ≡ some (sync (record f { bytes = f.bytes ++ bs }))
  unfolding append_batch
  append_batch_lem f rs [] e h = absurd (omega arith)
  append_batch_lem f rs (b ∷ bs) e h = rw e

  run_op-Refines :
      (l : LogState x crc) (f : WalFile) (op : Op x crc)
      → OpLoggable op
      → Refines x crc l f
      → (f' : WalFile) × (run_op x crc f op ≡ some f') × Refines x crc (spec_op x crc l op) f'
  unfolding run_op spec_op append append_no_sync append_batch
  run_op-Refines l f (append_op r) h g =
      let (bs, e, i) = Framed-one r h in
      (sync (record f { bytes = f.bytes ++ bs }), rw e, extend_synced x crc g i)
  run_op-Refines l f (append_no_sync_op r) h g =
      let (bs, e, i) = Framed-one r h in
      (record f { bytes = f.bytes ++ bs }, rw e, extend_pending x crc g i)
  run_op-Refines l f (append_batch_op []) h g = (f, unfold frame_all in refl, g)
  run_op-Refines l f (append_batch_op (r ∷ rs)) h g =
      let (bs, e, i, le) = Framed-all (r ∷ rs) h in
      (
        sync (record f { bytes = f.bytes ++ bs }),
        append_batch_lem f (r ∷ rs) bs e (omega arith),
        extend_synced x crc g i,
      )
  run_op-Refines l f sync_op h g = (sync f, refl, synced_now x crc g)

  abbrev pub OpsLoggable : List (Op x crc) → Type 0
  OpsLoggable [] = Unit
  OpsLoggable (op ∷ ops) = OpLoggable op × OpsLoggable ops

  pub run_ops-Refines :
      (ops : List (Op x crc)) (l : LogState x crc) (f : WalFile)
      → OpsLoggable ops
      → Refines x crc l f
      → (f' : WalFile) × (run_ops x crc f ops ≡ some f') × Refines x crc (spec_ops x crc l ops) f'
  unfolding run_ops spec_ops
  run_ops-Refines [] l f h g = (f, refl, g)
  run_ops-Refines (op ∷ ops) l f h g =
      let (f1, e, g1) = run_op-Refines l f op h.0 g in
      let (f2, e2, g2) = run_ops-Refines ops (spec_op x crc l op) f1 h.1 g1 in (f2, rw e e2, g2)

  new_file-Refines : Refines x crc (record { durable = []; pending = [] }) new_file
  new_file-Refines = record {
    front = [];
    back = [];
    durable_framed = framed_nil;
    pending_framed = framed_nil;
    bytes = refl;
    synced = refl;
  }

  abbrev pub no_records : LogState x crc
  no_records = record { durable = []; pending = [] }

  -- Let a writer make any calls on a new file, on records whose strings and payloads fit their
  -- length prefixes. Every call succeeds, the file is the frames of the records in the order of the
  -- calls, and exactly those up to the last call that syncs are in its synced part.
  pub writer-Refines :
      (ops : List (Op x crc))
      → OpsLoggable ops
      → (f : WalFile) × (run_ops x crc new_file ops ≡ some f)
        × Refines x crc (spec_ops x crc no_records ops) f
  writer-Refines ops h = run_ops-Refines ops no_records new_file h new_file-Refines

  -- Let `f` be the file after such calls, and let a crash leave its first `n` bytes, the synced ones
  -- among them. Then `replay` returns (its fuel is enough): it has applied, in order, every durable
  -- record and the first `kept` of those not yet synced, it counts these, and it leaves a file that
  -- holds their frames and nothing else.
  pub crash_recovery :
      {S : Type 0} (apply : S → WalRecord x → S) (ops : List (Op x crc)) (n : ℕ) (s : S)
      → OpsLoggable ops
      → (f : WalFile) → run_ops x crc new_file ops ≡ some f
      → f.synced ≤ n
      → Recovered x crc apply
          (spec_ops x crc no_records ops)
          (replay x crc apply s (some (crashed x crc f n)))
          s
  crash_recovery apply ops n s h f e le =
      let (f', e', g) = writer-Refines ops h in
      let same : f' ≡ f = cc (e', e) in
      recover x crc apply (subst (Refines x crc (spec_ops x crc no_records ops)) same g) n s le
