-- ===== src/Storage/Wal/Replay.antt =====
-- wal.rs: `replay` over a run of frames followed by a tail that it does not read.
use mathlib.Core.List.{foldl}
use oxigraph_nova.Prelude.{
  ℕ, zero, suc, ◌+◌, ◌-◌, ◌≤◌, ◌<◌, ◌≡◌, refl, sym, ap, ◌∙◌, none, some, List, [], ◌∷◌, ◌++◌,
  append_assoc, append-nil, arith, length, take, length-append, length-take_le, take-nil,
  take-append_le, take-append_ge, take-append, dec_lt,
}
use oxigraph_nova.Prelude.Bytes.{Bytes}
use oxigraph_nova.Rdf.{Oxrdf}
use oxigraph_nova.Storage.Wal.Codec.{WalRecord}
use oxigraph_nova.Storage.Wal.Log.{next_record, replay_loop, replay}
use oxigraph_nova.Storage.Wal.Frames.{IsFrame}

module _ (x : Oxrdf) (crc : Bytes → ℕ) where
  -- The bytes of some records, frame after frame.
  pub data Framed : List (WalRecord x) → Bytes → Type 0 where
    framed_nil : Framed [] []
    framed_cons :
        {r : WalRecord x} {rs : List (WalRecord x)} {f bs : Bytes}
        → IsFrame x crc r f
        → Framed rs bs
        → Framed (r ∷ rs) (f ++ bs)

  pub Framed-append :
      {rs qs : List (WalRecord x)} {bs cs : Bytes}
      → Framed rs bs
      → Framed qs cs
      → Framed (rs ++ qs) (bs ++ cs)
  Framed-append framed_nil h = h
  Framed-append {cs = cs} (framed_cons {f = f} {bs = bs} i g) h =
      rw (append_assoc f bs cs) (framed_cons i (Framed-append g h))

  -- `replay` breaks at this tail, wherever it stands.
  abbrev pub IsTail : Bytes → Type 0
  IsTail tail = (valid : ℕ) → next_record x crc (valid + length tail) valid tail ≡ none

  pub record Cut (rs : List (WalRecord x)) (bs : Bytes) (k : ℕ) : Type 0 where
    pub kept : ℕ
    pub kept_le : kept ≤ length rs
    pub front : Bytes
    pub tail : Bytes
    pub framed : Framed (take kept rs) front
    pub is_tail : IsTail tail
    pub parts : take k bs ≡ front ++ tail

  -- Wherever a run of frames is cut, what is left is whole frames and a tail.
  pub cut : {rs : List (WalRecord x)} {bs : Bytes} → Framed rs bs → (k : ℕ) → Cut rs bs k
  cut framed_nil k = record {
    kept = 0;
    kept_le = omega arith;
    front = [];
    tail = [];
    framed = framed_nil;
    is_tail = λ valid. unfold next_record in refl;
    parts = take-nil k;
  }
  cut (framed_cons {r} {rs} {f} {bs} i g) k = elim (dec_lt k (length f)) [
    | yes inside ↦ record {
      kept = 0;
      kept_le = omega arith;
      front = [];
      tail = take k f;
      framed = framed_nil;
      is_tail = λ valid. rw (length-take_le k f (omega arith)) (i.torn valid k inside);
      parts = take-append_le f bs k (omega arith);
    }
    | no past ↦
        let c = cut g (k - length f) in
        record {
          kept = suc c.kept;
          kept_le = omega (arith, c.kept_le);
          front = f ++ c.front;
          tail = c.tail;
          framed = framed_cons i c.framed;
          is_tail = c.is_tail;
          parts =
              take-append_ge f bs k (k - length f) (omega arith)
              ∙ ap (λ t. f ++ t) c.parts
              ∙ sym (append_assoc f c.front c.tail);
        }
  ]

  module _ {S : Type 0} (apply : S → WalRecord x → S) where
    loop_lem :
        (tail : Bytes)
        → IsTail tail
        → {rs : List (WalRecord x)} {bs : Bytes} → Framed rs bs
        → (fuel file_len valid count : ℕ) (s : S) → length bs < fuel
        → file_len ≡ valid + length (bs ++ tail)
        → replay_loop x crc apply fuel file_len valid count s (bs ++ tail)
          ≡ some (foldl apply s rs, count + length rs, valid + length bs)
    unfolding replay_loop
    loop_lem tail t framed_nil zero file_len valid count s h e = absurd (omega arith)
    loop_lem tail t framed_nil (suc fuel) file_len valid count s h e = ground (arith, t valid)
    loop_lem tail t (framed_cons _ _) zero file_len valid count s h e = absurd (omega arith)
    loop_lem tail t (framed_cons {r} {rs} {f} {bs} i g) (suc fuel) file_len valid count s h e =
        ground (
          arith,
          append_assoc f bs tail,
          i.reads valid (bs ++ tail),
          i.length_frame,
          length-append f (bs ++ tail),
          length-append f bs,
          loop_lem tail t g fuel file_len (valid + 4 + i.size + 4) (count + 1) (apply s r),
        )

    pub replay-Framed :
        {rs : List (WalRecord x)} {bs : Bytes}
        → Framed rs bs
        → (tail : Bytes) → IsTail tail
        → (s : S)
        → replay x crc apply s (some (bs ++ tail))
          ≡ some (record { state = foldl apply s rs; count = length rs; file = bs })
    unfolding replay
    replay-Framed {rs} {bs} g [] t s = ground (
      arith,
      loop_lem [] t g (suc (length (bs ++ []))) (length (bs ++ [])) 0 0 s,
      length-append bs [],
      take-append bs [],
      append-nil bs,
    )
    replay-Framed {rs} {bs} g (b ∷ tail) t s = ground (
      arith,
      loop_lem (b ∷ tail) t g (suc (length (bs ++ (b ∷ tail)))) (length (bs ++ (b ∷ tail))) 0 0 s,
      length-append bs (b ∷ tail),
      take-append bs (b ∷ tail),
      append-nil bs,
    )
