-- ===== src/Louds/Compact/Merge.antt =====
-- Merging the delta into the rings' triples.
use mathlib.Core.Path.{subst}
use oxigraph_nova.Prelude.{
  false-ne-true, ◌≡◌, ◌↔◌, inl, inr, refl, sym, ap, ◌∙◌, Bool, true, false, Option, none, some,
  List, [], ◌∷◌, ◌==◌, arith, Bool-cases, ==_iff,
}
use oxigraph_nova.Dictionary.Keys.{QuadKey, IsKey, pack_quad, unpack_quad, unpack_quad-pack_quad}
use oxigraph_nova.Reasoning.Keys.{In}
use oxigraph_nova.Store.Vec.{Nodup}
use oxigraph_nova.Louds.Delta.{Entry, get}
use oxigraph_nova.Louds.Delta.Laws.{IsSorted, get-AboveKey}
use oxigraph_nova.Louds.Store.{triple_of}
use oxigraph_nova.Louds.Compact.{Group, merge_entry, merge_delta}
use oxigraph_nova.Louds.Compact.Groups.{
  graph_ids, triples_of, In-merge_entry_self, In-merge_entry_other, merge_entry-Nodup,
}

pub iff_trans : (P Q R : Type 0) → P ↔ Q → Q ↔ R → P ↔ R
iff_trans P Q R a b = (λ p. b.0 (a.0 p), λ r. a.1 (b.1 r))

-- What the delta makes of a key, which it may not have.
abbrev pub Overlaid : Option Bool → Type 0 → Type 0
Overlaid none P = P
Overlaid (some true) P = Unit
Overlaid (some false) P = ⊥

-- Every key of the delta packs a quad.
abbrev pub AllPacked : List Entry → Type 0
AllPacked [] = Unit
AllPacked (e ∷ m) = ((k : QuadKey) × IsKey k × (e.key ≡ pack_quad k)) × AllPacked m

pub Overlaid-iff : (o : Option Bool) (P Q : Type 0) → P ↔ Q → Overlaid o P ↔ Overlaid o Q
Overlaid-iff none P Q h = h
Overlaid-iff (some true) P Q h = (λ _. tt, λ _. tt)
Overlaid-iff (some false) P Q h = (λ i. i, λ i. i)

pub flag-Overlaid : (b : Bool) (P : Type 0) → (b ≡ true) ↔ Overlaid (some b) P
flag-Overlaid true P = (λ _. tt, λ _. refl)
flag-Overlaid false P = (λ h. false-ne-true h, λ i. absurd i)

pub In-merge_delta :
    (m : List Entry) (groups : List Group) (j : QuadKey)
    → IsSorted m
    → AllPacked m
    → IsKey j
    → In (triple_of j) (triples_of (merge_delta m groups) j.g.raw)
      ↔ Overlaid (get m (pack_quad j)) (In (triple_of j) (triples_of groups j.g.raw))
unfolding merge_delta get
In-merge_delta [] groups j sorted packed key = (λ i. i, λ i. i)
In-merge_delta (e ∷ m) groups j sorted packed key =
    let (k, k_key, packs) = packed.0 in
    let unpacked : unpack_quad e.key ≡ k =
      ap unpack_quad packs ∙ (unpack_quad-pack_quad k k_key).0 in
    let groups' = merge_entry groups (unpack_quad e.key) e.live in
    let merged : Type 0 = In (triple_of j) (triples_of (merge_delta m groups') j.g.raw) in
    let here : Type 0 = In (triple_of j) (triples_of groups' j.g.raw) in
    let rest = In-merge_delta m groups' j sorted.1 packed.1 key in
    elim (Bool-cases (e.key == pack_quad j)) [
      | inl same ↦
          let at_j = (==_iff e.key (pack_quad j)).0 same in
          let past = get-AboveKey e.key (pack_quad j) m sorted.0 (omega (arith, at_j)) in
          let is_j : unpack_quad e.key ≡ j =
            ap unpack_quad at_j ∙ (unpack_quad-pack_quad j key).0 in
          let own =
            subst
              (λ z.
                In (triple_of j) (triples_of (merge_entry groups z e.live) j.g.raw)
                ↔ (e.live ≡ true))
              (sym is_j) (In-merge_entry_self groups j e.live) in
          rw same (
            iff_trans _ _ _ (subst (λ z. merged ↔ Overlaid z here) past rest) (
              iff_trans _ _ _ own
                (flag-Overlaid e.live (In (triple_of j) (triples_of groups j.g.raw)))))
      | inr other ↦
          let n : unpack_quad e.key ≡ j → ⊥ = λ is_j. false-ne-true (
            sym other
            ∙ (==_iff e.key (pack_quad j)).1 (packs ∙ ap pack_quad (sym unpacked ∙ is_j))) in
          rw other (
            iff_trans _ _ _ rest (
              Overlaid-iff (get m (pack_quad j)) _ _
                (In-merge_entry_other groups (unpack_quad e.key) j e.live n)))
    ]

pub merge_delta-Nodup :
    (m : List Entry) (groups : List Group)
    → Nodup (graph_ids groups)
    → Nodup (graph_ids (merge_delta m groups))
unfolding merge_delta
merge_delta-Nodup [] groups n = n
merge_delta-Nodup (e ∷ m) groups n =
    merge_delta-Nodup m (merge_entry groups (unpack_quad e.key) e.live)
      (merge_entry-Nodup groups (unpack_quad e.key) e.live n)
