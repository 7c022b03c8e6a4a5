-- ===== src/Louds/Compact/Groups.antt =====
-- The triples that compaction gathers by graph.
use oxigraph_nova.Prelude.{
  true-ne-false, ℕ, ◌≡◌, ◌↔◌, ◌⊎◌, inl, inr, refl, sym, ap, ◌∙◌, Bool, true, false, List, [], ◌∷◌,
  ◌++◌, ◌==◌, if◌then◌else◌, map, arith, Bool-cases, ==_iff,
}
use oxigraph_nova.Dictionary.Keys.{QuadKey}
use oxigraph_nova.Reasoning.Keys.{In}
use oxigraph_nova.Store.Vec.{Nodup, In-snoc}
use oxigraph_nova.Louds.Parts.{Triple}
use oxigraph_nova.Louds.Store.{triple_of}
use oxigraph_nova.Louds.Compact.{Group, triple_eq, retain_not, at_group, merge_entry}

abbrev pub graph_ids : List Group → List ℕ
graph_ids groups = map (λ (z : Group). z.graph) groups

-- The triples of a graph, none where it has no group.
abbrev pub triples_of : List Group → ℕ → List Triple
triples_of [] g = []
triples_of (e ∷ es) g = let rest = triples_of es g in if e.graph == g then e.triples else rest

pub triples_of-at_group :
    (groups : List Group) (g : ℕ) (f : List Triple → List Triple) (h : ℕ)
    → triples_of (at_group groups g f) h
      ≡ (if g == h then f (triples_of groups g) else triples_of groups h)
unfolding at_group
triples_of-at_group [] g f h = refl
triples_of-at_group (e ∷ es) g f h = ground (arith, triples_of-at_group es g f h)

pub In-at_group :
    (groups : List Group) (g : ℕ) (f : List Triple → List Triple) (h : ℕ)
    → In h (graph_ids (at_group groups g f)) ↔ ((h ≡ g) ⊎ In h (graph_ids groups))
unfolding at_group
In-at_group [] g f h = (λ i. i, λ i. i)
In-at_group (e ∷ es) g f h = ground (arith, In-at_group es g f h)

pub at_group-Nodup :
    (groups : List Group) (g : ℕ) (f : List Triple → List Triple)
    → Nodup (graph_ids groups)
    → Nodup (graph_ids (at_group groups g f))
unfolding at_group
at_group-Nodup [] g f n = (λ i. i, tt)
at_group-Nodup (e ∷ es) g f n = ground (arith, at_group-Nodup es g f, In-at_group es g f e.graph)

same_triple : (a b : Triple) → a.s.raw ≡ b.s.raw → a.p.raw ≡ b.p.raw → a.o.raw ≡ b.o.raw → a ≡ b
same_triple a b s p o = rw (s, p, o) refl

triple_eq_raws :
    (a b : Triple)
    → (triple_eq a b ≡ true) ↔ ((a.s.raw ≡ b.s.raw) × (a.p.raw ≡ b.p.raw) × (a.o.raw ≡ b.o.raw))
triple_eq_raws a b = ground arith

triple_eq_iff : (a b : Triple) → (triple_eq a b ≡ true) ↔ (a ≡ b)
triple_eq_iff a b = (
  λ h. let raws = (triple_eq_raws a b).0 h in same_triple a b raws.0 raws.1 raws.2,
  λ e. (triple_eq_raws a b).1 (
    ap (λ (z : Triple). z.s.raw) e,
    ap (λ (z : Triple). z.p.raw) e,
    ap (λ (z : Triple). z.o.raw) e,
  ),
)

pub In-retain_not :
    (ts : List Triple) (t u : Triple) → In u (retain_not ts t) ↔ (In u ts × (u ≡ t → ⊥))
unfolding retain_not
In-retain_not [] t u = (λ i. absurd i, λ h. h.0)
In-retain_not (v ∷ ts) t u = elim (Bool-cases (triple_eq v t)) [
  | inl same ↦
      let e = (triple_eq_iff v t).0 same in
      rw same (
        λ i. let r = (In-retain_not ts t u).0 i in (inr r.0, r.1),
        λ h. elim h.0 [
          | inl here ↦ absurd (h.1 (here ∙ e))
          | inr j ↦ (In-retain_not ts t u).1 (j, h.1)
        ],
      )
  | inr other ↦ rw other (
    λ i. elim i [
      | inl here ↦
          (inl here, λ e. true-ne-false (sym ((triple_eq_iff v t).1 (sym here ∙ e)) ∙ other))
      | inr j ↦ let r = (In-retain_not ts t u).0 j in (inr r.0, r.1)
    ],
    λ h. elim h.0 [ inl here ↦ inl here | inr j ↦ inr ((In-retain_not ts t u).1 (j, h.1)) ],
  )
]

-- One entry of the delta decides its own key, and no other.
pub In-merge_entry_self :
    (groups : List Group) (k : QuadKey) (live : Bool)
    → In (triple_of k) (triples_of (merge_entry groups k live) k.g.raw) ↔ (live ≡ true)
In-merge_entry_self groups k true =
    rw
      (
        triples_of-at_group groups k.g.raw (λ ts. ts ++ triple_of k ∷ []) k.g.raw,
        (==_iff k.g.raw k.g.raw).1 refl,
      )
      (
        λ _. refl,
        λ _. (In-snoc (triple_of k) (triples_of groups k.g.raw) (triple_of k)).1 (inl refl),
      )
In-merge_entry_self groups k false =
    rw
      (
        triples_of-at_group groups k.g.raw (λ ts. retain_not ts (triple_of k)) k.g.raw,
        (==_iff k.g.raw k.g.raw).1 refl,
      )
      (
        λ i.
            absurd (
              ((In-retain_not (triples_of groups k.g.raw) (triple_of k) (triple_of k)).0 i).1 refl),
        λ h. absurd (true-ne-false (sym h)),
      )

same_key : (k j : QuadKey) → k.g.raw ≡ j.g.raw → triple_of k ≡ triple_of j → k ≡ j
same_key k j g t =
    let s = ap (λ (z : Triple). z.s) t in
    let p = ap (λ (z : Triple). z.p) t in let o = ap (λ (z : Triple). z.o) t in rw (g, s, p, o) refl

pub In-merge_entry_other :
    (groups : List Group) (k j : QuadKey) (live : Bool)
    → (k ≡ j → ⊥)
    → In (triple_of j) (triples_of (merge_entry groups k live) j.g.raw)
      ↔ In (triple_of j) (triples_of groups j.g.raw)
In-merge_entry_other groups k j true n = elim (Bool-cases (k.g.raw == j.g.raw)) [
  | inl same ↦
      let g = (==_iff k.g.raw j.g.raw).0 same in
      rw (triples_of-at_group groups k.g.raw (λ ts. ts ++ triple_of k ∷ []) j.g.raw, same, g)
        (
          λ i. elim ((In-snoc (triple_of j) (triples_of groups j.g.raw) (triple_of k)).0 i) [
            | inl e ↦ absurd (n (same_key k j g (sym e)))
            | inr old ↦ old
          ],
          λ i. (In-snoc (triple_of j) (triples_of groups j.g.raw) (triple_of k)).1 (inr i),
        )
  | inr other ↦
      rw (triples_of-at_group groups k.g.raw (λ ts. ts ++ triple_of k ∷ []) j.g.raw, other)
        (λ i. i, λ i. i)
]
In-merge_entry_other groups k j false n = elim (Bool-cases (k.g.raw == j.g.raw)) [
  | inl same ↦
      let g = (==_iff k.g.raw j.g.raw).0 same in
      rw (triples_of-at_group groups k.g.raw (λ ts. retain_not ts (triple_of k)) j.g.raw, same, g)
        (
          λ i. ((In-retain_not (triples_of groups j.g.raw) (triple_of k) (triple_of j)).0 i).0,
          λ i.
              (In-retain_not (triples_of groups j.g.raw) (triple_of k) (triple_of j)).1
                (i, λ e. n (same_key k j g (sym e))),
        )
  | inr other ↦
      rw (triples_of-at_group groups k.g.raw (λ ts. retain_not ts (triple_of k)) j.g.raw, other)
        (λ i. i, λ i. i)
]

pub merge_entry-Nodup :
    (groups : List Group) (k : QuadKey) (live : Bool)
    → Nodup (graph_ids groups)
    → Nodup (graph_ids (merge_entry groups k live))
merge_entry-Nodup groups k true n = at_group-Nodup groups k.g.raw (λ ts. ts ++ triple_of k ∷ []) n
merge_entry-Nodup groups k false n =
    at_group-Nodup groups k.g.raw (λ ts. retain_not ts (triple_of k)) n
