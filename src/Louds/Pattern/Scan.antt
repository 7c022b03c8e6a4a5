-- ===== src/Louds/Pattern/Scan.antt =====
-- The scan of a graph finds the live keys that fit the pattern.
use mathlib.Core.Path.{subst}
use oxigraph_nova.Prelude.{
  both_true, false-ne-true, ℕ, ◌≤◌, ◌≡◌, ◌↔◌, inl, inr, refl, sym, ap, ◌∙◌, Bool, true, ◌&&◌,
  Option, none, some, List, [], ◌∷◌, ◌==◌, leb, arith, Bool-cases, ==_iff, leb→le, ℕ_discrete,
}
use oxigraph_nova.Reasoning.Keys.{In}
use oxigraph_nova.Store.Vec
use oxigraph_nova.Store.Vec.{In-contains}
use oxigraph_nova.Dictionary.Keys.{TermId, GraphId, QuadKey, pack_quad, unpack_quad}
use oxigraph_nova.Louds.Parts.{Triple, HasId}
use oxigraph_nova.Louds.Delta.{Entry, entry, entries_in}
use oxigraph_nova.Louds.Pattern.{Pattern, id_fits, key_fits, seen, delta_keys, key_of, ring_keys}

-- The key is of the graph and has the ids that are bound.
pub record Fits (g : GraphId) (pattern : Pattern) (k : QuadKey) : Type 0 where
  pub graph : k.g.raw ≡ g.raw
  pub subject : HasId pattern.s k.s
  pub predicate : HasId pattern.p k.p
  pub object : HasId pattern.o k.o

id_fits-HasId : (o : Option TermId) (i : TermId) → (id_fits o i ≡ true) ↔ HasId o i
id_fits-HasId none i = (λ _. tt, λ _. refl)
id_fits-HasId (some j) i = ==_iff i.raw j.raw

pub key_fits-Fits :
    (g : GraphId) (pattern : Pattern) (k : QuadKey)
    → (key_fits g pattern k ≡ true) ↔ Fits g pattern k
key_fits-Fits g pattern k =
    let third = both_true (id_fits pattern.p k.p) (id_fits pattern.o k.o) in
    let second =
      both_true (id_fits pattern.s k.s) (id_fits pattern.p k.p && id_fits pattern.o k.o) in
    let first =
      both_true (k.g.raw == g.raw)
        (id_fits pattern.s k.s && (id_fits pattern.p k.p && id_fits pattern.o k.o)) in
    (
      λ h.
          let two = second.0 (first.0 h).1 in
          let three = third.0 two.1 in
          record {
            graph = (==_iff k.g.raw g.raw).0 (first.0 h).0;
            subject = (id_fits-HasId pattern.s k.s).0 two.0;
            predicate = (id_fits-HasId pattern.p k.p).0 three.0;
            object = (id_fits-HasId pattern.o k.o).0 three.1;
          },
      λ f. first.1 (
        (==_iff k.g.raw g.raw).1 f.graph,
        second.1 (
          (id_fits-HasId pattern.s k.s).1 f.subject,
          third.1 (
            (id_fits-HasId pattern.p k.p).1 f.predicate,
            (id_fits-HasId pattern.o k.o).1 f.object,
          ),
        ),
      ),
    )

le→leb : (a b : ℕ) → a ≤ b → leb a b ≡ true
le→leb a b h = ground arith

pub In-entries_in :
    (m : List Entry) (lo hi : ℕ) (e : Entry)
    → In e (entries_in m lo hi) ↔ (In e m × (lo ≤ e.key) × (e.key ≤ hi))
In-entries_in [] lo hi e = (λ i. absurd i, λ h. h.0)
In-entries_in (d ∷ m) lo hi e = elim (Bool-cases (leb lo d.key && leb d.key hi)) [
  | inl fits ↦
      let both = (both_true (leb lo d.key) (leb d.key hi)).0 fits in
      rw fits (
        λ i. elim i [
          | inl here ↦ (
            inl here,
            subst (λ (z : Entry). lo ≤ z.key) (sym here) (leb→le lo d.key both.0),
            subst (λ (z : Entry). z.key ≤ hi) (sym here) (leb→le d.key hi both.1),
          )
          | inr j ↦ let h = (In-entries_in m lo hi e).0 j in (inr h.0, h.1, h.2)
        ],
        λ h. elim h.0 [
          | inl here ↦ inl here
          | inr j ↦ inr ((In-entries_in m lo hi e).1 (j, h.1, h.2))
        ],
      )
  | inr misses ↦ rw misses (
    λ i. let h = (In-entries_in m lo hi e).0 i in (inr h.0, h.1, h.2),
    λ h. elim h.0 [
      | inl here ↦ absurd (
          false-ne-true (
            sym misses
            ∙ (both_true (leb lo d.key) (leb d.key hi)).1 (
              le→leb lo d.key (subst (λ (z : Entry). lo ≤ z.key) here h.1),
              le→leb d.key hi (subst (λ (z : Entry). z.key ≤ hi) here h.2),
            )))
      | inr j ↦ (In-entries_in m lo hi e).1 (j, h.1, h.2)
    ],
  )
]

pub In-seen :
    (g : GraphId) (pattern : Pattern) (m : List Entry) (n : ℕ)
    → In n (seen g pattern m)
      ↔ ((v : Bool) × In (entry n v) m × (key_fits g pattern (unpack_quad n) ≡ true))
unfolding seen
In-seen g pattern [] n = (λ i. absurd i, λ h. h.1)
In-seen g pattern (e ∷ m) n =
    let rest = In-seen g pattern m n in
    elim (Bool-cases (key_fits g pattern (unpack_quad e.key))) [
      | inl fits ↦ rw fits (
        λ i. elim i [
          | inl here ↦ (
            e.live,
            inl (ap (λ z. entry z e.live) here),
            subst (λ z. key_fits g pattern (unpack_quad z) ≡ true) (sym here) fits,
          )
          | inr j ↦ let h = rest.0 j in (h.0, inr h.1, h.2)
        ],
        λ h. elim h.1 [
          | inl here ↦ inl (ap (λ (z : Entry). z.key) here)
          | inr j ↦ inr (rest.1 (h.0, j, h.2))
        ],
      )
      | inr misses ↦ rw misses (
        λ i. let h = rest.0 i in (h.0, inr h.1, h.2),
        λ h. elim h.1 [
          | inl here ↦
              let at_e = ap (λ (z : Entry). z.key) here in
              absurd (
                false-ne-true
                  (sym misses ∙ subst (λ z. key_fits g pattern (unpack_quad z) ≡ true) at_e h.2))
          | inr j ↦ rest.1 (h.0, j, h.2)
        ],
      )
    ]

pub In-delta_keys :
    (g : GraphId) (pattern : Pattern) (m : List Entry) (k : QuadKey)
    → In k (delta_keys g pattern m)
      ↔ ((n : ℕ) × In (entry n true) m × (k ≡ unpack_quad n) × (key_fits g pattern k ≡ true))
unfolding delta_keys
In-delta_keys g pattern [] k = (λ i. absurd i, λ h. h.1)
In-delta_keys g pattern (e ∷ m) k =
    let rest = In-delta_keys g pattern m k in
    let split = both_true (key_fits g pattern (unpack_quad e.key)) e.live in
    elim (Bool-cases (key_fits g pattern (unpack_quad e.key) && e.live)) [
      | inl fits ↦ rw fits (
        λ i. elim i [
          | inl here ↦ (
            e.key,
            inl (ap (λ z. entry e.key z) (sym (split.0 fits).1)),
            here,
            subst (λ z. key_fits g pattern z ≡ true) (sym here) (split.0 fits).0,
          )
          | inr j ↦ let h = rest.0 j in (h.0, inr h.1, h.2, h.3)
        ],
        λ h. elim h.1 [
          | inl here ↦ inl (h.2 ∙ ap (λ (z : Entry). unpack_quad z.key) here)
          | inr j ↦ inr (rest.1 (h.0, j, h.2, h.3))
        ],
      )
      | inr misses ↦ rw misses (
        λ i. let h = rest.0 i in (h.0, inr h.1, h.2, h.3),
        λ h. elim h.1 [
          | inl here ↦
              let at_e = h.2 ∙ ap (λ (z : Entry). unpack_quad z.key) here in
              absurd (
                false-ne-true (
                  sym misses
                  ∙ split.1 (
                    subst (λ z. key_fits g pattern z ≡ true) at_e h.3,
                    sym (ap (λ (z : Entry). z.live) here),
                  )))
          | inr j ↦ rest.1 (h.0, j, h.2, h.3)
        ],
      )
    ]

pub In-ring_keys :
    (g : GraphId) (ns : List ℕ) (ts : List Triple) (k : QuadKey)
    → In k (ring_keys g ns ts)
      ↔ ((t : Triple) × In t ts × (k ≡ key_of g t) × (In (pack_quad k) ns → ⊥))
unfolding ring_keys
In-ring_keys g ns [] k = (λ i. absurd i, λ h. h.1)
In-ring_keys g ns (t ∷ ts) k =
    let rest = In-ring_keys g ns ts k in
    let known = In-contains ℕ_discrete ns (pack_quad (key_of g t)) in
    elim (Bool-cases (Vec.contains ℕ_discrete ns (pack_quad (key_of g t)))) [
      | inl old ↦ rw old (
        λ i. let h = rest.0 i in (h.0, inr h.1, h.2, h.3),
        λ h. elim h.1 [
          | inl here ↦
              let at_t = h.2 ∙ ap (key_of g) here in
              absurd (h.3 (subst (λ z. In (pack_quad z) ns) (sym at_t) (known.0 old)))
          | inr j ↦ rest.1 (h.0, j, h.2, h.3)
        ],
      )
      | inr new ↦ rw new (
        λ i. elim i [
          | inl here ↦ (
            t,
            inl refl,
            here,
            λ j. false-ne-true (sym new ∙ known.1 (subst (λ z. In (pack_quad z) ns) here j)),
          )
          | inr j ↦ let h = rest.0 j in (h.0, inr h.1, h.2, h.3)
        ],
        λ h. elim h.1 [
          | inl here ↦ inl (h.2 ∙ ap (key_of g) here)
          | inr j ↦ inr (rest.1 (h.0, j, h.2, h.3))
        ],
      )
    ]
