-- ===== src/Dictionary/Terms/Quoted.antt =====
-- dict.rs: a quoted triple gets the next id, and its entries in the side tables.
use mathlib.Core.Path.{subst}
use mathlib.Core.Option.{some-injective}
use oxigraph_nova.Prelude.{
  ◌≤◌, ◌≡◌, inl, inr, refl, sym, ap, ◌∙◌, true, none, some, ◌==◌, length, arith, Bool-cases,
}
use oxigraph_nova.Rdf.{Oxrdf, Subject, named, blank, Term, iri, triple}
use oxigraph_nova.Dictionary.Keys.{TermId, max_term_id}
use oxigraph_nova.Dictionary.Terms.{
  Components, components_eq, Terms, put_components, put_index, subject_term,
}
use oxigraph_nova.Dictionary.Terms.Tables.{
  IsTable, id_lt, next_id, added, added-Keeps, added_ids, added-IsTable, HasComponents,
  IsDictionary, HasComponents-Keeps,
}

same_id : (a b : TermId) → a.raw ≡ b.raw → a ≡ b
same_id a b e = rw e refl

components_raws :
    (a b : Components)
    → components_eq a b ≡ true
    → (a.s.raw ≡ b.s.raw) × (a.p.raw ≡ b.p.raw) × (a.o.raw ≡ b.o.raw)
components_raws a b h = ground (arith, h)

components_refl : (a : Components) → components_eq a a ≡ true
components_refl a = ground arith

module _ (x : Oxrdf) (term_eq : (a b : Term x) → Dec (a ≡ b)) where
  -- No two terms have the same id.
  pub ids-injective :
      (d : Terms x term_eq) (t u : Term x) (id : TermId)
      → IsTable x term_eq d
      → d.term_to_id t ≡ some id
      → d.term_to_id u ≡ some id
      → t ≡ u
  ids-injective d t u id h a b =
      some-injective t u (some-injective (some t) (some u) (sym (h.named t id a) ∙ h.named u id b))

  subject_term-injective :
      (a b : Subject x) → subject_term x term_eq a ≡ subject_term x term_eq b → a ≡ b
  subject_term-injective (named m) (named n) e = cc
  subject_term-injective (named m) (blank c) e = cc
  subject_term-injective (blank b) (named n) e = cc
  subject_term-injective (blank b) (blank c) e = cc

  iri-injective : (m n : x.NamedNode) → ◌≡◌ {A = Term x} (iri m) (iri n) → m ≡ n
  iri-injective m n e = cc

  -- Quoted triples whose parts have the same ids are the same.
  same_parts :
      (d : Terms x term_eq) (s s' : Subject x) (p p' : x.NamedNode) (o o' : Term x)
      (c c' : Components)
      → IsTable x term_eq d
      → components_eq c c' ≡ true
      → HasComponents x term_eq d s p o c
      → HasComponents x term_eq d s' p' o' c'
      → ◌≡◌ {A = Term x} (triple s p o) (triple s' p' o')
  same_parts d s s' p p' o o' c c' h e (a, b, f) (a', b', f') =
      let (rs, rp, ro) = components_raws c c' e in
      let es = subject_term-injective s s' (
        ids-injective d (subject_term x term_eq s) (subject_term x term_eq s') c'.s h
          (a ∙ ap some (same_id c.s c'.s rs)) a') in
      let ep =
        iri-injective p p'
          (ids-injective d (iri p) (iri p') c'.p h (b ∙ ap some (same_id c.p c'.p rp)) b') in
      let eo = ids-injective d o o' c'.o h (f ∙ ap some (same_id c.o c'.o ro)) f' in
      rw (es, ep, eo) refl

  -- A new quoted triple, with its entries in the side tables.
  abbrev pub filed : Terms x term_eq → Term x → Components → Terms x term_eq
  filed d t c = record (added x term_eq d t) {
    triple_terms = put_components x term_eq d.triple_terms (next_id x term_eq d) c;
    triple_index = put_index x term_eq d.triple_index c (next_id x term_eq d);
  }

  module _ (d : Terms x term_eq) (h : IsDictionary x term_eq d) (s : Subject x) (p : x.NamedNode)
      (o : Term x) (c : Components) (parts : HasComponents x term_eq d s p o c)
      (new : d.term_to_id (triple s p o) ≡ none) where
    abbrev own_id : TermId
    own_id = next_id x term_eq d

    own_entry :
        (s' : Subject x) (p' : x.NamedNode) (o' : Term x) (id : TermId)
        → ◌≡◌ {A = Term x} (triple s p o) (triple s' p' o')
        → own_id ≡ id
        → (e : Components) × ((filed d (triple s p o) c).triple_terms id ≡ some e)
          × ((filed d (triple s p o) c).triple_index e ≡ some id)
          × HasComponents x term_eq (filed d (triple s p o) c) s' p' o' e
    own_entry s' p' o' id same own =
        let es : s ≡ s' = cc in
        let ep : p ≡ p' = cc in
        let eo : o ≡ o' = cc in
        let (a, b, f) =
          HasComponents-Keeps x term_eq d (added x term_eq d (triple s p o)) s p o c
            (added-Keeps x term_eq d h.table (triple s p o) new) parts in
        let table = filed d (triple s p o) c in
        let known : (own_id.raw == own_id.raw) ≡ true = ground arith in
        (
          c,
          subst (λ z. table.triple_terms z ≡ some c) own (rw known refl),
          rw (components_refl c) (ap some own),
          (
            subst (λ z. table.term_to_id (subject_term x term_eq z) ≡ some c.s) es a,
            subst (λ z. table.term_to_id (iri z) ≡ some c.p) ep b,
            subst (λ z. table.term_to_id z ≡ some c.o) eo f,
          ),
        )

    old_entry :
        (s' : Subject x) (p' : x.NamedNode) (o' : Term x) (id : TermId)
        → (◌≡◌ {A = Term x} (triple s p o) (triple s' p' o') → ⊥)
        → d.term_to_id (triple s' p' o') ≡ some id
        → (e : Components) × ((filed d (triple s p o) c).triple_terms id ≡ some e)
          × ((filed d (triple s p o) c).triple_index e ≡ some id)
          × HasComponents x term_eq (filed d (triple s p o) c) s' p' o' e
    old_entry s' p' o' id other old =
        let (e, terms, index, parts') = h.splits s' p' o' id old in
        let lt = id_lt x term_eq d (triple s' p' o') id h.table old in
        let kept =
          HasComponents-Keeps x term_eq d (added x term_eq d (triple s p o)) s' p' o' e
            (added-Keeps x term_eq d h.table (triple s p o) new) parts' in
        elim (Bool-cases (own_id.raw == id.raw)) [
          | inl same ↦ absurd (ground (arith, same, lt))
          | inr apart ↦ elim (Bool-cases (components_eq c e)) [
            | inl same ↦ absurd (other (same_parts d s s' p p' o o' c e h.table same parts parts'))
            | inr differ ↦ (e, rw apart terms, rw differ index, kept)
          ]
        ]

    pub filed-IsDictionary :
        length d.id_to_term ≤ max_term_id → IsDictionary x term_eq (filed d (triple s p o) c)
    filed-IsDictionary room =
        let t = added-IsTable x term_eq d h.table (triple s p o) new room in
        record {
          table = record {
            named = t.named;
            known = t.known;
            resident = t.resident;
            small = t.small;
          };
          splits = λ s' p' o' id e.
              elim (added_ids x term_eq d h.table (triple s p o) new (triple s' p' o') id e) [
                | inl (same, own) ↦ own_entry s' p' o' id same own
                | inr (other, old) ↦ old_entry s' p' o' id other old
              ];
        }
