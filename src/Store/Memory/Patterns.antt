-- ===== src/Store/Memory/Patterns.antt =====
-- The memory engine's answers to patterns.
use mathlib.Core.Path.{subst}
use oxigraph_nova.Prelude.{
  both_true, true-ne-false, ◌≡◌, ◌↔◌, inl, inr, refl, sym, ap, ◌∙◌, true, false, ◌&&◌, Bool-cases,
  Option, none, some, List, [], ◌∷◌,
}
use oxigraph_nova.Rdf.{
  Oxrdf, Subject, named, blank, Term, iri, bnode, literal, triple, Quad, GraphName,
}
use oxigraph_nova.Reasoning.Keys.{In}
use oxigraph_nova.Store.Vec.{Nodup}
use oxigraph_nova.Store.Memory.{
  Equality, MemoryStore, StoredQuad, stored_quad, quad_fits, scan, quads_for_pattern, term_of, fits,
}
use oxigraph_nova.Store.Memory.Refines.{Holds}

module _ (x : Oxrdf) (eq : Equality x) where
  -- The pattern's term, where it has one, is the term.
  abbrev pub Matches : {A : Type 0} → Option A → A → Type 0
  Matches none a = Unit
  Matches (some v) a = a ≡ v

  -- The term is the node.
  abbrev pub IsSubject : Term x → Subject x → Type 0
  IsSubject (iri n) (named m) = n ≡ m
  IsSubject (bnode b) (blank c) = b ≡ c
  IsSubject _ _ = ⊥

  -- The quad's four terms, in their places.
  pub record IsStored (r : StoredQuad x eq) (q : Quad x) : Type 0 where
    pub subject : IsSubject r.subject q.subject
    pub predicate : r.predicate ≡ iri q.predicate
    pub object : r.object ≡ q.object
    pub graph_name : r.graph_name ≡ q.graph_name

  abbrev pub SubjectMatches : Option (Term x) → Subject x → Type 0
  SubjectMatches none q = Unit
  SubjectMatches (some v) q = IsSubject v q

  pub record Fits (s : Option (Term x)) (p : Option x.NamedNode) (o : Option (Term x))
      (g : Option (GraphName x)) (q : Quad x) : Type 0 where
    pub subject_fits : SubjectMatches s q.subject
    pub predicate_fits : Matches p q.predicate
    pub object_fits : Matches o q.object
    pub graph_fits : Matches g q.graph_name

  IsSubject-term_of : (t : Term x) (q : Subject x) → IsSubject t q ↔ (t ≡ term_of x eq q)
  IsSubject-term_of (iri n) (named m) = (λ e. ap iri e, λ e. cc)
  IsSubject-term_of (iri n) (blank c) = (λ h. absurd h, λ e. cc)
  IsSubject-term_of (bnode b) (named m) = (λ h. absurd h, λ e. cc)
  IsSubject-term_of (bnode b) (blank c) = (λ e. ap bnode e, λ e. cc)
  IsSubject-term_of (literal l) (named m) = (λ h. absurd h, λ e. cc)
  IsSubject-term_of (literal l) (blank c) = (λ h. absurd h, λ e. cc)
  IsSubject-term_of (triple a b c) (named m) = (λ h. absurd h, λ e. cc)
  IsSubject-term_of (triple a b c) (blank d) = (λ h. absurd h, λ e. cc)

  Matches-Subject :
      (v : Option (Term x)) (q : Subject x) → Matches v (term_of x eq q) ↔ SubjectMatches v q
  Matches-Subject none q = (λ h. h, λ h. h)
  Matches-Subject (some v) q =
      let same = IsSubject-term_of v q in (λ e. same.1 (sym e), λ h. sym (same.0 h))

  rows_equal :
      (a b : StoredQuad x eq)
      → a.subject ≡ b.subject
      → a.predicate ≡ b.predicate
      → a.object ≡ b.object
      → a.graph_name ≡ b.graph_name
      → a ≡ b
  rows_equal a b e f g h = cc

  IsStored-stored_quad :
      (r : StoredQuad x eq) (q : Quad x) → IsStored r q ↔ (r ≡ stored_quad x eq q)
  unfolding stored_quad
  IsStored-stored_quad r q = (
    λ h.
        rows_equal r (stored_quad x eq q) ((IsSubject-term_of r.subject q.subject).0 h.subject)
          h.predicate h.object h.graph_name,
    λ e. record {
      subject = (IsSubject-term_of r.subject q.subject).1 (ap (λ z. z.subject) e);
      predicate = ap (λ z. z.predicate) e;
      object = ap (λ z. z.object) e;
      graph_name = ap (λ z. z.graph_name) e;
    },
  )

  fits-Matches :
      {A : Type 0} (d : (a b : A) → Dec (a ≡ b)) (v : Option A) (a : A)
      → (fits x eq d v a ≡ true) ↔ Matches v a
  fits-Matches d none a = (λ h. tt, λ h. refl)
  fits-Matches d (some v) a =
      elim (d a v) as (λ z. (elim z [ yes _ ↦ true | no _ ↦ false ] ≡ true) ↔ (a ≡ v)) [
        | yes e ↦ (λ h. e, λ h. refl)
        | no n ↦ (λ h. absurd (true-ne-false (sym h)), λ h. absurd (n h))
      ]

  quad_fits-Fits :
      (s : Option (Term x)) (p : Option x.NamedNode) (o : Option (Term x))
      (g : Option (GraphName x)) (q : Quad x)
      → (quad_fits x eq s p o g q ≡ true) ↔ Fits s p o g q
  unfolding quad_fits
  quad_fits-Fits s p o g q =
      let shown = Matches-Subject s q.subject in
      let fitting = fits-Matches eq.term_eq s (term_of x eq q.subject) in
      let predicate = fits-Matches x.node_eq p q.predicate in
      let object = fits-Matches eq.term_eq o q.object in
      let graph = fits-Matches eq.graph_eq g q.graph_name in
      let fits_o = fits x eq eq.term_eq o q.object in
      let fits_g = fits x eq eq.graph_eq g q.graph_name in
      let fits_p = fits x eq x.node_eq p q.predicate in
      let first =
        both_true (fits x eq eq.term_eq s (term_of x eq q.subject))
          (fits_p && (fits_o && fits_g)) in
      let second = both_true fits_p (fits_o && fits_g) in
      let third = both_true fits_o fits_g in
      (
        λ h.
            let tail = second.0 (first.0 h).1 in
            record {
              subject_fits = shown.0 (fitting.0 (first.0 h).0);
              predicate_fits = predicate.0 tail.0;
              object_fits = object.0 (third.0 tail.1).0;
              graph_fits = graph.0 (third.0 tail.1).1;
            },
        λ f. first.1 (
          fitting.1 (shown.1 f.subject_fits),
          second.1 (
            predicate.1 f.predicate_fits,
            third.1 (object.1 f.object_fits, graph.1 f.graph_fits),
          ),
        ),
      )

  scan-Fits :
      (s : Option (Term x)) (p : Option x.NamedNode) (o : Option (Term x))
      (g : Option (GraphName x)) (qs : List (Quad x)) (r : StoredQuad x eq)
      → In r (scan x eq s p o g qs)
        ↔ ((q : Quad x) × In q qs × Fits s p o g q × (r ≡ stored_quad x eq q))
  unfolding scan
  scan-Fits s p o g [] r = (λ i. absurd i, λ w. absurd w.1)
  scan-Fits s p o g (q ∷ qs) r =
      let rest = scan-Fits s p o g qs r in
      let one = quad_fits-Fits s p o g q in
      elim (Bool-cases (quad_fits x eq s p o g q)) [
        | inl good ↦ rw good (
          λ i. elim i [
            | inl e ↦ (q, inl refl, one.0 good, e)
            | inr j ↦ let w = rest.0 j in (w.0, inr w.1, w.2, w.3)
          ],
          λ w. elim w.1 [
            | inl e ↦ inl (w.3 ∙ ap (stored_quad x eq) e)
            | inr j ↦ inr (rest.1 (w.0, j, w.2, w.3))
          ],
        )
        | inr bad ↦ rw bad (
          λ i. let w = rest.0 i in (w.0, inr w.1, w.2, w.3),
          λ w. elim w.1 [
            | inl e ↦ absurd (true-ne-false (sym (one.1 (subst (Fits s p o g) e w.2)) ∙ bad))
            | inr j ↦ rest.1 (w.0, j, w.2, w.3)
          ],
        )
      ]

  term_of-injective : (a b : Subject x) → term_of x eq a ≡ term_of x eq b → a ≡ b
  term_of-injective (named n) (named m) e = cc
  term_of-injective (named n) (blank c) e = cc
  term_of-injective (blank b) (named m) e = cc
  term_of-injective (blank b) (blank c) e = cc

  quads_equal :
      (a b : Quad x)
      → a.subject ≡ b.subject
      → a.predicate ≡ b.predicate
      → a.object ≡ b.object
      → a.graph_name ≡ b.graph_name
      → a ≡ b
  quads_equal a b e f g h = cc

  iri-injective : (n m : x.NamedNode) → ◌≡◌ {A = Term x} (iri n) (iri m) → n ≡ m
  iri-injective n m e = cc

  stored_quad-injective : (a b : Quad x) → stored_quad x eq a ≡ stored_quad x eq b → a ≡ b
  unfolding stored_quad
  stored_quad-injective a b e =
      quads_equal a b (term_of-injective a.subject b.subject (ap (λ z. z.subject) e))
        (iri-injective a.predicate b.predicate (ap (λ z. z.predicate) e)) (ap (λ z. z.object) e)
        (ap (λ z. z.graph_name) e)

  scan-Nodup :
      (s : Option (Term x)) (p : Option x.NamedNode) (o : Option (Term x))
      (g : Option (GraphName x)) (qs : List (Quad x))
      → Nodup qs
      → Nodup (scan x eq s p o g qs)
  unfolding scan
  scan-Nodup s p o g [] h = tt
  scan-Nodup s p o g (q ∷ qs) h =
      let rest = scan-Nodup s p o g qs h.1 in
      elim (Bool-cases (quad_fits x eq s p o g q)) [
        | inl good ↦ rw good (
          λ i.
              let w = (scan-Fits s p o g qs (stored_quad x eq q)).0 i in
              h.0 (subst (λ z. In z qs) (sym (stored_quad-injective q w.0 w.3)) w.1),
          rest,
        )
        | inr bad ↦ rw bad rest
      ]

  -- A store that holds exactly the quads of a set, each once, answers a pattern with exactly the
  -- quads of the set that have the pattern's terms where it has one, each once, with each quad's
  -- subject, predicate, object and graph in their places.
  pub quads_for_pattern-Answers :
      (m : MemoryStore x eq) (P : Quad x → Type 0) (s : Option (Term x)) (p : Option x.NamedNode)
      (o : Option (Term x)) (g : Option (GraphName x))
      → Holds x eq m P
      → Nodup (quads_for_pattern x eq m s p o g)
        × ((r : StoredQuad x eq)
            → In r (quads_for_pattern x eq m s p o g)
              ↔ ((q : Quad x) × P q × Fits s p o g q × IsStored r q))
  unfolding quads_for_pattern
  quads_for_pattern-Answers m P s p o g h = (
    scan-Nodup s p o g m.quads h.nodup,
    λ r.
        let found = scan-Fits s p o g m.quads r in
        (
          λ i.
              let w = found.0 i in
              (w.0, (h.members w.0).0 w.1, w.2, (IsStored-stored_quad r w.0).1 w.3),
          λ w. found.1 (w.0, (h.members w.0).1 w.1, w.2, (IsStored-stored_quad r w.0).0 w.3),
        ),
  )
