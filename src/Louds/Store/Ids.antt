-- ===== src/Louds/Store/Ids.antt =====
-- The ids of a quad: `get_id` and `get_graph_id` of its parts, and `intern` of them.
use mathlib.Core.Option.{some-injective, none-ne-some}
use oxigraph_nova.Prelude.{ℕ, ◌≡◌, refl, sym, ap, ◌∙◌, Option, none, some, arith}
use oxigraph_nova.Rdf.{Oxrdf, Subject, named, blank, Term, iri, GraphName, default_graph, Quad}
use oxigraph_nova.Dictionary.Keys.{TermId, graph_id, QuadKey, IsKey}
use oxigraph_nova.Dictionary.Graphs.{IsLinked, old_id_le}
use oxigraph_nova.Louds.Parts.{Parts, PartsLaws}
use oxigraph_nova.Louds.Store.{Inner, Names, subject_to_term, all_ids, quad_ids}

module _ (x : Oxrdf) (parts : Parts x) (laws : PartsLaws x parts) where
  abbrev pub Linked : Names x parts → Type 0
  Linked = IsLinked (GraphName x) parts.graph_eq default_graph

  -- The parts of the quad have the ids of the key.
  pub record HasIds (names : Names x parts) (terms : parts.Terms) (q : Quad x) (k : QuadKey)
      : Type 0 where
    pub graph : names.graph_to_id q.graph_name ≡ some k.g.raw
    pub subject : parts.get_id terms (subject_to_term x parts q.subject) ≡ some k.s
    pub predicate : parts.get_id terms (iri q.predicate) ≡ some k.p
    pub object : parts.get_id terms q.object ≡ some k.o

  pub quad_ids-HasIds :
      (st : Inner x parts) (q : Quad x) (k : QuadKey)
      → HasIds st.names st.terms q k
      → quad_ids x parts st q ≡ some k
  unfolding quad_ids
  quad_ids-HasIds st q k h = rw (h.graph, h.subject, h.predicate, h.object, quad_ids) refl

  all_ids_inv :
      (g : Option ℕ) (s p o : Option TermId) (k : QuadKey)
      → all_ids x parts g s p o ≡ some k
      → (g ≡ some k.g.raw) × (s ≡ some k.s) × (p ≡ some k.p) × (o ≡ some k.o)
  all_ids_inv none s p o k e = absurd (none-ne-some k e)
  all_ids_inv (some g) none p o k e = absurd (none-ne-some k e)
  all_ids_inv (some g) (some s) none o k e = absurd (none-ne-some k e)
  all_ids_inv (some g) (some s) (some p) none k e = absurd (none-ne-some k e)
  all_ids_inv (some g) (some s) (some p) (some o) k e =
      let same = some-injective (record { g = graph_id g; s = s; p = p; o = o }) k e in
      (
        ap (λ (z : QuadKey). some z.g.raw) same,
        ap (λ (z : QuadKey). some z.s) same,
        ap (λ (z : QuadKey). some z.p) same,
        ap (λ (z : QuadKey). some z.o) same,
      )

  pub HasIds-quad_ids :
      (st : Inner x parts) (q : Quad x) (k : QuadKey)
      → quad_ids x parts st q ≡ some k
      → HasIds st.names st.terms q k
  unfolding quad_ids
  HasIds-quad_ids st q k h =
      let (g, s, p, o) =
        all_ids_inv (st.names.graph_to_id q.graph_name)
          (parts.get_id st.terms (subject_to_term x parts q.subject))
          (parts.get_id st.terms (iri q.predicate)) (parts.get_id st.terms q.object) k h in
      record { graph = g; subject = s; predicate = p; object = o }

  iri_injective : (m n : x.NamedNode) → ◌≡◌ {A = Term x} (iri m) (iri n) → m ≡ n
  iri_injective m n e = cc

  subject_to_term_injective :
      (a b : Subject x) → subject_to_term x parts a ≡ subject_to_term x parts b → a ≡ b
  subject_to_term_injective (named m) (named n) e = cc
  subject_to_term_injective (blank m) (blank n) e = cc
  subject_to_term_injective (named m) (blank n) e = cc
  subject_to_term_injective (blank m) (named n) e = cc

  -- No two quads have the same ids.
  pub HasIds-injective :
      (names : Names x parts) (terms : parts.Terms) (q v : Quad x) (k : QuadKey)
      → Linked names
      → laws.IsTerms terms
      → HasIds names terms q k
      → HasIds names terms v k
      → q ≡ v
  HasIds-injective names terms q v k linked valid h j =
      let g = some-injective q.graph_name v.graph_name (
        sym (linked.back q.graph_name k.g.raw h.graph)
        ∙ linked.back v.graph_name k.g.raw j.graph) in
      let s = subject_to_term_injective q.subject v.subject (
        laws.get_id_injective terms (subject_to_term x parts q.subject)
          (subject_to_term x parts v.subject) k.s valid h.subject j.subject) in
      let p = iri_injective q.predicate v.predicate (
        laws.get_id_injective terms (iri q.predicate) (iri v.predicate) k.p valid h.predicate
          j.predicate) in
      let o = laws.get_id_injective terms q.object v.object k.o valid h.object j.object in
      rw (g, s, p, o) refl

  pub HasIds-IsKey :
      (names : Names x parts) (terms : parts.Terms) (q : Quad x) (k : QuadKey)
      → Linked names
      → laws.IsTerms terms
      → HasIds names terms q k
      → IsKey k
  HasIds-IsKey names terms q k linked valid h = record {
    graph = omega (
      arith,
      old_id_le (GraphName x) parts.graph_eq default_graph names q.graph_name k.g.raw linked
          h.graph,
    );
    subject = laws.get_id_le terms (subject_to_term x parts q.subject) k.s valid h.subject;
    predicate = laws.get_id_le terms (iri q.predicate) k.p valid h.predicate;
    object = laws.get_id_le terms q.object k.o valid h.object;
  }
