-- ===== src/Louds/Store/Interning.antt =====
-- Interning a quad: what it adds, and what it leaves as it was.
use oxigraph_nova.Prelude.{ℕ, ◌≡◌, refl, ◌∙◌, some}
use oxigraph_nova.Prelude.Result.{Result, ok, err}
use oxigraph_nova.Rdf.{Oxrdf, Term, iri, GraphName, default_graph, Quad}
use oxigraph_nova.Dictionary.Keys.{TermId, GraphId, QuadKey}
use oxigraph_nova.Dictionary.Graphs.{Interned, intern_graph, intern_graph-Interned}
use oxigraph_nova.Louds.Parts.{Parts, PartsLaws}
use oxigraph_nova.Louds.Store.{
  Names, Inner, subject_to_term, and_then, named_in, intern_name, intern_term, intern_quad,
}
use oxigraph_nova.Louds.Store.Ids.{Linked, HasIds}

module _ (x : Oxrdf) (parts : Parts x) (laws : PartsLaws x parts) where
  -- Both tables stay well-formed and keep every id, and nothing else changes.
  pub record Grows (st st' : Inner x parts) : Type 0 where
    pub linked : Linked x parts laws st'.names
    pub valid : laws.IsTerms st'.terms
    pub graphs : st'.graphs ≡ st.graphs
    pub delta : st'.delta ≡ st.delta
    pub named : st'.named_graph_ids ≡ st.named_graph_ids
    pub name_kept :
        (g : GraphName x) (i : ℕ)
        → st.names.graph_to_id g ≡ some i
        → st'.names.graph_to_id g ≡ some i
    pub term_kept :
        (t : Term x) (i : TermId)
        → parts.get_id st.terms t ≡ some i
        → parts.get_id st'.terms t ≡ some i

  pub Grows-refl :
      (st : Inner x parts) → Linked x parts laws st.names → laws.IsTerms st.terms → Grows st st
  Grows-refl st linked valid = record {
    linked = linked;
    valid = valid;
    graphs = refl;
    delta = refl;
    named = refl;
    name_kept = λ n i e. e;
    term_kept = λ t i e. e;
  }

  Grows-trans : (a b c : Inner x parts) → Grows a b → Grows b c → Grows a c
  Grows-trans a b c f g = record {
    linked = g.linked;
    valid = g.valid;
    graphs = g.graphs ∙ f.graphs;
    delta = g.delta ∙ f.delta;
    named = g.named ∙ f.named;
    name_kept = λ n i e. g.name_kept n i (f.name_kept n i e);
    term_kept = λ t i e. g.term_kept t i (f.term_kept t i e);
  }

  pub HasIds-Grows :
      (st st' : Inner x parts) (q : Quad x) (k : QuadKey)
      → Grows st st'
      → HasIds x parts laws st.names st.terms q k
      → HasIds x parts laws st'.names st'.terms q k
  HasIds-Grows st st' q k f h = record {
    graph = f.name_kept q.graph_name k.g.raw h.graph;
    subject = f.term_kept (subject_to_term x parts q.subject) k.s h.subject;
    predicate = f.term_kept (iri q.predicate) k.p h.predicate;
    object = f.term_kept q.object k.o h.object;
  }

  -- A call grows the store, and gives what is asked of its value where it has one.
  abbrev pub Gives :
      {A : Type 0}
      → Inner x parts
      → (Inner x parts → A → Type 0)
      → Inner x parts × Result A
      → Type 0
  Gives st P (st', err e) = Grows st st'
  Gives st P (st', ok a) = Grows st st' × P st' a

  Gives-Grows :
      {A : Type 0} (st : Inner x parts) (P : Inner x parts → A → Type 0)
      (r : Inner x parts × Result A)
      → Gives st P r
      → Grows st r.0
  Gives-Grows st P (st', err e) h = h
  Gives-Grows st P (st', ok a) h = h.0

  chain :
      {B : Type 0} (st st' : Inner x parts) (Q : Inner x parts → B → Type 0)
      (r : Inner x parts × Result B)
      → Grows st st'
      → Gives st' Q r
      → Gives st Q r
  chain st st' Q (st2, err e) g h = Grows-trans st st' st2 g h
  chain st st' Q (st2, ok b) g h = (Grows-trans st st' st2 g h.0, h.1)

  Gives-and_then :
      {A B : Type 0} (st : Inner x parts) (P : Inner x parts → A → Type 0)
      (Q : Inner x parts → B → Type 0) (r : Inner x parts × Result A)
      (next : Inner x parts → A → Inner x parts × Result B)
      → Gives st P r
      → ((st' : Inner x parts) (a : A) → Grows st st' → P st' a → Gives st' Q (next st' a))
      → Gives st Q (and_then x parts r next)
  Gives-and_then st P Q (st', err e) next h f = h
  Gives-and_then st P Q (st', ok a) next h f = chain st st' Q (next st' a) h.0 (f st' a h.0 h.1)

  Gives-intro :
      {A : Type 0} (st st' : Inner x parts) (P : Inner x parts → A → Type 0) (r : Result A)
      → Grows st st'
      → ((a : A) → r ≡ ok a → P st' a)
      → Gives st P (st', r)
  Gives-intro st st' P (err e) g h = g
  Gives-intro st st' P (ok a) g h = (g, h a refl)

  abbrev Named : GraphName x → Inner x parts → GraphId → Type 0
  Named g st i = st.names.graph_to_id g ≡ some i.raw

  abbrev Termed : Term x → Inner x parts → TermId → Type 0
  Termed t st i = parts.get_id st.terms t ≡ some i

  named_in-Gives :
      (st : Inner x parts) (g : GraphName x) (r : Result (ℕ × Names x parts))
      → Linked x parts laws st.names
      → laws.IsTerms st.terms
      → Interned (GraphName x) parts.graph_eq default_graph st.names g r
      → Gives st (Named g) (named_in x parts st r)
  named_in-Gives st g (err e) linked valid h = Grows-refl st linked valid
  named_in-Gives st g (ok (id, names)) linked valid h = (
    record {
      linked = h.0;
      valid = valid;
      graphs = refl;
      delta = refl;
      named = refl;
      name_kept = h.3;
      term_kept = λ t i e. e;
    },
    h.2,
  )

  intern_name-Gives :
      (st : Inner x parts) (g : GraphName x)
      → Linked x parts laws st.names
      → laws.IsTerms st.terms
      → Gives st (Named g) (intern_name x parts st g)
  intern_name-Gives st g linked valid =
      named_in-Gives st g (intern_graph (GraphName x) parts.graph_eq default_graph st.names g)
        linked valid
        (intern_graph-Interned (GraphName x) parts.graph_eq default_graph st.names g linked)

  intern_term-Gives :
      (st : Inner x parts) (t : Term x)
      → Linked x parts laws st.names
      → laws.IsTerms st.terms
      → Gives st (Termed t) (intern_term x parts st t)
  intern_term-Gives st t linked valid =
      let r = parts.intern st.terms t in
      Gives-intro st (record st { terms = r.0 }) (Termed t) r.1
        (record {
          linked = linked;
          valid = laws.intern-IsTerms st.terms t valid;
          graphs = refl;
          delta = refl;
          named = refl;
          name_kept = λ n i e. e;
          term_kept = λ u i e. laws.intern_keeps st.terms t u i valid e;
        })
        (λ id e. laws.intern-get_id st.terms t id valid e)

  pub intern_quad-Gives :
      (st : Inner x parts) (q : Quad x)
      → Linked x parts laws st.names
      → laws.IsTerms st.terms
      → Gives st (λ st' k. HasIds x parts laws st'.names st'.terms q k) (intern_quad x parts st q)
  unfolding intern_quad
  intern_quad-Gives st q linked valid =
      Gives-and_then st (Named q.graph_name) (λ st' k. HasIds x parts laws st'.names st'.terms q k)
        (intern_name x parts st q.graph_name) _ (intern_name-Gives st q.graph_name linked valid)
        (λ st1 g g1 named.
          Gives-and_then st1 (Termed (subject_to_term x parts q.subject))
            (λ st' k. HasIds x parts laws st'.names st'.terms q k)
            (intern_term x parts st1 (subject_to_term x parts q.subject)) _
            (intern_term-Gives st1 (subject_to_term x parts q.subject) g1.linked g1.valid)
            (λ st2 s g2 subject.
              Gives-and_then st2 (Termed (iri q.predicate))
                (λ st' k. HasIds x parts laws st'.names st'.terms q k)
                (intern_term x parts st2 (iri q.predicate)) _
                (intern_term-Gives st2 (iri q.predicate) g2.linked g2.valid)
                (λ st3 p g3 predicate.
                  Gives-and_then st3 (Termed q.object)
                    (λ st' k. HasIds x parts laws st'.names st'.terms q k)
                    (intern_term x parts st3 q.object) _
                    (intern_term-Gives st3 q.object g3.linked g3.valid)
                    (λ st4 o g4 object. (
                      Grows-refl st4 g4.linked g4.valid,
                      record {
                        graph =
                            (Grows-trans st2 st3 st4 g3 g4).name_kept q.graph_name g.raw
                              (g2.name_kept q.graph_name g.raw named);
                        subject =
                            (Grows-trans st2 st3 st4 g3 g4).term_kept
                              (subject_to_term x parts q.subject) s subject;
                        predicate = g4.term_kept (iri q.predicate) p predicate;
                        object = object;
                      },
                    )))))
