-- ===== src/Louds/Parts.antt =====
-- What store.rs calls of the dictionary's terms (crates/core/nova-core/src/dict.rs), as an interface
-- with the laws that the store relies on, which `Dictionary.Terms` fills, and of the rings (ring.rs),
-- of which nothing is assumed.
use oxigraph_nova.Prelude.{ℕ, ◌≤◌, ◌≡◌, Bool, Option, none, some, List}
use oxigraph_nova.Prelude.Result.{Result, ok}
use oxigraph_nova.Rdf.{Oxrdf, Term, GraphName}
use oxigraph_nova.Dictionary.Keys.{TermId, max_term_id}

-- `[u64; 3]`
pub record Triple : Type 0 where
  pub s : TermId
  pub p : TermId
  pub o : TermId

-- The id that is bound, where one is.
abbrev pub HasId : Option TermId → TermId → Type 0
HasId none i = Unit
HasId (some j) i = i.raw ≡ j.raw

-- The calls of `GraphRingHandle`, whatever they return.
pub record Rings : Type 1 where
  pub Ring : Type 0
  pub build : List Triple → Ring
  pub ring_contains : Ring → Triple → Bool
  pub spo_triples : Ring → List Triple
  pub match_triples : Ring → Option TermId → Option TermId → Option TermId → List Triple
  pub ring_len : Ring → ℕ

pub record Parts (x : Oxrdf) : Type 1 where
  pub graph_eq : (a b : GraphName x) → Dec (a ≡ b)
  -- `Dictionary`, less its graphs
  pub Terms : Type 0
  pub no_terms : Terms
  pub intern : Terms → Term x → Terms × Result TermId
  pub get_id : Terms → Term x → Option TermId
  pub rings : Rings

pub record PartsLaws (x : Oxrdf) (p : Parts x) : Type 1 where
  pub IsTerms : p.Terms → Type 0
  pub no_terms_lem : IsTerms p.no_terms
  pub intern-IsTerms : (d : p.Terms) (t : Term x) → IsTerms d → IsTerms (p.intern d t).0
  pub intern-get_id :
      (d : p.Terms) (t : Term x) (id : TermId)
      → IsTerms d
      → (p.intern d t).1 ≡ ok id
      → p.get_id (p.intern d t).0 t ≡ some id
  -- an id is never reassigned
  pub intern_keeps :
      (d : p.Terms) (t u : Term x) (id : TermId)
      → IsTerms d
      → p.get_id d u ≡ some id
      → p.get_id (p.intern d t).0 u ≡ some id
  pub get_id_injective :
      (d : p.Terms) (t u : Term x) (id : TermId)
      → IsTerms d
      → p.get_id d t ≡ some id
      → p.get_id d u ≡ some id
      → t ≡ u
  pub get_id_le :
      (d : p.Terms) (t : Term x) (id : TermId)
      → IsTerms d
      → p.get_id d t ≡ some id
      → id.raw ≤ max_term_id
