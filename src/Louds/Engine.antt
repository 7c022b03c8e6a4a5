-- ===== src/Louds/Engine.antt =====
-- The engine of store.rs with the dictionary of dict.rs: the interface of `Parts` filled, and what the
-- operations of a store do whose dictionary has not been compacted. Until then `get_id` of a term
-- that was never interned is none, of quoted triples too. Nothing is assumed of the rings.
use oxigraph_nova.Prelude.{◌≡◌, sym, some, List}
use oxigraph_nova.Prelude.Result.{Result, ok, err}
use oxigraph_nova.Rdf.{Oxrdf, Term, Quad}
use oxigraph_nova.Dictionary.Keys.{TermId}
use oxigraph_nova.Dictionary.Terms.{Terms, no_terms, intern, get_id}
use oxigraph_nova.Dictionary.Terms.Tables.{IsDictionary, no_terms-IsDictionary}
use oxigraph_nova.Dictionary.Terms.Interned.{
  KeepsIds, Interns, intern-Interns, get_id-injective, get_id_le,
}
use oxigraph_nova.Store.Memory.{Equality, MemoryStore, QuadOp}
use oxigraph_nova.Louds.Parts.{Rings, Parts, PartsLaws}
use oxigraph_nova.Louds.Store.{Inner, apply_insert, apply_remove}
use oxigraph_nova.Louds.Store.Held.{IsStore}
use oxigraph_nova.Louds.Store.Writes.{Inserted, Removed}
use oxigraph_nova.Louds.Store.Applied.{apply_insert-Inserted, apply_remove-Removed}
use oxigraph_nova.Louds.Batch.{apply_batch}
use oxigraph_nova.Louds.Batch.Agree.{Agree, BothDone, apply_batch-BothDone}

module _ (x : Oxrdf) (eq : Equality x) where
  open eq use {term_eq, graph_eq}

  pub Interns-IsDictionary :
      (d : Terms x term_eq) (t : Term x) (r : Terms x term_eq × Result TermId)
      → Interns x term_eq d t r
      → IsDictionary x term_eq r.0
  Interns-IsDictionary d t (d', err e) h = h.0
  Interns-IsDictionary d t (d', ok id) h = h.0

  pub Interns-KeepsIds :
      (d : Terms x term_eq) (t : Term x) (r : Terms x term_eq × Result TermId)
      → Interns x term_eq d t r
      → KeepsIds x term_eq d r.0
  Interns-KeepsIds d t (d', err e) h = h.1
  Interns-KeepsIds d t (d', ok id) h = h.1

  ok-injective : (a b : TermId) → ◌≡◌ {A = Result TermId} (ok a) (ok b) → a ≡ b
  ok-injective a b e = cc

  pub Interns-get_id :
      (d : Terms x term_eq) (t : Term x) (r : Terms x term_eq × Result TermId) (id : TermId)
      → Interns x term_eq d t r
      → r.1 ≡ ok id
      → get_id x term_eq r.0 t ≡ some id
  Interns-get_id d t (d', err e) id h f = cc
  Interns-get_id d t (d', ok i) id h f = rw (sym (ok-injective i id f)) h.2

  module _ (rings : Rings) where
    abbrev pub engine : Parts x
    engine = record {
      graph_eq = graph_eq;
      Terms = Terms x term_eq;
      no_terms = no_terms x term_eq;
      intern = λ d t. intern x term_eq d t;
      get_id = λ d t. get_id x term_eq d t;
      rings = rings;
    }

    abbrev pub engine_laws : PartsLaws x engine
    engine_laws = record {
      IsTerms = IsDictionary x term_eq;
      no_terms_lem = no_terms-IsDictionary x term_eq;
      intern-IsTerms =
          λ d t h. Interns-IsDictionary d t (intern x term_eq d t) (intern-Interns x term_eq d t h);
      intern-get_id = λ d t id h e.
          Interns-get_id d t (intern x term_eq d t) id (intern-Interns x term_eq d t h) e;
      intern_keeps = λ d t u id h e.
          Interns-KeepsIds d t (intern x term_eq d t) (intern-Interns x term_eq d t h) u id e;
      get_id_injective = λ d t u id h a b. get_id-injective x term_eq d t u id h a b;
      get_id_le = λ d t id h e. get_id_le x term_eq d t id h e;
    }

    -- On a well-formed store whose dictionary has not been compacted, `apply_insert` leaves a
    -- well-formed store. Where it succeeds, the store holds the quad and those that it held, and the
    -- flag says whether it did not hold the quad; where it fails, the store holds what it held. A
    -- quad is held if its graph and terms have ids, and the delta has its key as an insertion, or has
    -- it not and the ring of the graph contains its triple.
    pub apply_insert-Holds :
        (st : Inner x engine) (q : Quad x)
        → IsStore x engine engine_laws st
        → Inserted x engine engine_laws st q (apply_insert x engine st q)
    apply_insert-Holds st q inv = apply_insert-Inserted x engine engine_laws st q inv

    -- On a well-formed store whose dictionary has not been compacted, `apply_remove` leaves a
    -- well-formed store that holds the quads that it held, less the quad, and its flag says whether it
    -- held the quad.
    pub apply_remove-Holds :
        (st : Inner x engine) (q : Quad x)
        → IsStore x engine engine_laws st
        → Removed x engine engine_laws st q
            (apply_remove x engine st q).0
            (apply_remove x engine st q).1
    apply_remove-Holds st q inv = apply_remove-Removed x engine engine_laws st q inv

    -- From well-formed stores that hold the same quads, the LOUDS engine's with a dictionary that has
    -- not been compacted, a batch on the LOUDS engine that succeeds leaves stores that hold the same
    -- quads, and returns the numbers inserted and removed that the memory engine returns. If it fails,
    -- it has done a first part of the operations as the memory engine does it.
    pub apply_batch-Agrees :
        (m : MemoryStore x eq) (st : Inner x engine) (ops : List (QuadOp x eq))
        → Agree x eq engine engine_laws m st
        → BothDone x eq engine engine_laws m 0 0 ops (apply_batch x eq engine st ops)
    apply_batch-Agrees m st ops a = apply_batch-BothDone x eq engine engine_laws m st ops a
