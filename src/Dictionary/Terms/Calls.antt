-- ===== src/Dictionary/Terms/Calls.antt =====
-- dict.rs, `intern`: its calls, by the tables.
use oxigraph_nova.Prelude.{
  ℕ, ◌≤◌, ◌<◌, ◌≡◌, ◌⊎◌, inl, inr, refl, some, ltb, ltb→lt, length, arith, Bool-cases, Option-cases,
}
use oxigraph_nova.Prelude.Result.{Result, ok, err, id_space_exhausted}
use oxigraph_nova.Rdf.{Oxrdf, Subject, named, blank, Term, iri, bnode, literal, triple}
use oxigraph_nova.Dictionary.Keys.{TermId, term_id, max_term_id, new_term_id}
use oxigraph_nova.Dictionary.Terms.{
  Components, Terms, subject_term, intern_regular, intern_triple, and_then, intern,
}
use oxigraph_nova.Dictionary.Terms.Tables.{
  IsTable, Keeps, next_id, added-Keeps, added_own, HasComponents, IsDictionary, added-IsDictionary,
}
use oxigraph_nova.Dictionary.Terms.Quoted.{filed-IsDictionary}

module _ (x : Oxrdf) (term_eq : (a b : Term x) → Dec (a ≡ b)) where
  -- What a call leaves: a well-formed dictionary that keeps every id. A call that fails has met
  -- the bound on ids, each of which has a term; one that succeeds gives the term's id.
  abbrev pub Interned : Terms x term_eq → Term x → Terms x term_eq × Result TermId → Type 0
  Interned d t (d', err e) =
      IsDictionary x term_eq d'
      × Keeps x term_eq d d'
      × (e ≡ id_space_exhausted)
      × ((i : ℕ) → i ≤ max_term_id → (u : Term x) × (d'.term_to_id u ≡ some (term_id i)))
  Interned d t (d', ok id) =
      IsDictionary x term_eq d' × Keeps x term_eq d d' × (d'.term_to_id t ≡ some id)

  all_taken :
      (d : Terms x term_eq)
      → IsTable x term_eq d
      → max_term_id < length d.id_to_term
      → (i : ℕ) → i ≤ max_term_id
      → (u : Term x) × (d.term_to_id u ≡ some (term_id i))
  all_taken d h full i le =
      let (u, e) = h.resident i (omega (arith, full, le)) in (u, h.known i u e)

  -- Where the term is new, the next id is out of range or is the term's.
  abbrev Pushes : Terms x term_eq → Term x → Type 0
  Pushes d t =
      ((max_term_id < length d.id_to_term)
        × (new_term_id (length d.id_to_term) ≡ err id_space_exhausted))
      ⊎ ((length d.id_to_term ≤ max_term_id)
          × (new_term_id (length d.id_to_term) ≡ ok (next_id x term_eq d)))

  pushes : (d : Terms x term_eq) (t : Term x) → Pushes d t
  unfolding new_term_id
  pushes d t = elim (Bool-cases (ltb max_term_id (length d.id_to_term))) [
    | inl full ↦ inl (ltb→lt max_term_id (length d.id_to_term) full, rw (full, new_term_id) refl)
    | inr room ↦ inr (ground (arith, room), rw (room, new_term_id) refl)
  ]

  intern_regular-Interned :
      (d : Terms x term_eq) (t : Term x)
      → IsDictionary x term_eq d
      → ((s : Subject x) (p : x.NamedNode) (o : Term x) → t ≡ triple s p o → ⊥)
      → Interned d t (intern_regular x term_eq d t)
  unfolding intern_regular
  intern_regular-Interned d t h regular = elim (Option-cases (d.term_to_id t)) [
    | inr (id, old) ↦ rw (old, intern_regular) (h, (λ u i e. e), old)
    | inl new ↦ elim (pushes d t) [
      | inl (full, e) ↦
          rw (new, e, intern_regular) (h, (λ u i k. k), refl, all_taken d h.table full)
      | inr (room, e) ↦
          rw (new, e, intern_regular)
            (
              added-IsDictionary x term_eq d t h new room regular,
              added-Keeps x term_eq d h.table t new,
              added_own x term_eq d h.table t new,
            )
    ]
  ]

  intern_triple-Interned :
      (d : Terms x term_eq) (s : Subject x) (p : x.NamedNode) (o : Term x) (c : Components)
      → IsDictionary x term_eq d
      → HasComponents x term_eq d s p o c
      → Interned d (triple s p o) (intern_triple x term_eq d (triple s p o) c)
  unfolding intern_triple
  intern_triple-Interned d s p o c h parts =
      let t : Term x = triple s p o in
      elim (Option-cases (d.term_to_id t)) [
        | inr (id, old) ↦ rw (old, intern_triple) (h, (λ u i e. e), old)
        | inl new ↦ elim (pushes d t) [
          | inl (full, e) ↦
              rw (new, e, intern_triple) (h, (λ u i k. k), refl, all_taken d h.table full)
          | inr (room, e) ↦
              rw (new, e, intern_triple)
                (
                  filed-IsDictionary x term_eq d h s p o c parts new room,
                  added-Keeps x term_eq d h.table t new,
                  added_own x term_eq d h.table t new,
                )
        ]
      ]

  chain :
      (d d' : Terms x term_eq) (t : Term x) (r : Terms x term_eq × Result TermId)
      → Keeps x term_eq d d'
      → Interned d' t r
      → Interned d t r
  chain d d' t (d2, err e) k h = (h.0, (λ u i a. h.1 u i (k u i a)), h.2, h.3)
  chain d d' t (d2, ok id) k h = (h.0, (λ u i a. h.1 u i (k u i a)), h.2)

  and_then-Interned :
      (d : Terms x term_eq) (part t : Term x) (r : Terms x term_eq × Result TermId)
      (next : Terms x term_eq → TermId → Terms x term_eq × Result TermId)
      → Interned d part r
      → ((d' : Terms x term_eq) (id : TermId)
          → IsDictionary x term_eq d'
          → Keeps x term_eq d d'
          → d'.term_to_id part ≡ some id
          → Interned d' t (next d' id))
      → Interned d t (and_then x term_eq r next)
  and_then-Interned d part t (d', err e) next h rest = h
  and_then-Interned d part t (d', ok id) next h rest =
      chain d d' t (next d' id) h.1 (rest d' id h.0 h.1 h.2)

  subject-Interned :
      (d : Terms x term_eq) (s : Subject x)
      → IsDictionary x term_eq d
      → Interned d
          (subject_term x term_eq s)
          (intern_regular x term_eq d (subject_term x term_eq s))
  subject-Interned d (named n) h = intern_regular-Interned d (iri n) h (λ s p o e. cc)
  subject-Interned d (blank b) h = intern_regular-Interned d (bnode b) h (λ s p o e. cc)

  pub table-Interned :
      (t : Term x) (d : Terms x term_eq)
      → IsDictionary x term_eq d
      → Interned d t (intern x term_eq d t)
  unfolding intern
  table-Interned (iri n) d h = intern_regular-Interned d (iri n) h (λ s p o e. cc)
  table-Interned (bnode b) d h = intern_regular-Interned d (bnode b) h (λ s p o e. cc)
  table-Interned (literal l) d h = intern_regular-Interned d (literal l) h (λ s p o e. cc)
  table-Interned (triple s p o) d h =
      let t : Term x = triple s p o in
      elim (Option-cases (d.term_to_id t)) [
        | inr (id, old) ↦ rw (old, intern) (h, (λ u i e. e), old)
        | inl new ↦
            rw (new, intern)
              (and_then-Interned d (subject_term x term_eq s) t
                (intern_regular x term_eq d (subject_term x term_eq s)) _ (subject-Interned d s h)
                (λ d1 s_id h1 k1 e1.
                  and_then-Interned d1 (iri p) t (intern_regular x term_eq d1 (iri p)) _
                    (intern_regular-Interned d1 (iri p) h1 (λ s' p' o' e. cc))
                    (λ d2 p_id h2 k2 e2.
                      and_then-Interned d2 o t (intern x term_eq d2 o) _ (table-Interned o d2 h2)
                        (λ d3 o_id h3 k3 e3.
                          intern_triple-Interned d3 s p o (record { s = s_id; p = p_id; o = o_id })
                            h3
                            (
                              k3 (subject_term x term_eq s) s_id
                                  (k2 (subject_term x term_eq s) s_id e1),
                              k3 (iri p) p_id e2,
                              e3,
                            )))))
      ]
